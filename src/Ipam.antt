-- ===== src/Ipam.antt =====
-- The pool of workspace addresses: src/network/ipam.rs. A word of the bitmap is the list of its 64 bits,
-- the lowest first; the used octets are a list. Whether text is an IPv4 address, and its octets, are what
-- the standard library's parser says, a parameter.
pub mod Allocation
mod Tests
use enclave.Common.{
  ℕ, suc, ◌+◌, ◌-◌, ◌*◌, ◌/◌, ◌%◌, Bool, true, false, not, ◌&&◌, List, [], ◌∷◌, ◌++◌, Option, none,
  some, leb, ◌==◌, if◌then◌else◌, set, Text, codes, decimal, split, Result, ok, err, ok_or,
}

abbrev pub pool_start : ℕ
pool_start = 10

abbrev pub pool_end : ℕ
pool_end = 254

abbrev pub IpBitmap : Type 0
IpBitmap = List (List Bool)

abbrev pub clear_bits : ℕ → List Bool
clear_bits ℕ.zero = []
clear_bits (suc n) = false ∷ clear_bits n

-- `[0; 4]`.
abbrev pub empty_bitmap : IpBitmap
empty_bitmap = clear_bits 64 ∷ clear_bits 64 ∷ clear_bits 64 ∷ clear_bits 64 ∷ []

-- `bits[word] |= 1 << bit`.
abbrev pub set_bit : IpBitmap → ℕ → ℕ → IpBitmap
set_bit [] word bit = []
set_bit (w ∷ words) ℕ.zero bit = set w bit true ∷ words
set_bit (w ∷ words) (suc word) bit = w ∷ set_bit words word bit

abbrev pub in_pool : ℕ → Bool
in_pool octet = leb pool_start octet && leb octet pool_end

abbrev pub mark : IpBitmap → ℕ → IpBitmap
mark bitmap octet =
    let index = octet - pool_start in
    if in_pool octet then set_bit bitmap (index / 64) (index % 64) else bitmap

abbrev pub mark_all : IpBitmap → List ℕ → IpBitmap
mark_all bitmap [] = bitmap
mark_all bitmap (octet ∷ used) = mark_all (mark bitmap octet) used

pub from_used : List ℕ → IpBitmap
from_used used = mark_all empty_bitmap used

-- `trailing_zeros` of the complement, unless every bit is set.
abbrev pub first_clear : ℕ → List Bool → Option ℕ
first_clear i [] = none
first_clear i (b ∷ w) = if b then first_clear (i + 1) w else some i

-- The loop over the words.
abbrev pub allocate_from : ℕ → IpBitmap → Option ℕ
allocate_from word_index [] = none
allocate_from word_index (w ∷ words) =
    let later = allocate_from (word_index + 1) words in
    elim (first_clear 0 w) [
      | none ↦ later
      | some bit ↦
          if leb (pool_start + (word_index * 64 + bit)) pool_end
          then some (pool_start + (word_index * 64 + bit))
          else later
    ]

pub allocate : IpBitmap → Option ℕ
allocate bitmap = allocate_from 0 bitmap

abbrev format_ip : ℕ → Text
format_ip host = codes "10.200.0." ++ decimal host

pub data IpError : Type 0 where
  pool_exhausted : IpError

abbrev formatted : Option ℕ → Result IpError Text
formatted none = err pool_exhausted
formatted (some octet) = ok (format_ip octet)

pub allocate_ip : List ℕ → Result IpError Text
unfolding from_used allocate
allocate_ip used = formatted (allocate (from_used used))

module _ (parse_ipv4 : Text → Option (ℕ × ℕ × ℕ × ℕ)) where
  abbrev is_prefix : ℕ × ℕ × ℕ × ℕ → Bool
  is_prefix (a, b, c, d) = a == 10 && b == 200 && c == 0

  abbrev host_of : ℕ × ℕ × ℕ × ℕ → Option ℕ
  host_of (a, b, c, d) = if a == 10 && b == 200 && c == 0 then some d else none

  abbrev first_part : Text → List Text → Text
  first_part address [] = address
  first_part address (p ∷ parts) = p

  pub is_in_subnet : Text → Bool
  is_in_subnet address = elim (parse_ipv4 (first_part address (split b'/' address))) [
    | none ↦ false
    | some octets ↦ is_prefix octets
  ]

  pub parse_host_octet : Text → Option ℕ
  parse_host_octet ip = elim (parse_ipv4 ip) [ none ↦ none | some octets ↦ host_of octets ]
