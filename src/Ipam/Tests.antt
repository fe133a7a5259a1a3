-- ===== src/Ipam/Tests.antt =====
-- A pool with some octets used.
use enclave.Common.{
  ℕ, ◌≡◌, refl, true, false, List, [], ◌∷◌, Option, none, some, Text, codes, text_eq, if◌then◌else◌,
}
use enclave.Ipam.{from_used, allocate, is_in_subnet, parse_host_octet}
use enclave.Ipam.Allocation.{IsLeastFree, allocate-IsLeastFree}

abbrev used : List ℕ
used = 11 ∷ 10 ∷ 13 ∷ 3 ∷ []

takes_least : (allocate (from_used used) ≡ some 12) × (allocate (from_used []) ≡ some 10)
unfolding allocate from_used
takes_least = (refl, refl)

allocate-IsLeastFree_example : IsLeastFree used (allocate (from_used used))
allocate-IsLeastFree_example = allocate-IsLeastFree used

abbrev parse_ipv4 : Text → Option (ℕ × ℕ × ℕ × ℕ)
parse_ipv4 s =
    if text_eq s (codes "10.200.0.7")
    then some (10, 200, 0, 7)
    else if text_eq s (codes "10.201.0.7")
    then some (10, 201, 0, 7)
    else none

reads_subnet :
    (is_in_subnet parse_ipv4 (codes "10.200.0.7/24") ≡ true)
    × (is_in_subnet parse_ipv4 (codes "10.201.0.7") ≡ false)
    × (parse_host_octet parse_ipv4 (codes "10.200.0.7") ≡ some 7)
    × (parse_host_octet parse_ipv4 (codes "web") ≡ none)
unfolding is_in_subnet parse_host_octet
reads_subnet = (refl, refl, refl, refl)
