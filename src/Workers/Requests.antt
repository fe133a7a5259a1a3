-- ===== src/Workers/Requests.antt =====
-- What the accept loop reads of a request, and what became of one: src/daemon/workers/request.rs.
-- The bytes on a socket and the JSON reader are parameters.
use enclave.Common.{
  ℕ, ◌≡◌, refl, Bool, true, false, ◌||◌, List, [], ◌∷◌, Option, none, some, arith, if◌then◌else◌,
  ◌==◌, Text, codes, text_eq, is_empty, Result, ok, err,
}

pub data RequestClass : Type 0 where
  control : RequestClass
  exec : RequestClass
  transfer : RequestClass

pub record PeekedRequest : Type 0 where
  pub class : RequestClass
  pub workspace_key : Option Text

abbrev pub default_request : PeekedRequest
default_request = record { class = control; workspace_key = none }

-- `protocol::Request` as far as it is read: the action, and the string fields of the parameters.
pub record Request : Type 0 where
  pub action : Text
  pub string_field : Text → Option Text

unfoldable pub class_of : Text → RequestClass
class_of action =
    if text_eq action (codes "workspace.cp")
    then transfer
    else if text_eq action (codes "workspace.exec") || text_eq action (codes "sandbox.exec_setup")
    then exec
    else control

-- `find_map` over the names of the fields.
abbrev pub find_field : (Text → Option Text) → List Text → Option Text
find_field string_field [] = none
find_field string_field (name ∷ names) = elim (string_field name) [
  | none ↦ find_field string_field names
  | some value ↦ some value
]

abbrev pub non_empty : Option Text → Option Text
non_empty none = none
non_empty (some value) = if is_empty value then none else some value

unfoldable pub workspace_key_from_params : (Text → Option Text) → Option Text
workspace_key_from_params string_field =
    non_empty
      (find_field string_field (codes "workspace" ∷ codes "workspace_id" ∷ codes "name" ∷ []))

abbrev pub key_of_class : RequestClass → (Text → Option Text) → Option Text
key_of_class exec string_field = workspace_key_from_params string_field
key_of_class _ string_field = none

-- One round of the loop that waits for the line: what `recv` peeks of the socket, if it is readable,
-- and whether no time remained when it was polled.
pub record Poll : Type 0 where
  pub peeked : Option (List ℕ)
  pub out_of_time : Bool

-- The bytes before the first newline.
abbrev pub before_newline : List ℕ → Option (List ℕ)
before_newline [] = none
before_newline (b ∷ bytes) =
    if b == b'\n'
    then some []
    else elim (before_newline bytes) [ none ↦ none | some line ↦ some (b ∷ line) ]

-- The rounds of the loop, which the deadline ends.
unfoldable pub peek_request_line : List Poll → Option (List ℕ)
peek_request_line [] = none
peek_request_line (poll ∷ polls) = elim poll.peeked [
  | none ↦ none
  | some [] ↦ none
  | some (b ∷ bytes) ↦ elim (before_newline (b ∷ bytes)) [
    | some line ↦ some line
    | none ↦ elim poll.out_of_time [ true ↦ none | false ↦ peek_request_line polls ]
  ]
]

abbrev pub peeked_of : Request → PeekedRequest
peeked_of r = record {
  class = class_of r.action;
  workspace_key = key_of_class (class_of r.action) r.string_field;
}

abbrev peek_line : (List ℕ → Option Request) → Option (List ℕ) → PeekedRequest
peek_line from_slice none = default_request
peek_line from_slice (some line) = elim (from_slice line) [
  | none ↦ default_request
  | some r ↦ peeked_of r
]

unfoldable pub peek_request : (List ℕ → Option Request) → List Poll → PeekedRequest
unfolding peek_request_line
peek_request from_slice polls = peek_line from_slice (peek_request_line polls)

-- What `catch_unwind` gives of a request, and the payload of a panic.
pub data Payload : Type 0 where
  str : Text → Payload
  string : Text → Payload
  other : Payload

pub data Attempt : Type 0 where
  returned : Result Text (Unit {0}) → Attempt
  unwound : Payload → Attempt

pub data RequestOutcome : Type 0 where
  finished : RequestOutcome
  failed : Text → RequestOutcome
  panicked : Text → RequestOutcome

pub panic_message : Payload → Text
panic_message (str message) = message
panic_message (string message) = message
panic_message other = codes "<non-string panic payload>"

pub run_request : Attempt → RequestOutcome
unfolding panic_message
run_request (returned (ok u)) = finished
run_request (returned (err error)) = failed error
run_request (unwound payload) = panicked (panic_message payload)

non_empty-some : (o : Option Text) (key : Text) → non_empty o ≡ some key → is_empty key ≡ false
non_empty-some none key h = absurd (ground (arith, h))
non_empty-some (some []) key h = absurd (ground (arith, h))
non_empty-some (some (c ∷ s)) [] h = absurd (ground (arith, h))
non_empty-some (some (c ∷ s)) (d ∷ t) h = refl

key_of_class-some :
    (c : RequestClass) (string_field : Text → Option Text) (key : Text)
    → key_of_class c string_field ≡ some key
    → (c ≡ exec) × (is_empty key ≡ false)
unfolding workspace_key_from_params
key_of_class-some control string_field key h = absurd (ground (arith, h))
key_of_class-some exec string_field key h = (refl, non_empty-some _ key h)
key_of_class-some transfer string_field key h = absurd (ground (arith, h))

peek_line-key :
    (from_slice : List ℕ → Option Request) (line : Option (List ℕ)) (key : Text)
    → (peek_line from_slice line).workspace_key ≡ some key
    → ((peek_line from_slice line).class ≡ exec) × (is_empty key ≡ false)
peek_line-key from_slice none key h = absurd (ground (arith, h))
peek_line-key from_slice (some line) key h = go (from_slice line) h
  where
    chosen : Option Request → PeekedRequest
    chosen o = elim o [ none ↦ default_request | some r ↦ peeked_of r ]

    go :
        (o : Option Request)
        → (chosen o).workspace_key ≡ some key
        → ((chosen o).class ≡ exec) × (is_empty key ≡ false)
    go none q = absurd (ground (arith, q))
    go (some r) q = key_of_class-some (class_of r.action) r.string_field key q

-- Only a request for the exec pool has a workspace, whose name is not empty.
pub peek_request-key :
    (from_slice : List ℕ → Option Request) (polls : List Poll) (key : Text)
    → (peek_request from_slice polls).workspace_key ≡ some key
    → ((peek_request from_slice polls).class ≡ exec) × (is_empty key ≡ false)
unfolding peek_request
peek_request-key from_slice polls key h = peek_line-key from_slice (peek_request_line polls) key h
