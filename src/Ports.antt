-- ===== src/Ports.antt =====
-- Published ports: src/workspace/ports.rs. An error is told by its kind, without its text.
pub mod Parsing
pub mod Merging
mod Tests
use enclave.Common.{
  ℕ, Bool, true, false, not, ◌&&◌, List, [], ◌∷◌, ◌++◌, Option, none, some, ltb, ◌==◌,
  if◌then◌else◌, any, filter, map, Text, codes, text_eq, text_ltb, trim, is_empty, rsplit_once,
  split, to_ascii_lowercase, parse_u16, decimal, Result, ok, err, ok_or, refuse_if, ◌>>◌, ◌>>=◌,
}

abbrev pub loopback_host_ip : Text
loopback_host_ip = codes "127.0.0.1"

abbrev pub tcp_protocol : Text
tcp_protocol = codes "tcp"

pub record PublishedPortSpec : Type 0 where
  pub host_ip : Text
  pub host_port : ℕ
  pub workspace_port : ℕ
  pub protocol : Text

pub record PublishedPortBinding : Type 0 where
  pub host_ip : Text
  pub host_port : ℕ
  pub protocol : Text

pub data PortError : Type 0 where
  empty_spec : PortError
  bad_shape : PortError
  unsupported_protocol : PortError
  unsupported_host_ip : PortError
  invalid_host_port : PortError
  invalid_workspace_port : PortError
  duplicate_binding : PublishedPortBinding → PortError

pub normalize_protocol : Text → Result PortError Text
normalize_protocol raw =
    let protocol = to_ascii_lowercase (trim raw) in
    refuse_if (not (text_eq protocol tcp_protocol)) unsupported_protocol >> ok protocol

pub validate_host_ip : Text → Result PortError (Unit {0})
validate_host_ip host_ip = refuse_if (not (text_eq host_ip loopback_host_ip)) unsupported_host_ip

-- `invalid` is the error of the label.
pub parse_port : Text → PortError → Result PortError ℕ
parse_port raw invalid =
    ok_or (parse_u16 raw) invalid >>= λ port. refuse_if (port == 0) invalid >> ok port

abbrev or_tcp : Text → Option (Text × Text) → Text × Text
or_tcp trimmed none = (trimmed, tcp_protocol)
or_tcp trimmed (some (base, protocol)) = (base, protocol)

-- The part before the last `/`, and the protocol after it or `tcp`.
abbrev pub base_and_protocol : Text → Text × Text
base_and_protocol trimmed = or_tcp trimmed (rsplit_once b'/' trimmed)

-- The three `next`s on the parts, and that there is no fourth part.
abbrev pub three_parts : List Text → Result PortError (Text × Text × Text)
three_parts (a ∷ b ∷ c ∷ []) = ok (a, b, c)
three_parts _ = err bad_shape

-- The checks on the parts, in their order.
pub spec_of_parts : Text → Text × Text × Text → Result PortError PublishedPortSpec
unfolding validate_host_ip parse_port
spec_of_parts protocol (host_ip, host_port_raw, workspace_port_raw) =
    validate_host_ip host_ip >> parse_port host_port_raw invalid_host_port >>= λ host_port.
    parse_port workspace_port_raw invalid_workspace_port >>= λ workspace_port. ok (record {
      host_ip = host_ip;
      host_port = host_port;
      workspace_port = workspace_port;
      protocol = protocol;
    })

pub spec_of_base : Text × Text → Result PortError PublishedPortSpec
unfolding normalize_protocol spec_of_parts
spec_of_base (base, protocol_raw) = normalize_protocol protocol_raw >>= λ protocol.
    three_parts (split b':' base) >>= spec_of_parts protocol

pub parse_trimmed : Text → Result PortError PublishedPortSpec
unfolding spec_of_base
parse_trimmed trimmed =
    refuse_if (is_empty trimmed) empty_spec >> spec_of_base (base_and_protocol trimmed)

-- `PublishedPortSpec::parse`.
pub parse_spec : Text → Result PortError PublishedPortSpec
unfolding parse_trimmed
parse_spec raw = parse_trimmed (trim raw)

-- `Display for PublishedPortSpec`.
pub show_spec : PublishedPortSpec → Text
show_spec s =
    s.host_ip ++ b':' ∷ decimal s.host_port ++ b':' ∷ decimal s.workspace_port ++ b'/' ∷ s.protocol

-- `PublishedPortBinding::of`.
abbrev pub binding_of : Text → ℕ → Text → PublishedPortBinding
binding_of host_ip host_port protocol = record {
  host_ip = host_ip;
  host_port = host_port;
  protocol = protocol;
}

-- `PublishedPortSpec::binding`.
abbrev pub spec_binding : PublishedPortSpec → PublishedPortBinding
spec_binding s = binding_of s.host_ip s.host_port s.protocol

-- `PublishedPortBinding::parse`.
pub parse_binding : Text → Result PortError PublishedPortBinding
unfolding normalize_protocol validate_host_ip parse_port
parse_binding raw =
    let trimmed = trim raw in
    let (base, protocol_raw) = base_and_protocol trimmed in
    refuse_if (is_empty trimmed) empty_spec >> normalize_protocol protocol_raw >>= λ protocol.
    ok_or (rsplit_once b':' base) bad_shape >>= λ (host_ip, host_port_raw).
    validate_host_ip host_ip >> parse_port host_port_raw invalid_host_port >>= λ host_port.
    ok (binding_of host_ip host_port protocol)

-- `Display for PublishedPortBinding`.
pub show_binding : PublishedPortBinding → Text
show_binding b = b.host_ip ++ b':' ∷ decimal b.host_port ++ b'/' ∷ b.protocol

-- `==` and `cmp` of bindings, which are derived: field by field.
abbrev pub binding_eq : PublishedPortBinding → PublishedPortBinding → Bool
binding_eq a b =
    text_eq a.host_ip b.host_ip && a.host_port == b.host_port && text_eq a.protocol b.protocol

abbrev pub binding_ltb : PublishedPortBinding → PublishedPortBinding → Bool
binding_ltb a b =
    if text_eq a.host_ip b.host_ip
    then if a.host_port == b.host_port
      then text_ltb a.protocol b.protocol
      else ltb a.host_port b.host_port
    else text_ltb a.host_ip b.host_ip

pub data PublishedPortState : Type 0 where
  configured : PublishedPortState
  active : PublishedPortState
  failed : PublishedPortState

pub record PublishedPortStatus : Type 0 where
  pub host_ip : Text
  pub host_port : ℕ
  pub workspace_ip : Option Text
  pub workspace_port : ℕ
  pub protocol : Text
  pub state : PublishedPortState
  pub error : Option Text

-- `PublishedPortStatus::configured`.
pub configured_status : PublishedPortSpec → PublishedPortStatus
configured_status s = record {
  host_ip = s.host_ip;
  host_port = s.host_port;
  workspace_ip = none;
  workspace_port = s.workspace_port;
  protocol = s.protocol;
  state = configured;
  error = none;
}

-- `PublishedPortStatus::active`.
pub active_status : PublishedPortSpec → Text → PublishedPortStatus
unfolding configured_status
active_status s workspace_ip = record (configured_status s) {
  workspace_ip = some workspace_ip;
  state = active;
}

-- `PublishedPortStatus::failed`.
pub failed_status : PublishedPortSpec → Text → PublishedPortStatus
unfolding configured_status
failed_status s error = record (configured_status s) { state = failed; error = some error }

-- `PublishedPortStatus::binding`.
abbrev pub status_binding : PublishedPortStatus → PublishedPortBinding
status_binding s = binding_of s.host_ip s.host_port s.protocol

-- The loop over the specs, with the bindings seen.
pub validate_from : List PublishedPortBinding → List PublishedPortSpec → Result PortError (Unit {0})
validate_from seen [] = ok tt
validate_from seen (s ∷ ss) =
    refuse_if (any (binding_eq (spec_binding s)) seen) (duplicate_binding (spec_binding s))
    >> validate_from (spec_binding s ∷ seen) ss

pub validate_published_ports : List PublishedPortSpec → Result PortError (Unit {0})
unfolding validate_from
validate_published_ports specs = validate_from [] specs

pub configured_port_statuses : List PublishedPortSpec → List PublishedPortStatus
unfolding configured_status
configured_port_statuses specs = map configured_status specs

-- `insert` into the map by binding: the list of its values in the order of their keys.
abbrev insert_status : PublishedPortStatus → List PublishedPortStatus → List PublishedPortStatus
insert_status s [] = s ∷ []
insert_status s (t ∷ ts) =
    if binding_eq (status_binding t) (status_binding s)
    then s ∷ ts
    else if binding_ltb (status_binding s) (status_binding t)
    then s ∷ t ∷ ts
    else t ∷ insert_status s ts

abbrev pub collect_statuses :
    List PublishedPortStatus → List PublishedPortStatus → List PublishedPortStatus
collect_statuses by_binding [] = by_binding
collect_statuses by_binding (s ∷ ss) = collect_statuses (insert_status s by_binding) ss

abbrev pub find_status :
    List PublishedPortStatus → PublishedPortBinding → Option PublishedPortStatus
find_status [] b = none
find_status (s ∷ ss) b = if binding_eq (status_binding s) b then some s else find_status ss b

abbrev pub without : List PublishedPortStatus → PublishedPortBinding → List PublishedPortStatus
without ss b = filter (λ s. not (binding_eq (status_binding s) b)) ss

abbrev pub or_configured : PublishedPortSpec → Option PublishedPortStatus → PublishedPortStatus
or_configured spec none = configured_status spec
or_configured spec (some status) = status

-- The loop over the specs, with the map that is left.
pub merge_from : List PublishedPortStatus → List PublishedPortSpec → List PublishedPortStatus
unfolding configured_status
merge_from by_binding [] = by_binding
merge_from by_binding (spec ∷ specs) =
    or_configured spec (find_status by_binding (spec_binding spec))
    ∷ merge_from (without by_binding (spec_binding spec)) specs

pub merge_published_port_statuses :
    List PublishedPortSpec → List PublishedPortStatus → List PublishedPortStatus
unfolding merge_from
merge_published_port_statuses specs runtime_statuses =
    merge_from (collect_statuses [] runtime_statuses) specs
