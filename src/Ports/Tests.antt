-- ===== src/Ports/Tests.antt =====
-- Runs of src/workspace/ports.rs.
use enclave.Ports.{
  loopback_host_ip, tcp_protocol, PublishedPortSpec, PortError, parse_spec, show_spec,
  parse_trimmed, spec_of_base, spec_of_parts, normalize_protocol, validate_host_ip, parse_port,
  validate_from, validate_published_ports, spec_binding, PublishedPortStatus, failed_status,
  active_status, configured_status, merge_from, merge_published_port_statuses, or_configured,
}
use enclave.Ports.Merging.{latest, merge_published_port_statuses-reports}
use enclave.Ports.Parsing.{IsPublishable, parse_spec-show_spec, parse_spec-IsPublishable}
use enclave.Common.{List, [], ◌∷◌, some, none, get_elem?, ok, err, codes, ◌≡◌, refl, arith}

abbrev web : PublishedPortSpec
web = record {
  host_ip = loopback_host_ip;
  host_port = 8080;
  workspace_port = 80;
  protocol = tcp_protocol;
}

web-IsPublishable : IsPublishable web
web-IsPublishable = record {
  on_loopback = refl;
  over_tcp = refl;
  some_host_port = omega arith;
  host_port_fits = omega arith;
  some_workspace_port = omega arith;
  workspace_port_fits = omega arith;
}

reads_web : parse_spec (codes " 127.0.0.1:8080:+80/TCP ") ≡ ok web
unfolding parse_spec parse_trimmed spec_of_base spec_of_parts normalize_protocol validate_host_ip
    parse_port
reads_web = refl

refuses_udp : parse_spec (codes "127.0.0.1:8080:80/udp") ≡ err PortError.unsupported_protocol
unfolding parse_spec parse_trimmed spec_of_base normalize_protocol
refuses_udp = refl

refuses_large : parse_spec (codes "127.0.0.1:65536:80") ≡ err PortError.invalid_host_port
unfolding parse_spec parse_trimmed spec_of_base spec_of_parts normalize_protocol validate_host_ip
    parse_port
refuses_large = refl

refuses_zero : parse_spec (codes "127.0.0.1:80:0") ≡ err PortError.invalid_workspace_port
unfolding parse_spec parse_trimmed spec_of_base spec_of_parts normalize_protocol validate_host_ip
    parse_port
refuses_zero = refl

parse_spec-show_spec_example : parse_spec (show_spec web) ≡ ok web
parse_spec-show_spec_example = parse_spec-show_spec web web-IsPublishable

parse_spec-IsPublishable_example : IsPublishable web
parse_spec-IsPublishable_example =
    parse_spec-IsPublishable (codes " 127.0.0.1:8080:+80/TCP ") web reads_web

abbrev api : PublishedPortSpec
api = record web { host_port = 8081 }

valid_specs : validate_published_ports (web ∷ api ∷ []) ≡ ok tt
unfolding validate_published_ports validate_from
valid_specs = refl

refuses_duplicates :
    validate_published_ports (web ∷ api ∷ web ∷ [])
    ≡ err (PortError.duplicate_binding (spec_binding web))
unfolding validate_published_ports validate_from
refuses_duplicates = refl

abbrev reported : List PublishedPortStatus
reported = failed_status api (codes "in use") ∷ active_status api (codes "10.200.0.10") ∷ []

merged :
    merge_published_port_statuses (web ∷ api ∷ []) reported
    ≡ configured_status web ∷ active_status api (codes "10.200.0.10") ∷ []
unfolding merge_published_port_statuses merge_from active_status failed_status configured_status
merged = refl

merge_published_port_statuses-reports_example :
    get_elem? (merge_published_port_statuses (web ∷ api ∷ []) reported) 1
    ≡ some (or_configured api (latest reported (spec_binding api) none))
merge_published_port_statuses-reports_example =
    merge_published_port_statuses-reports (web ∷ api ∷ []) reported 1 api valid_specs refl
