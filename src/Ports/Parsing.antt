-- ===== src/Ports/Parsing.antt =====
-- Reading what was printed, and what is ever read: src/workspace/ports.rs.
use enclave.Ports.{
  loopback_host_ip, tcp_protocol, PublishedPortSpec, PortError, empty_spec, unsupported_host_ip,
  unsupported_protocol, invalid_host_port, invalid_workspace_port, normalize_protocol,
  validate_host_ip, parse_port, base_and_protocol, or_tcp, three_parts, spec_of_parts, spec_of_base,
  parse_trimmed, parse_spec, show_spec,
}
use enclave.Common.{
  ℕ, ◌≤◌, false, not, [], ◌∷◌, ◌++◌, ◌==◌, Text, text_eq, text_eq_iff, trim, trim_end,
  trim_end-append, is_empty, rsplit_once-append, split, split-append, split-lacks, lacks-decimal,
  to_ascii_lowercase, parse_u16, decimal, parse_u16-decimal, parse_u16-small, ok, ok_or, refuse_if,
  ok-injective, bind-ok, refuse_if-ok, ok_or-ok, ◌>>◌, ◌>>=◌, ◌≡◌, refl, sym, ap, subst, ◌∙◌, arith,
}

pub record IsPublishable (s : PublishedPortSpec) : Type 0 where
  pub on_loopback : s.host_ip ≡ loopback_host_ip
  pub over_tcp : s.protocol ≡ tcp_protocol
  pub some_host_port : 1 ≤ s.host_port
  pub host_port_fits : s.host_port ≤ 65535
  pub some_workspace_port : 1 ≤ s.workspace_port
  pub workspace_port_fits : s.workspace_port ≤ 65535

nonzero : (n : ℕ) → 1 ≤ n → (n == 0) ≡ false
nonzero n h = ground arith

parse_port-decimal : (n : ℕ) (e : PortError) → 1 ≤ n → n ≤ 65535 → parse_port (decimal n) e ≡ ok n
unfolding parse_port
parse_port-decimal n e some_port fits =
    ap (λ o. ok_or o e >>= λ port. refuse_if (port == 0) e >> ok port) (parse_u16-decimal n fits)
    ∙ ap (λ b. refuse_if b e >> ok n) (nonzero n some_port)

abbrev shown : ℕ → ℕ → Text
shown h w = loopback_host_ip ++ b':' ∷ decimal h ++ b':' ∷ decimal w ++ b'/' ∷ tcp_protocol

abbrev shown_base : ℕ → ℕ → Text
shown_base h w = loopback_host_ip ++ b':' ∷ decimal h ++ b':' ∷ decimal w

append_assoc : (a b c : Text) → (a ++ b) ++ c ≡ a ++ b ++ c
append_assoc [] b c = refl
append_assoc (x ∷ a) b c = ap (λ s. x ∷ s) (append_assoc a b c)

shown-base : (h w : ℕ) → shown h w ≡ shown_base h w ++ b'/' ∷ tcp_protocol
shown-base h w = sym (
    append_assoc loopback_host_ip (b':' ∷ decimal h ++ b':' ∷ decimal w) (b'/' ∷ tcp_protocol)
    ∙ ap (λ s. loopback_host_ip ++ b':' ∷ s)
        (append_assoc (decimal h) (b':' ∷ decimal w) (b'/' ∷ tcp_protocol)))

trim-shown : (h w : ℕ) → trim (shown h w) ≡ shown h w
trim-shown h w =
    ap trim_end (shown-base h w)
    ∙ trim_end-append (shown_base h w) tcp_protocol b'/' refl
    ∙ sym (shown-base h w)

split-shown :
    (h w : ℕ) → split b':' (shown_base h w) ≡ loopback_host_ip ∷ decimal h ∷ decimal w ∷ []
split-shown h w =
    split-append b':' loopback_host_ip (decimal h ++ b':' ∷ decimal w) refl
    ∙ ap (λ l. loopback_host_ip ∷ l)
        (split-append b':' (decimal h) (decimal w) (lacks-decimal b':' h refl)
          ∙ ap (λ l. decimal h ∷ l) (split-lacks b':' (decimal w) (lacks-decimal b':' w refl)))

spec_of_parts-decimal :
    (h w : ℕ)
    → 1 ≤ h
    → h ≤ 65535
    → 1 ≤ w
    → w ≤ 65535
    → spec_of_parts tcp_protocol (loopback_host_ip, decimal h, decimal w)
      ≡ ok (record {
        host_ip = loopback_host_ip;
        host_port = h;
        workspace_port = w;
        protocol = tcp_protocol;
      })
unfolding spec_of_parts validate_host_ip
spec_of_parts-decimal h w h1 h2 w1 w2 =
    ap
      (λ r. r >>= λ (host_port : ℕ).
        parse_port (decimal w) invalid_workspace_port >>= λ (workspace_port : ℕ). ok (record {
          host_ip = loopback_host_ip;
          host_port = host_port;
          workspace_port = workspace_port;
          protocol = tcp_protocol;
        }))
      (parse_port-decimal h invalid_host_port h1 h2)
    ∙ ap
        (λ r. r >>= λ (workspace_port : ℕ). ok (record {
          host_ip = loopback_host_ip;
          host_port = h;
          workspace_port = workspace_port;
          protocol = tcp_protocol;
        }))
        (parse_port-decimal w invalid_workspace_port w1 w2)

base_and_protocol-shown : (h w : ℕ) → base_and_protocol (shown h w) ≡ (shown_base h w, tcp_protocol)
base_and_protocol-shown h w =
    ap base_and_protocol (shown-base h w)
    ∙ ap (or_tcp (shown_base h w ++ b'/' ∷ tcp_protocol))
        (rsplit_once-append b'/' (shown_base h w) tcp_protocol refl)

parse_trimmed-shown :
    (h w : ℕ)
    → parse_trimmed (shown h w)
      ≡ spec_of_parts tcp_protocol (loopback_host_ip, decimal h, decimal w)
unfolding parse_trimmed spec_of_base normalize_protocol
parse_trimmed-shown h w =
    ap spec_of_base (base_and_protocol-shown h w)
    ∙ ap (λ l. three_parts l >>= spec_of_parts tcp_protocol) (split-shown h w)

parse_spec-trimmed : (raw : Text) → parse_spec raw ≡ parse_trimmed (trim raw)
unfolding parse_spec parse_trimmed
parse_spec-trimmed raw = refl

abbrev shown_record : ℕ → ℕ → PublishedPortSpec
shown_record h w = record {
  host_ip = loopback_host_ip;
  host_port = h;
  workspace_port = w;
  protocol = tcp_protocol;
}

show_spec-shown : (h w : ℕ) → show_spec (shown_record h w) ≡ shown h w
unfolding show_spec
show_spec-shown h w = refl

-- A spec on the loopback address, over tcp, with both ports from 1 to 65535, is read back from what
-- it prints as.
pub parse_spec-show_spec :
    (s : PublishedPortSpec) → IsPublishable s → parse_spec (show_spec s) ≡ ok s
unfolding show_spec
parse_spec-show_spec s v =
    let h = s.host_port in
    let w = s.workspace_port in
    let same : shown_record h w ≡ s =
      ap (λ a. record { host_ip = a; host_port = h; workspace_port = w; protocol = tcp_protocol })
        (sym v.on_loopback)
      ∙ ap (λ a. record { host_ip = s.host_ip; host_port = h; workspace_port = w; protocol = a })
          (sym v.over_tcp) in
    subst (λ (t : PublishedPortSpec). parse_spec (show_spec t) ≡ ok t) same
      (ap parse_spec (show_spec-shown h w)
        ∙ parse_spec-trimmed (shown h w)
        ∙ ap parse_trimmed (trim-shown h w)
        ∙ parse_trimmed-shown h w
        ∙ spec_of_parts-decimal h w v.some_host_port v.host_port_fits v.some_workspace_port
            v.workspace_port_fits)

parse_port-ok :
    (raw : Text) (e : PortError) (n : ℕ) → parse_port raw e ≡ ok n → (1 ≤ n) × (n ≤ 65535)
unfolding parse_port
parse_port-ok raw e n h =
    let (m, read, rest) =
      bind-ok (ok_or (parse_u16 raw) e) (λ port. refuse_if (port == 0) e >> ok port) n h in
    let (u, some_port, same) = bind-ok (refuse_if (m == 0) e) (λ u. ok m) n rest in
    let small = parse_u16-small raw m (ok_or-ok (parse_u16 raw) e m read) in
    let positive = refuse_if-ok (m == 0) e u some_port in
    (ground (arith, same, positive), ground (arith, same, small))

valid_host_ip :
    (host_ip : Text) (u : Unit {0}) → validate_host_ip host_ip ≡ ok u → host_ip ≡ loopback_host_ip
unfolding validate_host_ip
valid_host_ip host_ip u h =
    let is_loopback =
      refuse_if-ok (not (text_eq host_ip loopback_host_ip)) unsupported_host_ip u h in
    (text_eq_iff host_ip loopback_host_ip).0 (ground (arith, is_loopback))

spec_of_parts-IsPublishable :
    (protocol host_ip a b : Text) (s : PublishedPortSpec)
    → protocol ≡ tcp_protocol
    → spec_of_parts protocol (host_ip, a, b) ≡ ok s
    → IsPublishable s
unfolding spec_of_parts validate_host_ip
spec_of_parts-IsPublishable protocol host_ip a b s tcp h =
    let result : ℕ → ℕ → PublishedPortSpec =
      λ m n. record { host_ip = host_ip; host_port = m; workspace_port = n; protocol = protocol } in
    let after = λ (m : ℕ). parse_port b invalid_workspace_port >>= λ (n : ℕ). ok (result m n) in
    let loop = validate_host_ip host_ip in
    let (m, first, second) = bind-ok (loop >> parse_port a invalid_host_port) after s h in
    let (n, third, done) =
      bind-ok (parse_port b invalid_workspace_port) (λ n. ok (result m n)) s second in
    let (u, valid, fourth) = bind-ok loop (λ u. parse_port a invalid_host_port) m first in
    let (m1, m2) = parse_port-ok a invalid_host_port m fourth in
    let (n1, n2) = parse_port-ok b invalid_workspace_port n third in
    let same = valid_host_ip host_ip u valid in
    subst IsPublishable (ok-injective (result m n) s done) (record {
      on_loopback = same;
      over_tcp = tcp;
      some_host_port = m1;
      host_port_fits = m2;
      some_workspace_port = n1;
      workspace_port_fits = n2;
    })

normalize_protocol-ok :
    (raw protocol : Text) → normalize_protocol raw ≡ ok protocol → protocol ≡ tcp_protocol
unfolding normalize_protocol
normalize_protocol-ok raw protocol h =
    let lower = to_ascii_lowercase (trim raw) in
    let (u, e, same) =
      bind-ok (refuse_if (not (text_eq lower tcp_protocol)) unsupported_protocol) (λ u. ok lower)
        protocol h in
    let is_tcp = refuse_if-ok (not (text_eq lower tcp_protocol)) unsupported_protocol u e in
    sym (ok-injective lower protocol same)
    ∙ (text_eq_iff lower tcp_protocol).0 (ground (arith, is_tcp))

-- Whatever the text, a spec that is read is on the loopback address, over tcp, with both ports from
-- 1 to 65535.
pub parse_spec-IsPublishable :
    (raw : Text) (s : PublishedPortSpec) → parse_spec raw ≡ ok s → IsPublishable s
unfolding parse_spec parse_trimmed spec_of_base
parse_spec-IsPublishable raw s h =
    let t = trim raw in
    let base = base_and_protocol t in
    let (u, nonempty, whole) =
      bind-ok (refuse_if (is_empty t) empty_spec) (λ u. spec_of_base base) s h in
    let (protocol, normal, rest) =
      bind-ok (normalize_protocol base.1)
        (λ protocol. three_parts (split b':' base.0) >>= spec_of_parts protocol) s whole in
    let (parts, three, checks) =
      bind-ok (three_parts (split b':' base.0)) (spec_of_parts protocol) s rest in
    spec_of_parts-IsPublishable protocol parts.0 parts.1 parts.2 s
      (normalize_protocol-ok base.1 protocol normal) checks
