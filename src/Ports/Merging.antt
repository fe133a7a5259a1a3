-- ===== src/Ports/Merging.antt =====
-- The statuses that a workspace reports: src/workspace/ports.rs.
use enclave.Ports.{
  PublishedPortSpec, PublishedPortBinding, duplicate_binding, PublishedPortStatus, binding_eq,
  spec_binding, status_binding, validate_from, validate_published_ports, insert_status,
  collect_statuses, find_status, without, or_configured, merge_from, merge_published_port_statuses,
}
use mathlib.Core.Option.{some-injective}
use enclave.Common.{
  ℕ, true, false, List, [], ◌∷◌, Option, none, some, if◌then◌else◌, any, get_elem?, text_eq_iff,
  ==_iff, ok, refuse_if, refuse_if-ok, bind-ok, ◌≡◌, ◌↔◌, refl, sym, ap, ◌∙◌, arith,
}

-- The last status that was reported for a binding.
abbrev pub latest :
    List PublishedPortStatus
    → PublishedPortBinding
    → Option PublishedPortStatus
    → Option PublishedPortStatus
latest [] b before = before
latest (s ∷ ss) b before = latest ss b (if binding_eq (status_binding s) b then some s else before)

binding_eq_iff : (a b : PublishedPortBinding) → (binding_eq a b ≡ true) ↔ (a ≡ b)
binding_eq_iff a b = ground (
  arith,
  text_eq_iff a.host_ip b.host_ip,
  text_eq_iff a.protocol b.protocol,
  ==_iff a.host_port b.host_port,
)

find_status-insert_status :
    (s : PublishedPortStatus) (m : List PublishedPortStatus) (b : PublishedPortBinding)
    → find_status (insert_status s m) b
      ≡ (if binding_eq (status_binding s) b then some s else find_status m b)
find_status-insert_status s [] b = refl
find_status-insert_status s (t ∷ ts) b = ground (
  arith,
  find_status-insert_status s ts b,
  binding_eq_iff (status_binding t) (status_binding s),
  binding_eq_iff (status_binding t) b,
  binding_eq_iff (status_binding s) b,
)

find_status-collect_statuses :
    (m ss : List PublishedPortStatus) (b : PublishedPortBinding)
    → find_status (collect_statuses m ss) b ≡ latest ss b (find_status m b)
find_status-collect_statuses m [] b = refl
find_status-collect_statuses m (s ∷ ss) b =
    find_status-collect_statuses (insert_status s m) ss b
    ∙ ap (latest ss b) (find_status-insert_status s m b)

find_status-without :
    (m : List PublishedPortStatus) (b c : PublishedPortBinding)
    → binding_eq c b ≡ false
    → find_status (without m b) c ≡ find_status m c
find_status-without [] b c differ = refl
find_status-without (s ∷ m) b c differ = ground (
  arith,
  find_status-without m b c differ,
  binding_eq_iff (status_binding s) b,
  binding_eq_iff (status_binding s) c,
  binding_eq_iff c b,
)

validate_from-fresh :
    (seen : List PublishedPortBinding) (specs : List PublishedPortSpec) (j : ℕ)
    (x : PublishedPortSpec)
    → validate_from seen specs ≡ ok tt
    → get_elem? specs j ≡ some x
    → any (binding_eq (spec_binding x)) seen ≡ false
unfolding validate_from
validate_from-fresh seen [] j x h e = absurd (ground (arith, e))
validate_from-fresh seen (s ∷ ss) ℕ.zero x h e =
    let (u, fresh, rest) =
      bind-ok
        (refuse_if (any (binding_eq (spec_binding s)) seen) (duplicate_binding (spec_binding s)))
        (λ u. validate_from (spec_binding s ∷ seen) ss) tt h in
    let free =
      refuse_if-ok (any (binding_eq (spec_binding s)) seen) (duplicate_binding (spec_binding s)) u
        fresh in
    ap (λ y. any (binding_eq (spec_binding y)) seen) (sym (some-injective s x e)) ∙ free
validate_from-fresh seen (s ∷ ss) (ℕ.suc j) x h e =
    let (u, fresh, rest) =
      bind-ok
        (refuse_if (any (binding_eq (spec_binding s)) seen) (duplicate_binding (spec_binding s)))
        (λ u. validate_from (spec_binding s ∷ seen) ss) tt h in
    let later = validate_from-fresh (spec_binding s ∷ seen) ss j x rest e in ground (arith, later)

merge_from_lem :
    (m : List PublishedPortStatus) (seen : List PublishedPortBinding)
    (specs : List PublishedPortSpec) (i : ℕ) (spec : PublishedPortSpec)
    → validate_from seen specs ≡ ok tt
    → get_elem? specs i ≡ some spec
    → get_elem? (merge_from m specs) i
      ≡ some (or_configured spec (find_status m (spec_binding spec)))
unfolding merge_from validate_from
merge_from_lem m seen [] i spec h e = absurd (ground (arith, e))
merge_from_lem m seen (s ∷ ss) ℕ.zero spec h e =
    ap (λ y. some (or_configured y (find_status m (spec_binding y)))) (some-injective s spec e)
merge_from_lem m seen (s ∷ ss) (ℕ.suc i) spec h e =
    let (u, fresh, rest) =
      bind-ok
        (refuse_if (any (binding_eq (spec_binding s)) seen) (duplicate_binding (spec_binding s)))
        (λ u. validate_from (spec_binding s ∷ seen) ss) tt h in
    let later = validate_from-fresh (spec_binding s ∷ seen) ss i spec rest e in
    let differ : binding_eq (spec_binding spec) (spec_binding s) ≡ false = ground (arith, later) in
    merge_from_lem (without m (spec_binding s)) (spec_binding s ∷ seen) ss i spec rest e
    ∙ ap (λ o. some (or_configured spec o))
        (find_status-without m (spec_binding s) (spec_binding spec) differ)

-- Where the specs of a workspace are valid, the merged statuses begin with one for each spec, in the
-- order of the specs: the last that the runtime reported for the spec's binding, or the configured
-- one if it reported none.
pub merge_published_port_statuses-reports :
    (specs : List PublishedPortSpec) (runtime : List PublishedPortStatus) (i : ℕ)
    (spec : PublishedPortSpec)
    → validate_published_ports specs ≡ ok tt
    → get_elem? specs i ≡ some spec
    → get_elem? (merge_published_port_statuses specs runtime) i
      ≡ some (or_configured spec (latest runtime (spec_binding spec) none))
unfolding merge_published_port_statuses validate_published_ports
merge_published_port_statuses-reports specs runtime i spec h e =
    merge_from_lem (collect_statuses [] runtime) [] specs i spec h e
    ∙ ap (λ o. some (or_configured spec o))
        (find_status-collect_statuses [] runtime (spec_binding spec))
