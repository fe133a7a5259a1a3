-- ===== src/ActiveOperations/Guards.antt =====
-- Guards and the registry: src/daemon/active_operations.rs.
use enclave.Common.{
  ℕ, ◌+◌, ◌≤◌, ◌≡◌, ◌≢◌, refl, sym, subst, ◌∙◌, ◌⊎◌, inl, inr, false, List, [], ◌∷◌, none, some,
  arith, Bool-cases, if◌then◌else◌, get_elem?, remove_at, total, total-remove_at, Text, text_eq,
  text_eq_iff, text_eq_refl, get_or, get_or-put, get_or-put_other, get_or-remove,
  get_or-remove_other, put, remove,
}
use native.Mathlib.Decide.{dec_lt}
use enclave.ActiveOperations.{ActiveOperation, Registry, begin, drop_guard}

abbrev pub counts : Text → Text → ℕ
counts g id = if text_eq g id then 1 else 0

-- The guards of an id among those that live.
abbrev pub guards_of : Text → List Text → ℕ
guards_of id = total (λ g. counts g id)

-- The registry and the ids of the guards that live.
pub record Running : Type 0 where
  pub state : Registry
  pub guards : List Text

-- An operation begins with an id that no living guard has, or a guard is dropped.
pub data Step (r : Running) : Running → Type 0 where
  begun :
      (id action target : Text) (now : ℕ)
      → guards_of id r.guards ≡ 0
      → Step r (record { state = begin id action target now r.state; guards = id ∷ r.guards })
  dropped :
      (i : ℕ) (id : Text)
      → get_elem? r.guards i ≡ some id
      → Step r (record { state = drop_guard id r.state; guards = remove_at r.guards i })

pub data Reach : Running → Type 0 where
  start : Reach (record { state = []; guards = [] })
  later : {r r' : Running} → Reach r → Step r r' → Reach r'

-- The entry of an id is there exactly when a guard of it lives.
record Tracks (r : Running) (id : Text) : Type 0 where
  single : guards_of id r.guards ≤ 1
  held : guards_of id r.guards ≡ 1 → get_or none r.state id ≢ none
  free : guards_of id r.guards ≡ 0 → get_or none r.state id ≡ none

Step-Tracks : {r r' : Running} (id : Text) → Step r r' → Tracks r id → Tracks r' id
unfolding begin drop_guard
Step-Tracks {r} id (begun new action target now fresh) t = elim (Bool-cases (text_eq new id)) [
  | inl e ↦ subst (Tracks after) ((text_eq_iff new id).0 e) (record {
    single = rw (text_eq_refl new) (omega (arith, fresh));
    held = λ h q. absurd (ground (arith, sym (get_or-put none r.state new (some entry)) ∙ q));
    free = λ h. absurd (omega (arith, one));
  })
  | inr e ↦
      let w : counts new id ≡ 0 = rw e refl in
      record {
        single = omega (arith, w, t.single);
        held = λ h q.
            t.held (omega (arith, h, w))
              (sym (get_or-put_other none r.state new id (some entry) e) ∙ q);
        free =
            λ h. get_or-put_other none r.state new id (some entry) e ∙ t.free (omega (arith, h, w));
      }
]
  where
    entry : ActiveOperation
    entry = record { id = new; action = action; target = target; started = now }

    after : Running
    after = record { state = put r.state new (some entry); guards = new ∷ r.guards }

    one : guards_of new (new ∷ r.guards) ≡ 1 + guards_of new r.guards
    one = rw (text_eq_refl new) refl
Step-Tracks {r} id (dropped i old at) t = elim (Bool-cases (text_eq old id)) [
  | inl e ↦
      let gone : get_or none (remove r.state old) id ≡ none =
        subst (λ k. get_or none (remove r.state old) k ≡ none) ((text_eq_iff old id).0 e)
          (get_or-remove none r.state old) in
      let w : counts old id ≡ 1 = rw e refl in
      record {
        single = omega (arith, t.single, count);
        held = λ h q. absurd (omega (arith, h, w, count, t.single));
        free = λ h. gone;
      }
  | inr e ↦
      let w : counts old id ≡ 0 = rw e refl in
      record {
        single = omega (arith, t.single, count);
        held = λ h q.
            t.held (omega (arith, h, w, count))
              (sym (get_or-remove_other none r.state old id e) ∙ q);
        free = λ h. get_or-remove_other none r.state old id e ∙ t.free (omega (arith, h, w, count));
      }
]
  where
    count : guards_of id (remove_at r.guards i) + counts old id ≡ guards_of id r.guards
    count = total-remove_at (λ g. counts g id) r.guards i old at

Reach-Tracks : {r : Running} (id : Text) → Reach r → Tracks r id
Reach-Tracks id start = record {
  single = omega arith;
  held = λ h. absurd (omega (arith, h));
  free = λ h. refl;
}
Reach-Tracks id (later s st) = Step-Tracks id st (Reach-Tracks id s)

-- While no operation begins with an id that is in use, an id has at most one living guard, and its
-- operation is in the registry exactly when it has one.
pub in_flight-guards :
    (r : Running) (id : Text)
    → Reach r
    → ((guards_of id r.guards ≡ 1) × (get_or none r.state id ≢ none))
      ⊎ ((guards_of id r.guards ≡ 0) × (get_or none r.state id ≡ none))
in_flight-guards r id s =
    let t = Reach-Tracks id s in
    elim (dec_lt 0 (guards_of id r.guards)) [
      | yes p ↦
          let one : guards_of id r.guards ≡ 1 = omega (arith, p, t.single) in inl (one, t.held one)
      | no p ↦
          let zero_guards : guards_of id r.guards ≡ 0 = omega (arith, p) in
          inr (zero_guards, t.free zero_guards)
    ]

-- What may happen from a state on while no operation begins under the id.
pub data Later (id : Text) (r : Running) : Running → Type 0 where
  at_once : Later id r r
  begun_other :
      {r' : Running} (other action target : Text) (now : ℕ)
      → Later id r r'
      → text_eq other id ≡ false
      → Later id r
          (record { state = begin other action target now r'.state; guards = other ∷ r'.guards })
  dropped_any :
      {r' : Running} (i : ℕ) (other : Text)
      → Later id r r'
      → get_elem? r'.guards i ≡ some other
      → Later id r (record { state = drop_guard other r'.state; guards = remove_at r'.guards i })

Later-missing :
    (id : Text) {r r' : Running}
    → Later id r r'
    → get_or none r.state id ≡ none
    → get_or none r'.state id ≡ none
unfolding begin drop_guard
Later-missing id at_once h = h
Later-missing id (begun_other {r'} other action target now l e) h =
    get_or-put_other none r'.state other id _ e ∙ Later-missing id l h
Later-missing id (dropped_any {r'} i other l q) h = elim (Bool-cases (text_eq other id)) [
  | inl e ↦
      subst (λ k. get_or none (remove r'.state other) k ≡ none) ((text_eq_iff other id).0 e)
        (get_or-remove none r'.state other)
  | inr e ↦ get_or-remove_other none r'.state other id e ∙ Later-missing id l h
]

-- Where two guards of one id live, which a caller may choose, in whatever registry: when one of them is
-- dropped, another still lives, and its operation is in the registry no more until one begins under the id
-- again, whatever else begins and ends.
pub drop_guard-hides_other :
    (r r' : Running) (id : Text) (i : ℕ)
    → get_elem? r.guards i ≡ some id
    → 2 ≤ guards_of id r.guards
    → Later id (record { state = drop_guard id r.state; guards = remove_at r.guards i }) r'
    → (1 ≤ guards_of id (remove_at r.guards i)) × (get_or none r'.state id ≡ none)
unfolding drop_guard
drop_guard-hides_other r r' id i at two l =
    let one : counts id id ≡ 1 = rw (text_eq_refl id) refl in
    (
      omega (arith, total-remove_at (λ g. counts g id) r.guards i id at, one, two),
      Later-missing id l (get_or-remove none r.state id),
    )
