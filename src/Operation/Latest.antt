-- ===== src/Operation/Latest.antt =====
-- The newest record of the journal: src/operation/store.rs.
use mathlib.Core.Option.{some-injective}
use enclave.Common.{
  ◌≡◌, refl, sym, ap, subst, ◌∙◌, inl, inr, Bool, true, false, [], ◌∷◌, Option, none, some, arith,
  if◌then◌else◌, In, Text, text_ltb, text_ltb_irrefl, text_ltb-asym, text_ltb-trans_false, ok,
  ok-injective,
}
use enclave.Operation.{OperationRecord, Files, entries, newer, latest_of, latest}

-- The first is not older than the second.
NotOlder : OperationRecord → OperationRecord → Type 0
NotOlder r q = text_ltb r.updated_at q.updated_at ≡ false

NotOlder-refl : (r q : OperationRecord) → r ≡ q → NotOlder r q
unfolding NotOlder
NotOlder-refl r q e =
    subst (λ y. text_ltb r.updated_at y.updated_at ≡ false) e (text_ltb_irrefl r.updated_at)

NotOlder-trans : (r x q : OperationRecord) → NotOlder r x → NotOlder x q → NotOlder r q
unfolding NotOlder
NotOlder-trans r x q h k = text_ltb-trans_false q.updated_at x.updated_at r.updated_at k h

Best : Option OperationRecord → Files → OperationRecord → Type 0
Best best files r =
    ((b : OperationRecord) → best ≡ some b → NotOlder r b)
    × ((path : Text) (q : OperationRecord) → In (path, some q) files → NotOlder r q)

-- One round: the better of the best so far and the record.
better-Best :
    (best : Option OperationRecord) (k : Text) (x r : OperationRecord) (rest : Files)
    → Best (if newer best x then some x else best) rest r
    → Best best ((k, some x) ∷ rest) r
unfolding Best NotOlder
better-Best none k x r rest (first, others) = (
  λ b e. absurd (ground (arith, e)),
  λ path q m. elim m [
    | inl e ↦ first q (sym (ap (λ (y : Text × Option OperationRecord). y.1) e))
    | inr m' ↦ others path q m'
  ],
)
better-Best (some c) k x r rest h = go (text_ltb c.updated_at x.updated_at) refl h
  where
    go :
        (b : Bool)
        → text_ltb c.updated_at x.updated_at ≡ b
        → Best (if b then some x else some c) rest r
        → Best (some c) ((k, some x) ∷ rest) r
    go true t (first, others) = (
      λ b e. NotOlder-trans r x b (first x refl) (
          subst (λ y. NotOlder x y) (some-injective _ _ e)
            (text_ltb-asym c.updated_at x.updated_at t)),
      λ path q m. elim m [
        | inl e ↦ first q (sym (ap (λ (y : Text × Option OperationRecord). y.1) e))
        | inr m' ↦ others path q m'
      ],
    )
    go false t (first, others) = (
      first,
      λ path q m. elim m [
        | inl e ↦
            let same : q ≡ x =
              some-injective _ _ (ap (λ (y : Text × Option OperationRecord). y.1) e) in
            NotOlder-trans r c q (first c refl) (subst (λ y. NotOlder c y) (sym same) t)
        | inr m' ↦ others path q m'
      ],
    )

latest_of-Best :
    (best : Option OperationRecord) (files : Files) (r : OperationRecord)
    → latest_of best files ≡ some r
    → Best best files r
unfolding Best
latest_of-Best best [] r h =
    (λ b e. NotOlder-refl r b (some-injective _ _ (sym h ∙ e)), λ path q m. absurd m.lower)
latest_of-Best best ((k, none) ∷ rest) r h =
    let (first, others) = latest_of-Best best rest r h in
    (
      first,
      λ path q m. elim m [
        | inl e ↦ absurd (ground (arith, ap (λ (y : Text × Option OperationRecord). y.1) e))
        | inr m' ↦ others path q m'
      ],
    )
latest_of-Best best ((k, some x) ∷ rest) r h =
    better-Best best k x r rest (latest_of-Best (if newer best x then some x else best) rest r h)

-- The latest record is one that no readable record of the journal is newer than.
pub latest-newest :
    (files : Files) (r q : OperationRecord) (path : Text)
    → latest (entries files) ≡ ok (some r)
    → In (path, some q) files
    → text_ltb r.updated_at q.updated_at ≡ false
unfolding latest Best NotOlder
latest-newest files r q path h m = (latest_of-Best none files r (ok-injective _ _ h)).1 path q m
