-- ===== src/Operation/Pruning.antt =====
-- What a start of the daemon removes from the journal: src/operation/store.rs.
pub mod Oldest
use enclave.Common.{
  ℕ, zero, suc, ◌+◌, ◌-◌, ◌≡◌, refl, sym, ap, subst, ◌∙◌, ◌⊎◌, inl, inr, true, false, List, [], ◌∷◌,
  Option, none, some, arith, Bool-cases, if_elim, leb, length, All, All-of_In, All-In, In, Text,
  text_eq, text_eq_iff, text_ltb, text_ltb-asym, text_ltb-trans_false, Result, err, get_or,
  get_or-remove_other, remove, LacksKey, HasDistinctKeys,
}
use mathlib.Core.Option.{some-injective}
use enclave.Operation.{
  OperationRecord, is_open, JournalError, not_removed, Files, entries, journal_terminal_limit,
  terminal_records, insert_newest, sort_newest, skip, Removal, removed, gone, refused, remove_each,
  past_limit, prune_past, prune_terminal_records,
}

-- Newest first: nothing is older than what stands after it.
IsSorted : List (Text × Text) → Type 0
IsSorted [] = Unit
IsSorted (e ∷ es) = All (λ f. text_ltb e.0 f.0 ≡ false) es × IsSorted es

All-insert_newest {κ} :
    (P : Text × Text → Type κ) (e : Text × Text) (es : List (Text × Text))
    → P e
    → All P es
    → All P (insert_newest e es)
All-insert_newest P e [] p h = (p, tt)
All-insert_newest P e (f ∷ es) p h = elim (Bool-cases (text_ltb e.0 f.0)) [
  | inl t ↦ rw t (h.0, All-insert_newest P e es p h.1)
  | inr t ↦ rw t (p, h)
]

All-weaken :
    (e f : Text × Text) (es : List (Text × Text))
    → text_ltb e.0 f.0 ≡ false
    → All (λ g. text_ltb f.0 g.0 ≡ false) es
    → All (λ g. text_ltb e.0 g.0 ≡ false) es
All-weaken e f [] t h = tt
All-weaken e f (g ∷ es) t h = (text_ltb-trans_false g.0 f.0 e.0 h.0 t, All-weaken e f es t h.1)

insert_newest-IsSorted :
    (e : Text × Text) (es : List (Text × Text)) → IsSorted es → IsSorted (insert_newest e es)
unfolding IsSorted
insert_newest-IsSorted e [] h = (tt, tt)
insert_newest-IsSorted e (f ∷ es) h = elim (Bool-cases (text_ltb e.0 f.0)) [
  | inl t ↦ rw t (
    All-insert_newest (λ g. text_ltb f.0 g.0 ≡ false) e es (text_ltb-asym e.0 f.0 t) h.0,
    insert_newest-IsSorted e es h.1,
  )
  | inr t ↦ rw t ((t, All-weaken e f es t h.0), h)
]

sort_newest-IsSorted : (es : List (Text × Text)) → IsSorted (sort_newest es)
unfolding IsSorted
sort_newest-IsSorted [] = tt
sort_newest-IsSorted (e ∷ es) = insert_newest-IsSorted e (sort_newest es) (sort_newest-IsSorted es)

In-insert_newest :
    (e : Text × Text) (es : List (Text × Text)) (a : Text × Text)
    → In a (e ∷ es)
    → In a (insert_newest e es)
In-insert_newest e [] a h = h
In-insert_newest e (f ∷ es) a h = elim (Bool-cases (text_ltb e.0 f.0)) [
  | inl t ↦ rw t (elim h [
    | inl q ↦ inr (In-insert_newest e es a (inl q))
    | inr (inl q) ↦ inl q
    | inr (inr q) ↦ inr (In-insert_newest e es a (inr q))
  ])
  | inr t ↦ rw t h
]

In-sort_newest : (es : List (Text × Text)) (a : Text × Text) → In a es → In a (sort_newest es)
In-sort_newest [] a h = h
In-sort_newest (e ∷ es) a (inl q) = In-insert_newest e (sort_newest es) a (inl q)
In-sort_newest (e ∷ es) a (inr h) =
    In-insert_newest e (sort_newest es) a (inr (In-sort_newest es a h))

All-sort_newest {κ} :
    (P : Text × Text → Type κ) (es : List (Text × Text)) → All P es → All P (sort_newest es)
All-sort_newest P [] h = tt
All-sort_newest P (e ∷ es) h = All-insert_newest P e (sort_newest es) h.0 (All-sort_newest P es h.1)

All-skip {ℓ κ} : {A : Type ℓ} (P : A → Type κ) (n : ℕ) (xs : List A) → All P xs → All P (skip n xs)
All-skip P zero xs h = h
All-skip P (suc n) [] h = tt
All-skip P (suc n) (x ∷ xs) h = All-skip P n xs h.1

skip-older :
    (n : ℕ) (es : List (Text × Text)) (e f : Text × Text)
    → IsSorted es
    → In e (skip n es)
    → In f es
    → In f (skip n es) ⊎ (text_ltb f.0 e.0 ≡ false)
unfolding IsSorted
skip-older zero es e f s he hf = inl hf
skip-older (suc n) [] e f s he hf = absurd hf.lower
skip-older (suc n) (x ∷ es) e f s he (inl q) = inr (
    All-In (λ g. text_ltb f.0 g.0 ≡ false) (skip n es) e
      (All-skip (λ g. text_ltb f.0 g.0 ≡ false) n es
        (subst (λ y. All (λ g. text_ltb y.0 g.0 ≡ false) es) (sym q) s.0))
      he)
skip-older (suc n) (x ∷ es) e f s he (inr hf) = skip-older n es e f s.1 he hf

length-insert_newest :
    (e : Text × Text) (es : List (Text × Text)) → length (insert_newest e es) ≡ suc (length es)
length-insert_newest e [] = refl
length-insert_newest e (f ∷ es) = ground (arith, length-insert_newest e es)

length-sort_newest : (es : List (Text × Text)) → length (sort_newest es) ≡ length es
length-sort_newest [] = refl
length-sort_newest (e ∷ es) =
    length-insert_newest e (sort_newest es) ∙ ap suc (length-sort_newest es)

length-skip {ℓ} : {A : Type ℓ} (n : ℕ) (xs : List A) → length (skip n xs) ≡ length xs - n
length-skip zero xs = omega arith
length-skip (suc n) [] = omega arith
length-skip (suc n) (x ∷ xs) = omega (arith, length-skip n xs)

pub length-past_limit : (n : ℕ) (es : List (Text × Text)) → length (past_limit n es) ≡ length es - n
unfolding past_limit
length-past_limit n es =
    if_elim (λ (r : List (Text × Text)). length r ≡ length es - n) (leb (length es) n) _ _
      (λ t. ground (arith, t))
      (λ t. omega (arith, length-skip n (sort_newest es), length-sort_newest es))

pub past_limit-oldest :
    (n : ℕ) (es : List (Text × Text)) (e f : Text × Text)
    → In e (past_limit n es)
    → In f es
    → In f (past_limit n es) ⊎ (text_ltb f.0 e.0 ≡ false)
unfolding past_limit
past_limit-oldest n es e f =
    if_elim (λ (r : List (Text × Text)). In e r → In f es → In f r ⊎ (text_ltb f.0 e.0 ≡ false))
      (leb (length es) n) _ _ (λ t he hf. absurd he.lower)
      (λ t he hf.
        skip-older n (sort_newest es) e f (sort_newest-IsSorted es) he (In-sort_newest es f hf))

pub All-past_limit {κ} :
    (P : Text × Text → Type κ) (n : ℕ) (es : List (Text × Text))
    → All P es
    → All P (past_limit n es)
unfolding past_limit
All-past_limit P n es h =
    if_elim (All P) (leb (length es) n) _ _ (λ t. tt)
      (λ t. All-skip P n (sort_newest es) (All-sort_newest P es h))

lacks-apart :
    (files : Files) (path : Text)
    → LacksKey path files
    → All (λ e. text_eq e.1 path ≡ false) (terminal_records files)
lacks-apart [] path l = tt
lacks-apart ((k, none) ∷ rest) path l = lacks-apart rest path l.1
lacks-apart ((k, some q) ∷ rest) path l =
    if_elim (All (λ e. text_eq e.1 path ≡ false)) (is_open q.status) _ _
      (λ t. lacks-apart rest path l.1) (λ t. (l.0, lacks-apart rest path l.1))

get_or-front :
    (k path : Text) (v : Option OperationRecord) (rest : Files)
    → text_eq k path ≡ true
    → get_or none ((k, v) ∷ rest) path ≡ v
get_or-front k path v rest t = rw t refl

get_or-behind :
    (k path : Text) (v : Option OperationRecord) (rest : Files)
    → text_eq k path ≡ false
    → get_or none ((k, v) ∷ rest) path ≡ get_or none rest path
get_or-behind k path v rest t = rw t refl

-- No terminal record stands in the file.
terminal_records-apart :
    (files : Files) (path : Text) (r : OperationRecord)
    → is_open r.status ≡ true
    → HasDistinctKeys files
    → get_or none files path ≡ some r
    → All (λ e. text_eq e.1 path ≡ false) (terminal_records files)
terminal_records-apart [] path r o d h = tt
terminal_records-apart ((k, none) ∷ rest) path r o d h = elim (Bool-cases (text_eq k path)) [
  | inl t ↦ absurd (ground (arith, sym (get_or-front k path none rest t) ∙ h))
  | inr t ↦ terminal_records-apart rest path r o d.1 (sym (get_or-behind k path none rest t) ∙ h)
]
terminal_records-apart ((k, some q) ∷ rest) path r o d h = elim (Bool-cases (text_eq k path)) [
  | inl t ↦
      let same : q ≡ r = some-injective _ _ (sym (get_or-front k path (some q) rest t) ∙ h) in
      let opened : is_open q.status ≡ true =
        ap (λ (x : OperationRecord). is_open x.status) same ∙ o in
      rw opened
        (lacks-apart rest path (subst (λ p. LacksKey p rest) ((text_eq_iff k path).0 t) d.0))
  | inr t ↦
      let others =
        terminal_records-apart rest path r o d.1 (sym (get_or-behind k path (some q) rest t) ∙ h) in
      if_elim (All (λ e. text_eq e.1 path ≡ false)) (is_open q.status) _ _ (λ u. others)
        (λ u. (t, others))
]

pub remove_each-apart :
    (remove_file : Text → Removal) (files : Files) (count : ℕ) (es : List (Text × Text))
    (path : Text)
    → All (λ e. text_eq e.1 path ≡ false) es
    → get_or none (remove_each remove_file files count es).0 path ≡ get_or none files path
unfolding remove_each
remove_each-apart remove_file files count [] path h = refl
remove_each-apart remove_file files count ((at, k) ∷ es) path h =
    go (λ fs c. remove_each-apart remove_file fs c es path h.1) (remove_file k)
  where
    round : Removal → Files × Result JournalError ℕ
    round o = elim o [
      | removed ↦ remove_each remove_file (remove files k) (count + 1) es
      | gone ↦ remove_each remove_file (remove files k) count es
      | refused ↦ (files, err not_removed)
    ]

    go :
        ((fs : Files) (c : ℕ)
          → get_or none (remove_each remove_file fs c es).0 path ≡ get_or none fs path)
        → (o : Removal) → get_or none (round o).0 path ≡ get_or none files path
    go rest removed = rest (remove files k) (count + 1) ∙ get_or-remove_other none files k path h.0
    go rest gone = rest (remove files k) count ∙ get_or-remove_other none files k path h.0
    go rest refused = refl

-- Pruning never removes a record that is open, whatever the file system answers.
pub prune_terminal_records-keeps_open :
    (remove_file : Text → Removal) (files : Files) (path : Text) (r : OperationRecord)
    → HasDistinctKeys files
    → get_or none files path ≡ some r
    → is_open r.status ≡ true
    → get_or none (prune_terminal_records remove_file files (entries files)).0 path ≡ some r
unfolding prune_terminal_records prune_past
prune_terminal_records-keeps_open remove_file files path r d h o =
    remove_each-apart remove_file files 0
      (past_limit journal_terminal_limit (terminal_records files)) path
      (All-past_limit (λ e. text_eq e.1 path ≡ false) journal_terminal_limit
        (terminal_records files) (terminal_records-apart files path r o d h))
    ∙ h
