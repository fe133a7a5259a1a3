-- ===== src/Jobs/Listing.antt =====
-- The jobs that a listing has: src/workspace/jobs.rs.
use enclave.Jobs.{JobRecord, JobFiles, find_job, insert_by_start, sort_by_start, list}
use enclave.Common.{
  ℕ, ◌+◌, Bool, List, [], ◌∷◌, some, if◌then◌else◌, filter, total, All, In, Text, text_ltb, text_eq,
  ◌≡◌, refl, subst, inl, inr, Bool-cases, if_elim, ok, ok-injective, arith,
}

pub In-find_job :
    (jobs : List JobRecord) (id : Text) (job : JobRecord)
    → find_job jobs id ≡ some job
    → In job jobs
In-find_job [] id job e = absurd (ground arith)
In-find_job (x ∷ xs) id job e = elim (Bool-cases (text_eq x.id id)) [
  | inl p ↦ inl (ground arith)
  | inr p ↦ inr (In-find_job xs id job (ground arith))
]

In-insert_by_start :
    (jobs : List JobRecord) (x job : JobRecord)
    → In job (x ∷ jobs)
    → In job (insert_by_start x jobs)
In-insert_by_start [] x job h = h
In-insert_by_start (y ∷ ys) x job h = elim (Bool-cases (text_ltb y.started_at x.started_at)) [
  | inl p ↦ rw p (elim h [
    | inl e ↦ inr (In-insert_by_start ys x job (inl e))
    | inr (inl e) ↦ inl e
    | inr (inr e) ↦ inr (In-insert_by_start ys x job (inr e))
  ])
  | inr p ↦ rw p h
]

pub In-sort_by_start :
    (jobs : List JobRecord) (job : JobRecord) → In job jobs → In job (sort_by_start jobs)
In-sort_by_start [] job h = h
In-sort_by_start (x ∷ xs) job (inl e) = In-insert_by_start (sort_by_start xs) x job (inl e)
In-sort_by_start (x ∷ xs) job (inr h) =
    In-insert_by_start (sort_by_start xs) x job (inr (In-sort_by_start xs job h))

module _ (f : JobRecord → ℕ) where
  total-insert_by_start :
      (jobs : List JobRecord) (x : JobRecord)
      → total f (insert_by_start x jobs) ≡ f x + total f jobs
  total-insert_by_start [] x = refl
  total-insert_by_start (y ∷ ys) x = ground (arith, total-insert_by_start ys x)

  pub total-sort_by_start : (jobs : List JobRecord) → total f (sort_by_start jobs) ≡ total f jobs
  total-sort_by_start [] = refl
  total-sort_by_start (x ∷ xs) =
      ground (arith, total-sort_by_start xs, total-insert_by_start (sort_by_start xs) x)

module _ {κ} (P : JobRecord → Type κ) where
  All-insert_by_start :
      (jobs : List JobRecord) (x : JobRecord) → P x → All P jobs → All P (insert_by_start x jobs)
  All-insert_by_start [] x h k = (h, tt)
  All-insert_by_start (y ∷ ys) x h k = elim (Bool-cases (text_ltb y.started_at x.started_at)) [
    | inl p ↦ rw p (k.0, All-insert_by_start ys x h k.1)
    | inr p ↦ rw p (h, k)
  ]

  pub All-sort_by_start : (jobs : List JobRecord) → All P jobs → All P (sort_by_start jobs)
  All-sort_by_start [] k = tt
  All-sort_by_start (x ∷ xs) k =
      All-insert_by_start (sort_by_start xs) x k.0 (All-sort_by_start xs k.1)

  pub All-filter :
      (p : JobRecord → Bool) (jobs : List JobRecord) → All P jobs → All P (filter p jobs)
  All-filter p [] k = tt
  All-filter p (x ∷ xs) k = elim (Bool-cases (p x)) [
    | inl t ↦ rw t (k.0, All-filter p xs k.1)
    | inr t ↦ rw t (All-filter p xs k.1)
  ]

pub total-filter :
    (f : JobRecord → ℕ) (p : JobRecord → Bool) (jobs : List JobRecord)
    → total f (filter p jobs) ≡ total (λ j. if p j then f j else 0) jobs
total-filter f p [] = refl
total-filter f p (x ∷ xs) = ground (arith, total-filter f p xs)

-- What a listing gives is the records by the time of their start.
list-sorts :
    (w : JobFiles) (jobs : List JobRecord) → list w ≡ ok jobs → sort_by_start w.files ≡ jobs
unfolding list
list-sorts w jobs =
    if_elim (λ r. r ≡ ok jobs → sort_by_start w.files ≡ jobs) w.listable _ _
      (λ t h. ok-injective (sort_by_start w.files) jobs h) (λ t h. absurd (ground (arith, h)))

pub In-list :
    (w : JobFiles) (jobs : List JobRecord) (job : JobRecord)
    → list w ≡ ok jobs
    → In job w.files
    → In job jobs
In-list w jobs job e h =
    subst (λ js. In job js) (list-sorts w jobs e) (In-sort_by_start w.files job h)

pub All-list {κ} :
    (P : JobRecord → Type κ) (w : JobFiles) (jobs : List JobRecord)
    → list w ≡ ok jobs
    → All P w.files
    → All P jobs
All-list P w jobs e h = subst (All P) (list-sorts w jobs e) (All-sort_by_start P w.files h)
