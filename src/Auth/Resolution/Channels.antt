-- ===== src/Auth/Resolution/Channels.antt =====
-- One list from the two channels, and the scope it is read from: src/auth/resolution.rs.
use enclave.Common.{
  ◌≡◌, refl, sym, ap, subst, ◌∙◌, ◌⊎◌, inl, inr, Bool, true, false, ◌||◌, List, [], ◌∷◌, ◌++◌,
  Option, arith, if_elim, if◌then◌else◌, any, any-append, In, Text, text_eq, text_eq_refl,
  text_eq-comm_false, Result, ok, err,
}
use enclave.Auth.{NameError, TokenScope, for_owner}
use enclave.Auth.Resolution.{
  WorkspaceAuthToken, has_name, merge_channels, resolve_providers, resolve_env_tokens, credentials,
  push_loaded, with_provider, with_slot, provider_env_var, env_token_slot,
}

-- No name stands twice.
pub HasDistinctNames : List WorkspaceAuthToken → Type 0
HasDistinctNames [] = Unit
HasDistinctNames (t ∷ tokens) = (has_name t.name tokens ≡ false) × HasDistinctNames tokens

In-append :
    (t x : WorkspaceAuthToken) (xs : List WorkspaceAuthToken)
    → In t (xs ++ x ∷ [])
    → In t xs ⊎ (t ≡ x)
In-append t x [] (inl e) = inr e
In-append t x [] (inr m) = absurd m.lower
In-append t x (y ∷ xs) (inl e) = inl (inl e)
In-append t x (y ∷ xs) (inr m) = elim (In-append t x xs m) [ inl k ↦ inl (inr k) | inr e ↦ inr e ]

In-of_append :
    (t x : WorkspaceAuthToken) (xs : List WorkspaceAuthToken) → In t xs → In t (xs ++ x ∷ [])
In-of_append t x [] m = absurd m.lower
In-of_append t x (y ∷ xs) (inl e) = inl e
In-of_append t x (y ∷ xs) (inr m) = inr (In-of_append t x xs m)

or_false : (a b : Bool) → (a || b) ≡ false → (a ≡ false) × (b ≡ false)
or_false true b h = absurd (ground (arith, h))
or_false false b h = (refl, h)

append-HasDistinctNames :
    (x : WorkspaceAuthToken) (xs : List WorkspaceAuthToken)
    → has_name x.name xs ≡ false
    → HasDistinctNames xs
    → HasDistinctNames (xs ++ x ∷ [])
unfolding HasDistinctNames
append-HasDistinctNames x [] h d = (refl, tt)
append-HasDistinctNames x (y ∷ xs) h d =
    (front, append-HasDistinctNames x xs (or_false _ _ h).1 d.1)
  where
    front : has_name y.name (xs ++ x ∷ []) ≡ false
    front =
        any-append (λ (z : WorkspaceAuthToken). text_eq z.name y.name) xs (x ∷ [])
        ∙ rw (d.0, text_eq-comm_false y.name x.name (or_false _ _ h).0) refl

-- One round of the merge.
abbrev joined : List WorkspaceAuthToken → WorkspaceAuthToken → List WorkspaceAuthToken
joined credentials t = if has_name t.name credentials then credentials else credentials ++ t ∷ []

-- What is merged so far, what is left, and the result.
Merges : List WorkspaceAuthToken → List WorkspaceAuthToken → List WorkspaceAuthToken → Type 0
Merges credentials env merged =
    ((t : WorkspaceAuthToken) → In t credentials → In t merged)
    × ((t : WorkspaceAuthToken) → In t env → has_name t.name merged ≡ true)
    × ((t : WorkspaceAuthToken) → In t merged → In t credentials ⊎ In t env)
    × (HasDistinctNames credentials → HasDistinctNames merged)

has_name-In :
    (t : WorkspaceAuthToken) (xs : List WorkspaceAuthToken) → In t xs → has_name t.name xs ≡ true
has_name-In t [] m = absurd m.lower
has_name-In t (x ∷ xs) (inl e) =
    let same : text_eq x.name t.name ≡ true =
      subst (λ (y : WorkspaceAuthToken). text_eq y.name t.name ≡ true) e (text_eq_refl t.name) in
    rw same refl
has_name-In t (x ∷ xs) (inr m) = ground (arith, has_name-In t xs m)

-- A name that is there stays there.
has_name-joined :
    (name : Text) (t : WorkspaceAuthToken) (xs : List WorkspaceAuthToken)
    → has_name name xs ≡ true
    → has_name name (joined xs t) ≡ true
has_name-joined name t xs h =
    if_elim (λ (r : List WorkspaceAuthToken). has_name name r ≡ true) (has_name t.name xs) _ _
      (λ e. h)
      (λ e.
        any-append (λ (x : WorkspaceAuthToken). text_eq x.name name) xs (t ∷ [])
        ∙ ap (λ b. b || any (λ (x : WorkspaceAuthToken). text_eq x.name name) (t ∷ [])) h)

has_name-merge :
    (name : Text) (credentials env : List WorkspaceAuthToken)
    → has_name name credentials ≡ true
    → has_name name (merge_channels credentials env) ≡ true
unfolding merge_channels
has_name-merge name credentials [] h = h
has_name-merge name credentials (t ∷ env) h =
    has_name-merge name (joined credentials t) env (has_name-joined name t credentials h)

has_name-joined_self :
    (t : WorkspaceAuthToken) (xs : List WorkspaceAuthToken) → has_name t.name (joined xs t) ≡ true
has_name-joined_self t xs =
    if_elim (λ (r : List WorkspaceAuthToken). has_name t.name r ≡ true) (has_name t.name xs) _ _
      (λ e. e) (λ e. has_name-In t (xs ++ t ∷ []) (last xs))
  where
    last : (ys : List WorkspaceAuthToken) → In t (ys ++ t ∷ [])
    last [] = inl refl
    last (y ∷ ys) = inr (last ys)

merge_channels-Merges :
    (env credentials : List WorkspaceAuthToken)
    → Merges credentials env (merge_channels credentials env)
unfolding Merges merge_channels
merge_channels-Merges [] credentials = (λ t m. m, λ t m. absurd m.lower, λ t m. inl m, λ d. d)
merge_channels-Merges (x ∷ env) credentials =
    let (kept, named, source, distinct) = merge_channels-Merges env (joined credentials x) in
    (
      λ t m. kept t (before t m),
      λ t m. elim m [
        | inl e ↦
            subst
              (λ (y : WorkspaceAuthToken).
                has_name y.name (merge_channels (joined credentials x) env) ≡ true)
              (sym e)
              (has_name-merge x.name (joined credentials x) env
                (has_name-joined_self x credentials))
        | inr k ↦ named t k
      ],
      λ t m. elim (source t m) [
        | inl k ↦ elim (after t k) [ inl c ↦ inl c | inr e ↦ inr (inl e) ]
        | inr k ↦ inr (inr k)
      ],
      λ d. distinct (
          if_elim HasDistinctNames (has_name x.name credentials) _ _ (λ e. d)
            (λ e. append-HasDistinctNames x credentials e d)),
    )
  where
    before : (t : WorkspaceAuthToken) → In t credentials → In t (joined credentials x)
    before t m =
        if_elim (In t) (has_name x.name credentials) _ _ (λ e. m)
          (λ e. In-of_append t x credentials m)

    after : (t : WorkspaceAuthToken) → In t (joined credentials x) → In t credentials ⊎ (t ≡ x)
    after t =
        if_elim (λ (r : List WorkspaceAuthToken). In t r → In t credentials ⊎ (t ≡ x))
          (has_name x.name credentials) _ _ (λ e m. inl m) (λ e m. In-append t x credentials m)

-- Merging the two channels keeps every credential of the first, gives every name of the second, takes
-- nothing from elsewhere, and names none twice where the first channel does not.
pub merge_channels_lem :
    (providers env : List WorkspaceAuthToken)
    → ((t : WorkspaceAuthToken) → In t providers → In t (merge_channels providers env))
      × ((t : WorkspaceAuthToken)
          → In t env
          → has_name t.name (merge_channels providers env) ≡ true)
      × ((t : WorkspaceAuthToken) → In t (merge_channels providers env) → In t providers ⊎ In t env)
      × (HasDistinctNames providers → HasDistinctNames (merge_channels providers env))
unfolding Merges
merge_channels_lem providers env = merge_channels-Merges env providers

module _ {E : Type 0} (load load' : TokenScope → Text → Result E (Option Text))
    (owner : Option Text)
    (same : (name : Text) → load (for_owner owner) name ≡ load' (for_owner owner) name) where
  resolve_providers-same :
      (names : List Text) → resolve_providers load owner names ≡ resolve_providers load' owner names
  unfolding resolve_providers
  resolve_providers-same [] = refl
  resolve_providers-same (p ∷ names) =
      ap (λ l. with_provider p (provider_env_var p) l (resolve_providers load owner names)) (same p)
      ∙ ap (with_provider p (provider_env_var p) (load' (for_owner owner) p))
          (resolve_providers-same names)

  resolve_env_tokens-same :
      (names : List Text)
      → resolve_env_tokens load owner names ≡ resolve_env_tokens load' owner names
  unfolding resolve_env_tokens
  resolve_env_tokens-same [] = refl
  resolve_env_tokens-same (p ∷ names) =
      go (env_token_slot p)
      ∙ ap (with_slot p (env_token_slot p) (load' (for_owner owner)))
          (resolve_env_tokens-same names)
    where
      go :
          (r : Result NameError Text)
          → with_slot p r (load (for_owner owner)) (resolve_env_tokens load owner names)
            ≡ with_slot p r (load' (for_owner owner)) (resolve_env_tokens load owner names)
      go (err e) = refl
      go (ok slot) =
          ap (λ l. push_loaded slot p l (resolve_env_tokens load owner names)) (same slot)

-- What a workspace is given is read from the scope of its owner alone: two stores that agree on that scope
-- give it the same credentials.
pub credentials-own_scope :
    {E : Type 0} (load load' : TokenScope → Text → Result E (Option Text)) (owner : Option Text)
    (auth_providers env_tokens : List Text)
    → ((name : Text) → load (for_owner owner) name ≡ load' (for_owner owner) name)
    → credentials load owner auth_providers env_tokens
      ≡ credentials load' owner auth_providers env_tokens
unfolding credentials
credentials-own_scope load load' owner auth_providers env_tokens same =
    ap (λ ps. merge_channels ps (resolve_env_tokens load owner env_tokens))
      (resolve_providers-same load load' owner same auth_providers)
    ∙ ap (merge_channels (resolve_providers load' owner auth_providers))
        (resolve_env_tokens-same load load' owner same env_tokens)
