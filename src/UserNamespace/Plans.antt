-- ===== src/UserNamespace/Plans.antt =====
-- What a plan maps: src/workspace/session/userns/subid.rs.
use enclave.Common.{
  ◌≤◌, ◌≡◌, refl, sym, ap, subst, ◌∙◌, inl, inr, List, [], ◌∷◌, Option, some, ltb, arith,
  Bool-cases, if_elim, In, Text, text_eq, text_eq_iff, codes, min, Result, ok, err, ok_or,
  refuse_if, ok-injective, bind-ok, refuse_if-ok, ok_or-ok,
}
use enclave.UserNamespace.{
  SubordinateIdRange, IdMapRange, UserNamespacePlan, UserNamespaceMode, enabled, SubidError,
  required_subid_count, find_range, id_map, plan_of, choose_owner,
  subordinate_user_namespace_plan_from_ranges, subordinate_user_namespace_plan, mode_for_root,
  detect_user_namespace_mode_uncached,
}

-- The map lies within a range that the file gives the owner.
pub IsDelegated : Text → List SubordinateIdRange → IdMapRange → Type 0
IsDelegated owner ranges m =
    (r : SubordinateIdRange) × In r ranges
    × (r.owner ≡ owner)
    × (m.outer_start ≡ r.start)
    × (m.count ≤ r.count)

find_range-some :
    (owner : Text) (ranges : List SubordinateIdRange) (r : SubordinateIdRange)
    → find_range owner ranges ≡ some r
    → In r ranges × (r.owner ≡ owner)
find_range-some owner [] r h = absurd (ground (arith, h))
find_range-some owner (x ∷ ranges) r h = elim (Bool-cases (text_eq x.owner owner)) [
  | inl t ↦
      let same : x ≡ r = ground (arith, h, t) in
      (
        inl (sym same),
        ap (λ (y : SubordinateIdRange). y.owner) (sym same) ∙ (text_eq_iff x.owner owner).0 t,
      )
  | inr t ↦ let (m, e) = find_range-some owner ranges r (ground (arith, h, t)) in (inr m, e)
]

plan_of-ok :
    (owner : Text) (u g : SubordinateIdRange) (p : UserNamespacePlan)
    → plan_of owner u g ≡ ok p
    → (required_subid_count ≤ u.count)
      × (required_subid_count ≤ g.count)
      × (record { owner = owner; uid_map = id_map u; gid_map = id_map g } ≡ p)
plan_of-ok owner u g p h =
    let (x, e, h') =
      bind-ok (refuse_if (ltb (min u.count g.count) required_subid_count) SubidError.too_small) _ p
        h in
    let wide =
      refuse_if-ok (ltb (min u.count g.count) required_subid_count) SubidError.too_small x e in
    (ground (arith, wide), ground (arith, wide), ok-injective _ _ h')

-- Both maps of a plan are wide enough and lie within ranges that the files give to one owner.
pub plan_from_ranges-IsDelegated :
    (preferred : List Text) (uid_ranges gid_ranges : List SubordinateIdRange)
    (p : UserNamespacePlan)
    → subordinate_user_namespace_plan_from_ranges preferred uid_ranges gid_ranges ≡ ok p
    → IsDelegated p.owner uid_ranges p.uid_map
      × IsDelegated p.owner gid_ranges p.gid_map
      × (p.uid_map.count ≡ required_subid_count)
      × (p.gid_map.count ≡ required_subid_count)
unfolding subordinate_user_namespace_plan_from_ranges IsDelegated
plan_from_ranges-IsDelegated preferred uid_ranges gid_ranges p h =
    let (owner, _, h1) = bind-ok (choose_owner preferred uid_ranges gid_ranges) _ p h in
    let (u, hu, h2) =
      bind-ok (ok_or (find_range owner uid_ranges) SubidError.missing_range) _ p h1 in
    let (g, hg, h3) =
      bind-ok (ok_or (find_range owner gid_ranges) SubidError.missing_range) _ p h2 in
    let (mu, eu) =
      find_range-some owner uid_ranges u (ok_or-ok (find_range owner uid_ranges) _ u hu) in
    let (mg, eg) =
      find_range-some owner gid_ranges g (ok_or-ok (find_range owner gid_ranges) _ g hg) in
    let (lu, lg, same) = plan_of-ok owner u g p h3 in
    subst
      (λ (q : UserNamespacePlan).
        IsDelegated q.owner uid_ranges q.uid_map
        × IsDelegated q.owner gid_ranges q.gid_map
        × (q.uid_map.count ≡ required_subid_count)
        × (q.gid_map.count ≡ required_subid_count))
      same ((u, mu, eu, refl, lu), (g, mg, eg, refl, lg), refl, refl)

-- A session that root starts is mapped only by a plan of root's own ranges.
pub detect_user_namespace_mode_uncached-root :
    (preferred : List Text) (subuid subgid : Option (List Text)) (p : UserNamespacePlan)
    → detect_user_namespace_mode_uncached 0 preferred subuid subgid ≡ ok (enabled p)
    → p.owner ≡ codes "root"
unfolding detect_user_namespace_mode_uncached
detect_user_namespace_mode_uncached-root preferred subuid subgid p h =
    go (subordinate_user_namespace_plan preferred subuid subgid) (ok-injective _ _ h)
  where
    go :
        (r : Result SubidError UserNamespacePlan)
        → mode_for_root r ≡ enabled p
        → p.owner ≡ codes "root"
    go (err e) q = absurd (ground (arith, q))
    go (ok plan) q =
        if_elim (λ (m : UserNamespaceMode). m ≡ enabled p → p.owner ≡ codes "root")
          (text_eq plan.owner (codes "root")) _ _
          (λ t e.
            let same : p ≡ plan = ground (arith, e) in
            ap (λ (y : UserNamespacePlan). y.owner) same
            ∙ (text_eq_iff plan.owner (codes "root")).0 t)
          (λ t e. absurd (ground (arith, e))) q
