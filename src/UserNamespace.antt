-- ===== src/UserNamespace.antt =====
-- The user namespace of a workspace session: src/workspace/session/userns/mod.rs and
-- src/workspace/session/userns/subid.rs. The files, the environment and the effective user are parameters;
-- an error is told by its kind, without its text.
pub mod Plans
mod Tests
use enclave.Common.{
  ℕ, ◌+◌, ◌-◌, ◌*◌, ◌^◌, Bool, true, false, not, ◌&&◌, ◌||◌, List, [], ◌∷◌, ◌++◌, Option, none,
  some, ltb, leb, ◌==◌, min, if◌then◌else◌, any, Text, codes, text_eq, parse_unsigned, is_empty,
  trim, split, starts_with, Result, ok, err, ok_or, refuse_if, ◌>>=◌, ◌>>◌,
}

abbrev pub required_subid_count : ℕ
required_subid_count = 65536

pub record SubordinateIdRange : Type 0 where
  pub owner : Text
  pub start : ℕ
  pub count : ℕ

pub record IdMapRange : Type 0 where
  pub inner_start : ℕ
  pub outer_start : ℕ
  pub count : ℕ

pub record UserNamespacePlan : Type 0 where
  pub owner : Text
  pub uid_map : IdMapRange
  pub gid_map : IdMapRange

pub data UserNamespaceMode : Type 0 where
  enabled : UserNamespacePlan → UserNamespaceMode
  disabled : UserNamespaceMode

pub data SubidError : Type 0 where
  not_readable : SubidError
  invalid_line : SubidError
  invalid_start : SubidError
  invalid_count : SubidError
  too_many_fields : SubidError
  no_entries : SubidError
  no_common_owner : SubidError
  ambiguous_owner : SubidError
  missing_range : SubidError
  too_small : SubidError

abbrev pub parse_u32 : Text → Option ℕ
parse_u32 s = parse_unsigned 32 s

abbrev is_nil : List Text → Bool
is_nil [] = true
is_nil (t ∷ ts) = false

with_count : Text → ℕ → List Text → Result SubidError SubordinateIdRange
with_count owner start [] = err invalid_line
with_count owner start (count ∷ more) = ok_or (parse_u32 count) invalid_count >>= λ count.
    refuse_if (not (is_nil more)) too_many_fields
    >> ok (record { owner = owner; start = start; count = count })

-- The fields of a line, which `split` gives at least one of.
parse_fields : List Text → Result SubidError SubordinateIdRange
unfolding with_count
parse_fields [] = err invalid_line
parse_fields (owner ∷ []) = err invalid_line
parse_fields (owner ∷ start ∷ rest) =
    ok_or (parse_u32 start) invalid_start >>= λ start. with_count owner start rest

-- A line that is empty or a comment is passed over.
abbrev pub is_skipped : Text → Bool
is_skipped trimmed = is_empty trimmed || starts_with trimmed (codes "#")

parse_lines : List Text → Result SubidError (List SubordinateIdRange)
unfolding parse_fields
parse_lines [] = ok []
parse_lines (line ∷ lines) = elim (is_skipped (trim line)) [
  | true ↦ parse_lines lines
  | false ↦ parse_fields (split b':' (trim line)) >>= λ range.
      parse_lines lines >>= λ ranges. ok (range ∷ ranges)
]

abbrev some_entries : List SubordinateIdRange → Result SubidError (List SubordinateIdRange)
some_entries [] = err no_entries
some_entries (r ∷ rs) = ok (r ∷ rs)

-- The lines of the file, if it can be read.
pub parse_subordinate_id_file : Option (List Text) → Result SubidError (List SubordinateIdRange)
unfolding parse_lines
parse_subordinate_id_file none = err not_readable
parse_subordinate_id_file (some lines) = parse_lines lines >>= some_entries

abbrev pub has_owner : Text → List SubordinateIdRange → Bool
has_owner owner ranges = any (λ (r : SubordinateIdRange). text_eq r.owner owner) ranges

-- The owners of both files, each once.
abbrev pub common_owners : List Text → List SubordinateIdRange → List SubordinateIdRange → List Text
common_owners seen [] gid_ranges = seen
common_owners seen (r ∷ uid_ranges) gid_ranges =
    common_owners
      (if has_owner r.owner gid_ranges && not (any (λ o. text_eq o r.owner) seen)
        then seen ++ r.owner ∷ []
        else seen)
      uid_ranges gid_ranges

abbrev pub find_preferred : List Text → List Text → Option Text
find_preferred [] common = none
find_preferred (owner ∷ owners) common =
    if any (λ o. text_eq o owner) common then some owner else find_preferred owners common

abbrev only_owner : List Text → Result SubidError Text
only_owner [] = err no_common_owner
only_owner (owner ∷ []) = ok owner
only_owner (owner ∷ other ∷ owners) = err ambiguous_owner

abbrev chosen : List Text → Option Text → Result SubidError Text
chosen common (some owner) = ok owner
chosen common none =
    if any (λ o. text_eq o (codes "root")) common then ok (codes "root") else only_owner common

pub choose_owner :
    List Text → List SubordinateIdRange → List SubordinateIdRange → Result SubidError Text
choose_owner preferred uid_ranges gid_ranges =
    let common = common_owners [] uid_ranges gid_ranges in
    refuse_if (is_nil common) no_common_owner >> chosen common (find_preferred preferred common)

pub push_owner_candidate : List Text → Text → List Text
push_owner_candidate owners value =
    if not (is_empty (trim value)) && not (any (λ existing. text_eq existing (trim value)) owners)
    then owners ++ trim value ∷ []
    else owners

abbrev push_some : List Text → Option Text → List Text
push_some owners none = owners
push_some owners (some value) = push_owner_candidate owners value

-- The override, the effective user, then `USER`, `LOGNAME` and `SUDO_USER`.
pub preferred_owners_with_effective_user : (Text → Option Text) → Option Text → List Text
unfolding push_owner_candidate
preferred_owners_with_effective_user var effective_user =
    push_some
      (push_some
        (push_some (push_some (push_some [] (var (codes "ENCLAVE_SUBID_OWNER"))) effective_user)
          (var (codes "USER")))
        (var (codes "LOGNAME")))
      (var (codes "SUDO_USER"))

abbrev pub find_range : Text → List SubordinateIdRange → Option SubordinateIdRange
find_range owner [] = none
find_range owner (r ∷ ranges) = if text_eq r.owner owner then some r else find_range owner ranges

abbrev pub id_map : SubordinateIdRange → IdMapRange
id_map r = record { inner_start = 0; outer_start = r.start; count = required_subid_count }

abbrev plan_of :
    Text → SubordinateIdRange → SubordinateIdRange → Result SubidError UserNamespacePlan
plan_of owner uid_range gid_range =
    refuse_if (ltb (min uid_range.count gid_range.count) required_subid_count) too_small
    >> ok (record { owner = owner; uid_map = id_map uid_range; gid_map = id_map gid_range })

pub subordinate_user_namespace_plan_from_ranges :
    List Text
    → List SubordinateIdRange
    → List SubordinateIdRange
    → Result SubidError UserNamespacePlan
unfolding choose_owner
subordinate_user_namespace_plan_from_ranges preferred uid_ranges gid_ranges =
    choose_owner preferred uid_ranges gid_ranges >>= λ owner.
    ok_or (find_range owner uid_ranges) missing_range >>= λ uid_range.
    ok_or (find_range owner gid_ranges) missing_range >>= λ gid_range.
    plan_of owner uid_range gid_range

pub subordinate_user_namespace_plan :
    List Text → Option (List Text) → Option (List Text) → Result SubidError UserNamespacePlan
unfolding parse_subordinate_id_file subordinate_user_namespace_plan_from_ranges
subordinate_user_namespace_plan preferred subuid subgid =
    parse_subordinate_id_file subuid >>= λ uid_ranges.
    parse_subordinate_id_file subgid >>= λ gid_ranges.
    subordinate_user_namespace_plan_from_ranges preferred uid_ranges gid_ranges

abbrev root_can_use_subordinate_plan : UserNamespacePlan → Bool
root_can_use_subordinate_plan plan = text_eq plan.owner (codes "root")

abbrev mode_for_root : Result SubidError UserNamespacePlan → UserNamespaceMode
mode_for_root (ok plan) = if root_can_use_subordinate_plan plan then enabled plan else disabled
mode_for_root (err e) = disabled

-- The mode that is detected, before it is cached.
pub detect_user_namespace_mode_uncached :
    ℕ → List Text → Option (List Text) → Option (List Text) → Result SubidError UserNamespaceMode
unfolding subordinate_user_namespace_plan
detect_user_namespace_mode_uncached effective_uid preferred subuid subgid =
    let plan = subordinate_user_namespace_plan preferred subuid subgid in
    if effective_uid == 0 then ok (mode_for_root plan) else plan >>= λ p. ok (enabled p)
