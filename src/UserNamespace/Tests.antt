-- ===== src/UserNamespace/Tests.antt =====
-- Files of subordinate ids.
use enclave.Common.{
  ◌≡◌, refl, List, [], ◌∷◌, none, some, Text, codes, text_eq, if◌then◌else◌, ok, err,
}
use enclave.UserNamespace.{
  SubordinateIdRange, UserNamespacePlan, enabled, SubidError, required_subid_count, id_map,
  with_count, parse_fields, parse_lines, parse_subordinate_id_file, choose_owner,
  push_owner_candidate, preferred_owners_with_effective_user,
  subordinate_user_namespace_plan_from_ranges, subordinate_user_namespace_plan,
  detect_user_namespace_mode_uncached,
}
use enclave.UserNamespace.Plans.{IsDelegated, plan_from_ranges-IsDelegated}

abbrev lines : List Text
lines = codes "# ids" ∷ codes " root:100000:65536 " ∷ codes "" ∷ codes "agent:165536:131072" ∷ []

abbrev root_range : SubordinateIdRange
root_range = record { owner = codes "root"; start = 100000; count = 65536 }

abbrev agent_range : SubordinateIdRange
agent_range = record { owner = codes "agent"; start = 165536; count = 131072 }

parses : parse_subordinate_id_file (some lines) ≡ ok (root_range ∷ agent_range ∷ [])
unfolding parse_subordinate_id_file parse_lines parse_fields with_count
parses = refl

refuses_fields :
    (parse_subordinate_id_file (some (codes "root:1:2:3" ∷ [])) ≡ err SubidError.too_many_fields)
    × (parse_subordinate_id_file (some (codes "root:1:4294967296" ∷ []))
        ≡ err SubidError.invalid_count)
    × (parse_subordinate_id_file (some []) ≡ err SubidError.no_entries)
unfolding parse_subordinate_id_file parse_lines parse_fields with_count
refuses_fields = (refl, refl, refl)

prefers :
    preferred_owners_with_effective_user
      (λ name. if text_eq name (codes "USER") then some (codes "agent") else none)
      (some (codes "agent"))
    ≡ codes "agent" ∷ []
unfolding preferred_owners_with_effective_user push_owner_candidate
prefers = refl

abbrev agent_plan : UserNamespacePlan
agent_plan = record {
  owner = codes "agent";
  uid_map = id_map agent_range;
  gid_map = id_map agent_range;
}

planned :
    subordinate_user_namespace_plan_from_ranges
      (codes "agent" ∷ [])
      (root_range ∷ agent_range ∷ [])
      (agent_range ∷ [])
    ≡ ok agent_plan
unfolding subordinate_user_namespace_plan_from_ranges choose_owner
planned = refl

plan_from_ranges-IsDelegated_example :
    IsDelegated (codes "agent") (root_range ∷ agent_range ∷ []) (id_map agent_range)
    × IsDelegated (codes "agent") (agent_range ∷ []) (id_map agent_range)
    × (required_subid_count ≡ required_subid_count)
    × (required_subid_count ≡ required_subid_count)
plan_from_ranges-IsDelegated_example =
    plan_from_ranges-IsDelegated (codes "agent" ∷ []) (root_range ∷ agent_range ∷ [])
      (agent_range ∷ []) agent_plan planned

abbrev root_plan : UserNamespacePlan
root_plan = record {
  owner = codes "root";
  uid_map = id_map root_range;
  gid_map = id_map root_range;
}

detected :
    detect_user_namespace_mode_uncached 0 [] (some lines) (some lines) ≡ ok (enabled root_plan)
unfolding detect_user_namespace_mode_uncached subordinate_user_namespace_plan
    subordinate_user_namespace_plan_from_ranges choose_owner parse_subordinate_id_file parse_lines
    parse_fields with_count
detected = refl
