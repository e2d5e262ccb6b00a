-- ===== src/Numbering/Dial.antt =====
-- `checkDial` of apps/api/src/modules/numbering-plans/numbering-plan.service.ts: which rule it finds.
use manage_call_ai.Base.{
  String, ◌≡◌, refl, Bool, inl, inr, List, [], ◌∷◌, Option, none, some, find, Bool-cases, sort_by,
  IsLeast, IsLeast-of_sort_by, find-sort_by,
}
use manage_call_ai.Numbering.Types.{NumberingRule, Tables, CallType}
use manage_call_ai.Numbering.Check.{
  DialCheckResult, joined_rules, find_tenant_rules, first_match, check_dial, matches_rule,
}

module _ (regexp : String → Option (String → Bool)) where
  abbrev pub matching : String → NumberingRule → Bool
  matching dial_string r = matches_rule regexp dial_string r.pattern

  abbrev call_type_of : Option NumberingRule → Option CallType
  call_type_of none = none
  call_type_of (some r) = some r.call_type

  abbrev plan_id_of : Option NumberingRule → Option String
  plan_id_of none = none
  plan_id_of (some r) = some r.plan_id

  -- The result tells the rule, its type of call and its plan.
  abbrev pub Tells : Option NumberingRule → DialCheckResult → Type 0
  Tells o d = (d.matched_rule ≡ o) × (d.call_type ≡ call_type_of o) × (d.plan_id ≡ plan_id_of o)

  first_match-Tells :
      (dial_string : String) (rs : List NumberingRule)
      → Tells (find (matching dial_string) rs) (first_match regexp dial_string rs)
  unfolding first_match
  first_match-Tells dial_string [] = (refl, refl, refl)
  first_match-Tells dial_string (r ∷ rs) = elim (Bool-cases (matching dial_string r)) [
    | inl e ↦ rw e (refl, refl, refl)
    | inr ne ↦ rw ne (first_match-Tells dial_string rs)
  ]

  -- `check_dial` tells the type of call and the plan of a rule that matches, of those of the plan that the
  -- tenant is assigned to, such that no other that matches has a lower priority; it tells none only if
  -- none of them matches.
  pub check_dial-IsLeast :
      (tenant_id dial_string : String) (t : Tables)
      → (o : Option NumberingRule) × (Tells o (check_dial regexp tenant_id dial_string t)
          × IsLeast (λ r. r.priority) (matching dial_string) (joined_rules tenant_id t) o)
  unfolding check_dial find_tenant_rules
  check_dial-IsLeast tenant_id dial_string t =
      let rows = sort_by (λ (r : NumberingRule). r.priority) (joined_rules tenant_id t) in
      let o = find (matching dial_string) (sort_by (λ r. r.priority) rows) in
      (
        o,
        (
          first_match-Tells dial_string (sort_by (λ r. r.priority) rows),
          IsLeast-of_sort_by (λ r. r.priority) (matching dial_string) (joined_rules tenant_id t) o
              (find-sort_by (λ r. r.priority) (matching dial_string) rows),
        ),
      )
