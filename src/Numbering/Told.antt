-- ===== src/Numbering/Told.antt =====
-- Which plans `checkDial` of apps/api/src/modules/numbering-plans/numbering-plan.service.ts can tell.
use manage_call_ai.Base.{
  String, Bool, inl, inr, List, [], ◌∷◌, Option, none, some, All, Bool-cases, All-sort_by,
}
use manage_call_ai.Numbering.Types.{NumberingRule, Tables}
use manage_call_ai.Numbering.Check.{
  joined_rules, find_tenant_rules, matches_rule, first_match, check_dial,
}

module _ (Q : String → Type 0) where
  abbrev pub Told : Option String → Type 0
  Told none = Unit
  Told (some id) = Q id

  abbrev pub OnPlan : NumberingRule → Type 0
  OnPlan r = Q r.plan_id

  module _ (regexp : String → Option (String → Bool)) where
    first_match-Told :
        (dial_string : String) (rs : List NumberingRule)
        → All OnPlan rs
        → Told (first_match regexp dial_string rs).plan_id
    unfolding first_match
    first_match-Told dial_string [] h = tt
    first_match-Told dial_string (r ∷ rs) h =
        elim (Bool-cases (matches_rule regexp dial_string r.pattern)) [
          | inl e ↦ rw e h.0
          | inr ne ↦ rw ne (first_match-Told dial_string rs h.1)
        ]

    -- What holds of the plans of the joined rules holds of the plan that is told.
    pub check_dial-Told :
        (tenant_id dial_string : String) (t : Tables)
        → All OnPlan (joined_rules tenant_id t)
        → Told (check_dial regexp tenant_id dial_string t).plan_id
    unfolding check_dial find_tenant_rules
    check_dial-Told tenant_id dial_string t h = first_match-Told dial_string _ (
        All-sort_by OnPlan (λ (r : NumberingRule). r.priority) _
          (All-sort_by OnPlan (λ (r : NumberingRule). r.priority) _ h))
