-- ===== src/Numbering/Deleted.antt =====
-- `delete` of apps/api/src/modules/numbering-plans/numbering-plan.service.ts: what `checkDial` tells after it.
use manage_call_ai.Base.{
  String, ◌≡◌, Bool, false, not, inl, inr, List, [], ◌∷◌, Option, keep, flat_map, All, All-append,
  any, str_eq, Bool-cases, subst,
}
use manage_call_ai.Numbering.Types.{NumberingRule, Assignment, Tables, plan_not_found, ok, err}
use manage_call_ai.Numbering.Plans.{is_plan, delete}
use manage_call_ai.Numbering.Check.{is_joined, copies, joined_rules, check_dial}
use manage_call_ai.Numbering.Told.{Told, OnPlan, check_dial-Told}

module _ (id : String) where
  abbrev pub IsOther : String → Type 0
  IsOther plan_id = str_eq plan_id id ≡ false

  copies-IsOther :
      (r : NumberingRule) (rows : List Assignment)
      → IsOther r.plan_id
      → All (OnPlan IsOther) (copies r rows)
  unfolding copies
  copies-IsOther r [] h = tt
  copies-IsOther r (a ∷ rows) h = elim (Bool-cases (is_joined r a)) [
    | inl e ↦ rw e (h, copies-IsOther r rows h)
    | inr ne ↦ rw ne (copies-IsOther r rows h)
  ]

  joined-IsOther :
      (tenant_id : String) (rs : List NumberingRule) (rows : List Assignment)
      → All (OnPlan IsOther) (
          flat_map
            (λ r. copies r rows)
            (keep
              (λ (r : NumberingRule). str_eq r.tenant_id tenant_id)
              (keep (λ (r : NumberingRule). not (str_eq r.plan_id id)) rs)))
  joined-IsOther tenant_id [] rows = tt
  joined-IsOther tenant_id (r ∷ rs) rows = elim (Bool-cases (str_eq r.plan_id id)) [
    | inl e ↦ rw e (joined-IsOther tenant_id rs rows)
    | inr ne ↦ rw ne (elim (Bool-cases (str_eq r.tenant_id tenant_id)) [
      | inl e ↦ rw e (
          All-append (OnPlan IsOther) (copies r rows) _ (copies-IsOther r rows ne)
            (joined-IsOther tenant_id rs rows))
      | inr nt ↦ rw nt (joined-IsOther tenant_id rs rows)
    ])
  ]

  abbrev without : String → Tables → Tables
  without tenant_id t = record {
    plans = keep (λ p. not (is_plan id tenant_id p)) t.plans;
    rules = keep (λ (r : NumberingRule). not (str_eq r.plan_id id)) t.rules;
    assignments = keep (λ (a : Assignment). not (str_eq a.plan_id id)) t.assignments;
  }

  delete-without :
      (tenant_id : String) (t t' : Tables)
      → delete id tenant_id t ≡ ok t'
      → without tenant_id t ≡ t'
  unfolding delete
  delete-without tenant_id t t' h = elim (Bool-cases (any (is_plan id tenant_id) t.plans)) [
    | inl e ↦ let same : ok (without tenant_id t) ≡ ok t' = rw e at h in cc
    | inr ne ↦ let fails : err (plan_not_found id) ≡ ok t' = rw ne at h in cc
  ]

  -- After a plan is deleted `check_dial` tells it to no tenant.
  pub check_dial-delete :
      (regexp : String → Option (String → Bool)) (tenant_id other_id dial_string : String)
      (t t' : Tables)
      → delete id tenant_id t ≡ ok t'
      → Told IsOther (check_dial regexp other_id dial_string t').plan_id
  unfolding joined_rules
  check_dial-delete regexp tenant_id other_id dial_string t t' h =
      subst (λ (x : Tables). Told IsOther (check_dial regexp other_id dial_string x).plan_id)
        (delete-without tenant_id t t' h)
        (check_dial-Told IsOther regexp other_id dial_string (without tenant_id t)
          (joined-IsOther other_id t.rules (without tenant_id t).assignments))
