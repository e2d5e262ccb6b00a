-- ===== src/Numbering/Assigned.antt =====
-- `assign` of apps/api/src/modules/numbering-plans/numbering-plan.service.ts: what the assignment and the rules
-- of the tenant are after it.
use manage_call_ai.Base.{
  ℕ, String, ◌≡◌, refl, sym, ◌∙◌, Bool, true, false, ◌&&◌, inl, inr, List, [], ◌∷◌, map, Option,
  none, some, push, any, keep, flat_map, All, All-append, str_eq, if◌then◌else◌, Bool-cases, arith,
  subst, eq_iff, eq_refl,
}
use manage_call_ai.Numbering.Types.{
  NumberingPlan, NumberingRule, Assignment, AssignableType, Tables, ok, err, NumberingError,
}
use manage_call_ai.Numbering.Assignments.{
  same_type, coalesce, conflicts, with_plan, upsert, assign, is_not_distinct,
}
use manage_call_ai.Numbering.Told.{Told, OnPlan, check_dial-Told}
use manage_call_ai.Numbering.Check.{is_joined, copies, joined_rules, check_dial}

-- A row under the key has the plan.
abbrev IsPlanned : String → AssignableType → Option String → String → Assignment → Type 0
IsPlanned tenant_id type id plan_id a = conflicts tenant_id type id a ≡ true → a.plan_id ≡ plan_id

abbrev pub upserted :
    String → ℕ → String → String → AssignableType → Option String → Tables → Tables
upserted new_id now tenant_id plan_id type id t = record {
  plans = t.plans;
  rules = t.rules;
  assignments = upsert new_id now tenant_id plan_id type id t.assignments;
}

pub assign-upserted :
    (new_id : String) (now : ℕ) (tenant_id plan_id : String) (type : AssignableType)
    (id : Option String) (t t' : Tables)
    → assign new_id now tenant_id plan_id type id t ≡ ok t'
    → upserted new_id now tenant_id plan_id type id t ≡ t'
unfolding assign
assign-upserted new_id now tenant_id plan_id type id t t' h =
    elim (Bool-cases (any (λ (p : NumberingPlan). str_eq p.id plan_id) t.plans)) [
      | inl e ↦
          let same : ok (upserted new_id now tenant_id plan_id type id t) ≡ ok t' = rw e at h in cc
      | inr ne ↦ let fails : err NumberingError.foreign_key_violation ≡ ok t' = rw ne at h in cc
    ]

module _ (tenant_id plan_id : String) (type : AssignableType) (id : Option String) where
  IsPlanned-if :
      (a : Assignment) (p : Bool)
      → conflicts tenant_id type id a ≡ p
      → IsPlanned tenant_id type id plan_id (if p then with_plan plan_id a else a)
  unfolding with_plan
  IsPlanned-if a true e = λ h. refl
  IsPlanned-if a false e = λ h. cc

  map-IsPlanned :
      (rows : List Assignment)
      → All (IsPlanned tenant_id type id plan_id) (
          map
            (λ (a : Assignment). if conflicts tenant_id type id a then with_plan plan_id a else a)
            rows)
  map-IsPlanned [] = tt
  map-IsPlanned (a ∷ rows) =
      (IsPlanned-if a (conflicts tenant_id type id a) refl, map-IsPlanned rows)

  push-IsPlanned :
      (a : Assignment) (rows : List Assignment)
      → a.plan_id ≡ plan_id
      → any (conflicts tenant_id type id) rows ≡ false
      → All (IsPlanned tenant_id type id plan_id) (push rows a)
  push-IsPlanned a [] e none_in = (λ h. e, tt)
  push-IsPlanned a (b ∷ rows) e none_in =
      (ground (arith, none_in), push-IsPlanned a rows e (ground (arith, none_in)))

  upsert-IsPlanned :
      (new_id : String) (now : ℕ) (rows : List Assignment)
      → All (IsPlanned tenant_id type id plan_id) (upsert new_id now tenant_id plan_id type id rows)
  unfolding upsert
  upsert-IsPlanned new_id now rows = elim (Bool-cases (any (conflicts tenant_id type id) rows)) [
    | inl e ↦ rw e (map-IsPlanned rows)
    | inr ne ↦ rw ne (push-IsPlanned _ rows refl ne)
  ]

module _ (tenant_id plan_id : String) where
  distinct_none : (o : Option String) → is_not_distinct o none ≡ true → o ≡ none
  unfolding is_not_distinct
  distinct_none none h = refl
  distinct_none (some x) h = cc

  plan-is_joined :
      (r : NumberingRule) (a : Assignment)
      → str_eq r.tenant_id tenant_id ≡ true
      → is_joined r a ≡ true
      → IsPlanned tenant_id AssignableType.tenant none plan_id a
      → r.plan_id ≡ plan_id
  unfolding is_joined conflicts coalesce
  plan-is_joined r a e j h =
      let p : str_eq a.plan_id r.plan_id ≡ true = ground (arith, j) in
      let q : str_eq a.tenant_id r.tenant_id ≡ true = ground (arith, j) in
      let k : same_type a.assignable_type AssignableType.tenant ≡ true = ground (arith, j) in
      let d : is_not_distinct a.assignable_id none ≡ true = ground (arith, j) in
      sym ((eq_iff a.plan_id r.plan_id).0 p)
      ∙ h (
          is_key a.tenant_id a.assignable_type a.assignable_id
            ((eq_iff a.tenant_id r.tenant_id).0 q ∙ (eq_iff r.tenant_id tenant_id).0 e) k
            (distinct_none a.assignable_id d))
    where
      is_key :
          (x : String) (type : AssignableType) (o : Option String)
          → x ≡ tenant_id
          → same_type type AssignableType.tenant ≡ true
          → o ≡ none
          → (str_eq x tenant_id
              && same_type type AssignableType.tenant
              && str_eq (coalesce o) (coalesce none))
            ≡ true
      is_key x type o e k n = rw e (rw k (rw n (rw eq_refl (rw eq_refl refl))))

  copies-All :
      (r : NumberingRule) (rows : List Assignment)
      → str_eq r.tenant_id tenant_id ≡ true
      → All (IsPlanned tenant_id AssignableType.tenant none plan_id) rows
      → All (OnPlan λ q. q ≡ plan_id) (copies r rows)
  unfolding copies
  copies-All r [] e h = tt
  copies-All r (a ∷ rows) e h = elim (Bool-cases (is_joined r a)) [
    | inl j ↦ rw j (plan-is_joined r a e j h.0, copies-All r rows e h.1)
    | inr nj ↦ rw nj (copies-All r rows e h.1)
  ]

  joined-All :
      (rs : List NumberingRule) (rows : List Assignment)
      → All (IsPlanned tenant_id AssignableType.tenant none plan_id) rows
      → All (OnPlan λ q. q ≡ plan_id) (
          flat_map
            (λ r. copies r rows)
            (keep (λ (r : NumberingRule). str_eq r.tenant_id tenant_id) rs))
  joined-All [] rows h = tt
  joined-All (r ∷ rs) rows h = elim (Bool-cases (str_eq r.tenant_id tenant_id)) [
    | inl e ↦ rw e (
        All-append (OnPlan λ q. q ≡ plan_id) (copies r rows) _ (copies-All r rows e h)
          (joined-All rs rows h))
    | inr ne ↦ rw ne (joined-All rs rows h)
  ]

  module _ (regexp : String → Option (String → Bool)) where
    check_dial-assigned :
        (new_id dial_string : String) (now : ℕ) (t : Tables)
        → Told
            (λ q. q ≡ plan_id)
            (check_dial regexp tenant_id dial_string
              (upserted new_id now tenant_id plan_id AssignableType.tenant none t)).plan_id
    unfolding joined_rules
    check_dial-assigned new_id dial_string now t =
        check_dial-Told (λ q. q ≡ plan_id) regexp tenant_id dial_string
          (upserted new_id now tenant_id plan_id AssignableType.tenant none t)
          (joined-All t.rules _ (
            upsert-IsPlanned tenant_id plan_id AssignableType.tenant none new_id now t.assignments))

    -- After a plan is assigned to the whole tenant, `check_dial` tells no other plan.
    pub check_dial-assign :
        (new_id dial_string : String) (now : ℕ) (t t' : Tables)
        → assign new_id now tenant_id plan_id AssignableType.tenant none t ≡ ok t'
        → Told (λ q. q ≡ plan_id) (check_dial regexp tenant_id dial_string t').plan_id
    check_dial-assign new_id dial_string now t t' h =
        subst
          (λ (x : Tables).
            Told (λ q. q ≡ plan_id) (check_dial regexp tenant_id dial_string x).plan_id)
          (assign-upserted new_id now tenant_id plan_id AssignableType.tenant none t t' h)
          (check_dial-assigned new_id dial_string now t)
