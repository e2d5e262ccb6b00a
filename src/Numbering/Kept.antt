-- ===== src/Numbering/Kept.antt =====
-- `assign` and `getAssignment` of apps/api/src/modules/numbering-plans/numbering-plan.service.ts for an extension or
-- a trunk.
use manage_call_ai.Base.{
  ℕ, String, ◌≡◌, refl, ◌∙◌, true, false, inl, inr, List, [], ◌∷◌, map, Option, none, some, push,
  find, any, str_eq, if◌then◌else◌, Bool-cases, arith, eq_iff, eq_refl, subst,
}
use manage_call_ai.Numbering.Types.{Assignment, AssignableType, Tables, ok, or_else}
use manage_call_ai.Numbering.Assignments.{
  same_type, coalesce, conflicts, with_plan, upsert, assign, is_not_distinct, is_assignment,
  find_assignment,
}
use manage_call_ai.Numbering.Assigned.{assign-upserted}

abbrev pub zero_id : String
zero_id = "00000000-0000-0000-0000-000000000000"

same_type_refl : (k : AssignableType) → same_type k k ≡ true
unfolding same_type
same_type_refl AssignableType.extension = refl
same_type_refl AssignableType.sip_trunk = refl
same_type_refl AssignableType.tenant = refl

module _ (tenant_id plan_id : String) (type : AssignableType) (x : String)
    (given : str_eq x zero_id ≡ false) where
  is_not_distinct-coalesce :
      (o : Option String) → is_not_distinct o (some x) ≡ str_eq (coalesce o) (coalesce (some x))
  unfolding is_not_distinct coalesce or_else
  is_not_distinct-coalesce none = ground (arith, given, eq_iff x zero_id, eq_iff zero_id x)
  is_not_distinct-coalesce (some y) = refl

  is_assignment-conflicts :
      (a : Assignment)
      → is_assignment tenant_id type (some x) a ≡ conflicts tenant_id type (some x) a
  unfolding is_assignment conflicts
  is_assignment-conflicts a = rw (is_not_distinct-coalesce a.assignable_id) refl

  -- The assignment that is found has the plan.
  abbrev pub Finds : List Assignment → Type 0
  Finds rows =
      (a : Assignment) × ((find (is_assignment tenant_id type (some x)) rows ≡ some a)
        × (a.plan_id ≡ plan_id))

  Finds-tail :
      (b : Assignment) (rows : List Assignment)
      → is_assignment tenant_id type (some x) b ≡ false
      → Finds rows
      → Finds (b ∷ rows)
  Finds-tail b rows e h = (h.0, (rw e h.1.0, h.1.1))

  conflicts-with_plan :
      (a : Assignment)
      → conflicts tenant_id type (some x) (with_plan plan_id a)
        ≡ conflicts tenant_id type (some x) a
  unfolding conflicts with_plan
  conflicts-with_plan a = refl

  plan-with_plan : (a : Assignment) → (with_plan plan_id a).plan_id ≡ plan_id
  unfolding with_plan
  plan-with_plan a = refl

  Finds-map :
      (rows : List Assignment)
      → any (conflicts tenant_id type (some x)) rows ≡ true
      → Finds (
          map
            (λ (a : Assignment).
              if conflicts tenant_id type (some x) a then with_plan plan_id a else a)
            rows)
  Finds-map [] h = cc
  Finds-map (b ∷ rows) h = elim (Bool-cases (conflicts tenant_id type (some x) b)) [
    | inl e ↦ rw e (
      with_plan plan_id b,
      (
        rw (is_assignment-conflicts (with_plan plan_id b)) (rw (conflicts-with_plan b) (rw e refl)),
        plan-with_plan b,
      ),
    )
    | inr ne ↦ rw ne (Finds-tail b _ (is_assignment-conflicts b ∙ ne) (Finds-map rows (rw ne at h)))
  ]

  Finds-push :
      (a : Assignment) (rows : List Assignment)
      → conflicts tenant_id type (some x) a ≡ true
      → a.plan_id ≡ plan_id
      → any (conflicts tenant_id type (some x)) rows ≡ false
      → Finds (push rows a)
  Finds-push a [] c e h = (a, (rw (is_assignment-conflicts a) (rw c refl), e))
  Finds-push a (b ∷ rows) c e h =
      Finds-tail b (push rows a) (is_assignment-conflicts b ∙ (ground (arith, h)))
        (Finds-push a rows c e (ground (arith, h)))

  module _ (new_id : String) (now : ℕ) where
    assigned : Assignment
    assigned = record {
      id = new_id;
      tenant_id = tenant_id;
      plan_id = plan_id;
      assignable_type = type;
      assignable_id = some x;
      created_at = now;
    }

    conflicts-assigned : conflicts tenant_id type (some x) assigned ≡ true
    unfolding conflicts assigned
    conflicts-assigned =
        rw (eq_refl tenant_id) (rw (same_type_refl type) (eq_refl (coalesce (some x))))

    Finds-upsert :
        (rows : List Assignment) → Finds (upsert new_id now tenant_id plan_id type (some x) rows)
    unfolding upsert assigned
    Finds-upsert rows = elim (Bool-cases (any (conflicts tenant_id type (some x)) rows)) [
      | inl e ↦ rw e (Finds-map rows e)
      | inr ne ↦ rw ne (Finds-push assigned rows conflicts-assigned refl ne)
    ]

    -- After a plan is assigned to an extension or a trunk whose id is not zero, `find_assignment` finds an
    -- assignment of it with the plan.
    pub find_assignment-assign :
        (t t' : Tables)
        → assign new_id now tenant_id plan_id type (some x) t ≡ ok t'
        → (a : Assignment) × ((find_assignment tenant_id type (some x) t' ≡ some a)
            × (a.plan_id ≡ plan_id))
    unfolding find_assignment
    find_assignment-assign t t' h =
        subst (λ (r : Tables). Finds r.assignments)
          (assign-upserted new_id now tenant_id plan_id type (some x) t t' h)
          (Finds-upsert t.assignments)
