-- ===== src/Trunks/Selected.antt =====
-- Which trunk `simulateTrunkGroup` of apps/api/src/modules/trunk-groups/trunk-group.service.ts selects.
use manage_call_ai.Base.{
  ℕ, String, ◌≡◌, refl, ◌∙◌, Bool, true, false, ◌&&◌, List, [], ◌∷◌, ◌++◌, map, Option, none, some,
  push, find, keep, if◌then◌else◌, arith, sort_by, IsLeast, find-sort_by, IsLeast-of_sort_by,
}
use manage_call_ai.Trunks.{
  Trunk, Tables, SimulationStep, GroupSimulation, TrunkGroup, Walk, is_active_trunk, is_null,
  would_attempt, walk_step, walk_on, walk_all, start, simulate_trunks, simulate_found,
  simulate_trunk_group, joined_trunks, no_trunks_simulation, walked_simulation,
  find_trunk_names_for_group, find_group_by_id,
}

-- The trunks that the steps would attempt.
abbrev pub attempted : List SimulationStep → List String
attempted steps =
    map (λ (s : SimulationStep). s.trunk_id) (keep (λ (s : SimulationStep). s.would_attempt) steps)

abbrev pub to_list : Option String → List String
to_list none = []
to_list (some id) = id ∷ []

abbrev id_of : Option Trunk → Option String
id_of none = none
id_of (some r) = some r.id

abbrev first_of : Option String → Option String → Option String
first_of none o = o
first_of (some id) o = some id

attempted-push :
    (steps : List SimulationStep) (s : SimulationStep)
    → attempted (push steps s)
      ≡ attempted steps ++ (if s.would_attempt then s.trunk_id ∷ [] else [])
attempted-push [] s = ground arith
attempted-push (x ∷ xs) s = ground (arith, attempted-push xs s)

first_of-none : (o : Option String) → o ≡ first_of o none
first_of-none none = refl
first_of-none (some id) = refl

first_of-if :
    (r : Trunk) (o : Option String) (p : Bool) (rest : Option Trunk)
    → first_of (if p && is_null o then some r.id else o) (id_of rest)
      ≡ first_of o (id_of (if p then some r else rest))
unfolding is_null
first_of-if r none true rest = refl
first_of-if r none false rest = refl
first_of-if r (some id) true rest = refl
first_of-if r (some id) false rest = refl

append-if :
    (id : String) (xs : List String) (o : Option String) (p : Bool)
    → xs ≡ to_list o
    → xs ++ (if p && is_null o then id ∷ [] else [])
      ≡ to_list (if p && is_null o then some id else o)
unfolding is_null
append-if id xs none true h = rw h refl
append-if id xs none false h = rw h refl
append-if id xs (some x) true h = rw h refl
append-if id xs (some x) false h = rw h refl

-- What is selected is what was, or the first active trunk.
walk_all-selected :
    (rs : List Trunk) (w : Walk)
    → (walk_all rs w).selected ≡ first_of w.selected (id_of (find is_active_trunk rs))
unfolding walk_all walk_on would_attempt
walk_all-selected [] w = first_of-none w.selected
walk_all-selected (r ∷ rs) w =
    walk_all-selected rs (walk_on r w)
    ∙ first_of-if r w.selected (is_active_trunk r) (find is_active_trunk rs)

walk_all-attempted :
    (rs : List Trunk) (w : Walk)
    → attempted w.steps ≡ to_list w.selected
    → attempted (walk_all rs w).steps ≡ to_list (walk_all rs w).selected
unfolding walk_all walk_on walk_step would_attempt
walk_all-attempted [] w h = h
walk_all-attempted (r ∷ rs) w h = walk_all-attempted rs (walk_on r w) (
    attempted-push w.steps (walk_step r w)
    ∙ append-if r.id (attempted w.steps) w.selected (is_active_trunk r) h)

-- The steps would attempt the selected trunk alone: an active one that no active one is before, if there is one.
abbrev pub Selects : List Trunk → GroupSimulation → Type 0
Selects rows s =
    (o : Option Trunk) × (IsLeast (λ r. r.priority) is_active_trunk rows o
      × (s.selected_trunk_id ≡ id_of o)
      × (attempted s.steps ≡ to_list s.selected_trunk_id))

simulate_trunks-Selects :
    (g : TrunkGroup) (group_id dial_string : String) (now : ℕ) (rows : List Trunk)
    → Selects rows (simulate_trunks g group_id dial_string now rows)
unfolding simulate_trunks no_trunks_simulation walked_simulation start
simulate_trunks-Selects g group_id dial_string now [] = (none, (tt, refl, refl))
simulate_trunks-Selects g group_id dial_string now (r ∷ rs) = (
  find is_active_trunk (sort_by (λ x. x.priority) (r ∷ rs)),
  (
    find-sort_by (λ x. x.priority) is_active_trunk (r ∷ rs),
    walk_all-selected (sort_by (λ x. x.priority) (r ∷ rs)) start,
    walk_all-attempted (sort_by (λ x. x.priority) (r ∷ rs)) start refl,
  ),
)

-- Without a group there is no simulation, with one it selects from the rows.
abbrev pub Answers : Option TrunkGroup → List Trunk → Option GroupSimulation → Type 0
Answers none rows none = Unit
Answers (some g) rows (some s) = Selects rows s
Answers g rows s = ⊥

simulate_found-Answers :
    (g : Option TrunkGroup) (group_id tenant_id dial_string : String) (now : ℕ) (t : Tables)
    → Answers g
        (joined_trunks group_id tenant_id t)
        (simulate_found g group_id tenant_id dial_string now t)
unfolding simulate_found find_trunk_names_for_group
simulate_found-Answers none group_id tenant_id dial_string now t = tt
simulate_found-Answers (some g) group_id tenant_id dial_string now t =
    let rows = joined_trunks group_id tenant_id t in
    let h = simulate_trunks-Selects g group_id dial_string now (sort_by (λ x. x.priority) rows) in
    (h.0, (IsLeast-of_sort_by (λ x. x.priority) is_active_trunk rows h.0 h.1.0, h.1.1, h.1.2))

-- `simulate_trunk_group` gives a simulation just if the tenant has the group. It then selects an active trunk
-- of the group that no active trunk of the group is before in priority, and none if no trunk of the group is
-- active; the steps would attempt just the selected trunk.
pub simulate_trunk_group-Answers :
    (group_id tenant_id dial_string : String) (now : ℕ) (t : Tables)
    → Answers
        (find_group_by_id group_id tenant_id t)
        (joined_trunks group_id tenant_id t)
        (simulate_trunk_group group_id tenant_id dial_string now t)
unfolding simulate_trunk_group
simulate_trunk_group-Answers group_id tenant_id dial_string now t =
    simulate_found-Answers (find_group_by_id group_id tenant_id t) group_id tenant_id dial_string
      now t
