-- ===== src/Ivr/Simulation/Walks.antt =====
-- How a simulation ends on a graph that passed the validation.
use manage_call_ai.Base.{
  ℕ, zero, suc, ◌+◌, String, ◌≡◌, refl, sym, ap, ◌∙◌, subst, true, false, Bool, if◌then◌else◌, List,
  [], ◌∷◌, length, push, Option, none, some, arith, str_eq, eq_iff, str_eq_sym, if_elim, if_split,
  map_get,
}
use manage_call_ai.Json.{string_field, string_or_empty}
use manage_call_ai.Schedule.Types.{Schedule}
use manage_call_ai.Schedule.Hours.{Intl}
use manage_call_ai.Ivr.NodeType.{get_node_category}
use manage_call_ai.Ivr.Graph.{GraphNode, find_node}
use manage_call_ai.Ivr.Edges.{Edge}
use manage_call_ai.Ivr.Planner.{
  PlannerNode, PlannerGraph, PlannerStepResult, planner_node, resolve_next_node, after_hours, along,
}
use manage_call_ai.Ivr.Planner.Follows.{resolve_next_node-Edge}
use manage_call_ai.Ivr.Planner.Takes.{Takes, resolve_next_node-Takes}
use manage_call_ai.Ivr.Planner.Nodes.{planned}
use manage_call_ai.Ivr.Simulation.{
  SimulationScenario, FinalAction, SimulationOutcome, schedule_not_found, unsupported_type,
  traversal_exceeded, Walk, Turn, done, goto, passes, fails, terminal_action, enter, at_node,
  take_digits, collected, collect, set_variable, collect_outcome, context, moved, is_end,
  moved_or_unsupported, task_turn, hours_turn, in_hours, eval_at, turn_unless, turn, after_turn,
  run,
}

-- A walk through the graph: the ids it went through, and where it is.
pub data Visits (nodes : List GraphNode) (entry : String) : List String → String → Type 0 where
  begins : Visits nodes entry [] entry
  goes_on :
      {path : List String} {id : String} (n : GraphNode) (target : String)
      → Visits nodes entry path id
      → find_node id nodes ≡ some n
      → Edge n target
      → Visits nodes entry (push path id) target

-- A walk that ends at a node of the graph.
pub record IsAt (nodes : List GraphNode) (entry : String) (n : GraphNode) (id : String)
    (path : List String) : Type 0 where
  pub before : List String
  pub walked : Visits nodes entry before id
  pub found : find_node id nodes ≡ some n
  pub path_is : path ≡ push before id

-- A node of business hours whose schedule is there, but not the target that the hours call for.
abbrev pub LacksHoursTarget :
    SimulationScenario → Intl → ℕ → List (String × Schedule) → GraphNode → Type 0
LacksHoursTarget s intl clock schedules n =
    (n.type ≡ "business_hours")
    × ((h : Schedule) × ((map_get (string_or_empty "schedule_id" n.raw) schedules ≡ some h)
          × (string_field
                (if in_hours s intl clock schedules h (eval_at s intl clock schedules s.now)
                  then "in_hours_node_id"
                  else "out_of_hours_node_id")
                n.raw
              ≡ none)))

-- How a simulation ends: at a node with a final action, at business hours without an active schedule or
-- without the target for the hour, at another node that takes no next node, before an empty target, or after
-- 100 nodes.
pub data Ended (nodes : List GraphNode) (entry : String) (s : SimulationScenario) (intl : Intl)
    (clock : ℕ) (schedules : List (String × Schedule)) : SimulationOutcome → Type 0 where
  arrives :
      (n : GraphNode) (id : String) (a : FinalAction) (w : Walk)
      → IsAt nodes entry n id w.path
      → terminal_action (planner_node n) ≡ some a
      → Ended nodes entry s intl clock schedules (passes a w)
  lacks_schedule :
      (n : GraphNode) (id : String) (w : Walk)
      → IsAt nodes entry n id w.path
      → n.type ≡ "business_hours"
      → map_get (string_or_empty "schedule_id" n.raw) schedules ≡ none
      → Ended nodes entry s intl clock schedules
          (fails (schedule_not_found id (string_or_empty "schedule_id" n.raw)) w)
  lacks_target :
      (n : GraphNode) (id : String) (w : Walk)
      → IsAt nodes entry n id w.path
      → terminal_action (planner_node n) ≡ none
      → str_eq n.type "business_hours" ≡ false
      → Takes n (context s w none) (collect_outcome s (planner_node n) id) none
      → Ended nodes entry s intl clock schedules (fails (unsupported_type id n.type) w)
  lacks_hours_target :
      (n : GraphNode) (id : String) (w : Walk)
      → IsAt nodes entry n id w.path
      → LacksHoursTarget s intl clock schedules n
      → Ended nodes entry s intl clock schedules (fails traversal_exceeded w)
  meets_empty_target :
      (w : Walk)
      → Visits nodes entry w.path ""
      → Ended nodes entry s intl clock schedules (fails traversal_exceeded w)
  exceeds :
      (id : String) (w : Walk)
      → Visits nodes entry w.path id
      → length w.path ≡ 100
      → Ended nodes entry s intl clock schedules (fails traversal_exceeded w)

pub length-push {ℓ} : {A : Type ℓ} (xs : List A) (x : A) → length (push xs x) ≡ suc (length xs)
length-push [] x = refl
length-push (y ∷ ys) x = ap suc (length-push ys x)

-- The terminal nodes are those of the category `end`.
pub is_end-terminal :
    (s : SimulationScenario) (n : GraphNode)
    → terminal_action (planner_node n) ≡ none
    → is_end s (get_node_category n.type) ≡ false
unfolding terminal_action get_node_category
is_end-terminal s n h =
    let transfer : str_eq n.type "transfer_extension" ≡ false = ground (arith, h) in
    let queue : str_eq n.type "queue" ≡ false = ground (arith, h) in
    let voicemail : str_eq n.type "voicemail_drop" ≡ false = ground (arith, h) in
    let hangup : str_eq n.type "hangup" ≡ false = ground (arith, h) in
    ground (
      arith,
      transfer,
      queue,
      voicemail,
      hangup,
      str_eq_sym n.type "transfer_extension",
      str_eq_sym n.type "queue",
      str_eq_sym n.type "voicemail_drop",
      str_eq_sym n.type "hangup",
    )

path-take_digits : (id : String) (o : Option String) (w : Walk) → (take_digits id o w).path ≡ w.path
unfolding take_digits
path-take_digits id none w = refl
path-take_digits id (some d) w = refl

module _ (s : SimulationScenario) (n : PlannerNode) where
  path-collect : (id : String) (w : Walk) → (collect s n id w).path ≡ w.path
  unfolding collect take_digits
  path-collect id w =
      if_elim (λ (x : Walk). x.path ≡ w.path) _ refl (path-take_digits id (collected s id) w)

  path-set_variable : (w : Walk) → (set_variable s n w).path ≡ w.path
  unfolding set_variable
  path-set_variable w = if_elim (λ (x : Walk). x.path ≡ w.path) _ refl refl

module _ (nodes : List GraphNode) (entry : String) (s : SimulationScenario) (intl : Intl)
    (clock : ℕ) (schedules : List (String × Schedule)) where
  -- The next node is on the walk; without one, the node before has business hours and lacks the target.
  abbrev At : Option String → Walk → Type 0
  At (some next) w = Visits nodes entry w.path next
  At none w =
      (n : GraphNode) × ((id : String) × (IsAt nodes entry n id w.path
          × LacksHoursTarget s intl clock schedules n))

  abbrev Goes : List String → String → Turn → Type 0
  Goes path id (done o) = Ended nodes entry s intl clock schedules o
  Goes path id (goto next w) = At next w × (w.path ≡ push path id)

  moved-Goes :
      (n : GraphNode) (path : List String) (id : String) (o : Option String) (r : PlannerStepResult)
      (w : Walk)
      → r.next_node_id ≡ o
      → ((target : String) → o ≡ some target → Edge n target)
      → Visits nodes entry path id
      → find_node id nodes ≡ some n
      → w.path ≡ push path id
      → ((o ≡ none) → LacksHoursTarget s intl clock schedules n)
      → Goes path id (moved s r w)
  moved-Goes n path id none r w e edge v f p b =
      let at : IsAt nodes entry n id w.path = record {
        before = path;
        walked = v;
        found = f;
        path_is = p;
      } in
      rw e ((n, (id, (at, b refl))), p)
  moved-Goes n path id (some target) r w e edge v f p b = rw e (
    subst (λ x. Visits nodes entry x target) (sym p) (goes_on n target v f (edge target refl)),
    p,
  )

  -- A node that is neither terminal nor has business hours.
  unsupported-Goes :
      (n : GraphNode) (path : List String) (id : String) (o : Option String) (r : PlannerStepResult)
      (w : Walk)
      → r.next_node_id ≡ o
      → ((target : String) → o ≡ some target → Edge n target)
      → Visits nodes entry path id
      → find_node id nodes ≡ some n
      → w.path ≡ push path id
      → terminal_action (planner_node n) ≡ none
      → str_eq n.type "business_hours" ≡ false
      → Takes n (context s w none) (collect_outcome s (planner_node n) id) o
      → Goes path id (moved_or_unsupported s (planner_node n) id o r w)
  unfolding moved_or_unsupported
  unsupported-Goes n path id none r w e edge v f p t b takes =
      let at : IsAt nodes entry n id w.path = record {
        before = path;
        walked = v;
        found = f;
        path_is = p;
      } in
      rw (is_end-terminal s n t) (lacks_target n id w at t b takes)
  unsupported-Goes n path id (some target) r w e edge v f p t b takes =
      moved-Goes n path id (some target) r w e edge v f p (λ x. absurd (none_some x))
    where
      none_some : some target ≡ none → ⊥
      none_some x = cc

  task_turn-Goes :
      (n : GraphNode) (path : List String) (id : String) (w : Walk)
      → Visits nodes entry path id
      → find_node id nodes ≡ some n
      → w.path ≡ push path id
      → terminal_action (planner_node n) ≡ none
      → str_eq n.type "business_hours" ≡ false
      → Goes path id (task_turn s (planner_node n) id w)
  unfolding task_turn
  task_turn-Goes n path id w v f p t b =
      let pn = planner_node n in
      let w' = set_variable s pn (collect s pn id w) in
      let r = resolve_next_node pn (context s w' none) (collect_outcome s pn id) in
      unsupported-Goes n path id r.next_node_id r w' refl
        (λ target. resolve_next_node-Edge n (context s w' none) (collect_outcome s pn id) target) v
        f (path-set_variable s pn (collect s pn id w) ∙ path-collect s pn id w ∙ p) t b
        (resolve_next_node-Takes n (context s w' none) (collect_outcome s pn id))

  hours-next :
      (n : GraphNode) (open_now : Bool) (w : Walk)
      → n.type ≡ "business_hours"
      → (resolve_next_node
          (planner_node n)
          (context s w (some λ x. some open_now))
          none).next_node_id
        ≡ string_field (if open_now then "in_hours_node_id" else "out_of_hours_node_id") n.raw
  unfolding resolve_next_node after_hours along context
  hours-next n true w t = rw t refl
  hours-next n false w t = rw t refl

  hours_turn-Goes :
      (n : GraphNode) (path : List String) (id : String) (w : Walk) (o : Option Schedule)
      → n.type ≡ "business_hours"
      → map_get (string_or_empty "schedule_id" n.raw) schedules ≡ o
      → Visits nodes entry path id
      → find_node id nodes ≡ some n
      → w.path ≡ push path id
      → Goes path id (
          hours_turn s intl clock schedules
            (planner_node n)
            id
            (string_or_empty "schedule_id" n.raw)
            o
            w)
  unfolding hours_turn
  hours_turn-Goes n path id w none t e v f p =
      lacks_schedule n id w (record { before = path; walked = v; found = f; path_is = p }) t e
  hours_turn-Goes n path id w (some h) t e v f p =
      let open_now = in_hours s intl clock schedules h (eval_at s intl clock schedules s.now) in
      let ctx = context s w (some λ x. some open_now) in
      let r = resolve_next_node (planner_node n) ctx none in
      moved-Goes n path id r.next_node_id r w refl
        (λ target. resolve_next_node-Edge n ctx none target) v f p
        (λ x. (t, (h, (e, sym (hours-next n open_now w t) ∙ x))))

  turn-Goes :
      (n : GraphNode) (path : List String) (id : String) (w : Walk) (o : Option FinalAction)
      → terminal_action (planner_node n) ≡ o
      → Visits nodes entry path id
      → find_node id nodes ≡ some n
      → w.path ≡ push path id
      → Goes path id (turn_unless s intl clock schedules o (planner_node n) id w)
  unfolding turn_unless
  turn-Goes n path id w (some a) e v f p =
      arrives n id a w (record { before = path; walked = v; found = f; path_is = p }) e
  turn-Goes n path id w none e v f p =
      if_split (Goes path id) (str_eq n.type "business_hours")
        (λ t.
          hours_turn-Goes n path id w (map_get (string_or_empty "schedule_id" n.raw) schedules)
            ((eq_iff n.type "business_hours").0 t) refl v f p)
        (λ b. task_turn-Goes n path id w v f p e b)

  after_turn-Ended :
      (path : List String) (id : String) (t : Turn)
      (more : Option String → Walk → SimulationOutcome)
      → Goes path id t
      → ((next : Option String) (w : Walk)
          → At next w
          → w.path ≡ push path id
          → Ended nodes entry s intl clock schedules (more next w))
      → Ended nodes entry s intl clock schedules (after_turn s intl clock schedules t more)
  unfolding after_turn
  after_turn-Ended path id (done o) more g k = g
  after_turn-Ended path id (goto next w) more g k = k next w g.0 g.1

  module _ (planner : PlannerGraph)
      (looks_up : (id : String) → map_get id planner.nodes ≡ planned (find_node id nodes) none)
      (exists : (path : List String) (id : String)
        → Visits nodes entry path id
        → (n : GraphNode) × (find_node id nodes ≡ some n)) where
    -- The loop, from a place on a walk through the graph.
    pub run-Ended :
        (fuel : ℕ) (next : Option String) (w : Walk)
        → At next w
        → length w.path + fuel ≡ 100
        → Ended nodes entry s intl clock schedules (run s intl clock schedules planner fuel next w)
    unfolding run turn enter
    run-Ended zero none w (n, (id, (at, t))) l = lacks_hours_target n id w at t
    run-Ended (suc fuel) none w (n, (id, (at, t))) l = lacks_hours_target n id w at t
    run-Ended zero (some id) w v l = exceeds id w v (omega arith)
    run-Ended (suc fuel) (some id) w v l =
        let (n, f) = exists w.path id v in
        let more : (next : Option String) (u : Walk)
            → At next u
            → u.path ≡ push w.path id
            → Ended nodes entry s intl clock schedules
                (run s intl clock schedules planner fuel next u) =
          λ next u a p. run-Ended fuel next u a (longer u p l) in
        if_split (Ended nodes entry s intl clock schedules) (str_eq id "")
          (λ e.
            meets_empty_target w (subst (λ x. Visits nodes entry w.path x) ((eq_iff id "").0 e) v))
          (λ _.
            rw (looks_up id, f)
              (after_turn-Ended w.path id
                (turn_unless s intl clock schedules (terminal_action (planner_node n))
                  (planner_node n) id (enter (planner_node n) id (at_node id w)))
                (run s intl clock schedules planner fuel)
                (turn-Goes n w.path id (enter (planner_node n) id (at_node id w))
                  (terminal_action (planner_node n)) refl v f refl)
                more))
      where
        longer :
            (u : Walk)
            → u.path ≡ push w.path id
            → length w.path + suc fuel ≡ 100
            → length u.path + fuel ≡ 100
        longer u p l = rw (p, length-push w.path id) (omega (arith, l))
