-- ===== src/Trunks.antt =====
-- apps/api/src/modules/trunk-groups: the tables of trunk-group.repository.ts that the simulation and the
-- resolution for a site read, `simulateTrunkGroup` and `resolveCarrierForSite` of trunk-group.service.ts. The
-- instant of the call is an argument. A priority is a number from 1, as the controller checks. The order
-- that `ORDER BY` leaves open is that of the table.
mod Carrier
mod Resolved
mod Selected
mod Tests
use Prim.Native.String.{◌++◌ as str_append}
use manage_call_ai.Base.{
  ℕ, String, Bool, true, false, ◌&&◌, List, [], ◌∷◌, map, Option, none, some, push, find, keep,
  flat_map, zero, suc, is_empty, str_eq, if◌then◌else◌, sort_by, ◌+◌,
}

pub data GroupStatus : Type 0 where
  active inactive : GroupStatus

pub data SelectionStrategy : Type 0 where
  by_priority round_robin weight : SelectionStrategy

pub record TrunkGroup : Type 0 where
  pub id : String
  pub tenant_id : String
  pub name : String
  pub description : Option String
  pub selection_strategy : SelectionStrategy
  pub status : GroupStatus

pub record Member : Type 0 where
  pub id : String
  pub tenant_id : String
  pub trunk_group_id : String
  pub trunk_id : String
  pub priority : ℕ
  pub weight : ℕ

-- The columns of `sip_trunks` that are read here.
pub record SipTrunk : Type 0 where
  pub id : String
  pub tenant_id : String
  pub name : String
  pub status : String

-- The columns of `sites` and `outbound_routes` that are read here.
pub record Site : Type 0 where
  pub id : String
  pub tenant_id : String
  pub name : String
  pub default_outbound_route_id : Option String

pub record OutboundRoute : Type 0 where
  pub id : String
  pub tenant_id : String
  pub name : String
  pub sip_trunk_id : Option String

pub record Tables : Type 0 where
  pub groups : List TrunkGroup
  pub members : List Member
  pub trunks : List SipTrunk
  pub sites : List Site
  pub routes : List OutboundRoute

-- A row of `findTrunkNamesForGroup`.
pub record Trunk : Type 0 where
  pub id : String
  pub name : String
  pub status : String
  pub priority : ℕ

unfoldable pub is_group : String → String → TrunkGroup → Bool
is_group id tenant_id g = str_eq g.id id && str_eq g.tenant_id tenant_id

unfoldable pub find_group_by_id : String → String → Tables → Option TrunkGroup
find_group_by_id id tenant_id t = find (is_group id tenant_id) t.groups

unfoldable pub is_member_of : String → String → Member → Bool
is_member_of group_id tenant_id m = str_eq m.trunk_group_id group_id && str_eq m.tenant_id tenant_id

unfoldable pub is_joined : Member → SipTrunk → Bool
is_joined m s = str_eq s.id m.trunk_id && str_eq s.tenant_id m.tenant_id

unfoldable pub joined : Member → SipTrunk → Trunk
joined m s = record { id = s.id; name = s.name; status = s.status; priority = m.priority }

-- The rows of the query, before `ORDER BY`.
unfoldable pub joined_trunks : String → String → Tables → List Trunk
joined_trunks group_id tenant_id t =
    flat_map (λ m. map (joined m) (keep (is_joined m) t.trunks))
      (keep (is_member_of group_id tenant_id) t.members)

unfoldable pub find_trunk_names_for_group : String → String → Tables → List Trunk
find_trunk_names_for_group group_id tenant_id t =
    sort_by (λ r. r.priority) (joined_trunks group_id tenant_id t)

pub data Outcome : Type 0 where
  routed no_trunks all_failed : Outcome

pub data TrunkRole : Type 0 where
  primary failover : TrunkRole

pub record SimulationStep : Type 0 where
  pub trunk_id : String
  pub trunk_name : String
  pub role : TrunkRole
  pub priority : ℕ
  pub would_attempt : Bool
  pub failover_reason : Option String

pub record GroupSimulation : Type 0 where
  pub trunk_group_id : String
  pub trunk_group_name : String
  pub selection_strategy : SelectionStrategy
  pub dial_string : String
  pub outcome : Outcome
  pub selected_trunk_id : Option String
  pub steps : List SimulationStep
  pub is_advisory : Bool
  pub simulated_at : ℕ

unfoldable pub is_active_trunk : Trunk → Bool
is_active_trunk r = str_eq r.status "active"

-- What the loop over the trunks has in hand: the next index, the steps and `selectedTrunkId`.
pub record Walk : Type 0 where
  pub i : ℕ
  pub steps : List SimulationStep
  pub selected : Option String

unfoldable pub role_at : ℕ → TrunkRole
role_at zero = primary
role_at (suc i) = failover

unfoldable pub is_null : Option String → Bool
is_null none = true
is_null (some id) = false

unfoldable pub failover_reason : Trunk → Option String
failover_reason r =
    if is_active_trunk r
    then none
    else some (
        str_append "Trunk \""
          (str_append r.name (str_append "\" is " (str_append r.status " — skipped."))))

unfoldable pub would_attempt : Trunk → Option String → Bool
would_attempt r selected = is_active_trunk r && is_null selected

unfoldable pub walk_step : Trunk → Walk → SimulationStep
walk_step r w = record {
  trunk_id = r.id;
  trunk_name = r.name;
  role = role_at w.i;
  priority = r.priority;
  would_attempt = would_attempt r w.selected;
  failover_reason = failover_reason r;
}

unfoldable pub walk_on : Trunk → Walk → Walk
walk_on r w = record {
  i = w.i + 1;
  steps = push w.steps (walk_step r w);
  selected = if would_attempt r w.selected then some r.id else w.selected;
}

unfoldable pub walk_all : List Trunk → Walk → Walk
walk_all [] w = w
walk_all (r ∷ rs) w = walk_all rs (walk_on r w)

unfoldable pub is_truthy : Option String → Bool
is_truthy none = false
is_truthy (some id) = if str_eq id "" then false else true

unfoldable pub no_trunks_simulation : TrunkGroup → String → String → ℕ → GroupSimulation
no_trunks_simulation g group_id dial_string now = record {
  trunk_group_id = group_id;
  trunk_group_name = g.name;
  selection_strategy = g.selection_strategy;
  dial_string = dial_string;
  outcome = no_trunks;
  selected_trunk_id = none;
  steps = [];
  is_advisory = true;
  simulated_at = now;
}

unfoldable pub walked_simulation : TrunkGroup → String → String → ℕ → Walk → GroupSimulation
walked_simulation g group_id dial_string now w = record {
  trunk_group_id = group_id;
  trunk_group_name = g.name;
  selection_strategy = g.selection_strategy;
  dial_string = dial_string;
  outcome = if is_truthy w.selected then routed else all_failed;
  selected_trunk_id = w.selected;
  steps = w.steps;
  is_advisory = true;
  simulated_at = now;
}

unfoldable pub start : Walk
start = record { i = 0; steps = []; selected = none }

unfoldable pub simulate_trunks : TrunkGroup → String → String → ℕ → List Trunk → GroupSimulation
simulate_trunks g group_id dial_string now rows =
    if is_empty rows
    then no_trunks_simulation g group_id dial_string now
    else walked_simulation g group_id dial_string now
        (walk_all (sort_by (λ r. r.priority) rows) start)

unfoldable pub simulate_found :
    Option TrunkGroup → String → String → String → ℕ → Tables → Option GroupSimulation
simulate_found none group_id tenant_id dial_string now t = none
simulate_found (some g) group_id tenant_id dial_string now t =
    some
      (simulate_trunks g group_id dial_string now (find_trunk_names_for_group group_id tenant_id t))

-- `none` is the `TrunkGroupNotFoundError`.
unfoldable pub simulate_trunk_group : String → String → String → ℕ → Tables → Option GroupSimulation
simulate_trunk_group group_id tenant_id dial_string now t =
    simulate_found (find_group_by_id group_id tenant_id t) group_id tenant_id dial_string now t
