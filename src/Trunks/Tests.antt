-- ===== src/Trunks/Tests.antt =====
-- A group of two trunks of which the first is down, and a site with a default route.
use manage_call_ai.Base.{String, ◌≡◌, refl, [], ◌∷◌, Option, none, some, insert_by, sort_by}
use manage_call_ai.Trunks.{
  Tables, GroupStatus, SelectionStrategy, GroupSimulation, find_group_by_id, joined_trunks,
  simulate_trunk_group,
}
use manage_call_ai.Trunks.Carrier.{resolve_carrier_for_site}
use manage_call_ai.Trunks.Selected.{Answers, simulate_trunk_group-Answers}
use manage_call_ai.Trunks.Resolved.{site_trunk, resolve_carrier_for_site-site_trunk}
use manage_call_ai.Trunks
use manage_call_ai.Trunks.Carrier

abbrev tables : Tables
tables = record {
  groups =
      record {
        id = "g";
        tenant_id = "t";
        name = "Carriers";
        description = none;
        selection_strategy = SelectionStrategy.by_priority;
        status = GroupStatus.active;
      }
      ∷ [];
  members =
      record {
        id = "m1";
        tenant_id = "t";
        trunk_group_id = "g";
        trunk_id = "backup";
        priority = 20;
        weight = 1;
      }
      ∷ record {
        id = "m2";
        tenant_id = "t";
        trunk_group_id = "g";
        trunk_id = "main";
        priority = 10;
        weight = 1;
      }
      ∷ [];
  trunks =
      record { id = "main"; tenant_id = "t"; name = "Main"; status = "inactive" }
      ∷ record { id = "backup"; tenant_id = "t"; name = "Backup"; status = "active" }
      ∷ [];
  sites =
      record { id = "s"; tenant_id = "t"; name = "Berlin"; default_outbound_route_id = some "r" }
      ∷ [];
  routes = record { id = "r"; tenant_id = "t"; name = "Out"; sip_trunk_id = some "main" } ∷ [];
}

abbrev selected : Option GroupSimulation → Option String
selected none = none
selected (some s) = s.selected_trunk_id

selected-tables : selected (simulate_trunk_group "g" "t" "112" 0 tables) ≡ some "backup"
unfolding insert_by sort_by Trunks.is_group Trunks.find_group_by_id Trunks.is_member_of
    Trunks.is_joined Trunks.joined Trunks.joined_trunks Trunks.find_trunk_names_for_group
    Trunks.is_active_trunk Trunks.role_at Trunks.is_null Trunks.failover_reason Trunks.would_attempt
    Trunks.walk_step Trunks.walk_on Trunks.walk_all Trunks.is_truthy Trunks.no_trunks_simulation
    Trunks.walked_simulation Trunks.start Trunks.simulate_trunks Trunks.simulate_found
    Trunks.simulate_trunk_group
selected-tables = refl

simulate_trunk_group-Answers_example :
    Answers
      (find_group_by_id "g" "t" tables)
      (joined_trunks "g" "t" tables)
      (simulate_trunk_group "g" "t" "112" 0 tables)
simulate_trunk_group-Answers_example = simulate_trunk_group-Answers "g" "t" "112" 0 tables

resolved-tables :
    (resolve_carrier_for_site "t" "112" (some "s") 0 tables).resolved_trunk_id ≡ some "main"
unfolding Carrier.is_site Carrier.find_site_with_defaults Carrier.is_route
    Carrier.find_outbound_route_trunk_info Carrier.via_trunk Carrier.via_route Carrier.no_default
    Carrier.via_default Carrier.via_site Carrier.no_site Carrier.trace_site Carrier.trace_result
    Carrier.resolve_carrier_for_site
resolved-tables = refl

resolve_carrier_for_site-site_trunk_example :
    (resolve_carrier_for_site "t" "112" (some "s") 0 tables).resolved_trunk_id
    ≡ site_trunk "t" tables (some "s")
resolve_carrier_for_site-site_trunk_example =
    resolve_carrier_for_site-site_trunk "t" "112" (some "s") 0 tables
