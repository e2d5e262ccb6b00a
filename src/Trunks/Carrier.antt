-- ===== src/Trunks/Carrier.antt =====
-- `resolveCarrierForSite` of apps/api/src/modules/trunk-groups/trunk-group.service.ts.
use Prim.Native.String.{◌++◌ as str_append}
use manage_call_ai.Base.{
  ℕ, String, Bool, true, ◌&&◌, List, [], ◌∷◌, Option, none, some, push, find, str_eq, if◌then◌else◌,
}
use manage_call_ai.Trunks.{Site, OutboundRoute, Tables, is_truthy}

pub record CarrierResolutionTrace : Type 0 where
  pub site_id : Option String
  pub site_name : Option String
  pub dial_string : String
  pub default_outbound_route_id : Option String
  pub resolved_trunk_group_id : Option String
  pub resolved_trunk_id : Option String
  pub resolution_path : List String
  pub is_advisory : Bool
  pub resolved_at : ℕ

-- The variables of the function.
pub record Trace : Type 0 where
  pub path : List String
  pub site_name : Option String
  pub route_id : Option String
  pub trunk_id : Option String

unfoldable pub is_site : String → String → Site → Bool
is_site id tenant_id s = str_eq s.id id && str_eq s.tenant_id tenant_id

unfoldable pub find_site_with_defaults : String → String → Tables → Option Site
find_site_with_defaults id tenant_id t = find (is_site id tenant_id) t.sites

unfoldable pub is_route : String → String → OutboundRoute → Bool
is_route id tenant_id r = str_eq r.id id && str_eq r.tenant_id tenant_id

unfoldable pub find_outbound_route_trunk_info : String → String → Tables → Option OutboundRoute
find_outbound_route_trunk_info id tenant_id t = find (is_route id tenant_id) t.routes

unfoldable pub via_trunk : Option String → String → Trace → Trace
via_trunk none name w = record {
  path = push w.path "Site default route found but has no trunk assigned.";
  site_name = w.site_name;
  route_id = w.route_id;
  trunk_id = none;
}
via_trunk (some id) name w =
    if str_eq id ""
    then record {
      path = push w.path "Site default route found but has no trunk assigned.";
      site_name = w.site_name;
      route_id = w.route_id;
      trunk_id = none;
    }
    else record {
      path = push w.path (
          str_append "Resolved to trunk "
            (str_append id (str_append " via site default route \"" (str_append name "\"."))));
      site_name = w.site_name;
      route_id = w.route_id;
      trunk_id = some id;
    }

unfoldable pub via_route : Option OutboundRoute → Trace → Trace
via_route none w = via_trunk none "" w
via_route (some r) w = via_trunk r.sip_trunk_id r.name w

unfoldable pub no_default : Trace → Trace
no_default w = record {
  path = push w.path "Site has no default outbound route — falling back to global routing.";
  site_name = w.site_name;
  route_id = w.route_id;
  trunk_id = none;
}

unfoldable pub via_default : String → Tables → Option String → Trace → Trace
via_default tenant_id t none w = no_default w
via_default tenant_id t (some id) w =
    if str_eq id ""
    then no_default w
    else via_route (find_outbound_route_trunk_info id tenant_id t) record {
      path = push w.path (str_append "Site has default outbound route (" (str_append id ")."));
      site_name = w.site_name;
      route_id = w.route_id;
      trunk_id = none;
    }

unfoldable pub via_site : String → String → Tables → Option Site → Trace
via_site site_id tenant_id t none = record {
  path = str_append "Site " (str_append site_id " not found — using global routing.") ∷ [];
  site_name = none;
  route_id = none;
  trunk_id = none;
}
via_site site_id tenant_id t (some s) = via_default tenant_id t s.default_outbound_route_id record {
  path = str_append "Site \"" (str_append s.name "\" found.") ∷ [];
  site_name = some s.name;
  route_id = s.default_outbound_route_id;
  trunk_id = none;
}

unfoldable pub no_site : Trace
no_site = record {
  path = "No site specified — using global routing." ∷ [];
  site_name = none;
  route_id = none;
  trunk_id = none;
}

unfoldable pub trace_site : String → Tables → Option String → Trace
trace_site tenant_id t none = no_site
trace_site tenant_id t (some id) =
    if str_eq id ""
    then no_site
    else via_site id tenant_id t (find_site_with_defaults id tenant_id t)

unfoldable pub final_path : String → Trace → List String
final_path dial_string w =
    if is_truthy w.trunk_id
    then w.path
    else push w.path (
        str_append "No site-local carrier resolved for \"" (
          str_append dial_string
            "\". Operator must configure global outbound route or site default."))

unfoldable pub trace_result : String → Option String → ℕ → Trace → CarrierResolutionTrace
trace_result dial_string site_id now w = record {
  site_id = site_id;
  site_name = w.site_name;
  dial_string = dial_string;
  default_outbound_route_id = w.route_id;
  resolved_trunk_group_id = none;
  resolved_trunk_id = w.trunk_id;
  resolution_path = final_path dial_string w;
  is_advisory = true;
  resolved_at = now;
}

unfoldable pub resolve_carrier_for_site :
    String → String → Option String → ℕ → Tables → CarrierResolutionTrace
resolve_carrier_for_site tenant_id dial_string site_id now t =
    trace_result dial_string site_id now (trace_site tenant_id t site_id)
