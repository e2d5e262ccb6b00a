-- ===== src/Trunks/Resolved.antt =====
-- What `resolveCarrierForSite` of apps/api/src/modules/trunk-groups/trunk-group.service.ts resolves to.
use mathlib.Core.Option.{bind}
use manage_call_ai.Base.{
  ℕ, String, ◌≡◌, refl, inl, inr, Option, none, some, str_eq, if◌then◌else◌, Bool-cases,
}
use manage_call_ai.Trunks.{Site, OutboundRoute, Tables}
use manage_call_ai.Trunks.Carrier.{
  Trace, find_site_with_defaults, find_outbound_route_trunk_info, via_trunk, via_route, no_default,
  via_default, via_site, no_site, trace_site, trace_result, resolve_carrier_for_site,
}

-- An id that is given and not empty.
abbrev pub given : Option String → Option String
given none = none
given (some id) = if str_eq id "" then none else some id

-- The trunk of the default route of the site.
abbrev pub site_trunk : String → Tables → Option String → Option String
site_trunk tenant_id t site_id = bind (given site_id) λ s.
    bind (find_site_with_defaults s tenant_id t) λ (site : Site).
      bind (given site.default_outbound_route_id) λ r.
        bind (find_outbound_route_trunk_info r tenant_id t)
          λ (route : OutboundRoute). given route.sip_trunk_id

abbrev of_route : Option OutboundRoute → Option String
of_route o = bind o λ (route : OutboundRoute). given route.sip_trunk_id

via_trunk-given :
    (o : Option String) (name : String) (w : Trace) → (via_trunk o name w).trunk_id ≡ given o
unfolding via_trunk
via_trunk-given none name w = refl
via_trunk-given (some id) name w = elim (Bool-cases (str_eq id "")) [
  | inl e ↦ rw e refl
  | inr ne ↦ rw ne refl
]

via_route-of_route : (o : Option OutboundRoute) (w : Trace) → (via_route o w).trunk_id ≡ of_route o
unfolding via_route bind
via_route-of_route none w = via_trunk-given none "" w
via_route-of_route (some r) w = via_trunk-given r.sip_trunk_id r.name w

via_default-trunk :
    (tenant_id : String) (t : Tables) (o : Option String) (w : Trace)
    → (via_default tenant_id t o w).trunk_id
      ≡ bind (given o) λ r. of_route (find_outbound_route_trunk_info r tenant_id t)
unfolding via_default bind no_default
via_default-trunk tenant_id t none w = refl
via_default-trunk tenant_id t (some id) w = elim (Bool-cases (str_eq id "")) [
  | inl e ↦ rw e refl
  | inr ne ↦ rw ne (via_route-of_route (find_outbound_route_trunk_info id tenant_id t) _)
]

via_site-trunk :
    (site_id tenant_id : String) (t : Tables) (o : Option Site)
    → (via_site site_id tenant_id t o).trunk_id
      ≡ bind o λ (site : Site).
        bind
          (given site.default_outbound_route_id)
          λ r. of_route (find_outbound_route_trunk_info r tenant_id t)
unfolding via_site bind
via_site-trunk site_id tenant_id t none = refl
via_site-trunk site_id tenant_id t (some s) =
    via_default-trunk tenant_id t s.default_outbound_route_id _

-- `resolve_carrier_for_site` resolves to the trunk of the default route of the tenant's site, if the site, its
-- default route and the route's trunk are given and found, and else to none.
pub resolve_carrier_for_site-site_trunk :
    (tenant_id dial_string : String) (site_id : Option String) (now : ℕ) (t : Tables)
    → (resolve_carrier_for_site tenant_id dial_string site_id now t).resolved_trunk_id
      ≡ site_trunk tenant_id t site_id
unfolding resolve_carrier_for_site trace_result trace_site no_site bind
resolve_carrier_for_site-site_trunk tenant_id dial_string none now t = refl
resolve_carrier_for_site-site_trunk tenant_id dial_string (some id) now t =
    elim (Bool-cases (str_eq id "")) [
      | inl e ↦ rw e refl
      | inr ne ↦ rw ne (via_site-trunk id tenant_id t (find_site_with_defaults id tenant_id t))
    ]
