-- ===== src/Cluster/Hops.antt =====
-- internal/controller/cluster_routes.go: the gateways of a service's routes and their origins.
use mikrotik_operator.Base.{
  Text, text, List, [], ◌∷◌, ◌++◌, map, contains, ◌==◌, nat_eq, list_eq, ◌||◌, not, if◌then◌else◌,
  Bool, Result, ok, err,
}
use mikrotik_operator.Endpoints.{RouterEndpoint, MikroTikRouter, router_endpoints}
use mikrotik_operator.Cluster.Gateways.{Service, Node, route_gateways}

abbrev pub override : Text
override = text "override"

abbrev pub nodes_origin : Text
nodes_origin = text "nodes"

abbrev pub both_origins : Text
both_origins = text "both"

pub record ClusterRouteHop : Type 0 where
  pub gateway : Text
  pub origin : Text

unfoldable pub merge_cluster_route_origin : Text → Text → Text
merge_cluster_route_origin existing added =
    if existing == [] || existing == added then added else both_origins

unfoldable pub endpoint_route_gateway : RouterEndpoint → MikroTikRouter → Text
endpoint_route_gateway endpoint router =
    if not (endpoint.route_gateway == [])
    then endpoint.route_gateway
    else router.legacy.route_gateway

unfoldable pub cluster_route_applies_to_endpoint :
    Text → Text → RouterEndpoint → MikroTikRouter → Bool
cluster_route_applies_to_endpoint gateway origin endpoint router =
    let want = endpoint_route_gateway endpoint router in
    if not (want == []) then gateway == want else origin == nodes_origin || origin == both_origins

unfoldable pub hops_with_origin : List Text → Text → List ClusterRouteHop
hops_with_origin gateways origin = map (λ g. record { gateway = g; origin = origin }) gateways

-- The map `seen`, from gateways to origins.
abbrev pub Origins : Type 0
Origins = List (Text × Text)

abbrev pub keys : Origins → List Text
keys = map (λ (k, _). k)

unfoldable pub origin_of : Text → Origins → Text
origin_of k [] = []
origin_of k ((j, o) ∷ m) = if j == k then o else origin_of k m

unfoldable pub put_origin : Text → Text → Origins → Origins
put_origin k o [] = (k, o) ∷ []
put_origin k o ((j, p) ∷ m) = if j == k then (k, o) ∷ m else (j, p) ∷ put_origin k o m

-- The variables of `desiredClusterRouteHops`.
pub record HopState : Type 0 where
  pub hops : List ClusterRouteHop
  pub seen : Origins

-- The body of the closure `add`.
unfoldable pub add_hop : Text → HopState → Text → HopState
add_hop origin s value =
    if value == []
    then s
    else if contains value (keys s.seen)
    then record {
      hops = s.hops;
      seen = put_origin value (merge_cluster_route_origin (origin_of value s.seen) origin) s.seen;
    }
    else record {
      hops = s.hops ++ (record { gateway = value; origin = origin } ∷ []);
      seen = put_origin value origin s.seen;
    }

unfoldable pub add_hops : Text → HopState → List Text → HopState
add_hops origin s [] = s
add_hops origin s (value ∷ values) = add_hops origin (add_hop origin s value) values

abbrev pub add_nodes : Result (List Text) → HopState → Result HopState
add_nodes (err e) s = err e
add_nodes (ok nodes) s = ok (add_hops nodes_origin s nodes)

-- The loop over the endpoints; the first argument is what `loadNodes` returns each time.
unfoldable pub endpoint_hops :
    Result (List Text) → MikroTikRouter → List RouterEndpoint → HopState → Result HopState
endpoint_hops nodes router [] s = ok s
endpoint_hops nodes router (endpoint ∷ endpoints) s =
    let want = endpoint_route_gateway endpoint router in
    elim (if not (want == []) then ok (add_hops override s (want ∷ [])) else add_nodes nodes s) [
      | err e ↦ err e
      | ok t ↦ endpoint_hops nodes router endpoints t
    ]

abbrev pub or_nodes : Result (List Text) → HopState → List ClusterRouteHop → Result HopState
or_nodes nodes s [] = add_nodes nodes s
or_nodes nodes s (h ∷ hs) = ok s

-- The last loop, which sets the origins.
unfoldable pub settle_hops : HopState → List ClusterRouteHop
settle_hops s =
    map (λ h. record { gateway = h.gateway; origin = origin_of h.gateway s.seen }) s.hops

abbrev pub no_hops : HopState
no_hops = record { hops = []; seen = [] }

unfoldable pub desired_hops : Result (List Text) → MikroTikRouter → Result (List ClusterRouteHop)
desired_hops nodes router = elim (endpoint_hops nodes router (router_endpoints router) no_hops) [
  | err e ↦ err e
  | ok s ↦ elim (or_nodes nodes s s.hops) [ err e ↦ err e | ok t ↦ ok (settle_hops t) ]
]

unfoldable pub desired_cluster_route_hops :
    Result (List Node) → Service → MikroTikRouter → Result (List ClusterRouteHop)
desired_cluster_route_hops nodes service router = desired_hops (route_gateways service nodes) router
