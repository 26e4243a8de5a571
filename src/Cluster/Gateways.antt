-- ===== src/Cluster/Gateways.antt =====
-- internal/controller/router_controller.go: `routeGateways`, the addresses of the nodes.
use mikrotik_operator.Base.{
  Text, text, List, [], ◌∷◌, ◌++◌, ◌==◌, nat_eq, list_eq, ◌&&◌, ◌||◌, not, if◌then◌else◌, Bool,
  true, false, Option, some, none, Result, ok, err,
}
use mikrotik_operator.Endpoints.{sort_strings}

-- What the routes need of a Service; `route_mode` and `dns_name` are annotations.
pub record Service : Type 0 where
  pub namespace : Text
  pub service_name : Text
  pub kind : Text
  pub cluster_ip : Text
  pub route_mode : Text
  pub dns_name : Text

-- The addresses of a node, each with its type.
abbrev pub Node : Type 0
Node = List (Text × Text)

unfoldable pub is_cluster_ip_service : Service → Bool
is_cluster_ip_service service = service.kind == [] || service.kind == text "ClusterIP"

abbrev pub has_cluster_ip : Service → Bool
has_cluster_ip service = not (service.cluster_ip == []) && not (service.cluster_ip == text "None")

unfoldable pub service_wants_cluster_route : Service → Bool
service_wants_cluster_route service =
    if service.dns_name == []
    then false
    else if not (is_cluster_ip_service service)
    then false
    else has_cluster_ip service

-- The inner loop: the first internal address.
unfoldable pub internal_ip : Node → Option Text
internal_ip [] = none
internal_ip ((kind, address) ∷ addresses) =
    let rest = internal_ip addresses in
    if kind == text "InternalIP" && not (address == []) then some address else rest

abbrev pub append_some : List Text → Option Text → List Text
append_some gateways none = gateways
append_some gateways (some g) = gateways ++ (g ∷ [])

abbrev pub is_nil : List Text → Bool
is_nil [] = true
is_nil (x ∷ xs) = false

-- The loop over the nodes, which stops after the first gateway in the mode `single-node`.
unfoldable pub gather : Bool → List Text → List Node → List Text
gather single gateways [] = gateways
gather single gateways (node ∷ nodes) =
    let more = append_some gateways (internal_ip node) in
    let rest = gather single more nodes in if single && not (is_nil more) then more else rest

-- The loop over the sorted gateways, with the last one kept.
unfoldable pub unique_after : Option Text → List Text → List Text
unique_after last [] = []
unique_after none (g ∷ gs) = g ∷ unique_after (some g) gs
unique_after (some last) (g ∷ gs) =
    let rest = unique_after (some g) gs in if last == g then rest else g ∷ rest

abbrev pub some_gateways : Service → List Text → Result (List Text)
some_gateways service [] = err (
    text "no node InternalIP found for service "
    ++ (service.namespace ++ (b'/' ∷ service.service_name)))
some_gateways service (g ∷ gs) = ok (g ∷ gs)

abbrev pub gateways_of : Service → Result (List Node) → Result (List Text)
gateways_of service (err e) = err e
gateways_of service (ok nodes) =
    some_gateways service (
      unique_after none (sort_strings (gather (service.route_mode == text "single-node") [] nodes)))

abbrev pub known_mode : Text → Bool
known_mode mode = mode == [] || mode == text "all-nodes" || mode == text "single-node"

-- The second argument is what `kube.List` returns. The message leaves out the value of the mode.
unfoldable pub route_gateways : Service → Result (List Node) → Result (List Text)
route_gateways service nodes =
    if not (known_mode service.route_mode)
    then err
        (text "unsupported mikrotik.operator.io/route-mode value; use all-nodes or single-node")
    else gateways_of service nodes
