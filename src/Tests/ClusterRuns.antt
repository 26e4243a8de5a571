-- ===== src/Tests/ClusterRuns.antt =====
-- Routes to a service over two nodes.
use mikrotik_operator.Base.{
  Text, text, List, [], ◌∷◌, ◌≡◌, ◌≢◌, refl, inl, inr, ok, true, false, pos, contains, any, Nodup,
  nat_eq, list_eq,
}
use mikrotik_operator.Endpoints.{
  RouterEndpoint, MikroTikRouter, router_endpoints, legacy_endpoints, sort_strings, insert,
  text_leb,
}
use mikrotik_operator.Cluster.{
  Service, Node, internal_ip, gather, unique_after, route_gateways, merge_cluster_route_origin,
  endpoint_route_gateway, cluster_route_applies_to_endpoint, origin_of, put_origin, add_hop,
  add_hops, endpoint_hops, settle_hops, desired_hops, desired_cluster_route_hops, nodes_origin,
  both_origins,
}
use mikrotik_operator.Cluster.Unique.{ip_is, route_gateways_all}
use mikrotik_operator.Cluster.Covers.{serving, desired_cluster_route_hops_serve}

cluster_runs : Unit {0}
unfolding internal_ip gather unique_after route_gateways merge_cluster_route_origin
    endpoint_route_gateway cluster_route_applies_to_endpoint origin_of put_origin add_hop add_hops
    endpoint_hops settle_hops desired_hops desired_cluster_route_hops router_endpoints
    legacy_endpoints sort_strings insert text_leb contains any text
cluster_runs = tt

abbrev web : Service
web = record {
  namespace = text "default";
  service_name = text "web";
  kind = text "ClusterIP";
  cluster_ip = text "10.96.0.9";
  route_mode = [];
  dns_name = text "web.b";
}

abbrev node_at : Text → Node
node_at address = (text "Hostname", text "n") ∷ (text "InternalIP", address) ∷ []

abbrev two_nodes : List Node
two_nodes = node_at (text "10.0.0.2") ∷ node_at (text "10.0.0.1") ∷ node_at (text "10.0.0.2") ∷ []

abbrev two_gateways : List Text
two_gateways = text "10.0.0.1" ∷ text "10.0.0.2" ∷ []

route_gateways_all_example :
    (two_gateways ≢ [])
    × Nodup two_gateways
    × (contains (text "10.0.0.2") two_gateways
        ≡ any (λ n. ip_is (text "10.0.0.2") (internal_ip n)) two_nodes)
unfolding cluster_runs
route_gateways_all_example = route_gateways_all web two_nodes (text "10.0.0.2") refl refl

abbrev endpoint_by : Text → Text → RouterEndpoint
endpoint_by address gateway = record {
  name = address;
  address = address;
  port = pos 0;
  tls = false;
  credentials_secret = text "login";
  route_gateway = gateway;
}

-- The first endpoint has a gateway of its own, which is that of a node.
abbrev pair_router : MikroTikRouter
pair_router = record {
  namespace = text "net";
  router_name = text "core";
  deleted = false;
  finalized = true;
  routers = endpoint_by (text "r1") (text "10.0.0.2") ∷ endpoint_by (text "r2") [] ∷ [];
  legacy = endpoint_by [] [];
  applied_endpoints = [];
}

desired_cluster_route_hops_serve_example :
    Nodup (text "10.0.0.2" ∷ text "10.0.0.1" ∷ [])
    × (any (serving pair_router (endpoint_by (text "r2") []) (text "10.0.0.2")) (
          record { gateway = text "10.0.0.2"; origin = both_origins }
          ∷ record { gateway = text "10.0.0.1"; origin = nodes_origin }
          ∷ [])
        ≡ true)
unfolding cluster_runs
desired_cluster_route_hops_serve_example =
    desired_cluster_route_hops_serve (ok two_nodes) web pair_router (endpoint_by (text "r2") [])
      (text "10.0.0.2") {ns = two_gateways} refl refl (inr (inl refl)) (inr (inl refl)) (λ e. cc)
