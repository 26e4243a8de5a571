-- ===== src/OwnedRoutes/Candidates.antt =====
-- internal/controller/cluster_routes.go: the routes that a source wants.
use mikrotik_operator.Base.{
  Text, text, List, [], ◌∷◌, ◌++◌, take, map, contains, ◌==◌, nat_eq, list_eq, not, if◌then◌else◌,
  Result, ok, err,
}
use mikrotik_operator.References.{
  Lookup, found, missing, broken, RouterApi, router_key_from_ref, get_mikrotik_router,
}
use mikrotik_operator.Cluster.{
  Service, Node, is_cluster_ip_service, has_cluster_ip, route_gateways, ClusterRouteHop,
  nodes_origin, hops_with_origin, desired_cluster_route_hops,
}

pub record ClusterRouteCandidate : Type 0 where
  pub candidate_name : Text
  pub destination : Text
  pub gateway : Text
  pub origin : Text

abbrev pub names : List ClusterRouteCandidate → List Text
names = map (λ c. c.candidate_name)

-- `owner` is the UID of the object that the routes belong to.
pub record ClusterRouteReconcileRequest : Type 0 where
  pub owner : Text
  pub owner_text : Text
  pub source_name : Text
  pub namespace : Text
  pub router_ref : Text
  pub services : List Service

-- `sha1_hex` is the digest of package sha1 in hexadecimal digits.
unfoldable pub short_hash : (Text → Text) → Text → Text
short_hash sha1_hex value = take 16 (sha1_hex value)

unfoldable pub cluster_route_source_value : (Text → Text) → Text → Text → Text
cluster_route_source_value sha1_hex namespace source_name =
    short_hash sha1_hex (namespace ++ (b'/' ∷ source_name))

abbrev hops_of_nodes : Result (List Text) → Result (List ClusterRouteHop)
hops_of_nodes (err e) = err e
hops_of_nodes (ok nodes) = ok (hops_with_origin nodes nodes_origin)

abbrev hops_of_router :
    Result (List Node) → Service → Text × Text → Lookup → Result (List ClusterRouteHop)
hops_of_router nodes service key (found router) = desired_cluster_route_hops nodes service router
hops_of_router nodes service (namespace, name) missing =
    err (text "MikroTikRouter " ++ (namespace ++ (b'/' ∷ (name ++ text " not found"))))
hops_of_router nodes service key (broken e) = err e

module _ (sha1_hex : Text → Text) (api : RouterApi) (nodes : Result (List Node)) where
  unfoldable pub cluster_route_hops : Service → Text → Text → Result (List ClusterRouteHop)
  cluster_route_hops service owner_namespace router_ref =
      let key = router_key_from_ref owner_namespace router_ref in
      if router_ref == []
      then hops_of_nodes (route_gateways service nodes)
      else hops_of_router nodes service key (get_mikrotik_router api key)

  -- The inner loop of `desiredClusterRouteCandidates`, after the candidates so far, whose names
  -- are the set `seen`.
  unfoldable pub add_candidates :
      Text → Text → List ClusterRouteCandidate → List ClusterRouteHop → List ClusterRouteCandidate
  add_candidates prefix destination candidates [] = candidates
  add_candidates prefix destination candidates (hop ∷ hops) =
      let name = text "rt-" ++ short_hash sha1_hex (prefix ++ (b'/' ∷ hop.gateway)) in
      add_candidates prefix destination
        (if contains name (names candidates)
          then candidates
          else candidates
            ++ (record {
              candidate_name = name;
              destination = destination;
              gateway = hop.gateway;
              origin = hop.origin;
            }
                ∷ []))
        hops

  abbrev pub prefix_of : ClusterRouteReconcileRequest → Service → Text
  prefix_of request service =
      request.namespace
      ++ (b'/'
          ∷ (request.source_name
              ++ (b'/'
                  ∷ (service.namespace
                      ++ (b'/'
                          ∷ (service.service_name
                              ++ (b'/' ∷ (service.cluster_ip ++ text "/32"))))))))

  -- The hops of a service, none if the loop passes over it.
  abbrev pub service_hops : ClusterRouteReconcileRequest → Service → Result (List ClusterRouteHop)
  service_hops request service =
      if not (is_cluster_ip_service service)
      then ok []
      else if not (has_cluster_ip service)
      then ok []
      else cluster_route_hops service request.namespace request.router_ref

  -- The loop over the services.
  unfoldable pub candidates_from :
      ClusterRouteReconcileRequest
      → List ClusterRouteCandidate
      → List Service
      → Result (List ClusterRouteCandidate)
  candidates_from request candidates [] = ok candidates
  candidates_from request candidates (service ∷ services) = elim (service_hops request service) [
    | err e ↦ err e
    | ok hops ↦
        candidates_from request
          (add_candidates (prefix_of request service) (service.cluster_ip ++ text "/32") candidates
            hops)
          services
  ]

  unfoldable pub desired_cluster_route_candidates :
      ClusterRouteReconcileRequest → Result (List ClusterRouteCandidate)
  desired_cluster_route_candidates request = candidates_from request [] request.services
