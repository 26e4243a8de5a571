-- ===== src/OwnedRoutes/Distinct.antt =====
-- internal/controller/cluster_routes.go: the names of the candidates.
use mikrotik_operator.Base.{
  Text, text, List, [], ◌∷◌, ◌++◌, map-append, contains, Nodup, nat_eq, list_eq, Result, ok, ◌≡◌,
  subst, inl, inr, Bool-cases, Result-cases,
}
use mikrotik_operator.References.{RouterApi}
use mikrotik_operator.Cluster.{Service, Node, ClusterRouteHop}
use mikrotik_operator.Endpoints.Targets.{snoc-Nodup}
use mikrotik_operator.OwnedRoutes.Candidates.{
  ClusterRouteCandidate, ClusterRouteReconcileRequest, names, short_hash, add_candidates, prefix_of,
  service_hops, candidates_from, desired_cluster_route_candidates,
}

module _ (sha1_hex : Text → Text) (api : RouterApi) (nodes : Result (List Node)) where
  add_candidates-Nodup :
      (prefix destination : Text) (hops : List ClusterRouteHop) (cs : List ClusterRouteCandidate)
      → Nodup (names cs)
      → Nodup (names (add_candidates sha1_hex api nodes prefix destination cs hops))
  unfolding add_candidates
  add_candidates-Nodup prefix destination [] cs n = n
  add_candidates-Nodup prefix destination (h ∷ hops) cs n =
      elim (Bool-cases
        (contains (text "rt-" ++ short_hash sha1_hex (prefix ++ (b'/' ∷ h.gateway))) (names cs))) [
          | inl old ↦ rw (add_candidates, old) (add_candidates-Nodup prefix destination hops cs n)
          | inr new ↦
              rw (add_candidates, new)
                (add_candidates-Nodup prefix destination hops _
                  (rw map-append (snoc-Nodup (names cs) _ new n)))
        ]

  candidates_from-Nodup :
      (request : ClusterRouteReconcileRequest) (services : List Service)
      (cs : List ClusterRouteCandidate) {out : List ClusterRouteCandidate}
      → Nodup (names cs)
      → candidates_from sha1_hex api nodes request cs services ≡ ok out
      → Nodup (names out)
  unfolding candidates_from
  candidates_from-Nodup request [] cs {out} n h =
      let same : cs ≡ out = cc in subst (λ l. Nodup (names l)) same n
  candidates_from-Nodup request (service ∷ services) cs n h =
      elim (Result-cases (service_hops sha1_hex api nodes request service)) [
        | inl (hops, e) ↦
            candidates_from-Nodup request services _
              (add_candidates-Nodup (prefix_of sha1_hex api nodes request service) _ hops cs n)
              (rw (candidates_from, e) at h)
        | inr (x, e) ↦ cc (rw (candidates_from, e) at h)
      ]

  pub desired_cluster_route_candidates-Nodup :
      (request : ClusterRouteReconcileRequest) {out : List ClusterRouteCandidate}
      → desired_cluster_route_candidates sha1_hex api nodes request ≡ ok out
      → Nodup (names out)
  unfolding desired_cluster_route_candidates
  desired_cluster_route_candidates-Nodup request h =
      candidates_from-Nodup request request.services [] tt h
