-- ===== src/OwnedRoutes/Operations.antt =====
-- internal/controller/cluster_routes.go: `reconcileOwnedClusterRoutes`.
use mikrotik_operator.Base.{
  Text, text, List, [], ◌∷◌, ◌++◌, keep, contains, ◌==◌, nat_eq, list_eq, ◌&&◌, ◌||◌, not,
  if◌then◌else◌, Bool, true, false, none, Result, ok, err, M, ◌>>=◌, ◌>>◌, return, fail,
}
use mikrotik_operator.References.{RouterApi}
use mikrotik_operator.Cluster.{Node}
use mikrotik_operator.OwnedRoutes.Api.{
  MikroTikRoute, is_controlled_by, Read, got, not_there, not_read, Answer, done, absent, present,
  refused, Kube,
}
use mikrotik_operator.OwnedRoutes.Candidates.{
  ClusterRouteCandidate, ClusterRouteReconcileRequest, names, cluster_route_source_value,
  desired_cluster_route_candidates,
}

unfoldable pub new_route :
    Text → ClusterRouteReconcileRequest → ClusterRouteCandidate → MikroTikRoute
new_route label request candidate = record {
  namespace = request.namespace;
  route_name = candidate.candidate_name;
  controller = none;
  source = label;
  origin = candidate.origin;
  router_ref = request.router_ref;
  destination = candidate.destination;
  gateway = candidate.gateway;
  deleted = false;
}

unfoldable pub is_settled :
    ClusterRouteReconcileRequest → ClusterRouteCandidate → MikroTikRoute → Bool
is_settled request candidate route =
    route.router_ref == request.router_ref
    && route.destination == candidate.destination
    && route.gateway == candidate.gateway
    && route.origin == candidate.origin

unfoldable pub changed_route :
    Text → ClusterRouteReconcileRequest → ClusterRouteCandidate → MikroTikRoute → MikroTikRoute
changed_route label request candidate route = record {
  namespace = route.namespace;
  route_name = route.route_name;
  controller = route.controller;
  source = label;
  origin = candidate.origin;
  router_ref = request.router_ref;
  destination = candidate.destination;
  gateway = candidate.gateway;
  deleted = route.deleted;
}

module _ (A : Kube) where
  abbrev Action : Type 0
  Action = M A.State (Unit {0})

  abbrev pub answered : Answer → Bool → Bool → Result (Unit {0})
  answered done absent_too present_too = ok tt
  answered absent absent_too present_too = if absent_too then ok tt else err (text "not found")
  answered present absent_too present_too =
      if present_too then ok tt else err (text "already exists")
  answered (refused e) absent_too present_too = err e

  -- A write, and the answers besides `done` that the code passes over.
  abbrev pub write : (A.State → Answer × A.State) → Bool → Bool → Action
  write call absent_too present_too s = (answered (call s).0 absent_too present_too, (call s).1)

  abbrev pub create_owned : Result MikroTikRoute → Action
  create_owned (err e) = fail e
  create_owned (ok route) = write (λ s. A.create s route) false true

  -- The body of the loop over the candidates, by what `Get` returns.
  unfoldable pub settle_route :
      Text → ClusterRouteReconcileRequest → ClusterRouteCandidate → Read → Action
  settle_route label request candidate not_there =
      create_owned (A.set_controller_reference request.owner (new_route label request candidate))
  settle_route label request candidate (not_read e) = fail e
  settle_route label request candidate (got route) =
      if not (is_controlled_by route request.owner)
      then fail (
          text "route "
          ++ (route.namespace
              ++ (b'/'
                  ∷ (route.route_name
                      ++ (text " already exists and is not owned by " ++ request.owner_text)))))
      else if is_settled request candidate route
      then return tt
      else write (λ s. A.update s (changed_route label request candidate route)) false false

  unfoldable pub settle_candidate :
      Text → ClusterRouteReconcileRequest → ClusterRouteCandidate → Action
  settle_candidate label request candidate s =
      settle_route label request candidate (A.get s request.namespace candidate.candidate_name) s

  unfoldable pub settle_each :
      Text → ClusterRouteReconcileRequest → List ClusterRouteCandidate → Action
  settle_each label request [] = return tt
  settle_each label request (candidate ∷ candidates) =
      settle_candidate label request candidate >> settle_each label request candidates

  abbrev pub is_kept :
      ClusterRouteReconcileRequest → List ClusterRouteCandidate → MikroTikRoute → Bool
  is_kept request candidates route =
      contains route.route_name (names candidates) || not (is_controlled_by route request.owner)

  abbrev pub visit :
      ClusterRouteReconcileRequest → List ClusterRouteCandidate → MikroTikRoute → Action
  visit request candidates route =
      if is_kept request candidates route
      then return tt
      else write (λ s. A.delete s route) true false

  -- The loop over the existing routes.
  unfoldable pub delete_undesired :
      ClusterRouteReconcileRequest → List ClusterRouteCandidate → List MikroTikRoute → Action
  delete_undesired request candidates [] = return tt
  delete_undesired request candidates (route ∷ routes) =
      visit request candidates route >> delete_undesired request candidates routes

  abbrev pub lift {ℓ} : {B : Type ℓ} → (A.State → Result B) → M A.State B
  lift read s = (read s, s)

  unfoldable pub reconcile_owned_cluster_routes :
      (Text → Text) → RouterApi → Result (List Node) → ClusterRouteReconcileRequest → Action
  reconcile_owned_cluster_routes sha1_hex api nodes request = do
    candidates ← lift (λ s. desired_cluster_route_candidates sha1_hex api nodes request)
    existing ← lift (λ s. A.list s request.namespace)
    settle_each (cluster_route_source_value sha1_hex request.namespace request.source_name) request
        candidates
    delete_undesired request candidates existing

  unfoldable pub delete_each : List MikroTikRoute → Action
  delete_each [] = return tt
  delete_each (route ∷ routes) = write (λ s. A.delete s route) true false >> delete_each routes

  -- The label selector keeps the routes with the label of the source.
  unfoldable pub delete_labeled_cluster_routes : (Text → Text) → Text → Text → Action
  delete_labeled_cluster_routes sha1_hex namespace source_name = do
    existing ← lift (λ s. A.list s namespace)
    delete_each
        (keep (λ r. r.source == cluster_route_source_value sha1_hex namespace source_name) existing)
