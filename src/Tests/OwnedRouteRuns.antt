-- ===== src/Tests/OwnedRouteRuns.antt =====
-- The routes of a source on a server in memory, which also holds one of another owner.
use mikrotik_operator.Base.{
  Text, text, List, [], ◌∷◌, ◌≡◌, ◌⊎◌, refl, inl, inr, ok, some, false, nat_eq, list_eq, take, keep,
}
use mikrotik_operator.Endpoints.{sort_strings, insert, text_leb}
use mikrotik_operator.References.{missing, RouterApi}
use mikrotik_operator.Cluster.{
  Node, is_cluster_ip_service, internal_ip, gather, unique_after, route_gateways, hops_with_origin,
  nodes_origin,
}
use mikrotik_operator.OwnedRoutes.{
  MikroTikRoute, ClusterRouteCandidate, ClusterRouteReconcileRequest, short_hash,
  cluster_route_source_value, cluster_route_hops, add_candidates, candidates_from,
  desired_cluster_route_candidates, new_route, is_settled, changed_route, settle_route,
  settle_candidate, settle_each, delete_undesired, reconcile_owned_cluster_routes, delete_each,
  delete_labeled_cluster_routes,
}
use mikrotik_operator.OwnedRoutes.Laws.{IsGone}
use mikrotik_operator.OwnedRoutes.Wanted.{IsWanted, IsMissed}
use mikrotik_operator.OwnedRoutes.Memory.{memory, lagging, memory-IsLawful}
use mikrotik_operator.OwnedRoutes.Labeled.{delete_labeled_cluster_routes_spares}
use mikrotik_operator.OwnedRoutes.Spared.{reconcile_owned_cluster_routes_spares}
use mikrotik_operator.OwnedRoutes.Settled.{
  reconcile_owned_cluster_routes-IsWanted, reconcile_owned_cluster_routes-IsGone,
}

owned_route_runs : Unit {0}
unfolding is_cluster_ip_service internal_ip gather unique_after route_gateways hops_with_origin
    sort_strings insert text_leb short_hash cluster_route_source_value cluster_route_hops
    add_candidates candidates_from desired_cluster_route_candidates new_route is_settled
    changed_route settle_route settle_candidate settle_each delete_undesired
    reconcile_owned_cluster_routes take keep text
owned_route_runs = tt

-- A digest for the runs: the text from its end.
abbrev backwards : Text → Text → Text
backwards done_so_far [] = done_so_far
backwards done_so_far (c ∷ s) = backwards (c ∷ done_so_far) s

abbrev no_routers : RouterApi
no_routers = record { get = λ k. missing; list_all = ok []; list_in = λ n. ok [] }

abbrev two_nodes : List Node
two_nodes =
    ((text "InternalIP", text "10.0.0.1") ∷ []) ∷ ((text "InternalIP", text "10.0.0.2") ∷ []) ∷ []

abbrev web_request : ClusterRouteReconcileRequest
web_request = record {
  owner = text "u1";
  owner_text = text "Service default/web";
  source_name = text "web";
  namespace = text "default";
  router_ref = [];
  services =
      record {
        namespace = text "default";
        service_name = text "web";
        kind = [];
        cluster_ip = text "10.96.0.9";
        route_mode = [];
        dns_name = text "web.b";
      }
      ∷ [];
}

abbrev route_of : Text → Text → MikroTikRoute
route_of name owner = record {
  namespace = text "default";
  route_name = name;
  controller = some owner;
  source = [];
  origin = [];
  router_ref = [];
  destination = text "10.1.0.0/16";
  gateway = text "10.0.0.9";
  deleted = false;
}

abbrev before : List MikroTikRoute
before = route_of (text "other") (text "u9") ∷ route_of (text "rt-old") (text "u1") ∷ []

abbrev first_candidate : ClusterRouteCandidate
first_candidate = record {
  candidate_name = text "rt-1.0.0.01/23/9.0.";
  destination = text "10.96.0.9/32";
  gateway = text "10.0.0.1";
  origin = nodes_origin;
}

abbrev second_candidate : ClusterRouteCandidate
second_candidate = record {
  candidate_name = text "rt-2.0.0.01/23/9.0.";
  destination = text "10.96.0.9/32";
  gateway = text "10.0.0.2";
  origin = nodes_origin;
}

abbrev two_candidates : List ClusterRouteCandidate
two_candidates = first_candidate ∷ second_candidate ∷ []

abbrev after : List MikroTikRoute
after =
    (reconcile_owned_cluster_routes memory (backwards []) no_routers (ok two_nodes) web_request
      before).1

wanted_two :
    desired_cluster_route_candidates (backwards []) no_routers (ok two_nodes) web_request
    ≡ ok two_candidates
unfolding owned_route_runs
wanted_two = refl

succeeds :
    reconcile_owned_cluster_routes memory
      (backwards [])
      no_routers
      (ok two_nodes)
      web_request
      before
    ≡ (ok tt, after)
unfolding owned_route_runs
succeeds = refl

reconcile_owned_cluster_routes_spares_example :
    memory.stored after (text "default") (text "other") ≡ some (route_of (text "other") (text "u9"))
unfolding owned_route_runs
reconcile_owned_cluster_routes_spares_example =
    reconcile_owned_cluster_routes_spares memory memory-IsLawful web_request (text "default")
      (text "other") (route_of (text "other") (text "u9")) refl (backwards []) no_routers
      (ok two_nodes) before refl

reconcile_owned_cluster_routes-IsWanted_example :
    IsWanted web_request second_candidate
      (memory.stored after (text "default") second_candidate.candidate_name)
    ⊎ IsMissed memory (text "default") second_candidate.candidate_name before after
unfolding owned_route_runs
reconcile_owned_cluster_routes-IsWanted_example =
    reconcile_owned_cluster_routes-IsWanted memory memory-IsLawful web_request (backwards [])
      no_routers (ok two_nodes) before after wanted_two succeeds second_candidate (inr (inl refl))

-- Behind the cache the pass takes the answer `AlreadyExists` for a success, and leaves the route of
-- another owner under the name of a candidate.
missed_is_left :
    (reconcile_owned_cluster_routes lagging
      (backwards [])
      no_routers
      (ok two_nodes)
      web_request
      (route_of second_candidate.candidate_name (text "u9") ∷ [])).0
    ≡ ok tt
unfolding owned_route_runs
missed_is_left = refl

missed_is_the_same :
    lagging.stored
      (reconcile_owned_cluster_routes lagging
        (backwards [])
        no_routers
        (ok two_nodes)
        web_request
        (route_of second_candidate.candidate_name (text "u9") ∷ [])).1
      (text "default")
      second_candidate.candidate_name
    ≡ some (route_of second_candidate.candidate_name (text "u9"))
unfolding owned_route_runs
missed_is_the_same = refl

reconcile_owned_cluster_routes-IsGone_example :
    IsGone (memory.stored after (text "default") (text "rt-old"))
unfolding owned_route_runs
reconcile_owned_cluster_routes-IsGone_example =
    reconcile_owned_cluster_routes-IsGone memory memory-IsLawful web_request (backwards [])
      no_routers (ok two_nodes) before after wanted_two succeeds (text "rt-old")
      (route_of (text "rt-old") (text "u1")) refl refl refl

delete_labeled_cluster_routes_spares_example :
    memory.stored
      (delete_labeled_cluster_routes memory (backwards []) (text "default") (text "web") before).1
      (text "default")
      (text "other")
    ≡ some (route_of (text "other") (text "u9"))
unfolding owned_route_runs delete_labeled_cluster_routes delete_each
delete_labeled_cluster_routes_spares_example =
    delete_labeled_cluster_routes_spares memory memory-IsLawful (backwards []) (text "default")
      (text "web") (text "default") (text "other") (route_of (text "other") (text "u9")) before refl
      refl
