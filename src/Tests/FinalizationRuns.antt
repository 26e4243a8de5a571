-- ===== src/Tests/FinalizationRuns.antt =====
-- The cleanup of a router with two devices, of which another router claims one.
use mikrotik_operator.Base.{
  Nodup, ◌||◌, Text, text, List, [], ◌∷◌, contains, ◌≡◌, refl, inl, inr, ok, none, true, false, pos,
  show_int, join, keep, any, has_prefix, nat_eq, list_eq,
}
use mikrotik_operator.Strings.{trim_suffix, trim_prefix, trim_space}
use mikrotik_operator.Endpoints.{
  RouterEndpoint, MikroTikRouter, Net, endpoint_key, router_endpoints, router_cleanup_endpoints,
  legacy_endpoints, keys_of, same_router, has_key, endpoint_claimed_by_other_router,
}
use mikrotik_operator.Endpoints.Ownership.{In}
use mikrotik_operator.Endpoints.History.{
  put_endpoint, put_endpoints, durable_router_endpoint_union, durable_router_endpoint_union_lem,
}
use mikrotik_operator.Finalization.{
  wiped, Outside, connect_each, connect_router_clients, wipe_each, clean_endpoints, owned_endpoints,
  reconcile_deletion_locked, cleanup_removed_each, cleanup_removed_endpoints,
}
use mikrotik_operator.Finalization.Finalized.{
  IsWipedBefore, reconcile_deletion_locked_wipes, reconcile_deletion_locked-touches,
}
use mikrotik_operator.Finalization.Removed.{Removed, cleanup_removed_endpoints-Removed}

finalization_runs : Unit {0}
unfolding trim_suffix trim_prefix endpoint_key router_endpoints router_cleanup_endpoints
    legacy_endpoints keys_of same_router has_key endpoint_claimed_by_other_router trim_space
    show_int join keep any has_prefix text connect_each connect_router_clients wipe_each
    clean_endpoints owned_endpoints reconcile_deletion_locked cleanup_removed_each
    cleanup_removed_endpoints put_endpoint put_endpoints durable_router_endpoint_union
finalization_runs = tt

abbrev simple_net : Net
simple_net = record { parse_ip = λ s. none; to_lower = λ s. s }

abbrev device : Text → RouterEndpoint
device address = record {
  name = text "core";
  address = address;
  port = pos 0;
  tls = false;
  credentials_secret = text "login";
  route_gateway = [];
}

-- The router `a` has moved from r1 and r2 to r3, and the router `b` has r2 now.
abbrev leaving_router : MikroTikRouter
leaving_router = record {
  namespace = text "default";
  router_name = text "a";
  deleted = true;
  finalized = true;
  routers = device (text "r3") ∷ [];
  legacy = device [];
  applied_endpoints = device (text "r1") ∷ device (text "r2") ∷ [];
}

abbrev taking_router : MikroTikRouter
taking_router = record {
  namespace = text "default";
  router_name = text "b";
  deleted = false;
  finalized = true;
  routers = device (text "r2") ∷ [];
  legacy = device [];
  applied_endpoints = [];
}

abbrev two_routers : List MikroTikRouter
two_routers = leaving_router ∷ taking_router ∷ []

abbrev all_answer : Outside
all_answer = record { dial = λ t e. ok tt; wipe = λ t e. ok tt; update = λ t. ok tt }

reconcile_deletion_locked_wipes_example :
    IsWipedBefore
      (device (text "r1"))
      (reconcile_deletion_locked all_answer simple_net (ok two_routers) leaving_router []).1
unfolding finalization_runs
reconcile_deletion_locked_wipes_example =
    reconcile_deletion_locked_wipes all_answer simple_net (ok two_routers) leaving_router
      (device (text "r1")) (inl refl) (inl refl) refl

reconcile_deletion_locked-touches_example :
    In (device (text "r1")) (router_cleanup_endpoints leaving_router)
    × (endpoint_claimed_by_other_router simple_net
          (ok two_routers)
          leaving_router
          (device (text "r1"))
        ≡ ok false)
unfolding finalization_runs
reconcile_deletion_locked-touches_example =
    reconcile_deletion_locked-touches all_answer simple_net (ok two_routers) leaving_router
      (wiped (device (text "r1"))) (device (text "r1")) (inr (inl refl)) refl

cleanup_removed_endpoints-Removed_example :
    Removed all_answer simple_net (ok two_routers) leaving_router (device (text "r1"))
unfolding finalization_runs
cleanup_removed_endpoints-Removed_example =
    cleanup_removed_endpoints-Removed all_answer simple_net (ok two_routers) leaving_router
      (wiped (device (text "r1"))) (device (text "r1")) (inl refl) refl

durable_router_endpoint_union_lem_example :
    Nodup (
      keys_of simple_net (
        durable_router_endpoint_union simple_net
          (device (text "r1") ∷ [])
          (device (text "r1.") ∷ [])))
    × (contains (text "r1|8728|false") (
          keys_of simple_net (
            durable_router_endpoint_union simple_net
              (device (text "r1") ∷ [])
              (device (text "r1.") ∷ [])))
        ≡ (contains (text "r1|8728|false") (keys_of simple_net (device (text "r1") ∷ []))
            || contains (text "r1|8728|false") (keys_of simple_net (device (text "r1.") ∷ []))))
durable_router_endpoint_union_lem_example =
    durable_router_endpoint_union_lem simple_net (device (text "r1") ∷ [])
      (device (text "r1.") ∷ []) (text "r1|8728|false")
