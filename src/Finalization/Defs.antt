-- ===== src/Finalization/Defs.antt =====
-- `connectRouterClients`, `reconcileDeletionLocked` and `cleanupRemovedEndpoints`.
use mikrotik_operator.Base.{
  Text, text, List, [], ◌∷◌, ◌++◌, contains, ◌==◌, nat_eq, list_eq, ◌||◌, not, if◌then◌else◌, Bool,
  true, false, Result, ok, err, M, ◌>>=◌, ◌>>◌, return, fail,
}
use mikrotik_operator.Strings.{trim_space}
use mikrotik_operator.Endpoints.{
  RouterEndpoint, MikroTikRouter, Net, router_endpoints, router_cleanup_endpoints, keys_of,
  endpoint_key, owner_name, endpoint_claimed_by_other_router,
}

-- What a pass does outside, in the order of the calls.
pub data Event : Type 0 where
  dialed : RouterEndpoint → Event
  dial_failed : RouterEndpoint → Event
  wiped : RouterEndpoint → Event
  wipe_failed : RouterEndpoint → Event
  update_sent : Event

-- The answers, which may depend on all that happened before: of the read of the credentials with
-- the call of the factory, of `DeleteManagedConfiguration`, and of the update of the object.
pub record Outside : Type 0 where
  pub dial : List Event → RouterEndpoint → Result (Unit {0})
  pub wipe : List Event → RouterEndpoint → Result (Unit {0})
  pub update : List Event → Result (Unit {0})

-- The state is the list of the events, the last one first.
abbrev pub Action : Type 0
Action = M (List Event) (Unit {0})

abbrev pub note : Result (Unit {0}) → Event → Event → Action
note (ok x) good bad events = (ok x, good ∷ events)
note (err e) good bad events = (err e, bad ∷ events)

abbrev pub is_unusable : RouterEndpoint → Bool
is_unusable endpoint =
    trim_space endpoint.address == [] || trim_space endpoint.credentials_secret == []

-- `oldRouter`, with other endpoints.
abbrev pub with_routers : MikroTikRouter → List RouterEndpoint → MikroTikRouter
with_routers router endpoints = record {
  namespace = router.namespace;
  router_name = router.router_name;
  deleted = router.deleted;
  finalized = router.finalized;
  routers = endpoints;
  legacy = record {
    name = router.legacy.name;
    address = [];
    port = router.legacy.port;
    tls = router.legacy.tls;
    credentials_secret = router.legacy.credentials_secret;
    route_gateway = router.legacy.route_gateway;
  };
  applied_endpoints = router.applied_endpoints;
}

abbrev pub lift {ℓ} : {B : Type ℓ} → Result B → M (List Event) B
lift result events = (result, events)

module _ (out : Outside) where
  abbrev pub dial_one : RouterEndpoint → Action
  dial_one endpoint events =
      note (out.dial events endpoint) (dialed endpoint) (dial_failed endpoint) events

  unfoldable pub connect_each : Text → List RouterEndpoint → M (List Event) (List RouterEndpoint)
  connect_each message [] = return []
  connect_each message (endpoint ∷ endpoints) =
      if is_unusable endpoint
      then fail message
      else dial_one endpoint
        >> (connect_each message endpoints >>= λ connections. return (endpoint ∷ connections))

  unfoldable pub connect_router_clients : MikroTikRouter → M (List Event) (List RouterEndpoint)
  connect_router_clients router =
      connect_each
        (text "MikroTikRouter " ++ (owner_name router ++ text " has an invalid endpoint"))
        (router_endpoints router)

  abbrev pub wipe_one : RouterEndpoint → Action
  wipe_one endpoint events =
      note (out.wipe events endpoint) (wiped endpoint) (wipe_failed endpoint) events

  unfoldable pub wipe_each : List RouterEndpoint → Action
  wipe_each [] = return tt
  wipe_each (endpoint ∷ endpoints) = wipe_one endpoint >> wipe_each endpoints

  unfoldable pub clean_endpoints : MikroTikRouter → List RouterEndpoint → Action
  clean_endpoints router endpoints =
      connect_router_clients (with_routers router endpoints) >>= wipe_each

  abbrev pub clean_any : MikroTikRouter → List RouterEndpoint → Action
  clean_any router [] = return tt
  clean_any router (e ∷ es) = clean_endpoints router (e ∷ es)

  abbrev pub send_update : Action
  send_update events = (out.update events, update_sent ∷ events)

  module _ (net : Net) (routers : Result (List MikroTikRouter)) where
    abbrev pub keep_unclaimed : Bool → RouterEndpoint → List RouterEndpoint → List RouterEndpoint
    keep_unclaimed true endpoint rest = rest
    keep_unclaimed false endpoint rest = endpoint ∷ rest

    -- The loop that gathers `ownedEndpoints`; `routers` is what `kube.List` returns.
    unfoldable pub owned_endpoints :
        MikroTikRouter → List RouterEndpoint → Result (List RouterEndpoint)
    owned_endpoints router [] = ok []
    owned_endpoints router (endpoint ∷ endpoints) =
        elim (endpoint_claimed_by_other_router net routers router endpoint) [
          | err e ↦ err e
          | ok claimed ↦ elim (owned_endpoints router endpoints) [
            | err e ↦ err e
            | ok rest ↦ ok (keep_unclaimed claimed endpoint rest)
          ]
        ]

    abbrev pub finish_deletion : MikroTikRouter → Result (List RouterEndpoint) → Action
    finish_deletion router owned =
        lift owned >>= λ endpoints. (clean_any router endpoints >> send_update)

    unfoldable pub reconcile_deletion_locked : MikroTikRouter → Action
    reconcile_deletion_locked router =
        if not router.finalized
        then return tt
        else finish_deletion router (owned_endpoints router (router_cleanup_endpoints router))

    abbrev pub clean_unclaimed : MikroTikRouter → RouterEndpoint → Bool → Action
    clean_unclaimed router endpoint true = return tt
    clean_unclaimed router endpoint false = clean_endpoints router (endpoint ∷ [])

    -- The body of the loop of `cleanupRemovedEndpoints`.
    abbrev pub clean_removed : MikroTikRouter → RouterEndpoint → Action
    clean_removed router endpoint =
        if is_unusable endpoint
        then return tt
        else if contains (endpoint_key net endpoint) (keys_of net (router_endpoints router))
        then return tt
        else (lift (endpoint_claimed_by_other_router net routers router endpoint)
            >>= clean_unclaimed router endpoint)

    unfoldable pub cleanup_removed_each : MikroTikRouter → List RouterEndpoint → Action
    cleanup_removed_each router [] = return tt
    cleanup_removed_each router (endpoint ∷ endpoints) =
        clean_removed router endpoint >> cleanup_removed_each router endpoints

    unfoldable pub cleanup_removed_endpoints : MikroTikRouter → Action
    cleanup_removed_endpoints router = cleanup_removed_each router router.applied_endpoints
