-- ===== src/Tests/EndpointRuns.antt =====
-- Two routers on a small list.
use mikrotik_operator.Base.{
  Nodup, ◌||◌, Text, text, List, [], ◌∷◌, contains, ◌≡◌, ◌≢◌, refl, inl, inr, ok, err, none, true,
  false, pos, show_int, join, keep, any, has_prefix, nat_eq, list_eq,
}
use mikrotik_operator.Strings.{trim_suffix, trim_prefix, trim_space, split}
use mikrotik_operator.Endpoints.{
  RouterEndpoint, MikroTikRouter, Net, endpoint_key, router_endpoints, legacy_endpoints, keys_of,
  router_has_durable_current_endpoints, text_leb, insert, sort_strings, first_text, owner_name,
  same_router, has_key, rivals, check_owners, ensure_router_endpoint_ownership,
  ensure_router_active,
}
use mikrotik_operator.Endpoints.Targets.{
  names, add_target, add_targets, durable_router_targets, durable_router_targets_lem,
}
use mikrotik_operator.Endpoints.Active.{
  router_has_durable_current_endpoints_lem, ensure_router_active_exclusive,
}

endpoint_runs : Unit {0}
unfolding trim_suffix trim_prefix endpoint_key router_endpoints legacy_endpoints keys_of
    router_has_durable_current_endpoints text_leb insert sort_strings first_text owner_name
    same_router has_key rivals check_owners ensure_router_endpoint_ownership ensure_router_active
    trim_space show_int join keep any has_prefix text
endpoint_runs = tt

-- No address is an IP address, and names are in lower case.
abbrev plain_net : Net
plain_net = record { parse_ip = λ s. none; to_lower = λ s. s }

abbrev endpoint_at : Text → RouterEndpoint
endpoint_at address = record {
  name = text "core";
  address = address;
  port = pos 0;
  tls = false;
  credentials_secret = text "login";
  route_gateway = [];
}

abbrev router_at : Text → Text → MikroTikRouter
router_at name address = record {
  namespace = text "default";
  router_name = name;
  deleted = false;
  finalized = true;
  routers = [];
  legacy = endpoint_at address;
  applied_endpoints = endpoint_at address ∷ [];
}

abbrev first_router : MikroTikRouter
first_router = router_at (text "a") (text "r1.")

abbrev second_router : MikroTikRouter
second_router = router_at (text "b") (text "r2")

abbrev both_routers : List MikroTikRouter
both_routers = first_router ∷ second_router ∷ []

-- A dot at the end does not make another device.
copy_is_refused :
    ensure_router_active plain_net
      (ok (first_router ∷ router_at (text "b") (text "r1") ∷ []))
      (router_at (text "b") (text "r1"))
    ≡ err (text "MikroTikRouter default/b endpoint r1 is owned by default/a")
unfolding endpoint_runs
copy_is_refused = refl

router_has_durable_current_endpoints_lem_example :
    (keys_of plain_net (router_endpoints first_router) ≢ [])
    × ((k : Text)
        → contains k (keys_of plain_net first_router.applied_endpoints)
          ≡ contains k (keys_of plain_net (router_endpoints first_router)))
unfolding endpoint_runs
router_has_durable_current_endpoints_lem_example =
    router_has_durable_current_endpoints_lem plain_net first_router refl

ensure_router_active_exclusive_example :
    contains (text "r1|8728|false") (keys_of plain_net second_router.applied_endpoints) ≡ false
unfolding endpoint_runs
ensure_router_active_exclusive_example =
    ensure_router_active_exclusive plain_net both_routers first_router second_router (inl refl)
      (inr (inl refl)) refl refl refl refl refl (text "r1|8728|false") refl

targets_are_sorted :
    durable_router_targets (text "b, a,b") (text "c" ∷ text " a " ∷ [])
    ≡ text "a" ∷ text "b" ∷ text "c" ∷ []
unfolding endpoint_runs durable_router_targets add_targets add_target split
targets_are_sorted = refl

durable_router_targets_lem_example :
    Nodup (durable_router_targets (text "b, a,b") (text "c" ∷ []))
    × ((k : Text)
        → contains k (durable_router_targets (text "b, a,b") (text "c" ∷ []))
          ≡ (any (names k) (split b',' (text "b, a,b")) || any (names k) (text "c" ∷ [])))
durable_router_targets_lem_example = durable_router_targets_lem (text "b, a,b") (text "c" ∷ [])
