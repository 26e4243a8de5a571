-- ===== src/Tests/ReferenceRuns.antt =====
-- References to routers.
use mikrotik_operator.Base.{
  text, [], ◌∷◌, ◌≡◌, refl, ok, true, false, pos, keep, Nodup, nat_eq, list_eq, has_prefix,
}
use mikrotik_operator.Strings.{trim_space, cut, split}
use mikrotik_operator.Endpoints.{RouterEndpoint, MikroTikRouter, sort_strings, insert, text_leb}
use mikrotik_operator.Endpoints.Targets.{durable_router_targets, add_targets, add_target}
use mikrotik_operator.References.{
  split_router_reference, router_ref_storage, router_key_from_ref, canonical_router_claim_key,
  normalize_router_lookup_key, missing, RouterApi, live_routers, first_named, only_match,
  list_mikrotik_router, get_mikrotik_router, unique_cluster_router, resolve_router_reference,
  claim_keys, generated_claim_router_refs,
}
use mikrotik_operator.References.RoundTrip.{router_key_from_ref-router_ref_storage}
use mikrotik_operator.References.Resolve.{
  IsImplicit, resolve_router_reference-IsImplicit, generated_claim_router_refs-Nodup,
}

reference_runs : Unit {0}
unfolding trim_space cut split split_router_reference router_ref_storage router_key_from_ref
    canonical_router_claim_key normalize_router_lookup_key live_routers first_named only_match
    list_mikrotik_router get_mikrotik_router unique_cluster_router resolve_router_reference
    claim_keys generated_claim_router_refs durable_router_targets add_targets add_target
    sort_strings insert text_leb keep text has_prefix
reference_runs = tt

router_key_from_ref-router_ref_storage_example :
    router_key_from_ref
      (text "default")
      (router_ref_storage (text "default") (text "net", text "core"))
    ≡ (text "net", text "core")
unfolding reference_runs
router_key_from_ref-router_ref_storage_example =
    router_key_from_ref-router_ref_storage (text "default") (text "net") (text "core") (λ e. cc)
      (λ e. cc) refl refl refl

abbrev core_endpoint : RouterEndpoint
core_endpoint = record {
  name = text "core";
  address = text "r1";
  port = pos 0;
  tls = false;
  credentials_secret = text "login";
  route_gateway = [];
}

abbrev core_router : MikroTikRouter
core_router = record {
  namespace = text "net";
  router_name = text "core";
  deleted = false;
  finalized = true;
  routers = [];
  legacy = core_endpoint;
  applied_endpoints = [];
}

-- A cluster with one router, in the namespace net.
abbrev one_router : RouterApi
one_router = record { get = λ k. missing; list_all = ok (core_router ∷ []); list_in = λ n. ok [] }

resolve_router_reference-IsImplicit_example :
    IsImplicit one_router (text "default") (text "net", text "core")
unfolding reference_runs
resolve_router_reference-IsImplicit_example =
    resolve_router_reference-IsImplicit one_router (text "default") (text " ") refl refl

generated_claim_router_refs-Nodup_example : Nodup (text "net/core" ∷ text "default/b" ∷ [])
unfolding reference_runs
generated_claim_router_refs-Nodup_example =
    generated_claim_router_refs-Nodup one_router (text "default") (text "core,net/core")
      (text "default/b" ∷ []) refl
