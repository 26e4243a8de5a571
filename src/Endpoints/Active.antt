-- ===== src/Endpoints/Active.antt =====
-- internal/controller/router_helpers.go: `ensureRouterActive`.
use mikrotik_operator.Base.{
  Text, List, [], ◌∷◌, contains, ◌==◌, nat_eq, list_eq, not, if◌then◌else◌, Bool, true, false,
  Result, ok, ◌≡◌, ◌≢◌, inl, inr, refl, ◌∙◌, sym, ap, subst, arith, eq_iff, Bool-cases,
}
use mikrotik_operator.Endpoints.Defs.{
  RouterEndpoint, MikroTikRouter, Net, endpoint_key, router_endpoints, keys_of, all_in, is_empty,
  router_has_durable_current_endpoints,
}
use mikrotik_operator.Endpoints.Owners.{
  same_router, ensure_router_endpoint_ownership, ensure_router_active,
}
use mikrotik_operator.Endpoints.Ownership.{In, ensure_router_endpoint_ownership_exclusive}

all_in-contains :
    (net : Net) (k : Text) (xs ys : List Text)
    → all_in net xs ys ≡ true
    → contains k xs ≡ true
    → contains k ys ≡ true
all_in-contains net k [] ys h m = cc
all_in-contains net k (x ∷ xs) ys h m = elim (Bool-cases (x == k)) [
  | inl e ↦ subst (λ t. contains t ys ≡ true) ((eq_iff x k).0 e) (ground arith)
  | inr e ↦ all_in-contains net k xs ys (ground arith) (ground arith)
]

contains-key :
    (net : Net) (k : Text) (es : List RouterEndpoint)
    → contains k (keys_of net es) ≡ true
    → (e : RouterEndpoint) × In e es × (endpoint_key net e ≡ k)
unfolding keys_of
contains-key net k [] h = cc
contains-key net k (e ∷ es) h = elim (Bool-cases (endpoint_key net e == k)) [
  | inl at ↦ (e, inl refl, (eq_iff _ _).0 at)
  | inr off ↦ let (f, m, at) = contains-key net k es (ground arith) in (f, inr m, at)
]

both_ways : (p q : Bool) → (p ≡ true → q ≡ true) → (q ≡ true → p ≡ true) → p ≡ q
both_ways true q f g = sym (f refl)
both_ways false true f g = g refl
both_ways false false f g = refl

-- If `routerHasDurableCurrentEndpoints` answers true, the router has an endpoint, and the keys
-- that its status records are the keys of its current endpoints.
pub router_has_durable_current_endpoints_lem :
    (net : Net) (router : MikroTikRouter)
    → router_has_durable_current_endpoints net router ≡ true
    → (keys_of net (router_endpoints router) ≢ [])
      × ((k : Text)
          → contains k (keys_of net router.applied_endpoints)
            ≡ contains k (keys_of net (router_endpoints router)))
unfolding router_has_durable_current_endpoints
router_has_durable_current_endpoints_lem net router h =
    let (forth, back, some_key) = parts _ _ _ h in
    (
      λ e. cc (some_key, ap (is_empty net) e),
      λ k. both_ways _ _ (all_in-contains net k _ _ back) (all_in-contains net k _ _ forth),
    )
  where
    parts :
        (p q r : Bool)
        → (if not p then false else if not q then false else not r) ≡ true
        → (p ≡ true) × (q ≡ true) × (r ≡ false)
    parts p q r h = ground arith

pub ensure_router_active-parts :
    (net : Net) (listed : Result (List MikroTikRouter)) (router : MikroTikRouter)
    → ensure_router_active net listed router ≡ ok tt
    → (router.deleted ≡ false)
      × (router_has_durable_current_endpoints net router ≡ true)
      × (ensure_router_endpoint_ownership net listed router ≡ ok tt)
unfolding ensure_router_active
ensure_router_active-parts net listed router h = ground arith

-- For two different routers of the list that `kube.List` returns, whose namespaces hold no slash:
-- if `ensureRouterActive` lets both through on that list, no endpoint key that the status of the
-- one records is recorded in the status of the other.
pub ensure_router_active_exclusive :
    (net : Net) (routers : List MikroTikRouter) (a b : MikroTikRouter)
    → In a routers
    → In b routers
    → contains b'/' a.namespace ≡ false
    → contains b'/' b.namespace ≡ false
    → same_router a b ≡ false
    → ensure_router_active net (ok routers) a ≡ ok tt
    → ensure_router_active net (ok routers) b ≡ ok tt
    → (k : Text) → contains k (keys_of net a.applied_endpoints) ≡ true
    → contains k (keys_of net b.applied_endpoints) ≡ false
ensure_router_active_exclusive net routers a b ia ib ka kb apart ha hb k m =
    elim (Bool-cases (contains k (keys_of net b.applied_endpoints))) [
      | inr off ↦ off
      | inl on ↦
          let (la, da, oa) = ensure_router_active-parts net (ok routers) a ha in
          let (lb, db, ob) = ensure_router_active-parts net (ok routers) b hb in
          let (e, me, at_e) =
            contains-key net k _
              (sym ((router_has_durable_current_endpoints_lem net a da).1 k) ∙ m) in
          let (f, mf, at_f) =
            contains-key net k _
              (sym ((router_has_durable_current_endpoints_lem net b db).1 k) ∙ on) in
          absurd (
            ensure_router_endpoint_ownership_exclusive net a b routers e f ia ib la lb ka kb apart
              me mf oa ob (at_e ∙ sym at_f))
    ]
