-- ===== src/Finalization/Removed.antt =====
-- internal/controller/router_controller.go: `cleanupRemovedEndpoints`.
use mikrotik_operator.Base.{
  List, [], ◌∷◌, contains, nat_eq, list_eq, Bool, true, false, Option, some, Result, ok, err, ◌>>=◌,
  ◌≡◌, inl, inr, refl, sym, ◌∙◌, subst, Bool-cases, Respects, >>=-Respects,
}
use mikrotik_operator.Endpoints.{
  RouterEndpoint, MikroTikRouter, Net, router_endpoints, keys_of, endpoint_key,
  endpoint_claimed_by_other_router,
}
use mikrotik_operator.Endpoints.Ownership.{In}
use mikrotik_operator.Finalization.Defs.{
  Event, Outside, is_unusable, clean_unclaimed, clean_removed, cleanup_removed_each,
  cleanup_removed_endpoints, lift,
}
use mikrotik_operator.Finalization.Wipes.{touches, Only, Only-trans, clean_endpoints-Only}
use mikrotik_operator.Finalization.Finalized.{some_same}

module _ (out : Outside) (net : Net) (routers : Result (List MikroTikRouter))
    (router : MikroTikRouter) where
  -- A device that the router has had, has no longer, and no other router claims.
  pub record Removed (e : RouterEndpoint) : Type 0 where
    pub applied : In e router.applied_endpoints
    pub not_current : contains (endpoint_key net e) (keys_of net (router_endpoints router)) ≡ false
    pub unclaimed : endpoint_claimed_by_other_router net routers router e ≡ ok false

  clean_unclaimed-Only :
      (e : RouterEndpoint) (r : Result Bool)
      → (r ≡ ok false → Removed e)
      → Respects (Only Removed) (lift r >>= clean_unclaimed out net routers router e)
  clean_unclaimed-Only e (err x) all = λ s x m. inl m
  clean_unclaimed-Only e (ok true) all = λ s x m. inl m
  clean_unclaimed-Only e (ok false) all =
      clean_endpoints-Only out Removed router e []
        (λ d m. elim m [ inl same ↦ subst Removed (sym same) (all refl) | inr n ↦ elim n [ ] ])

  clean_removed-Only :
      (e : RouterEndpoint)
      → In e router.applied_endpoints
      → Respects (Only Removed) (clean_removed out net routers router e)
  clean_removed-Only e there = elim (Bool-cases (is_unusable e)) [
    | inl u ↦ rw u (λ s x m. inl m)
    | inr u ↦
        elim (Bool-cases (contains (endpoint_key net e) (keys_of net (router_endpoints router)))) [
          | inl c ↦ rw (u, c) (λ s x m. inl m)
          | inr c ↦
              rw (u, c)
                (clean_unclaimed-Only e (endpoint_claimed_by_other_router net routers router e)
                  (λ f. record { applied = there; not_current = c; unclaimed = f }))
        ]
  ]

  cleanup_removed_each-Only :
      (es : List RouterEndpoint)
      → ((e : RouterEndpoint) → In e es → In e router.applied_endpoints)
      → Respects (Only Removed) (cleanup_removed_each out net routers router es)
  unfolding cleanup_removed_each
  cleanup_removed_each-Only [] all = λ s x m. inl m
  cleanup_removed_each-Only (e ∷ es) all =
      >>=-Respects (Only Removed) (Only-trans Removed) _ _ (clean_removed-Only e (all e (inl refl)))
        (λ a. cleanup_removed_each-Only es (λ d m. all d (inr m)))

  -- Started with no event, with the answer of `kube.List` given: every device that
  -- `cleanupRemovedEndpoints` dials or wipes, with success or not, is an applied endpoint whose
  -- key none of the current endpoints has and that no other router claims.
  pub cleanup_removed_endpoints-Removed :
      (x : Event) (e : RouterEndpoint)
      → In x (cleanup_removed_endpoints out net routers router []).1
      → touches x ≡ some e
      → Removed e
  unfolding cleanup_removed_endpoints
  cleanup_removed_endpoints-Removed x e m t =
      elim (cleanup_removed_each-Only router.applied_endpoints (λ d n. n) [] x m) [
        | inl n ↦ elim n [ ]
        | inr (d, a, q) ↦
            let same : ◌≡◌ {A = Option RouterEndpoint} (some d) (some e) = sym a ∙ t in
            subst Removed (some_same same) q
      ]
