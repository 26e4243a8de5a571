-- ===== src/Endpoints/History.antt =====
-- internal/controller/router_controller.go: `durableRouterEndpointUnion`, the record of the devices
-- that a router has had.
use mikrotik_operator.Base.{
  Text, List, [], ◌∷◌, contains, Nodup, ◌==◌, nat_eq, list_eq, ◌||◌, if◌then◌else◌, false, ◌≡◌, inl,
  inr, refl, sym, subst, ap, ◌∙◌, arith, eq_iff, Bool-cases,
}
use mikrotik_operator.Endpoints.Defs.{RouterEndpoint, Net, endpoint_key, keys_of}
use mikrotik_operator.Endpoints.Ownership.{In}

module _ (net : Net) where
  -- The body of both loops; the map of the source holds the place of each key in the list.
  unfoldable pub put_endpoint : List RouterEndpoint → RouterEndpoint → List RouterEndpoint
  put_endpoint [] endpoint = endpoint ∷ []
  put_endpoint (e ∷ endpoints) endpoint =
      let rest = put_endpoint endpoints endpoint in
      if endpoint_key net e == endpoint_key net endpoint then endpoint ∷ endpoints else e ∷ rest

  unfoldable pub put_endpoints : List RouterEndpoint → List RouterEndpoint → List RouterEndpoint
  put_endpoints history [] = history
  put_endpoints history (endpoint ∷ endpoints) =
      put_endpoints (put_endpoint history endpoint) endpoints

  unfoldable pub durable_router_endpoint_union :
      List RouterEndpoint → List RouterEndpoint → List RouterEndpoint
  durable_router_endpoint_union previous current = put_endpoints (put_endpoints [] previous) current

  contains-put :
      (k : Text) (history : List RouterEndpoint) (e : RouterEndpoint)
      → contains k (keys_of net (put_endpoint history e))
        ≡ (contains k (keys_of net history) || (endpoint_key net e == k))
  unfolding put_endpoint keys_of
  contains-put k [] e = ground arith
  contains-put k (x ∷ history) e = elim (Bool-cases (endpoint_key net x == endpoint_key net e)) [
    | inl q ↦
        let same = (eq_iff (endpoint_key net x) (endpoint_key net e)).0 q in
        rw q (rw same (ground arith))
    | inr q ↦ rw q (ground (arith, contains-put k history e))
  ]

  put_endpoint-Nodup :
      (history : List RouterEndpoint) (e : RouterEndpoint)
      → Nodup (keys_of net history)
      → Nodup (keys_of net (put_endpoint history e))
  unfolding put_endpoint keys_of
  put_endpoint-Nodup [] e n = (refl, tt)
  put_endpoint-Nodup (x ∷ history) e n =
      elim (Bool-cases (endpoint_key net x == endpoint_key net e)) [
        | inl q ↦
            let same = (eq_iff (endpoint_key net x) (endpoint_key net e)).0 q in
            rw q (rw (← same) n)
        | inr q ↦ rw q (
          contains-put (endpoint_key net x) history e
              ∙ ground (
                arith,
                n.0,
                eq_iff (endpoint_key net x) (endpoint_key net e),
                eq_iff (endpoint_key net e) (endpoint_key net x),
              ),
          put_endpoint-Nodup history e n.1,
        )
      ]

  contains-put_endpoints :
      (k : Text) (endpoints history : List RouterEndpoint)
      → contains k (keys_of net (put_endpoints history endpoints))
        ≡ (contains k (keys_of net history) || contains k (keys_of net endpoints))
  unfolding put_endpoints keys_of
  contains-put_endpoints k [] history = ground arith
  contains-put_endpoints k (e ∷ endpoints) history =
      contains-put_endpoints k endpoints (put_endpoint history e)
      ∙ ground (arith, contains-put k history e)

  put_endpoints-Nodup :
      (endpoints history : List RouterEndpoint)
      → Nodup (keys_of net history)
      → Nodup (keys_of net (put_endpoints history endpoints))
  unfolding put_endpoints
  put_endpoints-Nodup [] history n = n
  put_endpoints-Nodup (e ∷ endpoints) history n =
      put_endpoints-Nodup endpoints (put_endpoint history e) (put_endpoint-Nodup history e n)

  -- `durableRouterEndpointUnion` lists no endpoint key twice, and it lists a key exactly if one of
  -- the previous or one of the current endpoints has it.
  pub durable_router_endpoint_union_lem :
      (previous current : List RouterEndpoint) (k : Text)
      → Nodup (keys_of net (durable_router_endpoint_union previous current))
        × (contains k (keys_of net (durable_router_endpoint_union previous current))
            ≡ (contains k (keys_of net previous) || contains k (keys_of net current)))
  unfolding durable_router_endpoint_union keys_of
  durable_router_endpoint_union_lem previous current k = (
    put_endpoints-Nodup current _ (put_endpoints-Nodup previous [] tt),
    contains-put_endpoints k current _
        ∙ ap (λ b. b || contains k (keys_of net current)) (contains-put_endpoints k previous []),
  )

  put_endpoint-In :
      (history : List RouterEndpoint) (e : RouterEndpoint) → In e (put_endpoint history e)
  unfolding put_endpoint
  put_endpoint-In [] e = inl refl
  put_endpoint-In (x ∷ history) e = elim (Bool-cases (endpoint_key net x == endpoint_key net e)) [
    | inl q ↦ rw q (inl refl)
    | inr q ↦ rw q (inr (put_endpoint-In history e))
  ]

  put_endpoint-In_other :
      (history : List RouterEndpoint) (e x : RouterEndpoint)
      → (endpoint_key net x == endpoint_key net e) ≡ false
      → In x history
      → In x (put_endpoint history e)
  unfolding put_endpoint
  put_endpoint-In_other [] e x d m = elim m [ ]
  put_endpoint-In_other (y ∷ history) e x d m =
      elim (Bool-cases (endpoint_key net y == endpoint_key net e)) [
        | inl q ↦ rw q (elim m [
          | inl same ↦ cc (q, d, ap (λ z. endpoint_key net z == endpoint_key net e) same)
          | inr k ↦ inr k
        ])
        | inr q ↦
            rw q
              (elim m [ inl same ↦ inl same | inr k ↦ inr (put_endpoint-In_other history e x d k) ])
      ]

  put_endpoints-In_other :
      (endpoints history : List RouterEndpoint) (x : RouterEndpoint)
      → contains (endpoint_key net x) (keys_of net endpoints) ≡ false
      → In x history
      → In x (put_endpoints history endpoints)
  unfolding put_endpoints keys_of
  put_endpoints-In_other [] history x d m = m
  put_endpoints-In_other (e ∷ endpoints) history x d m =
      put_endpoints-In_other endpoints (put_endpoint history e) x (ground arith) (
        put_endpoint-In_other history e x
          (ground (
            arith,
            eq_iff (endpoint_key net x) (endpoint_key net e),
            eq_iff (endpoint_key net e) (endpoint_key net x),
          ))
          m)

  put_endpoints-In :
      (endpoints history : List RouterEndpoint) (x : RouterEndpoint)
      → Nodup (keys_of net endpoints)
      → In x endpoints
      → In x (put_endpoints history endpoints)
  unfolding put_endpoints keys_of
  put_endpoints-In [] history x n m = elim m [ ]
  put_endpoints-In (e ∷ endpoints) history x n (inl same) =
      put_endpoints-In_other endpoints (put_endpoint history e) x
        (ap (λ z. contains (endpoint_key net z) (keys_of net endpoints)) same ∙ n.0)
        (subst (λ z. In z (put_endpoint history e)) (sym same) (put_endpoint-In history e))
  put_endpoints-In (e ∷ endpoints) history x n (inr m) =
      put_endpoints-In endpoints (put_endpoint history e) x n.1 m

  -- The endpoints of today replace the older ones with their keys.
  pub durable_router_endpoint_union_current :
      (previous current : List RouterEndpoint) (e : RouterEndpoint)
      → Nodup (keys_of net current)
      → In e current
      → In e (durable_router_endpoint_union previous current)
  unfolding durable_router_endpoint_union
  durable_router_endpoint_union_current previous current e n m = put_endpoints-In current _ e n m
