-- ===== src/Cluster/Covers.antt =====
-- internal/controller/cluster_routes.go: which endpoints the hops of `desiredClusterRouteHops` serve.
use mikrotik_operator.Base.{
  Text, List, [], ◌∷◌, map, map-map, any, contains, Nodup, ◌==◌, nat_eq, list_eq, ◌&&◌, not,
  if◌then◌else◌, Bool, true, false, Result, ok, ◌≡◌, ◌≢◌, inl, inr, refl, ◌∙◌, sym, ap, subst,
  eq_iff, Bool-cases, Result-cases, result_injective,
}
use mikrotik_operator.Endpoints.{RouterEndpoint, MikroTikRouter, router_endpoints}
use mikrotik_operator.Endpoints.Ownership.{In}
use mikrotik_operator.Cluster.Gateways.{Service, Node, route_gateways}
use mikrotik_operator.Cluster.Hops.{
  override, nodes_origin, ClusterRouteHop, endpoint_route_gateway,
  cluster_route_applies_to_endpoint, Origins, keys, origin_of, HopState, add_hops, add_nodes,
  endpoint_hops, or_nodes, settle_hops, no_hops, desired_hops, desired_cluster_route_hops,
}
use mikrotik_operator.Cluster.Adds.{
  gateways_of, is_nodal, IsAligned, Grows, Grows-refl, Grows-trans, AddsAll, add_hops-AddsAll,
}

-- Enough hops for one endpoint: the gateway that it asks for, or those of all nodes.
module _ (router : MikroTikRouter) where
  -- The gateways that an endpoint needs.
  abbrev pub needs : List Text → RouterEndpoint → List Text
  needs ns e =
      if not (endpoint_route_gateway e router == [])
      then endpoint_route_gateway e router ∷ []
      else ns

  abbrev pub serving : RouterEndpoint → Text → ClusterRouteHop → Bool
  serving e v h = h.gateway == v && cluster_route_applies_to_endpoint h.gateway h.origin e router

module _ (nodes : Result (List Text)) (router : MikroTikRouter) where
  record IsServed (e : RouterEndpoint) (t : HopState) : Type 0 where
    wanted :
        endpoint_route_gateway e router ≢ []
        → contains (endpoint_route_gateway e router) (keys t.seen) ≡ true
    by_nodes :
        endpoint_route_gateway e router ≡ []
        → (ns : List Text) → nodes ≡ ok ns
        → (v : Text) → In v ns
        → v ≢ []
        → (contains v (keys t.seen) ≡ true) × (is_nodal (origin_of v t.seen) ≡ true)

  Grows-IsServed : (e : RouterEndpoint) (s t : HopState) → Grows s t → IsServed e s → IsServed e t
  Grows-IsServed e s t g a = record {
    wanted = λ w. g.held _ (a.wanted w);
    by_nodes =
        λ w ns at v m set. let (h, n) = a.by_nodes w ns at v m set in (g.held v h, g.nodal v h n);
  }

  record Serves (es : List RouterEndpoint) (s t : HopState) : Type 0 where
    grows : Grows s t
    aligns : IsAligned s → IsAligned t
    serves : (e : RouterEndpoint) → In e es → IsServed e t

  -- The two branches of the loop for one endpoint.
  served_by_override :
      (e : RouterEndpoint) (s : HopState)
      → endpoint_route_gateway e router ≢ []
      → Serves (e ∷ []) s (add_hops override s (endpoint_route_gateway e router ∷ []))
  served_by_override e s w =
      let a = add_hops-AddsAll override (endpoint_route_gateway e router ∷ []) s in
      record { grows = a.grows; aligns = a.aligns; serves = λ f m. only f m a }
    where
      only :
          (f : RouterEndpoint)
          → In f (e ∷ [])
          → AddsAll override
              (endpoint_route_gateway e router ∷ [])
              s
              (add_hops override s (endpoint_route_gateway e router ∷ []))
          → IsServed f (add_hops override s (endpoint_route_gateway e router ∷ []))
      only f (inl at) a =
          subst (λ g. IsServed g (add_hops override s (endpoint_route_gateway e router ∷ [])))
            (sym at)
            (record { wanted = λ set. a.added _ (inl refl) set; by_nodes = λ n. absurd (w n) })
      only f (inr m) a = elim m [ ]

  served_by_nodes :
      (e : RouterEndpoint) (s : HopState) (ns : List Text)
      → nodes ≡ ok ns
      → endpoint_route_gateway e router ≡ []
      → Serves (e ∷ []) s (add_hops nodes_origin s ns)
  served_by_nodes e s ns at w =
      let a = add_hops-AddsAll nodes_origin ns s in
      record { grows = a.grows; aligns = a.aligns; serves = λ f m. only f m a }
    where
      only :
          (f : RouterEndpoint)
          → In f (e ∷ [])
          → AddsAll nodes_origin ns s (add_hops nodes_origin s ns)
          → IsServed f (add_hops nodes_origin s ns)
      only f (inl same) a =
          subst (λ g. IsServed g (add_hops nodes_origin s ns)) (sym same)
            (record {
              wanted = λ set. absurd (set w);
              by_nodes = λ n l other v m set.
                  let m' : In v ns = subst (In v) (result_injective (sym other ∙ at)) m in
                  (a.added v m' set, a.by_node v m' set refl);
            })
      only f (inr m) a = elim m [ ]

  one_served :
      (e : RouterEndpoint) (s : HopState) {t : HopState}
      → (if not (endpoint_route_gateway e router == [])
          then ok (add_hops override s (endpoint_route_gateway e router ∷ []))
          else add_nodes nodes s)
        ≡ ok t
      → Serves (e ∷ []) s t
  one_served e s h = elim (Bool-cases (endpoint_route_gateway e router == [])) [
    | inr w ↦
        subst (Serves (e ∷ []) s) (result_injective (rw w at h))
          (served_by_override e s (λ n. cc (w, (eq_iff _ []).1 n)))
    | inl w ↦ elim (Result-cases nodes) [
      | inl (ns, at) ↦
          subst (Serves (e ∷ []) s) (result_injective (rw (w, at) at h))
            (served_by_nodes e s ns at ((eq_iff _ []).0 w))
      | inr (x, at) ↦ cc (rw (w, at) at h)
    ]
  ]

  Serves-cons :
      (e : RouterEndpoint) (es : List RouterEndpoint) (s t u : HopState)
      → Serves (e ∷ []) s t
      → Serves es t u
      → Serves (e ∷ es) s u
  Serves-cons e es s t u a b = record {
    grows = Grows-trans s t u a.grows b.grows;
    aligns = λ h. b.aligns (a.aligns h);
    serves = λ f m. either f m;
  }
    where
      either : (f : RouterEndpoint) → In f (e ∷ es) → IsServed f u
      either f (inl at) = Grows-IsServed f t u b.grows (a.serves f (inl at))
      either f (inr m) = b.serves f m

  endpoint_hops-Serves :
      (es : List RouterEndpoint) (s : HopState) {t : HopState}
      → endpoint_hops nodes router es s ≡ ok t
      → Serves es s t
  unfolding endpoint_hops
  endpoint_hops-Serves [] s h =
      subst (Serves [] s) (result_injective h)
        (record { grows = Grows-refl s; aligns = λ a. a; serves = λ e m. elim m [ ] })
  endpoint_hops-Serves (e ∷ es) s {t = u} h =
      elim (Result-cases (
        if not (endpoint_route_gateway e router == [])
        then ok (add_hops override s (endpoint_route_gateway e router ∷ []))
        else add_nodes nodes s)) [
          | inl (t, at) ↦
              Serves-cons e es s t u (one_served e s at)
                (endpoint_hops-Serves es t (rw (endpoint_hops, at) at h))
          | inr (x, at) ↦ cc (rw (endpoint_hops, at) at h)
        ]

  or_nodes-Serves :
      (es : List RouterEndpoint) (s t : HopState) (hops : List ClusterRouteHop) {u : HopState}
      → Serves es s t
      → or_nodes nodes t hops ≡ ok u
      → Serves es s u
  or_nodes-Serves es s t (h ∷ hs) a k = subst (Serves es s) (result_injective k) a
  or_nodes-Serves es s t [] a k = elim (Result-cases nodes) [
    | inr (x, at) ↦ cc (rw at at k)
    | inl (ns, at) ↦
        let b = add_hops-AddsAll nodes_origin ns t in
        subst (Serves es s) (result_injective (rw at at k)) (record {
          grows = Grows-trans s t _ a.grows b.grows;
          aligns = λ h. b.aligns (a.aligns h);
          serves = λ e m. Grows-IsServed e t _ b.grows (a.serves e m);
        })
  ]

  -- A hop that a test accepts, found by its gateway.
  any-settle :
      (test : Text → Text → Bool) (v : Text) (seen : Origins) (hops : List ClusterRouteHop)
      → contains v (gateways_of hops) ≡ true
      → test v (origin_of v seen) ≡ true
      → any
          (λ (h : ClusterRouteHop). h.gateway == v && test h.gateway h.origin)
          (map (λ h. record { gateway = h.gateway; origin = origin_of h.gateway seen }) hops)
        ≡ true
  unfolding any
  any-settle test v seen [] c t = cc
  any-settle test v seen (h ∷ hs) c t = elim (Bool-cases (h.gateway == v)) [
    | inl e ↦
        let same : v ≡ h.gateway = sym ((eq_iff h.gateway v).0 e) in
        rw (e, subst (λ w. test w (origin_of w seen) ≡ true) same t) refl
    | inr e ↦ rw e (any-settle test v seen hs (rw e at c) t)
  ]

  settled-gateways : (t : HopState) → gateways_of (settle_hops t) ≡ gateways_of t.hops
  unfolding settle_hops
  settled-gateways t = map-map _ _ t.hops

  settled-serves :
      (t : HopState) (e : RouterEndpoint) (v : Text) (ns : List Text)
      → IsAligned t
      → nodes ≡ ok ns
      → IsServed e t
      → In v (needs router ns e)
      → v ≢ []
      → any (serving router e v) (settle_hops t) ≡ true
  unfolding settle_hops cluster_route_applies_to_endpoint
  settled-serves t e v ns a at served m set =
      elim (Bool-cases (endpoint_route_gateway e router == [])) [
        | inr w ↦ by_want (rw w at m) (served.wanted (λ n. cc (w, (eq_iff _ []).1 n))) w
        | inl w ↦
            let (c, n) = served.by_nodes ((eq_iff _ []).0 w) ns at v (rw w at m) set in
            any-settle (λ g o. cluster_route_applies_to_endpoint g o e router) v t.seen t.hops
              (ap (contains v) a.aligned ∙ c) (rw w n)
      ]
    where
      by_want :
          In v (endpoint_route_gateway e router ∷ [])
          → contains (endpoint_route_gateway e router) (keys t.seen) ≡ true
          → (endpoint_route_gateway e router == []) ≡ false
          → any (serving router e v) (settle_hops t) ≡ true
      by_want (inl same) c w =
          any-settle (λ g o. cluster_route_applies_to_endpoint g o e router) v t.seen t.hops
            (ap (contains v) a.aligned ∙ (ap (λ x. contains x (keys t.seen)) same ∙ c))
            (rw w ((eq_iff v (endpoint_route_gateway e router)).1 same))
      by_want (inr n) c w = elim n [ ]

  desired_hops_lem :
      (ns : List Text) {hops : List ClusterRouteHop}
      → nodes ≡ ok ns
      → desired_hops nodes router ≡ ok hops
      → Nodup (map (λ h. h.gateway) hops)
        × ((e : RouterEndpoint) (v : Text)
            → In e (router_endpoints router)
            → In v (needs router ns e)
            → v ≢ []
            → any (serving router e v) hops ≡ true)
  unfolding desired_hops
  desired_hops_lem ns {hops} at h =
      elim (Result-cases (endpoint_hops nodes router (router_endpoints router) no_hops)) [
        | inr (x, e) ↦ cc (rw (desired_hops, e) at h)
        | inl (s, e) ↦ elim (Result-cases (or_nodes nodes s s.hops)) [
          | inr (x, f) ↦ cc (rw (desired_hops, e, f) at h)
          | inl (t, f) ↦
              let all =
                or_nodes-Serves (router_endpoints router) no_hops s s.hops
                  (endpoint_hops-Serves (router_endpoints router) no_hops e) f in
              let a = all.aligns (record { aligned = refl; distinct = tt }) in
              let same : settle_hops t ≡ hops = result_injective (rw (desired_hops, e, f) at h) in
              (
                subst (λ l. Nodup (gateways_of l)) same
                    (subst Nodup (sym (settled-gateways t ∙ a.aligned)) a.distinct),
                λ e v m n set.
                    subst (λ l. any (serving router e v) l ≡ true) same
                      (settled-serves t e v ns a at (all.serves e m) n set),
              )
        ]
      ]

-- If `routeGateways` and `desiredClusterRouteHops` both succeed, no two hops have the same
-- gateway, and for every endpoint of the router and every gateway that is not empty and is either
-- the one the endpoint asks for or, where it asks for none, one of the nodes', some hop has this
-- gateway and `clusterRouteAppliesToEndpoint` lets it through for the endpoint.
pub desired_cluster_route_hops_serve :
    (nodes : Result (List Node)) (service : Service) (router : MikroTikRouter) (e : RouterEndpoint)
    (gateway : Text) {ns : List Text} {hops : List ClusterRouteHop}
    → route_gateways service nodes ≡ ok ns
    → desired_cluster_route_hops nodes service router ≡ ok hops
    → In e (router_endpoints router)
    → In gateway (needs router ns e)
    → gateway ≢ []
    → Nodup (map (λ h. h.gateway) hops) × (any (serving router e gateway) hops ≡ true)
unfolding desired_cluster_route_hops
desired_cluster_route_hops_serve nodes service router e gateway {ns} at h m n set =
    let (apart, served) = desired_hops_lem (route_gateways service nodes) router ns at h in
    (apart, served e gateway m n set)
