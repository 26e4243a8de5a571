-- ===== src/OwnedRoutes/Spared.antt =====
-- internal/controller/cluster_routes.go: the routes of other owners.
use mikrotik_operator.Base.{
  Text, List, [], ◌∷◌, ◌==◌, nat_eq, list_eq, true, false, Option, some, Result, ok, err, ◌>>◌, ◌≡◌,
  ◌⊎◌, inl, inr, refl, sym, ap, ap₂, ◌∙◌, arith, eq_iff, Bool-cases, Result-cases, Respects,
  >>=-Respects,
}
use mikrotik_operator.Endpoints.Ownership.{In}
use mikrotik_operator.References.{RouterApi}
use mikrotik_operator.Cluster.{Node}
use mikrotik_operator.OwnedRoutes.Api.{
  MikroTikRoute, is_controlled_by, Read, got, not_there, not_read, Kube,
}
use mikrotik_operator.OwnedRoutes.Candidates.{
  ClusterRouteCandidate, ClusterRouteReconcileRequest, cluster_route_source_value,
  desired_cluster_route_candidates,
}
use mikrotik_operator.OwnedRoutes.Operations.{
  is_settled, changed_route, create_owned, settle_route, settle_candidate, settle_each, is_kept,
  visit, delete_undesired, reconcile_owned_cluster_routes,
}
use mikrotik_operator.OwnedRoutes.Laws.{IsElsewhere, IsLawful}

pub here-or-IsElsewhere :
    (r : MikroTikRoute) (ns n : Text)
    → ((r.namespace ≡ ns) × (r.route_name ≡ n)) ⊎ IsElsewhere r ns n
here-or-IsElsewhere r ns n = elim (Bool-cases (r.namespace == ns)) [
  | inr e ↦ inr (λ h. cc (e, (eq_iff r.namespace ns).1 h))
  | inl e ↦ elim (Bool-cases (r.route_name == n)) [
    | inl f ↦ inl ((eq_iff r.namespace ns).0 e, (eq_iff r.route_name n).0 f)
    | inr f ↦ inr (λ h k. cc (f, (eq_iff r.route_name n).1 k))
  ]
]

some_same : {a b : MikroTikRoute} → ◌≡◌ {A = Option MikroTikRoute} (some a) (some b) → a ≡ b
some_same h = cc

module _ (A : Kube) (law : IsLawful A) (request : ClusterRouteReconcileRequest) (ns n : Text)
    (x : MikroTikRoute) (foreign : is_controlled_by x request.owner ≡ false) where
  abbrev Holds : A.State → Type 0
  Holds s = A.stored s ns n ≡ some x

  abbrev KeepsIt : A.State → A.State → Type 0
  KeepsIt s t = Holds s → Holds t

  create-KeepsIt : (s : A.State) (r : MikroTikRoute) → KeepsIt s (A.create s r).1
  create-KeepsIt s r h = elim (here-or-IsElsewhere r ns n) [
    | inl (e, f) ↦
        sym (ap₂ (A.stored (A.create s r).1) e f) ∙ law.create_old s r x (ap₂ (A.stored s) e f ∙ h)
    | inr d ↦ law.create_elsewhere s r ns n d ∙ h
  ]

  mine-IsElsewhere :
      (s : A.State) (r q : MikroTikRoute)
      → A.stored s q.namespace q.route_name ≡ some r
      → is_controlled_by r request.owner ≡ true
      → Holds s
      → IsElsewhere q ns n
  mine-IsElsewhere s r q at mine h e f =
      let same : x ≡ r = some_same (sym h ∙ (sym (ap₂ (A.stored s) e f) ∙ at)) in
      cc (sym foreign ∙ (ap (λ y. is_controlled_by y request.owner) same ∙ mine))

  at_own_key :
      (s : A.State) (a b : Text) (r : MikroTikRoute)
      → A.stored s a b ≡ some r
      → A.stored s r.namespace r.route_name ≡ some r
  at_own_key s a b r h = let (e, f) = law.keyed s a b r h in ap₂ (A.stored s) e f ∙ h

  create_owned-KeepsIt : (r : Result MikroTikRoute) → Respects KeepsIt (create_owned A r)
  create_owned-KeepsIt (err e) s h = h
  create_owned-KeepsIt (ok r) s h = create-KeepsIt s r h

  settle_route-KeepsIt :
      (label : Text) (c : ClusterRouteCandidate) (read : Read) (s : A.State)
      → A.get s request.namespace c.candidate_name ≡ read
      → KeepsIt s (settle_route A label request c read s).1
  unfolding settle_route changed_route
  settle_route-KeepsIt label c not_there s g h = create_owned-KeepsIt _ s h
  settle_route-KeepsIt label c (not_read e) s g h = h
  settle_route-KeepsIt label c (got r) s g h =
      elim (Bool-cases (is_controlled_by r request.owner)) [
        | inr e ↦ rw e h
        | inl e ↦ elim (Bool-cases (is_settled request c r)) [
          | inl f ↦ rw (e, f) h
          | inr f ↦
              rw (e, f)
                (law.update_elsewhere s _ ns n (changed_elsewhere (law.get_got s _ _ r g) e) ∙ h)
        ]
      ]
    where
      changed_elsewhere :
          A.stored s request.namespace c.candidate_name ≡ some r
          → is_controlled_by r request.owner ≡ true
          → IsElsewhere (changed_route label request c r) ns n
      changed_elsewhere at mine =
          mine-IsElsewhere s r (changed_route label request c r) (at_own_key s _ _ r at) mine h

  settle_each-KeepsIt :
      (label : Text) (cs : List ClusterRouteCandidate)
      → Respects KeepsIt (settle_each A label request cs)
  unfolding settle_each settle_candidate
  settle_each-KeepsIt label [] = λ s h. h
  settle_each-KeepsIt label (c ∷ cs) =
      >>=-Respects KeepsIt (λ s t u h k p. k (h p)) _ _ (λ s. settle_route-KeepsIt label c _ s refl)
        (λ a. settle_each-KeepsIt label cs)

  -- The routes that are deleted were listed before, when the route in question was there already.
  delete_undesired-KeepsIt :
      (cs : List ClusterRouteCandidate) (first : A.State) (l rest : List MikroTikRoute)
      → A.list first request.namespace ≡ ok l
      → Holds first
      → ((r : MikroTikRoute) → In r rest → In r l)
      → Respects KeepsIt (delete_undesired A request cs rest)
  unfolding delete_undesired
  delete_undesired-KeepsIt cs first l [] at held within = λ s h. h
  delete_undesired-KeepsIt cs first l (r ∷ rest) at held within =
      >>=-Respects KeepsIt (λ s t u h k p. k (h p)) _ _ one
        (λ a. delete_undesired-KeepsIt cs first l rest at held (λ q m. within q (inr m)))
    where
      one : Respects KeepsIt (visit A request cs r)
      one s h = elim (Bool-cases (is_kept A request cs r)) [
        | inl e ↦ rw e h
        | inr e ↦
            let there = law.listed first request.namespace l r at (within r (inl refl)) in
            rw e (
              law.delete_elsewhere s r ns n
                (mine-IsElsewhere first r r (at_own_key first _ _ r there) (ground arith) held)
              ∙ h)
      ]

  both-KeepsIt :
      (label : Text) (cs : List ClusterRouteCandidate) (first : A.State) (l : List MikroTikRoute)
      → A.list first request.namespace ≡ ok l
      → Holds first
      → Respects KeepsIt (settle_each A label request cs >> delete_undesired A request cs l)
  both-KeepsIt label cs first l g h =
      >>=-Respects KeepsIt (λ s t u h k p. k (h p)) _ _ (settle_each-KeepsIt label cs)
        (λ a. delete_undesired-KeepsIt cs first l l g h (λ r m. m))

  -- On a Kubernetes client that obeys the laws of OwnedRoutes.Laws: a MikroTikRoute of any
  -- namespace that the owner does not control is stored unchanged after
  -- `reconcileOwnedClusterRoutes`, whether it succeeds or fails at any call.
  pub reconcile_owned_cluster_routes_spares :
      (sha1_hex : Text → Text) (api : RouterApi) (nodes : Result (List Node)) (s : A.State)
      → A.stored s ns n ≡ some x
      → A.stored (reconcile_owned_cluster_routes A sha1_hex api nodes request s).1 ns n ≡ some x
  unfolding reconcile_owned_cluster_routes
  reconcile_owned_cluster_routes_spares sha1_hex api nodes s h =
      elim (Result-cases (desired_cluster_route_candidates sha1_hex api nodes request)) [
        | inr (e, f) ↦ rw f h
        | inl (cs, f) ↦ elim (Result-cases (A.list s request.namespace)) [
          | inr (e, g) ↦ rw (f, g) h
          | inl (l, g) ↦
              rw (f, g)
                (both-KeepsIt
                  (cluster_route_source_value sha1_hex request.namespace request.source_name) cs s l
                  g h s h)
        ]
      ]
