-- ===== src/OwnedRoutes/Settled.antt =====
-- internal/controller/cluster_routes.go: the routes of the source once `reconcileOwnedClusterRoutes`
-- has succeeded.
use mikrotik_operator.Base.{
  Text, List, [], ◌∷◌, contains, Nodup, nat_eq, list_eq, true, false, Option, some, Result, ok, ◌≡◌,
  ◌≢◌, ◌⊎◌, inl, inr, refl, sym, ap, ap₂, ◌∙◌, subst, arith, eq_iff, Bool-cases, Result-cases,
  >>=-eq-ok,
}
use mikrotik_operator.Endpoints.Ownership.{In}
use mikrotik_operator.References.{RouterApi}
use mikrotik_operator.Cluster.{Node}
use mikrotik_operator.OwnedRoutes.Api.{MikroTikRoute, is_controlled_by, Kube}
use mikrotik_operator.OwnedRoutes.Candidates.{
  ClusterRouteCandidate, ClusterRouteReconcileRequest, names, cluster_route_source_value,
  desired_cluster_route_candidates,
}
use mikrotik_operator.OwnedRoutes.Operations.{
  write, settle_candidate, settle_each, is_kept, visit, delete_undesired,
  reconcile_owned_cluster_routes,
}
use mikrotik_operator.OwnedRoutes.Laws.{IsLawful, IsGone}
use mikrotik_operator.OwnedRoutes.Distinct.{desired_cluster_route_candidates-Nodup}
use mikrotik_operator.OwnedRoutes.Spared.{here-or-IsElsewhere}
use mikrotik_operator.OwnedRoutes.Wanted.{IsWanted, IsMissed, answered-ok, settle_route-IsWanted}
use mikrotik_operator.OwnedRoutes.Kept.{
  settle_route-Keeps, settle_each-Keeps, delete_undesired-Keeps,
}

contains-names :
    (c : ClusterRouteCandidate) (cs : List ClusterRouteCandidate)
    → In c cs
    → contains c.candidate_name (names cs) ≡ true
contains-names c [] m = elim m [ ]
contains-names c (d ∷ cs) (inl e) =
    let same = (eq_iff d.candidate_name c.candidate_name).1 (ap (λ x. x.candidate_name) (sym e)) in
    ground arith
contains-names c (d ∷ cs) (inr m) = ground (arith, contains-names c cs m)

module _ (A : Kube) (law : IsLawful A) (request : ClusterRouteReconcileRequest) where
  abbrev here : A.State → Text → Option MikroTikRoute
  here s n = A.stored s request.namespace n

  -- What holds of a candidate between two states: its route is as wanted, or `Get` has missed it.
  abbrev Settles : ClusterRouteCandidate → A.State → A.State → Type 0
  Settles c s u =
      IsWanted request c (here u c.candidate_name)
      ⊎ IsMissed A request.namespace c.candidate_name s u

  Settles-later :
      (c : ClusterRouteCandidate) (s t u : A.State)
      → here u c.candidate_name ≡ here t c.candidate_name
      → Settles c s t
      → Settles c s u
  Settles-later c s t u kept (inl (r, at, wants)) = inl (r, kept ∙ at, wants)
  Settles-later c s t u kept (inr m) = inr (record {
    route = m.route;
    held = m.held;
    left = kept ∙ m.left;
    read_at = m.read_at;
    held_then = m.held_then;
    unseen = m.unseen;
  })

  Settles-earlier :
      (c : ClusterRouteCandidate) (s t u : A.State)
      → here t c.candidate_name ≡ here s c.candidate_name
      → Settles c t u
      → Settles c s u
  Settles-earlier c s t u kept (inl w) = inl w
  Settles-earlier c s t u kept (inr m) = inr (record {
    route = m.route;
    held = sym kept ∙ m.held;
    left = m.left;
    read_at = m.read_at;
    held_then = m.held_then;
    unseen = m.unseen;
  })

  settle_each-Settles :
      (label : Text) (cs : List ClusterRouteCandidate) (c : ClusterRouteCandidate) (s u : A.State)
      → Nodup (names cs)
      → In c cs
      → settle_each A label request cs s ≡ (ok tt, u)
      → Settles c s u
  unfolding settle_each settle_candidate
  settle_each-Settles label [] c s u n m h = elim m [ ]
  settle_each-Settles label (d ∷ cs) c s u n m h =
      let (done_one, t, first, rest) =
        >>=-eq-ok (settle_candidate A label request d) (λ a. settle_each A label request cs) h in
      elim m [
        | inl e ↦
            let apart = ap (λ x. contains x.candidate_name (names cs)) e ∙ n.0 in
            let kept = settle_each-Keeps A law request label c.candidate_name cs apart t in
            Settles-later c s t u (ap (λ p. here p.1 c.candidate_name) (sym rest) ∙ kept) (
              settle_route-IsWanted A law request label c _ s t refl
                (ap (λ x. settle_candidate A label request x s) e ∙ first))
        | inr k ↦
            let other : d.candidate_name ≢ c.candidate_name =
              λ same. cc (n.0, ap (λ x. contains x (names cs)) same, contains-names c cs k) in
            let kept = settle_route-Keeps A law request label c.candidate_name d _ s other refl in
            Settles-earlier c s t u (ap (λ p. here p.1 c.candidate_name) (sym first) ∙ kept)
              (settle_each-Settles label cs c t u n.1 k rest)
      ]

  -- What the last loop leaves of the route of one name.
  abbrev GoneAt : Text → A.State → Type 0
  GoneAt n s = IsGone (here s n)

  deleted-IsGone :
      (n : Text) (r : MikroTikRoute) (s u : A.State)
      → ((r.namespace ≡ request.namespace) × (r.route_name ≡ n)) ⊎ GoneAt n s
      → write A (λ s. A.delete s r) true false s ≡ (ok tt, u)
      → GoneAt n u
  deleted-IsGone n r s u p h =
      subst (GoneAt n) (ap (λ p. p.1) h) (elim (here-or-IsElsewhere r request.namespace n) [
        | inr d ↦ elim p [
          | inl (e, f) ↦ absurd (d e f)
          | inr gone ↦ subst IsGone (sym (law.delete_elsewhere s r request.namespace n d)) gone
        ]
        | inl (e, f) ↦
            subst IsGone (ap₂ (A.stored (A.delete s r).1) e f)
              (elim (answered-ok A (A.delete s r).0 true false (ap (λ p. p.0) h)) [
                | inl a ↦ law.delete_done s r a
                | inr (inl (a, q)) ↦ subst IsGone (sym (law.delete_absent s r a)) tt
                | inr (inr (a, q)) ↦ cc
              ])
      ])

  visited-IsGone :
      (n : Text) (cs : List ClusterRouteCandidate) (r : MikroTikRoute) (s u : A.State)
      → contains n (names cs) ≡ false
      → (is_controlled_by r request.owner ≡ true)
          × (r.namespace ≡ request.namespace)
          × (r.route_name ≡ n)
        ⊎ GoneAt n s
      → visit A request cs r s ≡ (ok tt, u)
      → GoneAt n u
  visited-IsGone n cs r s u apart p h = elim (Bool-cases (is_kept A request cs r)) [
    | inr e ↦
        deleted-IsGone n r s u
          (elim p [
            | inl (mine, same_ns, same_name) ↦ inl (same_ns, same_name)
            | inr gone ↦ inr gone
          ])
          (rw e at h)
    | inl e ↦ subst (GoneAt n) (ap (λ p. p.1) (rw e at h)) (elim p [
      | inr gone ↦ gone
      | inl (mine, same_ns, same_name) ↦
          let unwanted : contains r.route_name (names cs) ≡ false =
            ap (λ x. contains x (names cs)) same_name ∙ apart in
          absurd (ground arith)
    ])
  ]

  delete_undesired-IsGone :
      (n : Text) (cs : List ClusterRouteCandidate) (r : MikroTikRoute) (l : List MikroTikRoute)
      (s u : A.State)
      → contains n (names cs) ≡ false
      → (is_controlled_by r request.owner ≡ true)
        × (r.namespace ≡ request.namespace)
        × (r.route_name ≡ n)
      → In r l ⊎ GoneAt n s
      → delete_undesired A request cs l s ≡ (ok tt, u)
      → GoneAt n u
  unfolding delete_undesired
  delete_undesired-IsGone n cs r [] s u apart key p h = elim p [
    | inl m ↦ elim m [ ]
    | inr gone ↦ subst (GoneAt n) (ap (λ p. p.1) h) gone
  ]
  delete_undesired-IsGone n cs r (q ∷ l) s u apart key p h =
      let (done_one, t, first, rest) =
        >>=-eq-ok (visit A request cs q) (λ a. delete_undesired A request cs l) h in
      delete_undesired-IsGone n cs r l t u apart key
        (elim p [
          | inl (inl e) ↦ inr (
              visited-IsGone n cs r s t apart (inl key)
                (ap (λ x. visit A request cs x s) e ∙ first))
          | inl (inr m) ↦ inl m
          | inr gone ↦ inr (visited-IsGone n cs q s t apart (inr gone) first)
        ])
        rest

  module _ (sha1_hex : Text → Text) (api : RouterApi) (nodes : Result (List Node))
      {cs : List ClusterRouteCandidate} (s u : A.State)
      (wanted : desired_cluster_route_candidates sha1_hex api nodes request ≡ ok cs)
      (h : reconcile_owned_cluster_routes A sha1_hex api nodes request s ≡ (ok tt, u)) where
    steps :
        (l : List MikroTikRoute) × (A.list s request.namespace ≡ ok l)
        × (t : A.State) × (settle_each A
              (cluster_route_source_value sha1_hex request.namespace request.source_name)
              request
              cs
              s
            ≡ (ok tt, t))
        × (delete_undesired A request cs l t ≡ (ok tt, u))
    unfolding reconcile_owned_cluster_routes
    steps = elim (Result-cases (A.list s request.namespace)) [
      | inr (e, g) ↦ cc (ap (λ p. p.0) (rw (reconcile_owned_cluster_routes, wanted, g) at h))
      | inl (l, g) ↦
          let (done_all, t, first, rest) =
            >>=-eq-ok
              (settle_each A
                (cluster_route_source_value sha1_hex request.namespace request.source_name) request
                cs)
              (λ a. delete_undesired A request cs l)
              (rw (reconcile_owned_cluster_routes, wanted, g) at h) in
          (l, g, t, first, rest)
    ]

    -- On a Kubernetes client that obeys the laws of OwnedRoutes.Laws: if
    -- `reconcileOwnedClusterRoutes` succeeds, then for every candidate of
    -- `desiredClusterRouteCandidates` either the route of its name in the namespace is stored,
    -- controlled by the owner, with the router reference of the request and the destination,
    -- gateway and origin of the candidate, or a route of this name was stored before and is stored
    -- unchanged, and `Get` does not find it in one of the states in which it is stored.
    pub reconcile_owned_cluster_routes-IsWanted :
        (c : ClusterRouteCandidate)
        → In c cs
        → IsWanted request c (A.stored u request.namespace c.candidate_name)
          ⊎ IsMissed A request.namespace c.candidate_name s u
    reconcile_owned_cluster_routes-IsWanted c m =
        let (l, g, t, first, rest) = steps in
        let apart = desired_cluster_route_candidates-Nodup sha1_hex api nodes request wanted in
        let kept =
          delete_undesired-Keeps A law request [] c.candidate_name cs l (contains-names c cs m) t in
        Settles-later c s t u (ap (λ p. here p.1 c.candidate_name) (sym rest) ∙ kept)
          (settle_each-Settles _ cs c s t apart m first)

    -- On a Kubernetes client that obeys the laws of OwnedRoutes.Laws: if
    -- `reconcileOwnedClusterRoutes` succeeds, a route of the namespace that was stored before,
    -- that the owner controlled and that has the name of no candidate is no longer stored, or
    -- stored only with its deletion time set.
    pub reconcile_owned_cluster_routes-IsGone :
        (n : Text) (r : MikroTikRoute)
        → contains n (names cs) ≡ false
        → A.stored s request.namespace n ≡ some r
        → is_controlled_by r request.owner ≡ true
        → IsGone (A.stored u request.namespace n)
    reconcile_owned_cluster_routes-IsGone n r apart at mine =
        let (l, g, t, first, rest) = steps in
        delete_undesired-IsGone n cs r l t u apart
          (mine, (law.keyed s request.namespace n r at).0, (law.keyed s request.namespace n r at).1)
          (inl (law.list_complete s request.namespace n l r g at)) rest
