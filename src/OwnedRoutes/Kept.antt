-- ===== src/OwnedRoutes/Kept.antt =====
-- internal/controller/cluster_routes.go: what the loops of `reconcileOwnedClusterRoutes` are not about.
use mikrotik_operator.Base.{
  Text, List, [], ◌∷◌, contains, nat_eq, list_eq, true, false, Result, ok, err, ◌≡◌, ◌≢◌, inl, inr,
  refl, sym, ap, ◌∙◌, arith, eq_iff, Bool-cases, Respects, >>=-Respects,
}
use mikrotik_operator.OwnedRoutes.Api.{
  MikroTikRoute, is_controlled_by, Read, got, not_there, not_read, Kube,
}
use mikrotik_operator.OwnedRoutes.Candidates.{
  ClusterRouteCandidate, ClusterRouteReconcileRequest, names,
}
use mikrotik_operator.OwnedRoutes.Operations.{
  new_route, is_settled, changed_route, create_owned, settle_route, settle_candidate, settle_each,
  is_kept, visit, delete_undesired,
}
use mikrotik_operator.OwnedRoutes.Laws.{IsLawful}

module _ (A : Kube) (law : IsLawful A) (request : ClusterRouteReconcileRequest)
    (label n : Text) where
  -- The route of one name in the namespace stays as it is.
  abbrev pub Keeps : A.State → A.State → Type 0
  Keeps s t = A.stored t request.namespace n ≡ A.stored s request.namespace n

  Keeps-trans : (s t u : A.State) → Keeps s t → Keeps t u → Keeps s u
  Keeps-trans s t u h k = k ∙ h

  create_owned-Keeps :
      (c : ClusterRouteCandidate) (r : Result MikroTikRoute)
      → c.candidate_name ≢ n
      → A.set_controller_reference request.owner (new_route label request c) ≡ r
      → Respects Keeps (create_owned A r)
  unfolding new_route
  create_owned-Keeps c (err e) d f s = refl
  create_owned-Keeps c (ok q) d f s = law.create_elsewhere s q request.namespace n (λ k m. d (
      sym
        (ap (λ r. r.route_name) (law.set_controller request.owner (new_route label request c) q f))
      ∙ m))

  pub settle_route-Keeps :
      (c : ClusterRouteCandidate) (read : Read) (s : A.State)
      → c.candidate_name ≢ n
      → A.get s request.namespace c.candidate_name ≡ read
      → Keeps s (settle_route A label request c read s).1
  unfolding settle_route changed_route
  settle_route-Keeps c not_there s d g = create_owned-Keeps c _ d refl s
  settle_route-Keeps c (not_read e) s d g = refl
  settle_route-Keeps c (got r) s d g = elim (Bool-cases (is_controlled_by r request.owner)) [
    | inr e ↦ rw (settle_route, e) refl
    | inl e ↦ elim (Bool-cases (is_settled request c r)) [
      | inl f ↦ rw (settle_route, e, f) refl
      | inr f ↦
          let (same_ns, same_name) =
            law.keyed s request.namespace c.candidate_name r (law.get_got s _ _ r g) in
          rw (settle_route, e, f)
            (law.update_elsewhere s (changed_route label request c r) request.namespace n
              (λ k m. d (sym same_name ∙ m)))
    ]
  ]

  pub settle_each-Keeps :
      (cs : List ClusterRouteCandidate)
      → contains n (names cs) ≡ false
      → Respects Keeps (settle_each A label request cs)
  unfolding settle_each settle_candidate
  settle_each-Keeps [] h = λ s. refl
  settle_each-Keeps (c ∷ cs) h =
      >>=-Respects Keeps Keeps-trans _ _
        (λ s.
          settle_route-Keeps c _ s (λ e. absurd (ground (arith, eq_iff c.candidate_name n))) refl)
        (λ a. settle_each-Keeps cs (ground arith))

  pub delete_undesired-Keeps :
      (cs : List ClusterRouteCandidate) (l : List MikroTikRoute)
      → contains n (names cs) ≡ true
      → Respects Keeps (delete_undesired A request cs l)
  unfolding delete_undesired
  delete_undesired-Keeps cs [] h = λ s. refl
  delete_undesired-Keeps cs (r ∷ l) h =
      >>=-Respects Keeps Keeps-trans _ _ one (λ a. delete_undesired-Keeps cs l h)
    where
      other : is_kept A request cs r ≡ false → r.route_name ≢ n
      other e m =
          let apart : contains r.route_name (names cs) ≡ false = ground arith in
          cc (apart, ap (λ x. contains x (names cs)) m, h)

      one : Respects Keeps (visit A request cs r)
      one s = elim (Bool-cases (is_kept A request cs r)) [
        | inl e ↦ rw e refl
        | inr e ↦ rw e (law.delete_elsewhere s r request.namespace n (λ k m. other e m))
      ]
