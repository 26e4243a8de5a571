-- ===== src/OwnedRoutes/Wanted.antt =====
-- internal/controller/cluster_routes.go: a candidate and its route.
use mikrotik_operator.Base.{
  Text, nat_eq, list_eq, Bool, true, false, Option, some, Result, ok, err, ◌≡◌, ◌⊎◌, inl, inr, refl,
  sym, ap, ap₂, ◌∙◌, subst, arith, eq_iff, eq_refl, Bool-cases, Option-cases,
}
use mikrotik_operator.OwnedRoutes.Api.{
  MikroTikRoute, is_controlled_by, Read, got, not_there, not_read, Answer, done, absent, present,
  refused, Kube,
}
use mikrotik_operator.OwnedRoutes.Candidates.{ClusterRouteCandidate, ClusterRouteReconcileRequest}
use mikrotik_operator.OwnedRoutes.Operations.{
  write, answered, new_route, is_settled, changed_route, create_owned, settle_route,
}
use mikrotik_operator.OwnedRoutes.Laws.{IsLawful}

-- A route as the candidate wants it.
pub record Wants (request : ClusterRouteReconcileRequest) (c : ClusterRouteCandidate)
    (r : MikroTikRoute) : Type 0 where
  pub owned : is_controlled_by r request.owner ≡ true
  pub same_router : r.router_ref ≡ request.router_ref
  pub same_destination : r.destination ≡ c.destination
  pub same_gateway : r.gateway ≡ c.gateway
  pub same_origin : r.origin ≡ c.origin

abbrev pub IsWanted :
    ClusterRouteReconcileRequest → ClusterRouteCandidate → Option MikroTikRoute → Type 0
IsWanted request c o = (r : MikroTikRoute) × (o ≡ some r) × Wants request c r

module _ (A : Kube) where
  pub answered-ok :
      (a : Answer) (p q : Bool)
      → answered A a p q ≡ ok tt
      → (a ≡ done) ⊎ ((a ≡ absent) × (p ≡ true)) ⊎ ((a ≡ present) × (q ≡ true))
  answered-ok done p q h = inl refl
  answered-ok absent true q h = inr (inl (refl, refl))
  answered-ok absent false q h = cc
  answered-ok present p true h = inr (inr (refl, refl))
  answered-ok present p false h = cc
  answered-ok (refused e) p q h = cc

  pair_ok :
      {a b : Result (Unit {0})} {s t : A.State}
      → ◌≡◌ {A = Result (Unit {0}) × A.State} (a, s) (b, t)
      → (a ≡ b) × (s ≡ t)
  pair_ok h = (ap (λ p. p.0) h, ap (λ p. p.1) h)

settled-Wants :
    (request : ClusterRouteReconcileRequest) (c : ClusterRouteCandidate) (r : MikroTikRoute)
    → is_controlled_by r request.owner ≡ true
    → is_settled request c r ≡ true
    → Wants request c r
unfolding is_settled
settled-Wants request c r e f = record {
  owned = e;
  same_router = (eq_iff r.router_ref request.router_ref).0 (ground arith);
  same_destination = (eq_iff r.destination c.destination).0 (ground arith);
  same_gateway = (eq_iff r.gateway c.gateway).0 (ground arith);
  same_origin = (eq_iff r.origin c.origin).0 (ground arith);
}

changed-Wants :
    (label : Text) (request : ClusterRouteReconcileRequest) (c : ClusterRouteCandidate)
    (r : MikroTikRoute)
    → is_controlled_by r request.owner ≡ true
    → Wants request c (changed_route label request c r)
unfolding changed_route
changed-Wants label request c r e = record {
  owned = e;
  same_router = refl;
  same_destination = refl;
  same_gateway = refl;
  same_origin = refl;
}

-- A route that `Get` did not find in one of the states, although the server held it: it was there
-- before, and it is there unchanged.
pub record IsMissed (A : Kube) (ns n : Text) (before after : A.State) : Type 0 where
  pub route : MikroTikRoute
  pub held : A.stored before ns n ≡ some route
  pub left : A.stored after ns n ≡ some route
  pub read_at : A.State
  pub held_then : A.stored read_at ns n ≡ some route
  pub unseen : A.get read_at ns n ≡ not_there

module _ (A : Kube) (law : IsLawful A) (request : ClusterRouteReconcileRequest) (label : Text) where
  abbrev here : A.State → Text → Option MikroTikRoute
  here s n = A.stored s request.namespace n

  abbrev pub Missed : ClusterRouteCandidate → A.State → A.State → Type 0
  Missed c s u = IsMissed A request.namespace c.candidate_name s u

  created-IsWanted :
      (c : ClusterRouteCandidate) (r : Result MikroTikRoute) (s u : A.State)
      → A.set_controller_reference request.owner (new_route label request c) ≡ r
      → A.get s request.namespace c.candidate_name ≡ not_there
      → create_owned A r s ≡ (ok tt, u)
      → IsWanted request c (here u c.candidate_name) ⊎ Missed c s u
  unfolding new_route
  created-IsWanted c (err e) s u f unseen h = cc (ap (λ p. p.0) h)
  created-IsWanted c (ok q) s u f unseen h = elim (answered-ok A _ false true (ap (λ p. p.0) h)) [
    | inl e ↦ inl (
      q,
      at_key u
          ∙ (ap (λ t. A.stored t q.namespace q.route_name) (sym (ap (λ p. p.1) h))
              ∙ law.create_done s q e),
      subst (Wants request c) (sym same) (record {
        owned = eq_refl request.owner;
        same_router = refl;
        same_destination = refl;
        same_gateway = refl;
        same_origin = refl;
      }),
    )
    | inr (inl (e, p)) ↦ cc
    | inr (inr (e, p)) ↦ elim (Option-cases (A.stored s q.namespace q.route_name)) [
      | inl n ↦ absurd (law.create_present s q e n)
      | inr (x, there) ↦ inr (record {
        route = x;
        held = at_key s ∙ there;
        left =
            at_key u
            ∙ (ap (λ t. A.stored t q.namespace q.route_name) (sym (ap (λ p. p.1) h))
                ∙ law.create_old s q x there);
        read_at = s;
        held_then = at_key s ∙ there;
        unseen = unseen;
      })
    ]
  ]
    where
      same : q ≡ record {
        namespace = request.namespace;
        route_name = c.candidate_name;
        controller = some request.owner;
        source = label;
        origin = c.origin;
        router_ref = request.router_ref;
        destination = c.destination;
        gateway = c.gateway;
        deleted = false;
      }
      same = law.set_controller request.owner (new_route label request c) q f

      at_key : (t : A.State) → here t c.candidate_name ≡ A.stored t q.namespace q.route_name
      at_key t =
          ap₂ (A.stored t) (sym (ap (λ r. r.namespace) same)) (sym (ap (λ r. r.route_name) same))

  updated-IsWanted :
      (c : ClusterRouteCandidate) (r : MikroTikRoute) (s u : A.State)
      → here s c.candidate_name ≡ some r
      → is_controlled_by r request.owner ≡ true
      → write A (λ s. A.update s (changed_route label request c r)) false false s ≡ (ok tt, u)
      → IsWanted request c (here u c.candidate_name)
  unfolding changed_route
  updated-IsWanted c r s u at mine h =
      elim (answered-ok A (A.update s (changed_route label request c r)).0 false false
        (ap (λ p. p.0) h)) [
          | inl e ↦
              let (same_ns, same_name) = law.keyed s request.namespace c.candidate_name r at in
              (
                changed_route label request c r,
                ap₂ (A.stored u) (sym same_ns) (sym same_name)
                    ∙ (ap (λ t. A.stored t r.namespace r.route_name) (sym (ap (λ p. p.1) h))
                        ∙ law.update_done s _ e),
                changed-Wants label request c r mine,
              )
          | inr (inl (e, p)) ↦ cc
          | inr (inr (e, p)) ↦ cc
        ]

  pub settle_route-IsWanted :
      (c : ClusterRouteCandidate) (read : Read) (s u : A.State)
      → A.get s request.namespace c.candidate_name ≡ read
      → settle_route A label request c read s ≡ (ok tt, u)
      → IsWanted request c (here u c.candidate_name) ⊎ Missed c s u
  unfolding settle_route
  settle_route-IsWanted c not_there s u g h = created-IsWanted c _ s u refl g h
  settle_route-IsWanted c (not_read e) s u g h = cc (ap (λ p. p.0) h)
  settle_route-IsWanted c (got r) s u g h = elim (Bool-cases (is_controlled_by r request.owner)) [
    | inr e ↦ cc (ap (λ p. p.0) (rw (settle_route, e) at h))
    | inl e ↦ elim (Bool-cases (is_settled request c r)) [
      | inl f ↦
          let same : s ≡ u = ap (λ p. p.1) (rw (settle_route, e, f) at h) in
          inl (
            r,
            ap (λ t. here t c.candidate_name) (sym same) ∙ law.get_got s _ _ r g,
            settled-Wants request c r e f,
          )
      | inr f ↦
          inl (updated-IsWanted c r s u (law.get_got s _ _ r g) e (rw (settle_route, e, f) at h))
    ]
  ]
