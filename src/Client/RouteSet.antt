-- ===== src/Client/RouteSet.antt =====
-- internal/routeros/client.go: the routes that `EnsureRoutes` leaves.
use mikrotik_operator.Base.{
  Text, text, List, [], ◌∷◌, map, contains, All, ◌==◌, nat_eq, list_eq, ◌&&◌, Bool, true, false,
  ◌≡◌, refl, ◌∙◌, sym, ap, subst, inl, inr, arith, ℤ, M, ok, >>=-eq-ok, Bool-cases, eq_iff, eq_refl,
  All-map,
}
use mikrotik_operator.RouterOs.{Sentence, select, route, RouterOs, IsLawful, print_cmd}
use mikrotik_operator.Client.Operations.{
  managed_entries, remove_undesired, ensure_each, ensure_route, ensure_routes,
}
use mikrotik_operator.Client.Spares.{Spares, Spares-select}
use mikrotik_operator.Client.Route.{IsRoute, ensure_route-Spares, ensure_route_lem}
use mikrotik_operator.Client.Routes.{route_comment, route_comment-injective, stale, sweep-stale}

and_false : (b : Bool) → (b && false) ≡ false
and_false true = refl
and_false false = refl

contains-map :
    (prefix g : Text) (gs : List Text)
    → contains g gs ≡ true
    → contains (route_comment prefix g) (map (route_comment prefix) gs) ≡ true
contains-map prefix g [] h = h
contains-map prefix g (x ∷ gs) h = elim (Bool-cases (x == g)) [
  | inl e ↦
      ground (arith, eq_refl (route_comment prefix g), ap (route_comment prefix) ((eq_iff x g).0 e))
  | inr e ↦ ground (arith, contains-map prefix g gs)
]

All-contains : (gs : List Text) → All (λ g. contains g gs ≡ true) gs
All-contains [] = tt
All-contains (x ∷ gs) =
    (ground (arith, eq_refl x), All-map _ _ gs (λ g h. ground arith) (All-contains gs))

module _ (R : RouterOs) (L : IsLawful R) (destination : Text) (gateways : List Text)
    (prefix : Text) where
  abbrev unwanted : Text → Bool
  unwanted = stale R L destination gateways prefix

  abbrev ensure_one : Text → M R.State (Unit {0})
  ensure_one g = ensure_route R destination g (ℤ.pos 0) (route_comment prefix g)

  one-Spares :
      (g : Text) (s : R.State) {t : R.State} {u : Unit {0}}
      → ensure_one g s ≡ (ok u, t)
      → Spares R route (λ v. v == route_comment prefix g) s t
  one-Spares g s h =
      subst (Spares R route _ s) (ap (λ q. q.1) h)
        (ensure_route-Spares R L destination g (ℤ.pos 0) (route_comment prefix g) s)

  -- A pass over gateways that are all asked for leaves nothing stale.
  ensure_each-stale :
      (gs : List Text)
      → All (λ g. contains (route_comment prefix g) (map (route_comment prefix) gateways) ≡ true) gs
      → (s : R.State) {t : R.State} {u : Unit {0}}
      → ensure_each R destination prefix gs s ≡ (ok u, t)
      → select unwanted (R.table route t) ≡ select unwanted (R.table route s)
  unfolding ensure_each
  ensure_each-stale [] a s h = ap (λ q. select unwanted (R.table route q.1)) (sym h)
  ensure_each-stale (g ∷ gs) a s h =
      let (_, v, e, k) = >>=-eq-ok (ensure_one g) _ h in
      ensure_each-stale gs a.1 v k
      ∙ Spares-select unwanted (λ c. c == route_comment prefix g)
          (λ c same. rw ((eq_iff c _).0 same, a.0) (and_false _)) R route s v (one-Spares g s e)

  module _ (destination_fits : R.Canonical (text "dst-address") destination) where
    abbrev Fits : Text → Type 0
    Fits = R.Canonical (text "gateway")

    -- One entry for a gateway, as it should be.
    abbrev pub HasRoute : Text → R.State → Type 0
    HasRoute g s =
        (e : Sentence) × (select (λ v. v == route_comment prefix g) (R.table route s) ≡ e ∷ [])
        × IsRoute destination g (ℤ.pos 0) e

    one-HasRoute :
        (g : Text)
        → Fits g
        → (s : R.State) {t : R.State} {u : Unit {0}} → ensure_one g s ≡ (ok u, t)
        → HasRoute g t
    one-HasRoute g fit s h =
        ensure_route_lem R L destination g (ℤ.pos 0) (route_comment prefix g) destination_fits fit
          (λ e. cc e) (λ e. cc e) s h

    one-keeps :
        (g k : Text)
        → Fits k
        → (s : R.State) {t : R.State} {u : Unit {0}} → ensure_one k s ≡ (ok u, t)
        → HasRoute g s
        → HasRoute g t
    one-keeps g k fit s {t} h (e, alone, fits) =
        elim (Bool-cases (route_comment prefix k == route_comment prefix g)) [
          | inl same ↦
              subst (λ x. HasRoute x t) (route_comment-injective prefix k g ((eq_iff _ _).0 same))
                (one-HasRoute k fit s h)
          | inr other ↦ (
            e,
            Spares-select _ (λ c. c == route_comment prefix k)
                  (λ c at_k. rw ((eq_iff c _).0 at_k) other) R route s t (one-Spares k s h)
                ∙ alone,
            fits,
          )
        ]

    each-keeps :
        (g : Text) (gs : List Text)
        → All Fits gs
        → (s : R.State) {t : R.State} {u : Unit {0}}
        → ensure_each R destination prefix gs s ≡ (ok u, t)
        → HasRoute g s
        → HasRoute g t
    unfolding ensure_each
    each-keeps g [] fit s h r = subst (HasRoute g) (ap (λ q. q.1) h) r
    each-keeps g (k ∷ gs) fit s h r =
        let (_, v, e, n) = >>=-eq-ok (ensure_one k) _ h in
        each-keeps g gs fit.1 v n (one-keeps g k fit.0 s e r)

    each-HasRoute :
        (gs : List Text)
        → All Fits gs
        → (s : R.State) {t : R.State} {u : Unit {0}}
        → ensure_each R destination prefix gs s ≡ (ok u, t)
        → All (λ g. HasRoute g t) gs
    unfolding ensure_each
    each-HasRoute [] fit s h = tt
    each-HasRoute (g ∷ gs) fit s h =
        let (_, v, e, n) = >>=-eq-ok (ensure_one g) _ h in
        (each-keeps g gs fit.1 v n (one-HasRoute g fit.0 s e), each-HasRoute gs fit.1 v n)

    -- On a device that obeys the laws of RouterOs.Defs, if the destination and the gateways are
    -- stored as they are sent and `EnsureRoutes` succeeds, no entry of the route table is left
    -- whose comment is under the prefix but belongs to no gateway that was asked for, and every
    -- gateway asked for has exactly one entry, with the destination and the gateway.
    pub ensure_routes_lem :
        All Fits gateways
        → (s : R.State) {t : R.State} {u : Unit {0}}
        → ensure_routes R destination gateways prefix s ≡ (ok u, t)
        → (select unwanted (R.table route t) ≡ []) × All (λ g. HasRoute g t) gateways
    unfolding ensure_routes
    ensure_routes_lem fit s h =
        let (es, v, e, k) = >>=-eq-ok (managed_entries R (print_cmd route) _ _) _ h in
        let (_, w, swept, rest) = >>=-eq-ok (remove_undesired R _ es) _ k in
        (
          ensure_each-stale gateways
                (All-map _ _ gateways (λ g c. contains-map prefix g gateways c)
                  (All-contains gateways))
                w rest
              ∙ sweep-stale R L destination gateways prefix s e swept,
          each-HasRoute gateways fit w rest,
        )
