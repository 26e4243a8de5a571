-- ===== src/Finalization/Wipes.antt =====
-- What a pass that finalizes a router has done to its devices.
use mikrotik_operator.Base.{
  Text, List, [], ◌∷◌, nat_eq, list_eq, Option, some, none, Result, ok, err, M, ◌>>=◌, ◌>>◌, return,
  ◌≡◌, ◌⊎◌, inl, inr, refl, sym, ap, ◌∙◌, subst, Bool-cases, Respects, >>=-Respects, >>=-eq-ok,
  >>=-after, result_injective,
}
use mikrotik_operator.Endpoints.{RouterEndpoint, MikroTikRouter, router_endpoints}
use mikrotik_operator.Endpoints.Ownership.{In}
use mikrotik_operator.Finalization.Defs.{
  Event, dialed, dial_failed, wiped, wipe_failed, update_sent, Outside, note, is_unusable,
  with_routers, dial_one, connect_each, connect_router_clients, wipe_one, wipe_each,
  clean_endpoints, clean_any,
}

-- The device that an event is about.
abbrev pub touches : Event → Option RouterEndpoint
touches (dialed e) = some e
touches (dial_failed e) = some e
touches (wiped e) = some e
touches (wipe_failed e) = some e
touches update_sent = none

abbrev pub About : (RouterEndpoint → Type 0) → Event → Type 0
About Q x = (e : RouterEndpoint) × (touches x ≡ some e) × Q e

-- Every event between two states is about a device with the property.
abbrev pub Only : (RouterEndpoint → Type 0) → List Event → List Event → Type 0
Only Q s t = (x : Event) → In x t → In x s ⊎ About Q x

module _ (Q : RouterEndpoint → Type 0) where
  pub Only-trans : (s t u : List Event) → Only Q s t → Only Q t u → Only Q s u
  Only-trans s t u h k x m = elim (k x m) [ inl n ↦ h x n | inr q ↦ inr q ]

  note-Only :
      (r : Result (Unit {0})) (good bad : Event)
      → About Q good
      → About Q bad
      → Respects (Only Q) (note r good bad)
  note-Only (ok y) good bad g b s x (inl same) = inr (subst (About Q) (sym same) g)
  note-Only (ok y) good bad g b s x (inr m) = inl m
  note-Only (err y) good bad g b s x (inl same) = inr (subst (About Q) (sym same) b)
  note-Only (err y) good bad g b s x (inr m) = inl m

module _ (out : Outside) where
  connect_each-same :
      (message : Text) (es : List RouterEndpoint) (s : List Event) {cs : List RouterEndpoint}
      {t : List Event}
      → connect_each out message es s ≡ (ok cs, t)
      → cs ≡ es
  unfolding connect_each
  connect_each-same message [] s h = sym (result_injective (ap (λ p. p.0) h))
  connect_each-same message (e ∷ es) s {cs} {t} h = elim (Bool-cases (is_unusable e)) [
    | inl u ↦ cc (ap (λ p. p.0) (rw (connect_each, u) at h))
    | inr u ↦
        let (x, t1, first, rest) =
          >>=-eq-ok (dial_one out e)
            (λ a. connect_each out message es >>= λ connections. return (e ∷ connections))
            (rw (connect_each, u) at h) in
        let (ds, t2, second, last) =
          >>=-eq-ok (connect_each out message es) (λ connections. return (e ∷ connections)) rest in
        sym (result_injective (ap (λ p. p.0) last))
        ∙ ap (λ l. e ∷ l) (connect_each-same message es t1 second)
  ]

  module _ (Q : RouterEndpoint → Type 0) where
    dial_one-Only :
        (e : RouterEndpoint)
        → Q e
        → (m : M (List Event) (List RouterEndpoint)) → Respects (Only Q) m
        → Respects (Only Q) (dial_one out e >> (m >>= λ connections. return (e ∷ connections)))
    dial_one-Only e q m rest =
        >>=-Respects (Only Q) (Only-trans Q) _ _
          (λ s. note-Only Q (out.dial s e) _ _ (e, refl, q) (e, refl, q) s)
          (λ a. >>=-Respects (Only Q) (Only-trans Q) m _ rest (λ cs s x n. inl n))

    connect_each-Only :
        (message : Text) (es : List RouterEndpoint)
        → ((e : RouterEndpoint) → In e es → Q e)
        → Respects (Only Q) (connect_each out message es)
    unfolding connect_each
    connect_each-Only message [] all = λ s x m. inl m
    connect_each-Only message (e ∷ es) all = λ s. elim (Bool-cases (is_unusable e)) [
      | inl u ↦ rw u (λ x m. inl m)
      | inr u ↦ rw u (
          dial_one-Only e (all e (inl refl)) _ (connect_each-Only message es (λ d m. all d (inr m)))
            s)
    ]

    wipe_each-Only :
        (es : List RouterEndpoint)
        → ((e : RouterEndpoint) → In e es → Q e)
        → Respects (Only Q) (wipe_each out es)
    unfolding wipe_each
    wipe_each-Only [] all = λ s x m. inl m
    wipe_each-Only (e ∷ es) all =
        >>=-Respects (Only Q) (Only-trans Q) _ _
          (λ s.
            note-Only Q (out.wipe s e) _ _ (e, refl, all e (inl refl)) (e, refl, all e (inl refl))
              s)
          (λ a. wipe_each-Only es (λ d m. all d (inr m)))

    pub clean_endpoints-Only :
        (router : MikroTikRouter) (d : RouterEndpoint) (es : List RouterEndpoint)
        → ((e : RouterEndpoint) → In e (d ∷ es) → Q e)
        → Respects (Only Q) (clean_endpoints out router (d ∷ es))
    unfolding clean_endpoints connect_router_clients router_endpoints
    clean_endpoints-Only router d es all s =
        >>=-after (Only Q s) (connect_router_clients out (with_routers router (d ∷ es)))
          (wipe_each out) s (connect_each-Only _ (d ∷ es) all s)
          (λ cs t h.
            Only-trans Q s t _ (subst (λ p. Only Q s p.1) h (connect_each-Only _ (d ∷ es) all s)) (
              wipe_each-Only cs (λ e m. all e (subst (In e) (connect_each-same _ (d ∷ es) s h) m))
                t))

  -- The devices are wiped when the cleanup succeeds.
  wipe_each-Grows :
      (y : Event) (es : List RouterEndpoint) → Respects (λ s t. In y s → In y t) (wipe_each out es)
  unfolding wipe_each
  wipe_each-Grows y [] = λ s m. m
  wipe_each-Grows y (e ∷ es) =
      >>=-Respects (λ s t. In y s → In y t) (λ s t u h k m. k (h m)) _ _
        (λ s. noted (out.wipe s e) s) (λ a. wipe_each-Grows y es)
    where
      noted :
          (r : Result (Unit {0})) (s : List Event)
          → In y s
          → In y (note r (wiped e) (wipe_failed e) s).1
      noted (ok x) s m = inr m
      noted (err x) s m = inr m

  wipe_each-wiped :
      (es : List RouterEndpoint) (e : RouterEndpoint) (s t : List Event)
      → wipe_each out es s ≡ (ok tt, t)
      → In e es
      → In (wiped e) t
  unfolding wipe_each
  wipe_each-wiped [] e s t h m = elim m [ ]
  wipe_each-wiped (d ∷ es) e s t h m =
      let (x, u, first, rest) = >>=-eq-ok (wipe_one out d) (λ a. wipe_each out es) h in
      elim m [
        | inr k ↦ wipe_each-wiped es e u t rest k
        | inl same ↦
            subst (λ p. In (wiped e) p.1) rest
              (wipe_each-Grows (wiped e) es u (wiped_here (out.wipe s d) u (sym same) first))
      ]
    where
      wiped_here :
          (r : Result (Unit {0})) (u : List Event) {y : Unit {0}}
          → d ≡ e
          → note r (wiped d) (wipe_failed d) s ≡ (ok y, u)
          → In (wiped e) u
      wiped_here (ok x) u same f =
          subst (In (wiped e)) (ap (λ p. p.1) f) (inl (ap wiped (sym same)))
      wiped_here (err x) u same f = cc (ap (λ p. p.0) f)

  pub clean_any-wiped :
      (router : MikroTikRouter) (es : List RouterEndpoint) (e : RouterEndpoint) (s t : List Event)
      → clean_any out router es s ≡ (ok tt, t)
      → In e es
      → In (wiped e) t
  unfolding clean_endpoints connect_router_clients router_endpoints
  clean_any-wiped router [] e s t h m = elim m [ ]
  clean_any-wiped router (d ∷ es) e s t h m =
      let (cs, u, first, rest) =
        >>=-eq-ok (connect_router_clients out (with_routers router (d ∷ es))) (wipe_each out) h in
      wipe_each-wiped cs e u t rest (subst (In e) (sym (connect_each-same _ (d ∷ es) s first)) m)
