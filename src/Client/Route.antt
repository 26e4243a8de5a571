-- ===== src/Client/Route.antt =====
-- internal/routeros/client.go: `ensureRoute`.
use mikrotik_operator.Base.{
  Text, text, List, [], ◌∷◌, map, ◌==◌, nat_eq, list_eq, Bool, ℤ, show_int, is_zero, is_positive,
  true, false, ◌≡◌, refl, inl, inr, arith, ok, some, eq_refl, eq_iff,
}
use mikrotik_operator.RouterOs.{
  Sentence, get, lookup, select, RouterOs, IsLawful, Added, Same, route,
}
use mikrotik_operator.Client.Entries.{route_settled, route_attributes}
use mikrotik_operator.Client.Operations.{ensure_route}
use mikrotik_operator.Client.Spares.{Spares}
use mikrotik_operator.Client.Ensure.{ensure, ensure_cases, ensure_idle, ensure-Spares}

abbrev route_properties : List Text
route_properties = text "dst-address" ∷ text "gateway" ∷ text "distance" ∷ text "comment" ∷ []

-- The entry that `ensureRoute` asks for.
pub record IsRoute (destination gateway : Text) (distance : ℤ) (e : Sentence) : Type 0 where
  pub leads : get (text "dst-address") e ≡ destination
  pub through : get (text "gateway") e ≡ gateway
  pub apart : is_zero distance ≡ false → get (text "distance") e ≡ show_int distance

module _ (R : RouterOs) (L : IsLawful R) (destination gateway : Text) (distance : ℤ)
    (comment : Text) where
  abbrev mine : Text → Bool
  mine value = value == comment

  sent :
      lookup (text "comment") (route_attributes destination gateway distance comment) ≡ some comment
  unfolding lookup text
  sent = refl

  ensure_route_shape :
      ensure_route R destination gateway distance comment
      ≡ ensure R route mine route_properties
          (route_settled destination gateway distance)
          (route_attributes destination gateway distance comment)
  unfolding ensure_route
  ensure_route_shape = refl

  IsRoute-settled :
      (e : Sentence)
      → IsRoute destination gateway distance e
      → route_settled destination gateway distance (R.view route_properties e ∷ []) ≡ true
  unfolding route_settled text
  IsRoute-settled e h = ground (
    arith,
    L.view_reads (text "dst-address") route_properties e refl,
    L.view_reads (text "gateway") route_properties e refl,
    L.view_reads (text "distance") route_properties e refl,
    eq_iff (get (text "dst-address") e) destination,
    eq_iff (get (text "gateway") e) gateway,
    eq_iff (get (text "distance") e) (show_int distance),
  )

  view_facts :
      (e : Sentence)
      → route_settled destination gateway distance (R.view route_properties e ∷ []) ≡ true
      → IsRoute destination gateway distance e
  unfolding route_settled text
  view_facts e h = ground (
    arith,
    L.view_reads (text "dst-address") route_properties e refl,
    L.view_reads (text "gateway") route_properties e refl,
    L.view_reads (text "distance") route_properties e refl,
    eq_iff (get (text "dst-address") (R.view route_properties e)) destination,
    eq_iff (get (text "gateway") (R.view route_properties e)) gateway,
    eq_iff (get (text "distance") (R.view route_properties e)) (show_int distance),
  )

  settled-IsRoute :
      (es : List Sentence)
      → route_settled destination gateway distance (map (R.view route_properties) es) ≡ true
      → (e : Sentence) × (es ≡ e ∷ []) × IsRoute destination gateway distance e
  unfolding route_settled
  settled-IsRoute [] h = cc
  settled-IsRoute (e ∷ []) h = (e, refl, view_facts e h)
  settled-IsRoute (e ∷ f ∷ es) h = cc

  -- Whatever way it ends, the entries with another comment are left as they were.
  pub ensure_route-Spares :
      (s : R.State)
      → Spares R route mine s (ensure_route R destination gateway distance comment s).1
  unfolding ensure_route
  ensure_route-Spares s =
      ensure-Spares R L route mine route_properties (route_settled destination gateway distance)
        (route_attributes destination gateway distance comment) sent (eq_refl comment) s

  module _ (destination_fits : R.Canonical (text "dst-address") destination)
      (gateway_fits : R.Canonical (text "gateway") gateway)
      (distance_fits : is_zero distance ≡ false → R.Canonical (text "distance") (show_int distance))
      (whole : is_zero distance ≡ false → is_positive distance ≡ true) where
    Added-IsRoute :
        {before after : List Sentence}
        (a : Added R (route_attributes destination gateway distance comment) before after)
        → IsRoute destination gateway distance a.entry
    unfolding lookup text
    Added-IsRoute a = record {
      leads = a.stored (text "dst-address") destination refl destination_fits;
      through = a.stored (text "gateway") gateway refl gateway_fits;
      apart = λ h. a.stored (text "distance") (show_int distance) (rw (whole h)) (distance_fits h);
    }

    -- On a device that obeys the laws of RouterOs.Defs, if the destination, the gateway and the
    -- distance, when it is not 0, are stored as they are sent, the distance is not negative and
    -- `ensureRoute` succeeds, the route table holds exactly one entry with the comment, and it has
    -- the destination, the gateway and, when it is not 0, the distance.
    pub ensure_route_lem :
        (s : R.State) {t : R.State} {u : Unit {0}}
        → ensure_route R destination gateway distance comment s ≡ (ok u, t)
        → (e : Sentence) × (select mine (R.table route t) ≡ e ∷ [])
          × IsRoute destination gateway distance e
    unfolding ensure_route text
    ensure_route_lem s {t} h =
        elim (ensure_cases R L route mine route_properties
          (route_settled destination gateway distance)
          (route_attributes destination gateway distance comment) refl sent (eq_refl comment) s h) [
            | inl (settled, same) ↦ settled-IsRoute (select mine (R.table route t)) settled
            | inr (a, alone) ↦ (a.entry, alone, Added-IsRoute a)
          ]

    -- On a device that obeys the laws of RouterOs.Defs, if the destination, the gateway and the
    -- distance, when it is not 0, are stored as they are sent and the distance is not negative,
    -- `ensureRoute` called again after it has succeeded changes no table.
    pub ensure_route_again :
        (s : R.State) {t : R.State} {u : Unit {0}}
        → ensure_route R destination gateway distance comment s ≡ (ok u, t)
        → Same R t (ensure_route R destination gateway distance comment t).1
    unfolding ensure_route text
    ensure_route_again s {t} h =
        let (e, alone, fits) = ensure_route_lem s h in
        ensure_idle R L route mine route_properties (route_settled destination gateway distance)
          (route_attributes destination gateway distance comment) refl t
          (rw alone (IsRoute-settled e fits))
