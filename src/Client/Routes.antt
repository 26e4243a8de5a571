-- ===== src/Client/Routes.antt =====
-- internal/routeros/client.go: the two loops of `EnsureRoutes`.
use mikrotik_operator.Base.{
  Text, text, List, [], ◌∷◌, ◌++◌, map, keep, contains, ◌==◌, nat_eq, list_eq, not, ◌&&◌, ◌||◌,
  Bool, true, false, ◌≡◌, refl, ◌∙◌, sym, ap, ap₂, subst, inl, inr, arith, ℤ, ok, ◌>>◌, >>=-after,
  Bool-cases, eq_iff, has_prefix-append, All-intro, keep-keep, keep_congr, append_cancel,
  has_prefix-append_append, >>=-Respects, keep-map,
}
use mikrotik_operator.RouterOs.{
  Sentence, id_of, comment_of, select, route, RouterOs, IsLawful, remove_words, print_cmd,
  remove_cmd, without_ids, without_ids-select, Owned, Owned-select,
}
use mikrotik_operator.Client.Entries.{managed_comment_prefix_matches}
use mikrotik_operator.Client.Operations.{
  run_args, managed_entries, remove_undesired, ensure_each, ensure_route, ensure_routes,
  remove_each,
}
use mikrotik_operator.Client.Spares.{Spares, Spares-refl, Spares-trans, Spares-Same, Spares-weaken}
use mikrotik_operator.Client.Delete.{
  remove_each-Spares, remove_each-table, managed_entries-Same, managed_entries-eq-ok,
  managed_entries-ids, shown-Same,
}
use mikrotik_operator.Client.Add.{select-others}
use mikrotik_operator.Client.Route.{ensure_route-Spares}

or_true : (b : Bool) → (b || true) ≡ true
or_true true = refl
or_true false = refl

-- The entries that `desired` lacks.
abbrev undesired : List Text → List Sentence → List Sentence
undesired desired = keep (λ e. not (contains (comment_of e) desired))

module _ (R : RouterOs) (desired : List Text) where
  -- The loop is a pass of removals over the entries that are not desired.
  remove_undesired_lem :
      (es : List Sentence)
      → remove_undesired R desired es ≡ remove_each R (remove_cmd route) (undesired desired es)
  unfolding remove_undesired remove_each keep
  remove_undesired_lem [] = refl
  remove_undesired_lem (e ∷ es) = elim (Bool-cases (contains (comment_of e) desired)) [
    | inl old ↦ rw old (remove_undesired_lem es)
    | inr new ↦
        rw new (ap (λ k. run_args R (remove_words route (id_of e)) >> k) (remove_undesired_lem es))
  ]

-- The comment of the entry for a gateway.
abbrev pub route_comment : Text → Text → Text
route_comment prefix gateway = prefix ++ (text "/" ++ gateway)

matches_route_comment :
    (prefix gateway v : Text)
    → (v == route_comment prefix gateway) ≡ true
    → managed_comment_prefix_matches v prefix ≡ true
unfolding managed_comment_prefix_matches
matches_route_comment prefix gateway v h =
    rw ((eq_iff v _).0 h, has_prefix-append_append, has_prefix-append) (or_true _)

pub route_comment-injective :
    (prefix g h : Text) → route_comment prefix g ≡ route_comment prefix h → g ≡ h
route_comment-injective prefix g h e = append_cancel (text "/") g h (append_cancel prefix _ _ e)

module _ (R : RouterOs) (L : IsLawful R) (destination : Text) (gateways : List Text)
    (prefix : Text) where
  abbrev pub mine : Text → Bool
  mine v = managed_comment_prefix_matches v prefix

  abbrev pub desired : List Text
  desired = map (route_comment prefix) gateways

  -- An entry under the prefix that no gateway asks for.
  abbrev pub stale : Text → Bool
  stale v = mine v && not (contains v desired)

  pub ensure_one-Spares :
      (g : Text) (s : R.State)
      → Spares R route mine s (ensure_route R destination g (ℤ.pos 0) (route_comment prefix g) s).1
  ensure_one-Spares g s =
      Spares-weaken mine (λ v. v == route_comment prefix g) (matches_route_comment prefix g) R route
        s _ (ensure_route-Spares R L destination g (ℤ.pos 0) (route_comment prefix g) s)

  ensure_each-Spares :
      (gs : List Text) (s : R.State)
      → Spares R route mine s (ensure_each R destination prefix gs s).1
  unfolding ensure_each
  ensure_each-Spares [] s = Spares-refl R route mine s
  ensure_each-Spares (g ∷ gs) s =
      >>=-Respects (Spares R route mine) (Spares-trans R route mine)
        (ensure_route R destination g (ℤ.pos 0) (route_comment prefix g)) _ (ensure_one-Spares g)
        (λ _. ensure_each-Spares gs) s

  -- The entries that the first loop removes are the stale ones.
  stale_ids :
      (s : R.State) {t : R.State} {es : List Sentence}
      → managed_entries R (print_cmd route) mine (text ".id" ∷ text "comment" ∷ []) s ≡ (ok es, t)
      → map id_of (undesired desired es) ≡ map id_of (select stale (R.table route s))
  unfolding text select
  stale_ids s h =
      ap (λ l. map id_of (undesired desired l)) (managed_entries-eq-ok R L route mine _ s refl h)
      ∙ (ap (map id_of) (keep-map _ _ (select mine (R.table route s)))
          ∙ (managed_entries-ids R L route _ _ refl
              ∙ ap (map id_of) (
                  keep_congr _ _ _ (
                    All-intro _ (select mine (R.table route s)) (λ e.
                      ap (λ c. not (contains c desired)) (L.view_reads (text "comment") _ e refl)))
                  ∙ keep-keep _ _ (R.table route s))))

  sweep-Spares :
      (s : R.State) {t : R.State} {es : List Sentence}
      → managed_entries R (print_cmd route) mine (text ".id" ∷ text "comment" ∷ []) s ≡ (ok es, t)
      → Spares R route stale t (remove_undesired R desired es t).1
  sweep-Spares s {t} {es} h = rw (remove_undesired_lem R desired es) (
      remove_each-Spares R L route stale (undesired desired es) t (
        subst (λ ids. Owned stale ids (R.table route t)) (sym (stale_ids s h))
          (subst (λ l. Owned stale (map id_of (select stale (R.table route s))) l)
            (sym (shown-Same R L route mine _ s h route))
            (Owned-select stale (R.table route s) (L.ids_Nodup route s)))))

  stale-mine : (v : Text) → stale v ≡ true → mine v ≡ true
  stale-mine v h = ground arith

  -- On a device that obeys the laws of RouterOs.Defs, whether `EnsureRoutes` succeeds or fails at
  -- any command, the entries of the route table whose comments are not under the prefix are the
  -- same, and so are the other tables.
  pub ensure_routes-Spares :
      (s : R.State) → Spares R route mine s (ensure_routes R destination gateways prefix s).1
  unfolding ensure_routes
  ensure_routes-Spares s =
      >>=-after (Spares R route mine s) (managed_entries R (print_cmd route) mine _) _ s
        (Spares-Same R route mine s _ (managed_entries-Same R L route mine _ s))
        λ es t h.
          Spares-trans R route mine s t _
            (Spares-Same R route mine s t (shown-Same R L route mine _ s h))
            (>>=-after (Spares R route mine t) (remove_undesired R desired es) _ t (swept es t h)
              λ u v k.
                Spares-trans R route mine t v _
                  (subst (Spares R route mine t) (ap (λ q. q.1) k) (swept es t h))
                  (ensure_each-Spares gateways v))
    where
      swept :
          (es : List Sentence) (t : R.State)
          → managed_entries R (print_cmd route) mine (text ".id" ∷ text "comment" ∷ []) s
            ≡ (ok es, t)
          → Spares R route mine t (remove_undesired R desired es t).1
      swept es t h = Spares-weaken mine stale stale-mine R route t _ (sweep-Spares s h)

  -- Nothing stale is left by the first loop.
  pub sweep-stale :
      (s : R.State) {t v : R.State} {es : List Sentence} {u : Unit {0}}
      → managed_entries R (print_cmd route) mine (text ".id" ∷ text "comment" ∷ []) s ≡ (ok es, t)
      → remove_undesired R desired es t ≡ (ok u, v)
      → select stale (R.table route v) ≡ []
  sweep-stale s {t} {v} {es} h k =
      ap (select stale) (
        remove_each-table R L route stale (undesired desired es) t
          (sym (ap (λ f. f t) (remove_undesired_lem R desired es)) ∙ k)
        ∙ (ap₂ without_ids (stale_ids s h) (shown-Same R L route mine _ s h route)
            ∙ without_ids-select stale (R.table route s) (L.ids_Nodup route s)))
      ∙ select-others stale (R.table route s)
