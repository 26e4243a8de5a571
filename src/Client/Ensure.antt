-- ===== src/Client/Ensure.antt =====
-- The shape that `EnsureDNS` and `ensureRoute` share: print, return if settled, else delete and add.
use mikrotik_operator.Base.{
  Text, text, List, [], ◌∷◌, map, contains, nat_eq, list_eq, if◌then◌else◌, Bool, true, false, ◌≡◌,
  ◌⊎◌, ◌∙◌, sym, ap, inl, inr, M, ok, subst, some, ◌>>=◌, ◌>>◌, return, >>=-after, >>=-eq-ok,
}
use mikrotik_operator.RouterOs.{
  Sentence, lookup, select, others, Menu, RouterOs, IsLawful, Added, Same, print_cmd, remove_cmd,
  add_words,
}
use mikrotik_operator.Client.Operations.{run_args, managed_entries, delete_matching}
use mikrotik_operator.Client.Spares.{Spares, Spares-refl, Spares-trans, Spares-Same}
use mikrotik_operator.Client.Delete.{
  managed_entries-Same, managed_entries-eq-ok, shown-Same, delete_matching-Spares,
  delete_matching-table, after_ok,
}
use mikrotik_operator.Client.Add.{select-others, add-Spares, add-Added, Added-select}

module _ (R : RouterOs) (m : Menu) (mine : Text → Bool) (props : List Text)
    (settled : List Sentence → Bool) (attrs : Sentence) where
  abbrev pub replace : M R.State (Unit {0})
  replace = do delete_matching R (print_cmd m) (remove_cmd m) mine; run_args R (add_words m attrs)

  abbrev pub ensure : M R.State (Unit {0})
  ensure = do
    entries ← managed_entries R (print_cmd m) mine props
    if settled entries then return tt else replace

  -- What the early return saw of the table.
  abbrev pub seen : R.State → List Sentence
  seen s = map (R.view props) (select mine (R.table m s))

module _ (R : RouterOs) (L : IsLawful R) (m : Menu) (mine : Text → Bool) (props : List Text)
    (settled : List Sentence → Bool) (attrs : Sentence) where
  abbrev replace' : M R.State (Unit {0})
  replace' = replace R m mine props settled attrs

  abbrev ensure' : M R.State (Unit {0})
  ensure' = ensure R m mine props settled attrs

  abbrev seen' : R.State → List Sentence
  seen' = seen R m mine props settled attrs

  module _ {c : Text} (sent : lookup (text "comment") attrs ≡ some c) (owned : mine c ≡ true) where
    pub replace-Spares : (s : R.State) → Spares R m mine s (replace' s).1
    replace-Spares s =
        >>=-after (Spares R m mine s) (delete_matching R (print_cmd m) (remove_cmd m) mine) _ s
          (delete_matching-Spares R L m mine s)
          λ u t h.
            Spares-trans R m mine s t _
              (subst (Spares R m mine s) (ap (λ q. q.1) h) (delete_matching-Spares R L m mine s))
              (add-Spares R L m mine attrs sent owned t)

    pub ensure-Spares : (s : R.State) → Spares R m mine s (ensure' s).1
    ensure-Spares s =
        >>=-after (Spares R m mine s) (managed_entries R (print_cmd m) mine props) _ s
          (Spares-Same R m mine s _ (managed_entries-Same R L m mine props s))
          λ es t h.
            Spares-trans R m mine s t _ (Spares-Same R m mine s t (shown-Same R L m mine props s h))
              (elim (settled es)
                as (λ b. Spares R m mine t ((if b then return tt else replace') t).1) [
                  | true ↦ Spares-refl R m mine t
                  | false ↦ replace-Spares t
                ])

    pub replace-Added :
        (s : R.State) {t : R.State} {u : Unit {0}}
        → replace' s ≡ (ok u, t)
        → (a : Added R attrs (others mine (R.table m s)) (R.table m t)) × (select mine (R.table m t)
            ≡ a.entry ∷ [])
    replace-Added s {t} h =
        let (u, v, d, k) = >>=-eq-ok (delete_matching R (print_cmd m) (remove_cmd m) mine) _ h in
        let a =
          subst (λ l. Added R attrs l (R.table m t)) (delete_matching-table R L m mine s d)
            (add-Added R L m mine attrs sent owned v k) in
        (a, Added-select R L m mine attrs sent owned a (select-others mine _))

  module _ (shown : contains (text "comment") props ≡ true) where
    seen_lem :
        (s : R.State) {t : R.State} {es : List Sentence}
        → managed_entries R (print_cmd m) mine props s ≡ (ok es, t)
        → es ≡ seen' s
    seen_lem s h = managed_entries-eq-ok R L m mine props s shown h

    -- Where the entries are settled nothing changes.
    pub ensure_idle : (s : R.State) → settled (seen' s) ≡ true → Same R s (ensure' s).1
    ensure_idle s h n =
        >>=-after (λ t. R.table n t ≡ R.table n s) (managed_entries R (print_cmd m) mine props) _ s
          (managed_entries-Same R L m mine props s n)
          λ es t e. rw (seen_lem s e, h) (shown-Same R L m mine props s e n)

    module _ {c : Text} (sent : lookup (text "comment") attrs ≡ some c)
        (owned : mine c ≡ true) where
      abbrev Outcome : R.State → R.State → Type 0
      Outcome s t =
          ((settled (seen' t) ≡ true) × Same R s t)
          ⊎ ((a : Added R attrs (others mine (R.table m s)) (R.table m t)) × (select mine
                  (R.table m t)
                ≡ a.entry ∷ []))

      finish :
          (s v : R.State) (b : Bool) {t : R.State} {u : Unit {0}}
          → Same R s v
          → settled (seen' s) ≡ b
          → (if b then return tt else replace') v ≡ (ok u, t)
          → Outcome s t
      finish s v true {t} same e h =
          let back = λ (n : Menu). after_ok R n h ∙ same n in
          inl (ap (λ l. settled (map (R.view props) (select mine l))) (back m) ∙ e, back)
      finish s v false {t} same e h = inr (
          subst
            (λ l.
              (a : Added R attrs (others mine l) (R.table m t)) × (select mine (R.table m t)
                ≡ a.entry ∷ []))
            (same m) (replace-Added sent owned v h))

      -- On success either nothing was to be done, or the new entry stands alone.
      pub ensure_cases :
          (s : R.State) {t : R.State} {u : Unit {0}} → ensure' s ≡ (ok u, t) → Outcome s t
      ensure_cases s h =
          let (es, v, d, k) = >>=-eq-ok (managed_entries R (print_cmd m) mine props) _ h in
          finish s v (settled es) (shown-Same R L m mine props s d)
            (ap settled (sym (seen_lem s d))) k
