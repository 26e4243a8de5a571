-- ===== src/Client/Delete.antt =====
-- internal/routeros/client.go: `managedEntries` and `deleteMatching`.
use mikrotik_operator.Base.{
  Text, text, List, [], ◌∷◌, map, keep, contains, nat_eq, list_eq, Bool, true, ◌≡◌, ◌⊎◌, refl, ◌∙◌,
  sym, ap, ap₂, inl, inr, Result, ok, return, >>=-after, >>=-eq-ok, result_injective, subst,
  keep-map, keep_congr, All-intro, map-map, map_congr,
}
use mikrotik_operator.RouterOs.{
  Sentence, id_of, select, others, without, Menu, RouterOs, IsLawful, Same, SameBut, print_cmd,
  remove_cmd, print_words, remove_words, Reply, Word, without_ids, without_ids-nil,
  without_ids-cons, Owned, others-without, Owned-without, without_ids-select, Owned-select,
}
use mikrotik_operator.Client.Spares.{Spares, Spares-refl, Spares-trans, Spares-Same}
use mikrotik_operator.Client.Operations.{run_args, managed_entries, remove_each, delete_matching}

module _ (R : RouterOs) where
  pub after_ok :
      {A : Type 0} {p : Result A × R.State} {a : A} {t : R.State} (m : Menu)
      → p ≡ (ok a, t)
      → R.table m t ≡ R.table m p.1
  after_ok m e = sym (ap (λ q. R.table m q.1) e)

  pub run_args-table :
      (words : List Word) (s : R.State) (m : Menu)
      → R.table m (run_args R words s).1 ≡ R.table m (R.run words s).1
  run_args-table words s m =
      >>=-after (λ t. R.table m t ≡ R.table m (R.run words s).1) (R.run words) _ s refl
        (λ r t e. after_ok m e)

  pub run_args-eq-ok :
      (words : List Word) {s t : R.State} {u : Unit {0}}
      → run_args R words s ≡ (ok u, t)
      → (r : Reply) × (R.run words s ≡ (ok r, t))
  run_args-eq-ok words {s} h =
      let (r, v, e, f) = >>=-eq-ok (R.run words) (λ _. return tt) h in
      (r, e ∙ ap (λ w. (ok r, w)) (ap (λ q. q.1) f))

module _ (R : RouterOs) (L : IsLawful R) (m : Menu) where
  pub managed_entries-Same :
      (matches : Text → Bool) (props : List Text) (s : R.State)
      → Same R s (managed_entries R (print_cmd m) matches props s).1
  unfolding managed_entries
  managed_entries-Same matches props s n =
      >>=-after (λ t. R.table n t ≡ R.table n s) (R.run (print_words m props)) _ s
        (L.print_reads_only m props s n) (λ r t e. after_ok R n e ∙ L.print_reads_only m props s n)

  -- What a print shows of the entries that match.
  pub managed_entries-eq-ok :
      (matches : Text → Bool) (props : List Text) (s : R.State) {t : R.State} {es : List Sentence}
      → contains (text "comment") props ≡ true
      → managed_entries R (print_cmd m) matches props s ≡ (ok es, t)
      → es ≡ map (R.view props) (select matches (R.table m s))
  unfolding managed_entries select
  managed_entries-eq-ok matches props s c h =
      let (r, u, e, f) = >>=-eq-ok (R.run (print_words m props)) _ h in
      sym (result_injective (ap (λ q. q.0) f))
      ∙ (ap (keep _) (L.print_shows m props e)
          ∙ (keep-map _ _ (R.table m s)
              ∙ ap (map (R.view props)) (
                  keep_congr _ _ (R.table m s) (
                    All-intro _ (R.table m s)
                      (λ x. ap matches (L.view_reads (text "comment") props x c))))))

  pub managed_entries-ids :
      (props : List Text) (l : List Sentence)
      → contains (text ".id") props ≡ true
      → map id_of (map (R.view props) l) ≡ map id_of l
  managed_entries-ids props l c =
      map-map _ _ l ∙ map_congr _ _ l (λ x. L.view_reads (text ".id") props x c)

  module _ (mine : Text → Bool) where
    remove-Spares :
        (e : Sentence) (ids : List Text) (s : R.State)
        → Owned mine (id_of e ∷ ids) (R.table m s)
        → Spares R m mine s (run_args R (remove_words m (id_of e)) s).1
    remove-Spares e ids s o = record {
      kept = ap (others mine) (run_args-table R _ s m) ∙ removed (L.remove_either m (id_of e) s);
      elsewhere = λ n d. run_args-table R _ s n ∙ L.remove_elsewhere m (id_of e) s n d;
    }
      where
        removed :
            (R.table m (R.run (remove_words m (id_of e)) s).1 ≡ R.table m s)
              ⊎ (R.table m (R.run (remove_words m (id_of e)) s).1 ≡ without (id_of e) (R.table m s))
            → others mine (R.table m (R.run (remove_words m (id_of e)) s).1)
              ≡ others mine (R.table m s)
        removed (inl h) = ap (others mine) h
        removed (inr h) = ap (others mine) h ∙ others-without mine (id_of e) ids _ o

    remove-table :
        (e : Sentence) (s : R.State) {t : R.State} {u : Unit {0}}
        → run_args R (remove_words m (id_of e)) s ≡ (ok u, t)
        → R.table m t ≡ without (id_of e) (R.table m s)
    remove-table e s h = L.remove_done m (id_of e) (run_args-eq-ok R _ h).1

    pub remove_each-Spares :
        (es : List Sentence) (s : R.State)
        → Owned mine (map id_of es) (R.table m s)
        → Spares R m mine s (remove_each R (remove_cmd m) es s).1
    unfolding remove_each
    remove_each-Spares [] s o = Spares-refl R m mine s
    remove_each-Spares (e ∷ es) s o =
        >>=-after (Spares R m mine s) (run_args R (remove_words m (id_of e))) _ s
          (remove-Spares e (map id_of es) s o)
          λ u t h.
            Spares-trans R m mine s t _
              (subst (Spares R m mine s) (ap (λ q. q.1) h) (remove-Spares e (map id_of es) s o))
              (remove_each-Spares es t (
                subst (Owned mine (map id_of es)) (sym (remove-table e s h))
                  (Owned-without mine (id_of e) (map id_of es) _ o)))

    pub remove_each-table :
        (es : List Sentence) (s : R.State) {t : R.State} {u : Unit {0}}
        → remove_each R (remove_cmd m) es s ≡ (ok u, t)
        → R.table m t ≡ without_ids (map id_of es) (R.table m s)
    unfolding remove_each
    remove_each-table [] s {t} h =
        ap (λ q. R.table m q.1) (sym h) ∙ sym (without_ids-nil (R.table m s))
    remove_each-table (e ∷ es) s h =
        let (u, v, a, b) = >>=-eq-ok (run_args R (remove_words m (id_of e))) _ h in
        remove_each-table es v b
        ∙ (ap (without_ids (map id_of es)) (remove-table e s a)
            ∙ sym (without_ids-cons (id_of e) (map id_of es) (R.table m s)))

    -- The ids that a print shows are those of the entries that pass the test.
    pub shown_ids :
        (s : R.State) {t : R.State} {es : List Sentence}
        → managed_entries R (print_cmd m) mine (text ".id" ∷ text "comment" ∷ []) s ≡ (ok es, t)
        → map id_of es ≡ map id_of (select mine (R.table m s))
    unfolding text
    shown_ids s h =
        ap (map id_of) (managed_entries-eq-ok mine _ s refl h)
        ∙ managed_entries-ids _ (select mine (R.table m s)) refl

    pub shown-Same :
        (props : List Text) (s : R.State) {t : R.State} {es : List Sentence}
        → managed_entries R (print_cmd m) mine props s ≡ (ok es, t)
        → Same R s t
    shown-Same props s h n = after_ok R n h ∙ managed_entries-Same mine props s n

    -- Whatever way it ends, only entries that pass the test have gone.
    pub delete_matching-Spares :
        (s : R.State) → Spares R m mine s (delete_matching R (print_cmd m) (remove_cmd m) mine s).1
    unfolding delete_matching
    delete_matching-Spares s =
        >>=-after (Spares R m mine s) (managed_entries R (print_cmd m) mine _) _ s
          (Spares-Same R m mine s _ (managed_entries-Same mine _ s))
          λ es t h. Spares-trans R m mine s t _ (Spares-Same R m mine s t (shown-Same _ s h)) (
            remove_each-Spares es t (
              subst (λ ids. Owned mine ids (R.table m t)) (sym (shown_ids s h))
                (subst (λ l. Owned mine (map id_of (select mine (R.table m s))) l)
                  (sym (shown-Same _ s h m)) (Owned-select mine (R.table m s) (L.ids_Nodup m s)))))

    -- If it succeeds, the entries that pass the test are gone.
    pub delete_matching-table :
        (s : R.State) {t : R.State} {u : Unit {0}}
        → delete_matching R (print_cmd m) (remove_cmd m) mine s ≡ (ok u, t)
        → R.table m t ≡ others mine (R.table m s)
    unfolding delete_matching
    delete_matching-table s h =
        let (es, v, a, b) = >>=-eq-ok (managed_entries R (print_cmd m) mine _) _ h in
        remove_each-table es v b
        ∙ (ap₂ without_ids (shown_ids s a) (shown-Same _ s a m)
            ∙ without_ids-select mine (R.table m s) (L.ids_Nodup m s))

    pub delete_matching-eq-ok :
        (s : R.State) {t : R.State} {u : Unit {0}}
        → delete_matching R (print_cmd m) (remove_cmd m) mine s ≡ (ok u, t)
        → (R.table m t ≡ others mine (R.table m s)) × SameBut R m s t
    delete_matching-eq-ok s h = (
      delete_matching-table s h,
      λ n d. after_ok R n h ∙ (delete_matching-Spares s).elsewhere n d,
    )
