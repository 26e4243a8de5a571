-- ===== src/Client/Add.antt =====
-- What an `add` command leaves in the tables.
use mikrotik_operator.Base.{
  Text, text, List, [], ◌∷◌, ◌++◌, keep, nat_eq, list_eq, not, Bool, true, ◌≡◌, ◌⊎◌, refl, ◌∙◌, sym,
  ap, inl, inr, arith, ok, some, keep-append,
}
use mikrotik_operator.RouterOs.{
  Sentence, lookup, comment_of, select, others, Menu, RouterOs, IsLawful, Added, add_words, others,
}
use mikrotik_operator.Client.Operations.{run_args}
use mikrotik_operator.Client.Spares.{Spares}
use mikrotik_operator.Client.Delete.{run_args-table, run_args-eq-ok}

-- No entry passes the test once the others are all there is.
pub select-others : (mine : Text → Bool) (l : List Sentence) → select mine (others mine l) ≡ []
unfolding select others keep
select-others mine [] = refl
select-others mine (e ∷ l) = ground (arith, select-others mine l)

insert_only : (xs ys : List Sentence) (e : Sentence) → xs ++ ys ≡ [] → xs ++ (e ∷ ys) ≡ e ∷ []
insert_only [] ys e h = ap (λ t. e ∷ t) h
insert_only (x ∷ xs) ys e h = cc

module _ (R : RouterOs) (L : IsLawful R) (m : Menu) (mine : Text → Bool) (attrs : Sentence)
    {c : Text} (sent : lookup (text "comment") attrs ≡ some c) (owned : mine c ≡ true) where
  pub Added-mine :
      {before after : List Sentence} (a : Added R attrs before after)
      → mine (comment_of a.entry) ≡ true
  Added-mine a = ap mine (a.stored (text "comment") c sent (L.comment_Canonical c)) ∙ owned

  pub Added-others :
      {before after : List Sentence}
      → Added R attrs before after
      → others mine after ≡ others mine before
  unfolding others keep
  Added-others {before} {after} a =
      ap (others mine) a.joined
      ∙ (keep-append _ a.above (a.entry ∷ a.below)
          ∙ (ap (λ t. keep (λ e. not (mine (comment_of e))) a.above ++ t) dropped
              ∙ (sym (keep-append _ a.above a.below) ∙ ap (others mine) (sym a.split))))
    where
      dropped :
          keep (λ e. not (mine (comment_of e))) (a.entry ∷ a.below)
          ≡ keep (λ e. not (mine (comment_of e))) a.below
      dropped = rw (Added-mine a)

  -- The new entry joins those that pass the test.
  pub Added-select_split :
      {before after : List Sentence} (a : Added R attrs before after)
      → (xs : List Sentence) × (ys : List Sentence) × (select mine before ≡ xs ++ ys)
        × (select mine after ≡ xs ++ (a.entry ∷ ys))
  unfolding select keep
  Added-select_split a = (
    select mine a.above,
    select mine a.below,
    ap (select mine) a.split ∙ keep-append _ a.above a.below,
    ap (select mine) a.joined ∙ (keep-append _ a.above (a.entry ∷ a.below) ∙ rw (Added-mine a)),
  )

  pub Added-select :
      {before after : List Sentence} (a : Added R attrs before after)
      → select mine before ≡ []
      → select mine after ≡ a.entry ∷ []
  Added-select a alone =
      let (xs, ys, h, k) = Added-select_split a in k ∙ insert_only xs ys a.entry (sym h ∙ alone)

  pub add-Spares : (s : R.State) → Spares R m mine s (run_args R (add_words m attrs) s).1
  add-Spares s = record {
    kept = ap (others mine) (run_args-table R _ s m) ∙ left (L.add_either m attrs s);
    elsewhere = λ n d. run_args-table R _ s n ∙ L.add_elsewhere m attrs s n d;
  }
    where
      left :
          (R.table m (R.run (add_words m attrs) s).1 ≡ R.table m s)
            ⊎ Added R attrs (R.table m s) (R.table m (R.run (add_words m attrs) s).1)
          → others mine (R.table m (R.run (add_words m attrs) s).1) ≡ others mine (R.table m s)
      left (inl h) = ap (others mine) h
      left (inr a) = Added-others a

  pub add-Added :
      (s : R.State) {t : R.State} {u : Unit {0}}
      → run_args R (add_words m attrs) s ≡ (ok u, t)
      → Added R attrs (R.table m s) (R.table m t)
  add-Added s h = L.add_done m attrs (run_args-eq-ok R _ h).1
