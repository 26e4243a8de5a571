-- ===== src/Client/Firewall.antt =====
-- internal/routeros/client.go: the steps of `EnsureFirewallRule`.
use mikrotik_operator.Base.{
  Text, text, List, [], ◌∷◌, ◌++◌, map, contains, All, ◌==◌, nat_eq, list_eq, if◌then◌else◌, Bool,
  true, false, ◌≡◌, refl, ◌∙◌, sym, ap, ap₂, inl, inr, arith, some, M, ok, ◌>>=◌, ◌>>◌, return,
  >>=-eq-ok, >>=-after, >>=-Respects, Bool-cases, eq_refl, keep-true, keep, result_injective,
}
use mikrotik_operator.RouterOs.{
  Sentence, lookup, id_of, comment_of, select, others, filter, RouterOs, IsLawful, Same, print_cmd,
  remove_cmd, add_words, print_words,
}
use mikrotik_operator.Client.Entries.{
  FirewallRule, managed_comment_prefix_matches, firewall_rule_matches, firewall_attributes,
  place_before_arg, chain_of, precedes_unmanaged,
}
use mikrotik_operator.Client.Operations.{
  run_args, managed_entries, delete_matching, first_ids_by_chain, firewall_rule_precedes_unmanaged,
  firewall_settled, firewall_place, ensure_firewall_rule,
}
use mikrotik_operator.Client.Spares.{Spares, Spares-refl, Spares-trans, Spares-Same}
use mikrotik_operator.Client.Delete.{managed_entries-Same, delete_matching-Spares, after_ok}
use mikrotik_operator.Client.Add.{add-Spares}
use mikrotik_operator.Client.Order.{chain_in, chain_of-view, precedes_unmanaged-view}
use mikrotik_operator.Client.Filter.{filter_properties}

module _ (R : RouterOs) (L : IsLawful R) where
  abbrev pub everything : List Text → M R.State (List Sentence)
  everything props = managed_entries R (print_cmd filter) (λ _. true) props

  -- A print with no condition shows the whole table.
  pub everything-eq-ok :
      (props : List Text) (s : R.State) {t : R.State} {es : List Sentence}
      → everything props s ≡ (ok es, t)
      → es ≡ map (R.view props) (R.table filter s)
  unfolding managed_entries
  everything-eq-ok props s h =
      let (r, u, e, f) = >>=-eq-ok (R.run (print_words filter props)) _ h in
      sym (result_injective (ap (λ q. q.0) f)) ∙ (keep-true r.re ∙ L.print_shows filter props e)

  pub everything-Same : (props : List Text) (s : R.State) → Same R s (everything props s).1
  everything-Same = managed_entries-Same R L filter (λ _. true)

  abbrev pub Positive : Text → List Sentence → Type 0
  Positive id l = precedes_unmanaged id (chain_of id l) l ≡ true

  abbrev order_properties : List Text
  order_properties = text ".id" ∷ text "chain" ∷ text "comment" ∷ []

  precedes-Same : (id : Text) (s : R.State) → Same R s (firewall_rule_precedes_unmanaged R id s).1
  unfolding firewall_rule_precedes_unmanaged
  precedes-Same id s n = elim (Bool-cases (id == [])) [
    | inl e ↦ rw e refl
    | inr e ↦ rw e (
        >>=-after (λ t. R.table n t ≡ R.table n s) (everything order_properties) _ s
          (everything-Same _ s n) (λ es t h. after_ok R n h ∙ everything-Same _ s n))
  ]

  shown_ids :
      (props : List Text)
      → contains (text ".id") props ≡ true
      → (e : Sentence) → id_of (R.view props e) ≡ id_of e
  shown_ids props c e = L.view_reads (text ".id") props e c

  shown_chains :
      (props : List Text)
      → contains (text "chain") props ≡ true
      → (e : Sentence) → chain_in (R.view props e) ≡ chain_in e
  shown_chains props c e = L.view_reads (text "chain") props e c

  shown_Positive :
      (id : Text) (s : R.State) {t : R.State} {es : List Sentence}
      → everything order_properties s ≡ (ok es, t)
      → (chain_of id es ≡ chain_of id (R.table filter s))
        × (precedes_unmanaged id (chain_of id es) es
            ≡ precedes_unmanaged id (chain_of id (R.table filter s)) (R.table filter s))
  unfolding text
  shown_Positive id s {t} {es} h =
      let chains : chain_of id es ≡ chain_of id (R.table filter s) =
        ap (chain_of id) (everything-eq-ok order_properties s h)
        ∙ chain_of-view (R.view order_properties) (shown_ids order_properties refl)
            (shown_chains order_properties refl) id (R.table filter s) in
      (
        chains,
        ap₂ (precedes_unmanaged id) chains (everything-eq-ok order_properties s h)
            ∙ precedes_unmanaged-view (R.view order_properties) (shown_ids order_properties refl)
                (shown_chains order_properties refl)
                (λ e. L.view_reads (text "comment") order_properties e refl) id _
                (R.table filter s),
      )

  pub precedes-true :
      (id : Text) (s : R.State) {t : R.State}
      → firewall_rule_precedes_unmanaged R id s ≡ (ok true, t)
      → Positive id (R.table filter s)
  unfolding firewall_rule_precedes_unmanaged
  precedes-true id s h = elim (Bool-cases (id == [])) [
    | inl e ↦ cc (ap (λ q. q.0) (rw e at h))
    | inr e ↦
        let (es, u, a, b) = >>=-eq-ok (everything order_properties) _ (rw e at h) in
        sym (shown_Positive id s a).1
        ∙ second (chain_of id es == []) (result_injective (ap (λ q. q.0) b))
  ]
    where
      second : {p : Bool} (c : Bool) → (if c then false else p) ≡ true → p ≡ true
      second true h = cc h
      second false h = h

  pub settled-Same :
      (rule : FirewallRule) (es : List Sentence) (s : R.State)
      → Same R s (firewall_settled R rule es s).1
  unfolding firewall_settled
  settled-Same rule [] s n = refl
  settled-Same rule (e ∷ []) s n = elim (Bool-cases (firewall_rule_matches e rule)) [
    | inl m ↦ elim (Bool-cases rule.place_before) [
      | inl p ↦ rw (m, p) (precedes-Same (id_of e) s n)
      | inr p ↦ rw (m, p) refl
    ]
    | inr m ↦ rw m refl
  ]
  settled-Same rule (e ∷ f ∷ es) s n = refl

  pub place-Same : (rule : FirewallRule) (s : R.State) → Same R s (firewall_place R rule s).1
  unfolding firewall_place first_ids_by_chain
  place-Same rule s n = elim (Bool-cases rule.place_before) [
    | inl p ↦ rw p (first s)
    | inr p ↦ rw p refl
  ]
    where
      first :
          (s : R.State)
          → R.table n
              ((first_ids_by_chain R (print_cmd filter) >>= λ f.
                  return (place_before_arg rule.chain f))
                s).1
            ≡ R.table n s
      first s =
          >>=-after (λ t. R.table n t ≡ R.table n s) (first_ids_by_chain R (print_cmd filter)) _ s
            (found s) (λ f t h. after_ok R n h ∙ found s)
        where
          found :
              (s : R.State) → R.table n (first_ids_by_chain R (print_cmd filter) s).1 ≡ R.table n s
          found s =
              >>=-after (λ t. R.table n t ≡ R.table n s) (everything _) _ s (everything-Same _ s n)
                (λ es t h. after_ok R n h ∙ everything-Same _ s n)

-- Deleting what a wider test finds leaves nothing for the narrower one.
pub select-others_within :
    (mine narrow : Text → Bool)
    → ((v : Text) → narrow v ≡ true → mine v ≡ true)
    → (l : List Sentence) → select narrow (others mine l) ≡ []
unfolding select others keep
select-others_within mine narrow within [] = refl
select-others_within mine narrow within (e ∷ l) =
    ground (arith, select-others_within mine narrow within l, within (comment_of e))

pub All-append_left {κ} :
    (P : Sentence → Type κ) (xs ys : List Sentence) → All P (xs ++ ys) → All P xs
All-append_left P [] ys h = tt
All-append_left P (x ∷ xs) ys h = (h.0, All-append_left P xs ys h.1)

module _ (R : RouterOs) (L : IsLawful R) (rule : FirewallRule) (comment : Text) where
  abbrev pub mine : Text → Bool
  mine v = managed_comment_prefix_matches v comment

  abbrev pub exact : Text → Bool
  exact v = v == comment

  pub exact-mine : (v : Text) → exact v ≡ true → mine v ≡ true
  unfolding managed_comment_prefix_matches
  exact-mine v h = rw h

  abbrev pub attrs : Sentence → Sentence
  attrs place = firewall_attributes rule comment ++ place

  pub comment_sent : (place : Sentence) → lookup (text "comment") (attrs place) ≡ some comment
  unfolding firewall_attributes lookup text
  comment_sent place = refl

  abbrev pub add_rule : Sentence → M R.State (Unit {0})
  add_rule place = run_args R (add_words filter (attrs place))

  abbrev pub rebuild : M R.State (Unit {0})
  rebuild = do
    delete_matching R (print_cmd filter) (remove_cmd filter) mine
    place ← firewall_place R rule
    add_rule place

  rebuild-Spares : (s : R.State) → Spares R filter mine s (rebuild s).1
  rebuild-Spares =
      >>=-Respects (Spares R filter mine) (Spares-trans R filter mine)
        (delete_matching R (print_cmd filter) (remove_cmd filter) mine) _
        (delete_matching-Spares R L filter mine)
        λ _.
          >>=-Respects (Spares R filter mine) (Spares-trans R filter mine) (firewall_place R rule) _
            (λ s. Spares-Same R filter mine s _ (place-Same R L rule s))
            (λ place.
              add-Spares R L filter mine (attrs place) (comment_sent place)
                (exact-mine comment (eq_refl comment)))

  -- On a device that obeys the laws of RouterOs.Defs, whether `EnsureFirewallRule` succeeds or
  -- fails at any command, the entries of the filter table whose comments are not under the rule's
  -- comment are the same, and so are the other tables.
  pub ensure_firewall_rule-Spares :
      (s : R.State) → Spares R filter mine s (ensure_firewall_rule R rule comment s).1
  unfolding ensure_firewall_rule
  ensure_firewall_rule-Spares =
      >>=-Respects (Spares R filter mine) (Spares-trans R filter mine)
        (managed_entries R (print_cmd filter) exact filter_properties) _
        (λ s.
          Spares-Same R filter mine s _ (managed_entries-Same R L filter exact filter_properties s))
        λ es.
          >>=-Respects (Spares R filter mine) (Spares-trans R filter mine)
            (firewall_settled R rule es) _
            (λ s. Spares-Same R filter mine s _ (settled-Same R L rule es s)) choose
    where
      choose :
          (b : Bool) (s : R.State) → Spares R filter mine s ((if b then return tt else rebuild) s).1
      choose true s = Spares-refl R filter mine s
      choose false s = rebuild-Spares s
