-- ===== src/Client/Placement.antt =====
-- Where `EnsureFirewallRule` leaves its entry.
use mikrotik_operator.Base.{
  Text, text, List, [], ◌∷◌, ◌++◌, map, All, Nodup, ◌==◌, nat_eq, list_eq, if◌then◌else◌, Bool,
  true, false, ◌≡◌, ◌≢◌, ◌⊎◌, refl, ◌∙◌, sym, ap, ap₂, subst, inl, inr, some, ok, return, >>=-eq-ok,
  Bool-cases, eq_iff, eq_refl, result_injective, All-map,
}
use mikrotik_operator.RouterOs.{
  Sentence, get, lookup, id_of, select, filter, RouterOs, IsLawful, Added, print_cmd, remove_cmd,
}
use mikrotik_operator.Client.Entries.{
  FirewallRule, firewall_rule_matches, firewall_attributes, place_before_arg, first_ids, when_set,
  chain_of,
}
use mikrotik_operator.Client.Operations.{
  managed_entries, delete_matching, first_ids_by_chain, firewall_settled, firewall_place,
  firewall_rule_precedes_unmanaged, ensure_firewall_rule,
}
use mikrotik_operator.Client.Delete.{
  managed_entries-eq-ok, shown-Same, delete_matching-table, after_ok,
}
use mikrotik_operator.Client.Add.{add-Added, Added-select}
use mikrotik_operator.Client.Order.{
  chain_in, IsAhead, precedes_unmanaged-place, first_of, get-first_ids, IsOff, first_of-none,
  first_of-above, select_unique, first_ids-view, chain_of-at, chain_in,
}
use mikrotik_operator.Client.Filter.{
  filter_properties, IsRule, firewall_rule_matches-IsRule, Added-IsRule, sent_place,
}
use mikrotik_operator.Client.Firewall.{
  everything, everything-eq-ok, precedes-true, settled-Same, place-Same, mine, exact, exact-mine,
  attrs, comment_sent, rebuild, select-others_within, All-append_left,
}

module _ (R : RouterOs) (L : IsLawful R) (rule : FirewallRule) (comment : Text)
    (named : rule.chain ≢ []) where
  abbrev is_ours : Text → Bool
  is_ours = exact R L rule comment

  -- The place that is asked for: before the first entry of the chain.
  place_for : List Sentence → Sentence
  place_for l = when_set (text "place-before") (first_of rule.chain l)

  firewall_place-eq-ok :
      (s : R.State) {t : R.State} {place : Sentence}
      → rule.place_before ≡ true
      → firewall_place R rule s ≡ (ok place, t)
      → place ≡ place_for (R.table filter s)
  unfolding firewall_place first_ids_by_chain place_before_arg place_for text
  firewall_place-eq-ok s p h =
      let (f, u, a, b) = >>=-eq-ok (first_ids_by_chain R (print_cmd filter)) _ (rw p at h) in
      let (es, v, c, d) = >>=-eq-ok (everything R L _) _ a in
      sym (result_injective (ap (λ q. q.0) b))
      ∙ ap (when_set (text "place-before")) (
          ap (get rule.chain) (sym (result_injective (ap (λ q. q.0) d)))
          ∙ (ap (λ l. get rule.chain (first_ids [] l)) (everything-eq-ok R L _ s c)
              ∙ (ap (get rule.chain) (
                    first_ids-view (R.view _) (λ e. L.view_reads (text ".id") _ e refl)
                      (λ e. L.view_reads (text "chain") _ e refl) (R.table filter s) [])
                  ∙ get-first_ids rule.chain (R.table filter s) named (L.ids_set filter s))))

  abbrev Placed : Sentence → R.State → Type 0
  Placed e s = rule.place_before ≡ true → IsAhead rule.chain e (R.table filter s)

  Added-IsAhead :
      (place : Sentence) (s t : R.State)
      (a : Added R (attrs R L rule comment place) (R.table filter s) (R.table filter t))
      → place ≡ place_for (R.table filter s)
      → IsAhead rule.chain a.entry (R.table filter t)
  unfolding place_for
  Added-IsAhead place s t a asked = (
    a.above,
    a.below,
    a.joined,
    All-map _ _ a.above (λ f off on. absurd (off on)) (clear (Bool-cases (first == []))),
  )
    where
      first : Text
      first = first_of rule.chain (R.table filter s)

      before_first : first ≢ [] → All (IsOff rule.chain) a.above
      before_first set =
          let (g, rest, at, same) = a.placed first (
            ap (λ p. lookup (text "place-before") (attrs R L rule comment p)) asked
            ∙ sent_place rule comment first set) in
          let split : R.table filter s ≡ a.above ++ (g ∷ rest) =
            a.split ∙ ap (λ l. a.above ++ l) at in
          first_of-above rule.chain a.above rest g
            (subst (λ l. Nodup (map id_of l)) split (L.ids_Nodup filter s))
            (same ∙ ap (first_of rule.chain) split)

      clear : (first == []) ≡ true ⊎ (first == []) ≡ false → All (IsOff rule.chain) a.above
      clear (inl none') = All-append_left _ a.above a.below (
          subst (All (IsOff rule.chain)) a.split
            (first_of-none rule.chain _ (L.ids_set filter s) ((eq_iff _ _).0 none')))
      clear (inr some') = before_first (λ e. cc (some', (eq_iff first []).1 e))

  abbrev pub IsDone : List Sentence → Type 0
  IsDone l =
      (e : Sentence) × (select is_ours l ≡ e ∷ [])
      × IsRule rule e
      × (rule.place_before ≡ true → IsAhead rule.chain e l)

  abbrev seen : Sentence → Sentence
  seen = R.view filter_properties

  -- An early return finds the entry in its place.
  placed_already :
      (e : Sentence) (s : R.State) {t : R.State}
      → select is_ours (R.table filter s) ≡ e ∷ []
      → IsRule rule e
      → firewall_rule_precedes_unmanaged R (id_of (seen e)) s ≡ (ok true, t)
      → IsAhead rule.chain e (R.table filter s)
  unfolding text
  placed_already e s one good h =
      let id_seen : id_of (seen e) ≡ id_of e = L.view_reads (text ".id") _ e refl in
      let (f, same, ahead) =
        precedes_unmanaged-place _ _ _ (precedes-true R L (id_of (seen e)) s h) in
      let (above, below, at, rest) = ahead in
      let u : Nodup (map id_of (above ++ (f ∷ below))) =
        subst (λ l. Nodup (map id_of l)) at (L.ids_Nodup filter s) in
      let found : f ≡ e =
        select_unique is_ours above below e f u (sym (ap (select is_ours) at) ∙ one)
          (same ∙ id_seen) in
      let chained : chain_of (id_of (seen e)) (R.table filter s) ≡ rule.chain =
        ap₂ chain_of (sym same) at
        ∙ (chain_of-at above below f u ∙ (ap chain_in found ∙ good.chained)) in
      subst (λ g. IsAhead rule.chain g (R.table filter s)) found
        (subst (λ c. IsAhead c f (R.table filter s)) chained ahead)

  settled-IsDone :
      (l : List Sentence) (s : R.State) {t : R.State}
      → l ≡ select is_ours (R.table filter s)
      → firewall_settled R rule (map seen l) s ≡ (ok true, t)
      → IsDone (R.table filter s)
  unfolding firewall_settled
  settled-IsDone [] s at h = cc (ap (λ q. q.0) h)
  settled-IsDone (e ∷ f ∷ l) s at h = cc (ap (λ q. q.0) h)
  settled-IsDone (e ∷ []) s at h = elim (Bool-cases (firewall_rule_matches (seen e) rule)) [
    | inl m ↦ (
      e,
      sym at,
      firewall_rule_matches-IsRule R L rule e m,
      λ p. placed_already e s (sym at) (firewall_rule_matches-IsRule R L rule e m) (rw (m, p) at h),
    )
    | inr m ↦ cc (ap (λ q. q.0) (rw m at h))
  ]

  module _
      (fits : (k v : Text)
        → lookup k (firewall_attributes rule comment) ≡ some v
        → R.Canonical k v) where
    rebuild-IsDone :
        (s : R.State) {t : R.State} {u : Unit {0}}
        → rebuild R L rule comment s ≡ (ok u, t)
        → IsDone (R.table filter t)
    rebuild-IsDone s {t} h =
        let (_, v, cleared, h₁) =
          >>=-eq-ok
            (delete_matching R (print_cmd filter) (remove_cmd filter) (mine R L rule comment)) _
            h in
        let (place, w, looked, h₂) = >>=-eq-ok (firewall_place R rule) _ h₁ in
        let kept : R.table filter w ≡ R.table filter v =
          after_ok R filter looked ∙ place-Same R L rule v filter in
        finish place w
          (ap (select is_ours)
              (kept ∙ delete_matching-table R L filter (mine R L rule comment) s cleared)
            ∙ select-others_within (mine R L rule comment) is_ours (exact-mine R L rule comment)
                (R.table filter s))
          (λ p. firewall_place-eq-ok v p looked ∙ ap place_for (sym kept))
          (add-Added R L filter is_ours (attrs R L rule comment place)
            (comment_sent R L rule comment place) (eq_refl comment) w h₂)
      where
        finish :
            (place : Sentence) (w : R.State)
            → select is_ours (R.table filter w) ≡ []
            → (rule.place_before ≡ true → place ≡ place_for (R.table filter w))
            → Added R (attrs R L rule comment place) (R.table filter w) (R.table filter t)
            → IsDone (R.table filter t)
        finish place w empty asked a = (
          a.entry,
          Added-select R L filter is_ours (attrs R L rule comment place)
              (comment_sent R L rule comment place) (eq_refl comment) a empty,
          Added-IsRule R rule comment place fits a,
          λ p. Added-IsAhead place w t a (asked p),
        )

    -- On a device that obeys the laws of RouterOs.Defs, for a rule whose chain has a name and
    -- whose attributes the device stores as they are sent: if `EnsureFirewallRule` succeeds, the
    -- filter table holds exactly one entry with the comment, its chain and action and every
    -- further attribute that the rule sets are those of the rule, and if the rule asks for a place
    -- at the front, no entry of its chain stands before it that the operator does not manage.
    pub ensure_firewall_rule_lem :
        (s : R.State) {t : R.State} {u : Unit {0}}
        → ensure_firewall_rule R rule comment s ≡ (ok u, t)
        → IsDone (R.table filter t)
    unfolding ensure_firewall_rule text
    ensure_firewall_rule_lem s {t} {u} h =
        let (es, v, printed, h₁) =
          >>=-eq-ok (managed_entries R (print_cmd filter) is_ours filter_properties) _ h in
        let (b, w, judged, h₂) = >>=-eq-ok (firewall_settled R rule es) _ h₁ in
        let saw : es ≡ map seen (select is_ours (R.table filter v)) =
          managed_entries-eq-ok R L filter is_ours filter_properties s refl printed
          ∙ ap (λ l. map seen (select is_ours l))
              (sym (shown-Same R L filter is_ours filter_properties s printed filter)) in
        decide b v w (subst (λ l. firewall_settled R rule l v ≡ (ok b, w)) saw judged)
          (after_ok R filter judged ∙ settled-Same R L rule es v filter) h₂
      where
        decide :
            (b : Bool) (v w : R.State)
            → firewall_settled R rule (map seen (select is_ours (R.table filter v))) v ≡ (ok b, w)
            → R.table filter w ≡ R.table filter v
            → (if b then return tt else rebuild R L rule comment) w ≡ (ok u, t)
            → IsDone (R.table filter t)
        decide true v w judged same h =
            subst IsDone (sym (after_ok R filter h ∙ same)) (settled-IsDone _ v refl judged)
        decide false v w judged same h = rebuild-IsDone w h
