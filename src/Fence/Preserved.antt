-- ===== src/Fence/Preserved.antt =====
-- Each step of a caller against the invariant.
use mikrotik_operator.Base.{
  ℕ, ◌+◌, ◌-◌, ◌<◌, Eq, ◌==◌, nat_eq, true, Option, some, none, ◌≡◌, ◌≢◌, arith, ap, ◌∙◌, sym,
  subst, inl, inr, eq_iff, eq_refl, Option-cases, Bool-cases, ◌⊎◌,
}
use mikrotik_operator.Fence.Registry.{
  update, update_at, update_off, update-cases, RouterFenceRegistry, RouterFenceEntry, refer,
  begin_acquire, release_reference, add_ref,
}
use mikrotik_operator.Fence.Threads.{Pc, idle, waiting}
use mikrotik_operator.Fence.Totals.{total, total-update, two-le-total}
use mikrotik_operator.Fence.Invariant.{
  at, one_if, uses_of, uses, holds, Inv, uses-one, unused-uses, unused-holds, relinked, bound,
}

same_pair :
    {K : Type 0} {a b : K} {p q : ℕ}
    → ◌≡◌ {A = Option (K × ℕ)} (some (a, p)) (some (b, q))
    → (a ≡ b) × (p ≡ q)
same_pair h = (cc, cc)

pub one_if-same : (p q : ℕ) → p ≡ q → one_if (p == q) ≡ 1
one_if-same p q h = rw h (ap one_if (eq_refl q))

pub one_if-other : (p q : ℕ) → p ≢ q → one_if (p == q) ≡ 0
one_if-other p q h = ground (arith, eq_iff p q)

module _ {K : Type 0} ⦃e : Eq K⦄ {n : ℕ} {r : RouterFenceRegistry K} {pc : ℕ → Pc K}
    (inv : Inv n r pc) (i : ℕ) (l : i < n) where
  module _ (key : K) (out : pc i ≡ idle) where
    entered_old :
        (p : ℕ)
        → r.entries key ≡ some p
        → Inv n (refer r key (some p)).1 (update pc i (waiting key (refer r key (some p)).0))
    entered_old p old = record {
      linked =
          relinked inv i (waiting key p) r.entries
            (λ k q a. let (s, t) = same_pair a in ap r.entries (sym s) ∙ old ∙ ap some t)
            (λ j k q m d a. inv.linked j k q m a);
      fresh = inv.fresh;
      owned = inv.owned;
      lively = λ k q a. elim (update-cases r.heap p (add_ref (r.heap p)) q) [
        | inl (w, u) ↦ rw u (omega arith)
        | inr (w, u) ↦ rw u (inv.lively k q a)
      ];
      counted = λ q m.
          let same = total-update (uses q) n pc i (waiting key p) l in
          elim (update-cases r.heap p (add_ref (r.heap p)) q) [
            | inl (w, u) ↦ rw u (
                omega (
                  arith,
                  inv.counted q m,
                  ap (λ x. (r.heap x).refs) w,
                  same,
                  ap (uses q) out,
                  one_if-same p q w,
                ))
            | inr (w, u) ↦
                rw u (omega (arith, inv.counted q m, same, ap (uses q) out, one_if-other p q w))
          ];
      tokens = λ q m.
          let same = total-update (holds q) n pc i (waiting key p) l in
          elim (update-cases r.heap p (add_ref (r.heap p)) q) [
            | inl (w, u) ↦ rw u (
                omega (
                  arith,
                  inv.tokens q m,
                  ap (λ x. one_if (r.heap x).token) w,
                  same,
                  ap (holds q) out,
                ))
            | inr (w, u) ↦ rw u (omega (arith, inv.tokens q m, same, ap (holds q) out))
          ];
    }

    entered_new :
        r.entries key ≡ none
        → Inv n (refer r key none).1 (update pc i (waiting key (refer r key none).0))
    entered_new new = record {
      linked =
          relinked inv i (waiting key r.next) (update r.entries key (some r.next))
            (λ k q a.
              let (s, t) = same_pair a in rw (← s, ← t) (update_at r.entries key (some r.next)))
            (λ j k q m d a.
              rw (update_off r.entries key (some r.next) k (λ s. cc (inv.linked j k q m a)))
                (inv.linked j k q m a));
      fresh = λ k q a. elim (entry k q a) [
        | inl (s, t) ↦ omega arith
        | inr a ↦ omega (arith, inv.fresh k q a)
      ];
      owned = λ k j q a b. elim (entry k q a) [
        | inl (s, t) ↦ elim (entry j q b) [
          | inl (s', t') ↦ sym s ∙ s'
          | inr b ↦ absurd (omega (arith, inv.fresh j q b))
        ]
        | inr a ↦ elim (entry j q b) [
          | inl (s', t') ↦ absurd (omega (arith, inv.fresh k q a))
          | inr b ↦ inv.owned k j q a b
        ]
      ];
      lively = λ k q a. elim (update-cases r.heap r.next (record { token = true; refs = 1 }) q) [
        | inl (w, u) ↦ rw u (omega arith)
        | inr (w, u) ↦
            rw u (elim (entry k q a) [ inl (s, t) ↦ absurd (w t) | inr a ↦ inv.lively k q a ])
      ];
      counted = λ q m.
          let same = total-update (uses q) n pc i (waiting key r.next) l in
          elim (update-cases r.heap r.next (record { token = true; refs = 1 }) q) [
            | inl (w, u) ↦ rw u (
                omega (
                  arith,
                  unused-uses inv,
                  ap (λ x. total (uses x) n pc) w,
                  same,
                  ap (uses q) out,
                  one_if-same r.next q w,
                ))
            | inr (w, u) ↦ rw u (
                omega (
                  arith,
                  inv.counted q (omega arith),
                  same,
                  ap (uses q) out,
                  one_if-other r.next q w,
                ))
          ];
      tokens = λ q m.
          let same = total-update (holds q) n pc i (waiting key r.next) l in
          elim (update-cases r.heap r.next (record { token = true; refs = 1 }) q) [
            | inl (w, u) ↦ rw u (
                omega (
                  arith,
                  unused-holds inv,
                  ap (λ x. total (holds x) n pc) w,
                  same,
                  ap (holds q) out,
                ))
            | inr (w, u) ↦ rw u (omega (arith, inv.tokens q (omega arith), same, ap (holds q) out))
          ];
    }
      where
        entry :
            (k : K) (q : ℕ)
            → update r.entries key (some r.next) k ≡ some q
            → ((key ≡ k) × (r.next ≡ q)) ⊎ (r.entries k ≡ some q)
        entry k q a = elim (update-cases r.entries key (some r.next) k) [
          | inl (w, u) ↦ inl (w, cc)
          | inr (w, u) ↦ inr (sym u ∙ a)
        ]

    pub begin_acquire-Inv :
        Inv n (begin_acquire r key).1 (update pc i (waiting key (begin_acquire r key).0))
    unfolding begin_acquire
    begin_acquire-Inv = elim (Option-cases (r.entries key)) [
      | inl new ↦
          subst (λ o. Inv n (refer r key o).1 (update pc i (waiting key (refer r key o).0)))
            (sym new) (entered_new new)
      | inr (p, old) ↦
          subst (λ o. Inv n (refer r key o).1 (update pc i (waiting key (refer r key o).0)))
            (sym old) (entered_old p old)
    ]

  module _ (key : K) (p : ℕ) (mine : at (pc i) ≡ some (key, p))
      (without : (q : ℕ) → holds q (pc i) ≡ 0) where
    abbrev less : RouterFenceEntry
    less = record { token = (r.heap p).token; refs = (r.heap p).refs - 1 }

    less-counted :
        (q : ℕ) → q < r.next → (update r.heap p less q).refs ≡ total (uses q) n (update pc i idle)
    less-counted q m =
        let same = total-update (uses q) n pc i idle l in
        elim (update-cases r.heap p less q) [
          | inl (w, u) ↦ rw u (
              omega (
                arith,
                inv.counted q m,
                ap (λ x. (r.heap x).refs) w,
                same,
                ap (uses_of q) mine,
                one_if-same p q w,
              ))
          | inr (w, u) ↦
              rw u (omega (arith, inv.counted q m, same, ap (uses_of q) mine, one_if-other p q w))
        ]

    less-tokens :
        (q : ℕ)
        → q < r.next
        → one_if (update r.heap p less q).token + total (holds q) n (update pc i idle) ≡ 1
    less-tokens q m =
        let same = total-update (holds q) n pc i idle l in
        elim (update-cases r.heap p less q) [
          | inl (w, u) ↦
              rw u (
                omega (arith, inv.tokens q m, ap (λ x. one_if (r.heap x).token) w, same, without q))
          | inr (w, u) ↦ rw u (omega (arith, inv.tokens q m, same, without q))
        ]

    kept :
        0 < (r.heap p).refs - 1
        → Inv n
            (record { entries = r.entries; heap = update r.heap p less; next = r.next })
            (update pc i idle)
    kept more = record {
      linked = relinked inv i idle r.entries (λ k q a. cc) (λ j k q m d a. inv.linked j k q m a);
      fresh = inv.fresh;
      owned = inv.owned;
      lively = λ k q a. elim (update-cases r.heap p less q) [
        | inl (w, u) ↦ rw u more
        | inr (w, u) ↦ rw u (inv.lively k q a)
      ];
      counted = less-counted;
      tokens = less-tokens;
    }

    dropped :
        (r.heap p).refs - 1 ≡ 0
        → Inv n
            (record {
              entries = update r.entries key none;
              heap = update r.heap p less;
              next = r.next;
            })
            (update pc i idle)
    dropped last = record {
      linked =
          relinked inv i idle (update r.entries key none) (λ k q a. cc)
            (λ j k q m d a.
              rw (update_off r.entries key none k (alone j k q m d a)) (inv.linked j k q m a));
      fresh = λ k q a. inv.fresh k q (entry k q a).1;
      owned = λ k j q a b. inv.owned k j q (entry k q a).1 (entry j q b).1;
      lively = λ k q a. elim (update-cases r.heap p less q) [
        | inl (w, u) ↦ absurd (
            (entry k q a).0
              (inv.owned key k q (inv.linked i key p l mine ∙ ap some w) (entry k q a).1))
        | inr (w, u) ↦ rw u (inv.lively k q (entry k q a).1)
      ];
      counted = less-counted;
      tokens = less-tokens;
    }
      where
        entry :
            (k : K) (q : ℕ)
            → update r.entries key none k ≡ some q
            → (key ≢ k) × (r.entries k ≡ some q)
        entry k q a = elim (update-cases r.entries key none k) [
          | inl (w, u) ↦ cc
          | inr (w, u) ↦ (w, sym u ∙ a)
        ]

        alone : (j : ℕ) (k : K) (q : ℕ) → j < n → i ≢ j → at (pc j) ≡ some (k, q) → key ≢ k
        alone j k q m d a s =
            let same : p ≡ q = cc (inv.linked i key p l mine, inv.linked j k q m a) in
            omega (
              arith,
              two-le-total (uses p) n pc i j l m d,
              uses-one (pc i) key p mine,
              uses-one (pc j) k p (a ∙ ap (λ x. some (k, x)) (sym same)),
              inv.counted p (bound inv i l key p mine),
            )

    pub release_reference-Inv : Inv n (release_reference r key p) (update pc i idle)
    unfolding release_reference
    release_reference-Inv = elim (Bool-cases ((r.heap p).refs - 1 == 0)) [
      | inl last ↦ rw (last, inv.linked i key p l mine, eq_refl p) (dropped ((eq_iff _ 0).0 last))
      | inr more ↦ rw more (kept (ground (arith, eq_iff ((r.heap p).refs - 1) 0)))
    ]
