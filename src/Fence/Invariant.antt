-- ===== src/Fence/Invariant.antt =====
-- What holds of the registry and of its callers between any two steps.
use mikrotik_operator.Base.{
  ℕ, ◌+◌, ◌≤◌, ◌<◌, Eq, ◌==◌, nat_eq, Bool, true, false, Option, some, none, ◌≡◌, ◌≢◌, refl, arith,
  ap, ◌∙◌, sym, inl, inr, eq_iff, eq_refl,
}
use mikrotik_operator.Fence.Registry.{update, update-cases, RouterFenceRegistry, set_token}
use mikrotik_operator.Fence.Threads.{Pc, idle, waiting, holding, leaving}
use mikrotik_operator.Fence.Totals.{total, total-update, total-zero, total-le}

-- The key and the entry that a caller has in hand.
abbrev pub at : {K : Type 0} → Pc K → Option (K × ℕ)
at idle = none
at (waiting k p) = some (k, p)
at (holding k p) = some (k, p)
at (leaving k p) = some (k, p)

abbrev pub one_if : Bool → ℕ
one_if true = 1
one_if false = 0

abbrev pub uses_of : {K : Type 0} → ℕ → Option (K × ℕ) → ℕ
uses_of p none = 0
uses_of p (some (k, q)) = one_if (q == p)

abbrev pub uses : {K : Type 0} → ℕ → Pc K → ℕ
uses p c = uses_of p (at c)

abbrev pub holds : {K : Type 0} → ℕ → Pc K → ℕ
holds p idle = 0
holds p (waiting k q) = 0
holds p (holding k q) = one_if (q == p)
holds p (leaving k q) = 0

pub record Inv {K : Type 0} (n : ℕ) (r : RouterFenceRegistry K) (pc : ℕ → Pc K) : Type 0 where
  pub linked : (i : ℕ) (k : K) (p : ℕ) → i < n → at (pc i) ≡ some (k, p) → r.entries k ≡ some p
  pub fresh : (k : K) (p : ℕ) → r.entries k ≡ some p → p < r.next
  pub owned : (k l : K) (p : ℕ) → r.entries k ≡ some p → r.entries l ≡ some p → k ≡ l
  pub lively : (k : K) (p : ℕ) → r.entries k ≡ some p → 0 < (r.heap p).refs
  pub counted : (p : ℕ) → p < r.next → (r.heap p).refs ≡ total (uses p) n pc
  pub tokens : (p : ℕ) → p < r.next → one_if (r.heap p).token + total (holds p) n pc ≡ 1

holds-uses : {K : Type 0} (p : ℕ) (c : Pc K) → holds p c ≤ uses p c
holds-uses p idle = omega arith
holds-uses p (waiting k q) = omega arith
holds-uses p (holding k q) = omega arith
holds-uses p (leaving k q) = omega arith

uses_of-zero :
    {K : Type 0} (p : ℕ) (o : Option (K × ℕ))
    → ((k : K) (q : ℕ) → o ≡ some (k, q) → q ≢ p)
    → uses_of p o ≡ 0
uses_of-zero p none h = refl
uses_of-zero p (some (k, q)) h = ground (arith, eq_iff q p, h k q refl)

pub uses-one : {K : Type 0} (c : Pc K) (k : K) (p : ℕ) → at c ≡ some (k, p) → uses p c ≡ 1
uses-one c k p h = rw h (ap one_if (eq_refl p))

module _ {K : Type 0} ⦃e : Eq K⦄ {n : ℕ} {r : RouterFenceRegistry K} {pc : ℕ → Pc K}
    (inv : Inv n r pc) where
  pub unused-uses : total (uses r.next) n pc ≡ 0
  unused-uses = total-zero (uses r.next) n pc (λ j l.
      uses_of-zero r.next (at (pc j))
        (λ k q a. omega (arith, inv.fresh k q (inv.linked j k q l a))))

  pub unused-holds : total (holds r.next) n pc ≡ 0
  unused-holds =
      omega (arith, unused-uses, total-le (holds r.next) (uses r.next) n pc (holds-uses r.next))

  -- A caller that changes its place leaves the others' links, if the entries they use are kept.
  pub relinked :
      (i : ℕ) (c : Pc K) (entries : K → Option ℕ)
      → ((k : K) (p : ℕ) → at c ≡ some (k, p) → entries k ≡ some p)
      → ((j : ℕ) (k : K) (p : ℕ) → j < n → i ≢ j → at (pc j) ≡ some (k, p) → entries k ≡ some p)
      → (j : ℕ) (k : K) (p : ℕ) → j < n
      → at (update pc i c j) ≡ some (k, p)
      → entries k ≡ some p
  relinked i c entries own others j k p l a = elim (update-cases pc i c j) [
    | inl (q, u) ↦ own k p (ap at (sym u) ∙ a)
    | inr (q, u) ↦ others j k p l q (ap at (sym u) ∙ a)
  ]

  -- The token of an entry changes hands.
  module _ (i : ℕ) (l : i < n) (key : K) (p : ℕ) (mine : at (pc i) ≡ some (key, p)) where
    pub bound : p < r.next
    bound = inv.fresh key p (inv.linked i key p l mine)

    pub set_token-Inv :
        (b : Bool) (c : Pc K)
        → at c ≡ some (key, p)
        → ((q : ℕ) → q ≢ p → holds q c ≡ holds q (pc i))
        → one_if b + holds p c ≡ one_if (r.heap p).token + holds p (pc i)
        → Inv n (set_token r p b) (update pc i c)
    unfolding set_token
    set_token-Inv b c stays others moved = record {
      linked =
          relinked i c r.entries (λ k q a. inv.linked i k q l (mine ∙ sym stays ∙ a))
            (λ j k q m d a. inv.linked j k q m a);
      fresh = inv.fresh;
      owned = inv.owned;
      lively = λ k q a. rw (kept q) (inv.lively k q a);
      counted = λ q m. rw (kept q) (
          omega (
            arith,
            inv.counted q m,
            total-update (uses q) n pc i c l,
            ap (uses_of q) (stays ∙ sym mine),
          ));
      tokens = λ q m.
          elim (update-cases r.heap p (record { token = b; refs = (r.heap p).refs }) q) [
            | inl (w, u) ↦
                rw (u, sym w)
                  (omega (arith, inv.tokens p bound, moved, total-update (holds p) n pc i c l))
            | inr (w, u) ↦ rw u (
                omega (
                  arith,
                  inv.tokens q m,
                  others q (λ x. w (sym x)),
                  total-update (holds q) n pc i c l,
                ))
          ];
    }
      where
        kept :
            (q : ℕ)
            → (update r.heap p (record { token = b; refs = (r.heap p).refs }) q).refs
              ≡ (r.heap q).refs
        kept q = elim (update-cases r.heap p (record { token = b; refs = (r.heap p).refs }) q) [
          | inl (w, u) ↦ rw (u, w)
          | inr (w, u) ↦ rw u
        ]
