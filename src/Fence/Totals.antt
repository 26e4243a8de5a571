-- ===== src/Fence/Totals.antt =====
-- Sums over the callers.
use mikrotik_operator.Base.{
  ℕ, zero, suc, ◌+◌, ◌≤◌, ◌<◌, nat_eq, ltb, ◌≡◌, ◌≢◌, ◌⊎◌, inl, inr, refl, arith, Bool-cases,
}
use mikrotik_operator.Fence.Registry.{update, update_at, update_off}

unfoldable pub total {ℓ} : {A : Type ℓ} → (A → ℕ) → ℕ → (ℕ → A) → ℕ
total w zero f = 0
total w (suc n) f = w (f n) + total w n f

total-update_above {ℓ} :
    {A : Type ℓ} (w : A → ℕ) (n : ℕ) (f : ℕ → A) (i : ℕ) (a : A)
    → n ≤ i
    → total w n (update f i a) ≡ total w n f
unfolding total
total-update_above w zero f i a h = refl
total-update_above w (suc n) f i a h = ground (arith, total-update_above w n f i a)

last-or-before : (i n : ℕ) → i < suc n → (i ≡ n) ⊎ (i < n)
last-or-before i n h = omega arith

pub total-update {ℓ} :
    {A : Type ℓ} (w : A → ℕ) (n : ℕ) (f : ℕ → A) (i : ℕ) (a : A)
    → i < n
    → total w n (update f i a) + w (f i) ≡ total w n f + w a
unfolding total
total-update w zero f i a h = elim h [ ]
total-update w (suc n) f i a h = elim (last-or-before i n h) [
  | inl q ↦ grind (arith, q, update_at f i a, total-update_above w n f i a)
  | inr l ↦ grind (arith, update_off f i a n, total-update w n f i a l)
]

pub le-total {ℓ} :
    {A : Type ℓ} (w : A → ℕ) (n : ℕ) (f : ℕ → A) (i : ℕ) → i < n → w (f i) ≤ total w n f
unfolding total
le-total w zero f i h = elim h [ ]
le-total w (suc n) f i h = elim (last-or-before i n h) [
  | inl q ↦ grind (arith, q)
  | inr l ↦ omega (arith, le-total w n f i l)
]

pub two-le-total {ℓ} :
    {A : Type ℓ} (w : A → ℕ) (n : ℕ) (f : ℕ → A) (i j : ℕ)
    → i < n
    → j < n
    → i ≢ j
    → w (f i) + w (f j) ≤ total w n f
unfolding total
two-le-total w zero f i j h k d = elim h [ ]
two-le-total w (suc n) f i j h k d = elim (last-or-before i n h) [
  | inl q ↦ let below = le-total w n f j (omega (arith, d)) in grind (arith, q)
  | inr l ↦ elim (last-or-before j n k) [
    | inl q ↦ let below = le-total w n f i l in grind (arith, q)
    | inr m ↦ omega (arith, two-le-total w n f i j l m d)
  ]
]

pub total-zero {ℓ} :
    {A : Type ℓ} (w : A → ℕ) (n : ℕ) (f : ℕ → A) → ((i : ℕ) → i < n → w (f i) ≡ 0) → total w n f ≡ 0
unfolding total
total-zero w zero f h = refl
total-zero w (suc n) f h = omega (arith, h n, total-zero w n f (λ i l. h i (omega arith)))

pub total-le {ℓ} :
    {A : Type ℓ} (v w : A → ℕ) (n : ℕ) (f : ℕ → A)
    → ((a : A) → v a ≤ w a)
    → total v n f ≤ total w n f
unfolding total
total-le v w zero f h = omega arith
total-le v w (suc n) f h = omega (arith, h (f n), total-le v w n f h)

-- A sum that is not 0 has a summand that is not.
pub some-total {ℓ} :
    {A : Type ℓ} (w : A → ℕ) (n : ℕ) (f : ℕ → A)
    → 0 < total w n f
    → (i : ℕ) × (i < n) × (0 < w (f i))
unfolding total
some-total w zero f h = absurd (omega arith)
some-total w (suc n) f h = elim (Bool-cases (ltb 0 (w (f n)))) [
  | inl e ↦ (n, omega arith, ground arith)
  | inr e ↦ let (i, l, p) = some-total w n f (ground arith) in (i, omega arith, p)
]
