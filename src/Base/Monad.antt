-- ===== src/Base/Monad.antt =====
-- Code that talks to a device or a store: a state is passed along, and a call may fail.
use mathlib.Core.Path.{◌≡◌, refl, ap}
use mathlib.Core.Logic.{◌⊎◌, inl, inr}
use mikrotik_operator.Base.Texts.{Text}

-- An error is its message.
pub data Result {ℓ} (A : Type ℓ) : Type ℓ where
  ok : A → Result A
  err : Text → Result A

abbrev pub M {ℓ κ} : Type ℓ → Type κ → Type (ℓ ⊔ κ)
M S A = S → Result A × S

module _ {ℓ κ μ} {S : Type ℓ} {A : Type κ} {B : Type μ} where
  abbrev pub next : Result A × S → (A → M S B) → Result B × S
  next (ok a, s) f = f a s
  next (err e, s) f = (err e, s)

  infixl 5 ◌>>=◌
  abbrev pub ◌>>=◌ : M S A → (A → M S B) → M S B
  ◌>>=◌ m f s = next (m s) f

module _ {ℓ μ} {S : Type ℓ} {B : Type μ} where
  infixl 5 ◌>>◌
  abbrev pub ◌>>◌ : M S (Unit {0}) → M S B → M S B
  m >> k = m >>= λ _. k

module _ {ℓ κ} {S : Type ℓ} {A : Type κ} where
  abbrev pub return : A → M S A
  return a s = (ok a, s)

  abbrev pub fail : Text → M S A
  fail e s = (err e, s)

-- A relation between the states before and after that holds whatever the outcome.
module _ {ℓ μ} {S : Type ℓ} (R : S → S → Type μ) where
  abbrev pub Respects {κ} : {A : Type κ} → M S A → Type (ℓ ⊔ μ)
  Respects m = (s : S) → R s (m s).1

module _ {ℓ κ μ ν} {S : Type ℓ} {A : Type κ} {B : Type ν} (R : S → S → Type μ)
    (trans : (s t u : S) → R s t → R t u → R s u) where
  next-Respects :
      (s : S) (p : Result A × S) (f : A → M S B)
      → R s p.1
      → ((a : A) → Respects R (f a))
      → R s (next p f).1
  next-Respects s (ok a, t) f h k = trans s t _ h (k a t)
  next-Respects s (err e, t) f h k = h

  pub >>=-Respects :
      (m : M S A) (f : A → M S B)
      → Respects R m
      → ((a : A) → Respects R (f a))
      → Respects R (m >>= f)
  >>=-Respects m f h k s = next-Respects s (m s) f (h s) k

module _ {ℓ κ ν} {S : Type ℓ} {A : Type κ} {B : Type ν} where
  next-eq-ok :
      (p : Result A × S) (f : A → M S B) {b : B} {u : S}
      → next p f ≡ (ok b, u)
      → (a : A) × (t : S) × (p ≡ (ok a, t)) × (f a t ≡ (ok b, u))
  next-eq-ok (ok a, t) f h = (a, t, refl, h)
  next-eq-ok (err e, t) f h = cc (ap (λ q. q.0) h)

  -- Inversion of a sequence that succeeds.
  pub >>=-eq-ok :
      (m : M S A) (f : A → M S B) {s : S} {b : B} {u : S}
      → (m >>= f) s ≡ (ok b, u)
      → (a : A) × (t : S) × (m s ≡ (ok a, t)) × (f a t ≡ (ok b, u))
  >>=-eq-ok m f {s} h = next-eq-ok (m s) f h

-- What holds after the first part and is kept by the second holds after both.
module _ {ℓ κ ν μ} {S : Type ℓ} {A : Type κ} {B : Type ν} (P : S → Type μ) where
  next-after :
      (p : Result A × S) (f : A → M S B)
      → P p.1
      → ((a : A) (t : S) → p ≡ (ok a, t) → P (f a t).1)
      → P (next p f).1
  next-after (ok a, t) f h k = k a t refl
  next-after (err e, t) f h k = h

  pub >>=-after :
      (m : M S A) (f : A → M S B) (s : S)
      → P (m s).1
      → ((a : A) (t : S) → m s ≡ (ok a, t) → P (f a t).1)
      → P ((m >>= f) s).1
  >>=-after m f s h k = next-after (m s) f h k

pub result_injective {ℓ} : {A : Type ℓ} {a b : A} → ok a ≡ ok b → a ≡ b
result_injective h = cc

-- To split on a computed result and keep the equation.
pub Result-cases {ℓ} :
    {A : Type ℓ} (r : Result A) → ((a : A) × (r ≡ ok a)) ⊎ ((e : Text) × (r ≡ err e))
Result-cases (ok a) = inl (a, refl)
Result-cases (err e) = inr (e, refl)
