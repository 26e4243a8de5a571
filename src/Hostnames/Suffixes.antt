-- ===== src/Hostnames/Suffixes.antt =====
-- Suffixes of one text.
use mathlib.Core.List.{reverse-append}
use mikrotik_operator.Base.{
  ◌≤◌, Text, [], ◌∷◌, length, length-append, reverse, has_prefix, nat_eq, list_eq, true, ◌≡◌, ◌⊎◌,
  inl, inr, refl, ◌∙◌, ap, arith,
}
use mikrotik_operator.Strings.{has_suffix}

has_prefix_trans :
    (s p q : Text) → has_prefix s p ≡ true → has_prefix p q ≡ true → has_prefix s q ≡ true
unfolding has_prefix
has_prefix_trans s p [] h k = refl
has_prefix_trans s [] (d ∷ q) h k = cc
has_prefix_trans [] (c ∷ p) (d ∷ q) h k = cc
has_prefix_trans (b ∷ s) (c ∷ p) (d ∷ q) h k = ground (arith, has_prefix_trans s p q)

has_prefix_total :
    (s p q : Text)
    → has_prefix s p ≡ true
    → has_prefix s q ≡ true
    → (has_prefix p q ≡ true) ⊎ (has_prefix q p ≡ true)
unfolding has_prefix
has_prefix_total s p [] h k = inl refl
has_prefix_total s [] (d ∷ q) h k = inr refl
has_prefix_total [] (c ∷ p) (d ∷ q) h k = cc
has_prefix_total (b ∷ s) (c ∷ p) (d ∷ q) h k =
    elim (has_prefix_total s p q (ground arith) (ground arith)) [
      | inl e ↦ inl (ground arith)
      | inr e ↦ inr (ground arith)
    ]

has_prefix-length : (s p : Text) → has_prefix s p ≡ true → length p ≤ length s
unfolding has_prefix
has_prefix-length s [] h = omega arith
has_prefix-length [] (d ∷ q) h = cc
has_prefix-length (c ∷ s) (d ∷ q) h = ground (arith, has_prefix-length s q)

length-reverse : (s : Text) → length (reverse s) ≡ length s
length-reverse [] = refl
length-reverse (c ∷ s) =
    ap length (reverse-append (c ∷ []) s)
    ∙ (length-append (reverse s) (c ∷ []) ∙ omega (arith, length-reverse s))

pub has_suffix_trans :
    (s p q : Text) → has_suffix s p ≡ true → has_suffix p q ≡ true → has_suffix s q ≡ true
unfolding has_suffix
has_suffix_trans s p q h k = has_prefix_trans (reverse s) (reverse p) (reverse q) h k

pub has_suffix_total :
    (s p q : Text)
    → has_suffix s p ≡ true
    → has_suffix s q ≡ true
    → (has_suffix p q ≡ true) ⊎ (has_suffix q p ≡ true)
unfolding has_suffix
has_suffix_total s p q h k = has_prefix_total (reverse s) (reverse p) (reverse q) h k

pub has_suffix-length : (s p : Text) → has_suffix s p ≡ true → length p ≤ length s
unfolding has_suffix
has_suffix-length s p h =
    omega (arith, has_prefix-length (reverse s) (reverse p) h, length-reverse s, length-reverse p)
