-- ===== src/Endpoints/Order.antt =====
-- The order of Go's strings, and `sort.Strings`.
use mikrotik_operator.Base.{
  Text, List, [], ◌∷◌, All, nat_eq, list_eq, true, false, ◌≡◌, ◌⊎◌, inl, inr, refl, sym, subst,
  arith, Bool-cases, All-map,
}
use mikrotik_operator.Endpoints.Owners.{text_leb, insert, sort_strings, first_text}

pub text_leb_refl : (s : Text) → text_leb s s ≡ true
unfolding text_leb
text_leb_refl [] = refl
text_leb_refl (c ∷ s) = ground (arith, text_leb_refl s)

pub text_leb_antisym : (s t : Text) → text_leb s t ≡ true → text_leb t s ≡ true → s ≡ t
unfolding text_leb
text_leb_antisym [] [] h k = refl
text_leb_antisym [] (d ∷ t) h k = cc
text_leb_antisym (c ∷ s) [] h k = cc
text_leb_antisym (c ∷ s) (d ∷ t) h k = ground (arith, text_leb_antisym s t)

pub text_leb_trans :
    (s t u : Text) → text_leb s t ≡ true → text_leb t u ≡ true → text_leb s u ≡ true
unfolding text_leb
text_leb_trans [] t u h k = refl
text_leb_trans (c ∷ s) [] u h k = cc
text_leb_trans (c ∷ s) (d ∷ t) [] h k = cc
text_leb_trans (c ∷ s) (d ∷ t) (e ∷ u) h k = ground (arith, text_leb_trans s t u)

pub text_leb_total : (s t : Text) → text_leb s t ≡ false → text_leb t s ≡ true
unfolding text_leb
text_leb_total [] t h = cc
text_leb_total (c ∷ s) [] h = refl
text_leb_total (c ∷ s) (d ∷ t) h = ground (arith, text_leb_total s t)

abbrev Below : Text → List Text → Type 0
Below s = All (λ t. text_leb s t ≡ true)

-- The least of a text and the first of a list.
first-insert :
    (s t : Text) (ts : List Text)
    → (first_text (insert s (t ∷ ts)) ≡ s) × (text_leb s t ≡ true)
      ⊎ (first_text (insert s (t ∷ ts)) ≡ t) × (text_leb t s ≡ true)
unfolding insert first_text
first-insert s t ts = elim (Bool-cases (text_leb s t)) [
  | inl e ↦ inl (rw e refl, e)
  | inr e ↦ inr (rw e refl, text_leb_total s t e)
]

insert-cons : (s : Text) (ts : List Text) → (u : Text) × (us : List Text) × (insert s ts ≡ u ∷ us)
unfolding insert
insert-cons s [] = (s, [], refl)
insert-cons s (t ∷ ts) = elim (Bool-cases (text_leb s t)) [
  | inl e ↦ (s, t ∷ ts, rw e refl)
  | inr e ↦ (t, insert s ts, rw e refl)
]

pub sort_strings-first :
    (s : Text) (ss : List Text)
    → All (λ t. text_leb (first_text (sort_strings (s ∷ ss))) t ≡ true) (s ∷ ss)
unfolding sort_strings insert first_text
sort_strings-first s [] = (text_leb_refl s, tt)
sort_strings-first s (t ∷ ts) =
    let (u, us, at) = insert-cons t (sort_strings ts) in
    let least : All (λ x. text_leb u x ≡ true) (t ∷ ts) =
      subst (λ l. All (λ x. text_leb (first_text l) x ≡ true) (t ∷ ts)) at
        (sort_strings-first t ts) in
    subst (λ l. All (λ x. text_leb (first_text (insert s l)) x ≡ true) (s ∷ t ∷ ts)) (sym at)
      (elim (first-insert s u us) [
        | inl (e, h) ↦
            subst (λ v. All (λ x. text_leb v x ≡ true) (s ∷ t ∷ ts)) (sym e)
              (text_leb_refl s, All-map _ _ (t ∷ ts) (λ x. text_leb_trans s u x h) least)
        | inr (e, h) ↦ subst (λ v. All (λ x. text_leb v x ≡ true) (s ∷ t ∷ ts)) (sym e) (h, least)
      ])
