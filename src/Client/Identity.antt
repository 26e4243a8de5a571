-- ===== src/Client/Identity.antt =====
-- internal/routeros/client.go: `ManagedComment` and `managedCommentPrefixMatches`.
use mikrotik_operator.Base.{
  Text, text, [], ◌∷◌, ◌++◌, append_assoc, append-nil, contains, join, has_prefix_rest,
  append_cancel, ◌==◌, nat_eq, list_eq, true, false, ◌≡◌, ◌⊎◌, inl, inr, refl, ◌∙◌, sym, ap, arith,
  eq_iff, Bool-cases,
}
use mikrotik_operator.Client.Entries.{managed_comment, managed_comment_prefix_matches}

-- A part of a comment: it holds no slash.
abbrev pub IsPlain : Text → Type 0
IsPlain s = contains b'/' s ≡ false

-- What may follow a comment in the comments under it.
abbrev Tail : Text → Type 0
Tail r = (r ≡ []) ⊎ ((t : Text) × (r ≡ b'/' ∷ t))

first_part :
    (s t u v : Text) → IsPlain s → IsPlain t → s ++ (b'/' ∷ u) ≡ t ++ (b'/' ∷ v) → (s ≡ t) × (u ≡ v)
first_part [] [] u v h k e = ground arith
first_part [] (d ∷ t) u v h k e = ground arith
first_part (c ∷ s) [] u v h k e = ground arith
first_part (c ∷ s) (d ∷ t) u v h k e = ground (arith, first_part s t u v)

last_part : (s t r q : Text) → IsPlain s → IsPlain t → Tail r → Tail q → s ++ r ≡ t ++ q → s ≡ t
last_part [] [] r q h k m n e = refl
last_part [] (d ∷ t) r q h k (inl m) n e = ground arith
last_part [] (d ∷ t) r q h k (inr (x, m)) n e = ground arith
last_part (c ∷ s) [] r q h k m (inl n) e = ground arith
last_part (c ∷ s) [] r q h k m (inr (x, n)) e = ground arith
last_part (c ∷ s) (d ∷ t) r q h k m n e =
    let same : s ≡ t = last_part s t r q (ground arith) (ground arith) m n (ground arith) in
    ground arith

-- A comment under another is that comment with a tail.
matches-Tail :
    (value prefix : Text)
    → managed_comment_prefix_matches value prefix ≡ true
    → (r : Text) × Tail r × (value ≡ prefix ++ r)
unfolding managed_comment_prefix_matches text
matches-Tail value prefix h = elim (Bool-cases (value == prefix)) [
  | inl e ↦ ([], inl refl, (eq_iff value prefix).0 e ∙ sym (append-nil prefix))
  | inr e ↦
      let (t, at) = has_prefix_rest value (prefix ++ (b'/' ∷ [])) (ground arith) in
      (b'/' ∷ t, inr (t, refl), at ∙ append_assoc prefix (b'/' ∷ []) t)
]

comment_with :
    (kind name namespace r : Text)
    → managed_comment kind name namespace ++ r
      ≡ text "managed-by=mikrotik-operator"
        ++ (b'/' ∷ (kind ++ (b'/' ∷ (namespace ++ (b'/' ∷ (name ++ r))))))
unfolding managed_comment join text
comment_with kind name namespace r =
    ap (λ t. text "managed-by=mikrotik-operator/" ++ t)
      (append_assoc kind (b'/' ∷ (namespace ++ (b'/' ∷ name))) r
        ∙ ap (λ t. kind ++ (b'/' ∷ t)) (append_assoc namespace (b'/' ∷ name) r))

-- If kinds, namespaces and names hold no slash, no comment is under the comments of two resources
-- by `managedCommentPrefixMatches`: where it is, their kinds, namespaces and names are equal.
pub managed_comment_identifies :
    (value kind name namespace kind_b name_b namespace_b : Text)
    → IsPlain kind
    → IsPlain namespace
    → IsPlain name
    → IsPlain kind_b
    → IsPlain namespace_b
    → IsPlain name_b
    → managed_comment_prefix_matches value (managed_comment kind name namespace) ≡ true
    → managed_comment_prefix_matches value (managed_comment kind_b name_b namespace_b) ≡ true
    → (kind ≡ kind_b) × (namespace ≡ namespace_b) × (name ≡ name_b)
managed_comment_identifies value kind name namespace kind_b name_b namespace_b a b c x y z h k =
    let (r, m, at) = matches-Tail value _ h in
    let (q, n, at_b) = matches-Tail value _ k in
    let whole = append_cancel (text "managed-by=mikrotik-operator") _ _ (
      sym (comment_with kind name namespace r)
      ∙ (sym at ∙ (at_b ∙ comment_with kind_b name_b namespace_b q))) in
    let (kinds, rest) = first_part kind kind_b _ _ a x (ap after_first whole) in
    let (namespaces, names) = first_part namespace namespace_b _ _ b y rest in
    (kinds, namespaces, last_part name name_b r q c z m n names)
  where
    after_first : Text → Text
    after_first [] = []
    after_first (d ∷ s) = s
