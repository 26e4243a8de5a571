-- ===== src/RouterOs/Memory/Steps.antt =====
-- The parts of the device in memory.
use mikrotik_operator.Base.{
  Text, text, List, [], ◌∷◌, ◌++◌, map, contains, ◌==◌, nat_eq, list_eq, Bool, true, false, Option,
  some, none, ◌≡◌, ◌≢◌, inl, inr, refl, ap, arith, Nodup, keep, append-nil, Bool-cases,
  Option-cases, eq_iff,
}
use mikrotik_operator.RouterOs.Defs.{
  Sentence, get, lookup, Menu, dns, print_cmd, remove_cmd, add_cmd, attributes, id_of,
}
use mikrotik_operator.RouterOs.Memory.{
  Tables, raw, put, distinct, sane, print_call, remove_call, add_call, which, sentence_of,
  cut_before, place,
}

pub which-print : (m : Menu) → which (print_cmd m) ≡ print_call m
unfolding which text
which-print dns = refl
which-print _ = refl

pub which-remove : (m : Menu) → which (remove_cmd m) ≡ remove_call m
unfolding which text
which-remove dns = refl
which-remove _ = refl

pub which-add : (m : Menu) → which (add_cmd m) ≡ add_call m
unfolding which text
which-add dns = refl
which-add _ = refl

pub raw-put : (m : Menu) (l : List Sentence) (s : Tables) → raw m (put m l s) ≡ l
unfolding raw put
raw-put dns l s = refl
raw-put _ l s = refl

pub raw-put_ne : (m n : Menu) (l : List Sentence) (s : Tables) → n ≢ m → raw n (put m l s) ≡ raw n s
unfolding raw put
raw-put_ne dns n l s h = ground arith
raw-put_ne m n l s h = ground arith

pub sentence_of-attributes : (attrs : Sentence) → sentence_of (attributes attrs) ≡ attrs
unfolding sentence_of
sentence_of-attributes [] = refl
sentence_of-attributes ((k, v) ∷ attrs) = ap (λ t. (k, v) ∷ t) (sentence_of-attributes attrs)

pub distinct-Nodup : (l : List Text) → distinct l ≡ true → Nodup l
unfolding distinct
distinct-Nodup [] h = tt
distinct-Nodup (x ∷ l) h = (ground arith, distinct-Nodup l (ground arith))

pub sane-Nodup : (l : List Sentence) → Nodup (map id_of (sane l))
unfolding sane
sane-Nodup l = elim (Bool-cases (distinct (map id_of l))) [
  | inl e ↦ rw e (distinct-Nodup _ e)
  | inr e ↦ rw e tt
]

pub sane-distinct : (l : List Sentence) → distinct (map id_of (sane l)) ≡ true
unfolding sane distinct
sane-distinct l = ground arith

pub contains-keep :
    (x : Text) (p : Sentence → Bool) (l : List Sentence)
    → contains x (map id_of l) ≡ false
    → contains x (map id_of (keep p l)) ≡ false
unfolding keep
contains-keep x p [] h = refl
contains-keep x p (e ∷ l) h = ground (arith, contains-keep x p l)

pub distinct-keep :
    (p : Sentence → Bool) (l : List Sentence)
    → distinct (map id_of l) ≡ true
    → distinct (map id_of (keep p l)) ≡ true
unfolding keep distinct
distinct-keep p [] h = refl
distinct-keep p (e ∷ l) h = ground (arith, distinct-keep p l, contains-keep (id_of e) p l)

pub sane-eq : (l : List Sentence) → distinct (map id_of l) ≡ true → sane l ≡ l
unfolding sane
sane-eq l h = rw h

pub get-append :
    (k v : Text) (attrs rest : Sentence) → lookup k attrs ≡ some v → get k (attrs ++ rest) ≡ v
unfolding get lookup
get-append k v [] rest h = cc
get-append k v ((j, w) ∷ attrs) rest h = ground (arith, get-append k v attrs rest)

-- The cut is right before the entry.
abbrev pub IsCut : Text → List Sentence → List Sentence → List Sentence → Type 0
IsCut id l a b =
    (l ≡ a ++ b) × ((e : Sentence) × (rest : List Sentence) × (b ≡ e ∷ rest) × (id_of e ≡ id))

pub cut_before_parts :
    (id : Text) (l a b : List Sentence) → cut_before id l ≡ some (a, b) → IsCut id l a b
unfolding cut_before
cut_before_parts id [] a b h = cc
cut_before_parts id (e ∷ l) a b h = elim (Bool-cases (id_of e == id)) [
  | inl found ↦ (ground arith, (e, l, ground arith, (eq_iff (id_of e) id).0 found))
  | inr other ↦ elim (Option-cases (cut_before id l)) [
    | inl missing ↦ cc (rw (other, missing) at h)
    | inr ((x, y), cut) ↦
        let (front, (f, rest, next, same)) = cut_before_parts id l x y cut in
        let q : ◌≡◌ {A = Option (List Sentence × List Sentence)} (some (e ∷ x, y)) (some (a, b)) =
          rw (other, cut) at h in
        (ground arith, (f, rest, ground arith, same))
  ]
]

pub place_append : (o : Option Text) (l a b : List Sentence) → place o l ≡ some (a, b) → l ≡ a ++ b
unfolding place
place_append none l a b h = ground (arith, append-nil l)
place_append (some id) l a b h = (cut_before_parts id l a b h).0
