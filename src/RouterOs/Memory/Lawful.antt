-- ===== src/RouterOs/Memory/Lawful.antt =====
-- The laws of RouterOs.Defs for the device in memory.
use mikrotik_operator.Base.{
  Text, text, List, [], ◌∷◌, ◌++◌, map, nat_eq, list_eq, true, Option, some, none, ◌≡◌, ◌≢◌, ◌⊎◌,
  inl, inr, refl, ◌∙◌, sym, ap, subst, arith, All, ok, err, Bool-cases, eq_iff, result_injective,
}
use mikrotik_operator.RouterOs.Defs.{
  Sentence, lookup, Reply, Menu, id_of, without, Added, IsLawful, SameBut, print_words,
  remove_words, add_words,
}
use mikrotik_operator.RouterOs.Memory.{
  Tables, raw, put, distinct, sane, table_of, place, done, new_entry, insert, answer, memory,
}
use mikrotik_operator.RouterOs.Memory.Steps.{
  which-print, which-remove, which-add, raw-put, raw-put_ne, sentence_of-attributes, sane-Nodup,
  sane-distinct, distinct-keep, sane-eq, get-append, cut_before_parts, place_append,
}

module _ (m : Menu) (attrs : Sentence) (s : Tables) where
  abbrev here : List Sentence
  here = table_of m s

  Added-insert :
      (a b : List Sentence)
      → place (lookup (text "place-before") attrs) here ≡ some (a, b)
      → distinct (map id_of (a ++ (new_entry attrs here ∷ b))) ≡ true
      → Added memory attrs here (table_of m (put m (a ++ (new_entry attrs here ∷ b)) s))
  unfolding table_of place new_entry
  Added-insert a b h d = record {
    above = a;
    below = b;
    entry = new_entry attrs here;
    split = place_append (lookup (text "place-before") attrs) here a b h;
    joined = ap sane (raw-put m _ s) ∙ sane-eq _ d;
    stored = λ k v e c. get-append k v attrs _ e;
    placed = λ id e. (cut_before_parts id here a b (ap (λ o. place o here) (sym e) ∙ h)).1;
  }

  insert_cases :
      (o : Option (List Sentence × List Sentence))
      → place (lookup (text "place-before") attrs) here ≡ o
      → (insert m (new_entry attrs here) o s ≡ (err [], s))
        ⊎ ((t : Tables) × (insert m (new_entry attrs here) o s ≡ (ok done, t))
            × Added memory attrs here (table_of m t)
            × ((n : Menu) → n ≢ m → table_of n t ≡ table_of n s))
  unfolding insert table_of
  insert_cases none h = inl refl
  insert_cases (some (a, b)) h =
      elim (Bool-cases (distinct (map id_of (a ++ (new_entry attrs here ∷ b))))) [
        | inl d ↦ inr (_, rw d, Added-insert a b h d, λ n ne. elsewhere n ne)
        | inr d ↦ inl (rw d)
      ]
    where
      elsewhere :
          (n : Menu) → n ≢ m → table_of n (put m (a ++ (new_entry attrs here ∷ b)) s) ≡ table_of n s
      elsewhere n ne = ap sane (raw-put_ne m n _ s ne)

add_cases :
    (m : Menu) (attrs : Sentence) (s : Tables)
    → (answer (add_words m attrs) s ≡ (err [], s))
      ⊎ ((t : Tables) × (answer (add_words m attrs) s ≡ (ok done, t))
          × Added memory attrs (table_of m s) (table_of m t)
          × ((n : Menu) → n ≢ m → table_of n t ≡ table_of n s))
unfolding answer
add_cases m attrs s = rw (which-add, sentence_of-attributes) (insert_cases m attrs s _ refl)

answer-print :
    (m : Menu) (props : List Text) (s : Tables)
    → answer (print_words m props) s ≡ (ok (record { re = table_of m s; done = [] }), s)
unfolding answer
answer-print m props s = rw which-print

answer-remove :
    (m : Menu) (id : Text) (s : Tables)
    → answer (remove_words m id) s ≡ (ok done, put m (without id (table_of m s)) s)
unfolding answer
answer-remove m id s = rw which-remove

add_done-memory :
    (m : Menu) (attrs : Sentence) (s : Tables) {t : Tables} {r : Reply}
    → answer (add_words m attrs) s ≡ (ok r, t)
    → Added memory attrs (table_of m s) (table_of m t)
add_done-memory m attrs s {t} h = elim (add_cases m attrs s) [
  | inl e ↦ cc (ap (λ q. q.0) (sym e ∙ h))
  | inr (v, e, a, _) ↦
      subst (λ w. Added memory attrs (table_of m s) (table_of m w)) (ap (λ q. q.1) (sym e ∙ h)) a
]

add_either-memory :
    (m : Menu) (attrs : Sentence) (s : Tables)
    → (table_of m (answer (add_words m attrs) s).1 ≡ table_of m s)
      ⊎ Added memory attrs (table_of m s) (table_of m (answer (add_words m attrs) s).1)
add_either-memory m attrs s = elim (add_cases m attrs s) [
  | inl e ↦ inl (ap (λ q. table_of m q.1) e)
  | inr (v, e, a, _) ↦
      inr (subst (λ w. Added memory attrs (table_of m s) (table_of m w)) (ap (λ q. q.1) (sym e)) a)
]

add_elsewhere-memory :
    (m : Menu) (attrs : Sentence) (s : Tables) → SameBut memory m s (answer (add_words m attrs) s).1
add_elsewhere-memory m attrs s n d = elim (add_cases m attrs s) [
  | inl e ↦ ap (λ q. table_of n q.1) e
  | inr (v, e, _, away) ↦ ap (λ q. table_of n q.1) e ∙ away n d
]

removed-memory :
    (m : Menu) (id : Text) (s : Tables)
    → table_of m (put m (without id (table_of m s)) s) ≡ without id (table_of m s)
unfolding table_of without
removed-memory m id s =
    ap sane (raw-put m _ s) ∙ sane-eq _ (distinct-keep _ _ (sane-distinct (raw m s)))

map_same : (l : List Sentence) → map (λ e. e) l ≡ l
map_same [] = refl
map_same (e ∷ l) = ap (λ t. e ∷ t) (map_same l)

print_shows-memory :
    (m : Menu) (props : List Text) (s : Tables) {t : Tables} {r : Reply}
    → answer (print_words m props) s ≡ (ok r, t)
    → r.re ≡ map (λ e. e) (table_of m s)
print_shows-memory m props s h =
    ap (λ (w : Reply). w.re) (result_injective (ap (λ q. q.0) (sym h ∙ answer-print m props s)))
    ∙ sym (map_same (table_of m s))

distinct-set : (l : List Sentence) → distinct (map id_of l) ≡ true → All (λ e. id_of e ≢ []) l
unfolding distinct
distinct-set [] h = tt
distinct-set (e ∷ l) h = (λ z. ground (arith, eq_iff (id_of e) []), distinct-set l (ground arith))

-- The device in memory obeys the laws.
pub memory-IsLawful : IsLawful memory
unfolding table_of
memory-IsLawful = record {
  view_reads = λ k props e h. refl;
  print_shows = λ m props {s} {t} {r} h. print_shows-memory m props s h;
  print_reads_only = λ m props s n. ap (λ q. table_of n q.1) (answer-print m props s);
  remove_done = λ m id {s} {t} {r} h.
      ap (λ q. table_of m q.1) (sym h ∙ answer-remove m id s) ∙ removed-memory m id s;
  remove_either =
      λ m id s. inr (ap (λ q. table_of m q.1) (answer-remove m id s) ∙ removed-memory m id s);
  remove_elsewhere = λ m id s n d.
      ap (λ q. table_of n q.1) (answer-remove m id s) ∙ ap sane (raw-put_ne m n _ s d);
  add_done = λ m attrs {s} {t} {r} h. add_done-memory m attrs s h;
  add_either = add_either-memory;
  add_elsewhere = add_elsewhere-memory;
  comment_Canonical = λ v. tt;
  ids_Nodup = λ m s. sane-Nodup (raw m s);
  ids_set = λ m s. distinct-set (sane (raw m s)) (sane-distinct (raw m s));
}
