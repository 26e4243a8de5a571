-- ===== src/RouterOs/Memory.antt =====
-- A device kept in memory: a model of the laws of RouterOs.Defs.
pub mod Steps
pub mod Lawful
use mikrotik_operator.Base.{
  ℕ, Text, text, List, [], ◌∷◌, ◌++◌, map, contains, ◌==◌, nat_eq, list_eq, list_beq, not, ◌&&◌,
  if◌then◌else◌, Bool, true, false, Option, some, none, ◌≡◌, ◌≢◌, ◌⊎◌, inl, inr, refl, ◌∙◌, sym, ap,
  ap₂, subst, arith, Nodup, All, M, Result, ok, err, keep, append-nil, Bool-cases, Option-cases,
  eq_iff, result_injective,
}
use mikrotik_operator.RouterOs.Defs.{
  Word, command, attribute, query, Sentence, get, lookup, Reply, Menu, dns, nat, filter, route,
  print_cmd, remove_cmd, add_cmd, attributes, id_of, without, RouterOs, Added, IsLawful, Same,
  SameBut, print_words, remove_words, add_words,
}

pub record Tables : Type 0 where
  pub dns_table : List Sentence
  pub nat_table : List Sentence
  pub filter_table : List Sentence
  pub route_table : List Sentence

unfoldable pub raw : Menu → Tables → List Sentence
raw dns s = s.dns_table
raw nat s = s.nat_table
raw filter s = s.filter_table
raw route s = s.route_table

pub put : Menu → List Sentence → Tables → Tables
put dns l s = record s { dns_table = l }
put nat l s = record s { nat_table = l }
put filter l s = record s { filter_table = l }
put route l s = record s { route_table = l }

unfoldable pub distinct : List Text → Bool
distinct [] = true
distinct (x ∷ xs) = not (x == []) && (not (contains x xs) && distinct xs)

-- A list of entries is a table only if their ids are distinct.
unfoldable pub sane : List Sentence → List Sentence
sane l = if distinct (map id_of l) then l else []

unfoldable pub table_of : Menu → Tables → List Sentence
unfolding sane raw distinct
table_of m s = sane (raw m s)

pub data Call : Type 0 where
  print_call remove_call add_call : Menu → Call
  unknown : Call

pub which : Text → Call
which c =
    if c == print_cmd dns
    then print_call dns
    else if c == print_cmd nat
    then print_call nat
    else if c == print_cmd filter
    then print_call filter
    else if c == print_cmd route
    then print_call route
    else if c == remove_cmd dns
    then remove_call dns
    else if c == remove_cmd nat
    then remove_call nat
    else if c == remove_cmd filter
    then remove_call filter
    else if c == remove_cmd route
    then remove_call route
    else if c == add_cmd dns
    then add_call dns
    else if c == add_cmd nat
    then add_call nat
    else if c == add_cmd filter
    then add_call filter
    else if c == add_cmd route
    then add_call route
    else unknown

pub sentence_of : List Word → Sentence
sentence_of (attribute k v ∷ words) = (k, v) ∷ sentence_of words
sentence_of _ = []

-- Longer than every id in use.
pub fresh : List Sentence → Text
fresh [] = text "*"
fresh (e ∷ l) = id_of e ++ fresh l

-- The table cut before the entry of an id.
pub cut_before : Text → List Sentence → Option (List Sentence × List Sentence)
cut_before id [] = none
cut_before id (e ∷ l) =
    let rest = cut_before id l in
    if id_of e == id
    then some ([], e ∷ l)
    else elim rest [ none ↦ none | some (a, b) ↦ some (e ∷ a, b) ]

pub place : Option Text → List Sentence → Option (List Sentence × List Sentence)
place none l = some (l, [])
place (some id) l = cut_before id l

abbrev done : Reply
done = record { re = []; done = [] }

pub new_entry : Sentence → List Sentence → Sentence
new_entry attrs l = attrs ++ ((text ".id", fresh l) ∷ [])

pub insert : Menu → Sentence → Option (List Sentence × List Sentence) → M Tables Reply
insert m e none s = (err [], s)
insert m e (some (a, b)) s =
    if distinct (map id_of (a ++ (e ∷ b))) then (ok done, put m (a ++ (e ∷ b)) s) else (err [], s)

pub serve : Call → List Word → M Tables Reply
serve (print_call m) words s = (ok (record { re = table_of m s; done = [] }), s)
serve (remove_call m) (attribute k id ∷ words) s = (ok done, put m (without id (table_of m s)) s)
serve (add_call m) words s =
    let attrs = sentence_of words in
    insert m (new_entry attrs (table_of m s))
      (place (lookup (text "place-before") attrs) (table_of m s)) s
serve _ words s = (err [], s)

unfoldable pub answer : List Word → M Tables Reply
unfolding serve which text insert place cut_before new_entry fresh sentence_of table_of sane
    distinct put raw without keep get lookup
answer (command c ∷ words) s = serve (which c) words s
answer words s = (err [], s)

abbrev pub memory : RouterOs
memory = record {
  State = Tables;
  run = answer;
  table = table_of;
  view = λ props e. e;
  Canonical = λ k v. Unit {0};
}
