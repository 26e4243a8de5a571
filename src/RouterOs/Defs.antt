-- ===== src/RouterOs/Defs.antt =====
-- Sentences, menus, and a device with its laws.
use mikrotik_operator.Base.{
  Text, text, List, [], ◌∷◌, ◌++◌, map, join, keep, Nodup, All, contains, ◌==◌, nat_eq, list_eq,
  not, if◌then◌else◌, Bool, true, Option, some, none, ◌≡◌, ◌≢◌, ◌⊎◌, M, ok,
}

-- A word of a sentence by its parts. On the wire `attribute k v` is `=k=v` and `query k v` is
-- `?k=v`.
pub data Word : Type 0 where
  command : Text → Word
  attribute : Text → Text → Word
  query : Text → Text → Word

unfoldable pub render : Word → Text
render (command c) = c
render (attribute k v) = text "=" ++ (k ++ (text "=" ++ v))
render (query k v) = text "?" ++ (k ++ (text "=" ++ v))

-- `proto.Sentence`: its `Map`.
abbrev pub Sentence : Type 0
Sentence = List (Text × Text)

-- `m[k]` of a Go map: the empty text where there is no such key.
unfoldable pub get : Text → Sentence → Text
get k [] = []
get k ((j, v) ∷ r) = if j == k then v else get k r

unfoldable pub lookup : Text → Sentence → Option Text
lookup k [] = none
lookup k ((j, v) ∷ r) = if j == k then some v else lookup k r

-- `routeros.Reply`
pub record Reply : Type 0 where
  pub re : List Sentence
  pub done : Sentence

-- The menus in which the client keeps entries.
pub data Menu : Type 0 where
  dns nat filter route : Menu

abbrev pub print_cmd : Menu → Text
print_cmd dns = text "/ip/dns/static/print"
print_cmd nat = text "/ip/firewall/nat/print"
print_cmd filter = text "/ip/firewall/filter/print"
print_cmd route = text "/ip/route/print"

abbrev pub remove_cmd : Menu → Text
remove_cmd dns = text "/ip/dns/static/remove"
remove_cmd nat = text "/ip/firewall/nat/remove"
remove_cmd filter = text "/ip/firewall/filter/remove"
remove_cmd route = text "/ip/route/remove"

abbrev pub add_cmd : Menu → Text
add_cmd dns = text "/ip/dns/static/add"
add_cmd nat = text "/ip/firewall/nat/add"
add_cmd filter = text "/ip/firewall/filter/add"
add_cmd route = text "/ip/route/add"

abbrev pub print_words : Menu → List Text → List Word
print_words m props =
    command (print_cmd m) ∷ attribute (text ".proplist") (join props (text ",")) ∷ []

abbrev pub remove_words : Menu → Text → List Word
remove_words m id = command (remove_cmd m) ∷ attribute (text ".id") id ∷ []

abbrev pub attributes : Sentence → List Word
attributes = map (λ (k, v). attribute k v)

abbrev pub add_words : Menu → Sentence → List Word
add_words m attrs = command (add_cmd m) ∷ attributes attrs

abbrev pub id_of : Sentence → Text
id_of = get (text ".id")

abbrev pub comment_of : Sentence → Text
comment_of = get (text "comment")

-- The entries of a table whose comment passes a test, and the others.
unfoldable pub select : (Text → Bool) → List Sentence → List Sentence
select mine = keep (λ e. mine (comment_of e))

unfoldable pub others : (Text → Bool) → List Sentence → List Sentence
others mine = keep (λ e. not (mine (comment_of e)))

-- A table without the entry of an id.
unfoldable pub without : Text → List Sentence → List Sentence
without id = keep (λ e. not (id == id_of e))

-- A device: `run` is `RunArgsContext` with its time limit, `table` what a menu holds. A print
-- shows an entry through `view`, and `Canonical k v` says that the device stores the value `v`
-- of the property `k` as it was sent.
pub record RouterOs : Type 1 where
  pub State : Type 0
  pub run : List Word → M State Reply
  pub table : Menu → State → List Sentence
  pub view : List Text → Sentence → Sentence
  pub Canonical : Text → Text → Type 0

-- One new entry, with the attributes sent, somewhere in the table.
pub record Added (R : RouterOs) (attrs : Sentence) (before after : List Sentence) : Type 0 where
  pub above : List Sentence
  pub below : List Sentence
  pub entry : Sentence
  pub split : before ≡ above ++ below
  pub joined : after ≡ above ++ (entry ∷ below)
  pub stored : (k v : Text) → lookup k attrs ≡ some v → R.Canonical k v → get k entry ≡ v
  pub placed :
      (id : Text)
      → lookup (text "place-before") attrs ≡ some id
      → (e : Sentence) × (rest : List Sentence) × (below ≡ e ∷ rest) × (id_of e ≡ id)

module _ (R : RouterOs) where
  -- The same tables.
  abbrev pub Same : R.State → R.State → Type 0
  Same s t = (m : Menu) → R.table m t ≡ R.table m s

  -- The same tables but for one menu.
  abbrev pub SameBut : Menu → R.State → R.State → Type 0
  SameBut m s t = (n : Menu) → n ≢ m → R.table n t ≡ R.table n s

-- What the RouterOS manual says of the commands. A command that fails may have been carried out
-- before the connection broke.
pub record IsLawful (R : RouterOs) : Type 0 where
  pub view_reads :
      (k : Text) (props : List Text) (e : Sentence)
      → contains k props ≡ true
      → get k (R.view props e) ≡ get k e
  pub print_shows :
      (m : Menu) (props : List Text) {s t : R.State} {r : Reply}
      → R.run (print_words m props) s ≡ (ok r, t)
      → r.re ≡ map (R.view props) (R.table m s)
  pub print_reads_only :
      (m : Menu) (props : List Text) (s : R.State) → Same R s (R.run (print_words m props) s).1
  pub remove_done :
      (m : Menu) (id : Text) {s t : R.State} {r : Reply}
      → R.run (remove_words m id) s ≡ (ok r, t)
      → R.table m t ≡ without id (R.table m s)
  pub remove_either :
      (m : Menu) (id : Text) (s : R.State)
      → (R.table m (R.run (remove_words m id) s).1 ≡ R.table m s)
        ⊎ (R.table m (R.run (remove_words m id) s).1 ≡ without id (R.table m s))
  pub remove_elsewhere :
      (m : Menu) (id : Text) (s : R.State) → SameBut R m s (R.run (remove_words m id) s).1
  pub add_done :
      (m : Menu) (attrs : Sentence) {s t : R.State} {r : Reply}
      → R.run (add_words m attrs) s ≡ (ok r, t)
      → Added R attrs (R.table m s) (R.table m t)
  pub add_either :
      (m : Menu) (attrs : Sentence) (s : R.State)
      → (R.table m (R.run (add_words m attrs) s).1 ≡ R.table m s)
        ⊎ Added R attrs (R.table m s) (R.table m (R.run (add_words m attrs) s).1)
  pub add_elsewhere :
      (m : Menu) (attrs : Sentence) (s : R.State) → SameBut R m s (R.run (add_words m attrs) s).1
  pub comment_Canonical : (v : Text) → R.Canonical (text "comment") v
  pub ids_Nodup : (m : Menu) (s : R.State) → Nodup (map id_of (R.table m s))
  pub ids_set : (m : Menu) (s : R.State) → All (λ e. id_of e ≢ []) (R.table m s)
