-- ===== src/Client/Order.antt =====
-- The order of firewall rules: what `firewallRulePrecedesUnmanaged` and `firstIDsByChain` find.
use mikrotik_operator.Base.{
  Text, text, List, [], ◌∷◌, ◌++◌, map, keep, contains, All, Nodup, ◌==◌, nat_eq, list_eq, ◌||◌,
  if◌then◌else◌, Bool, true, false, ◌≡◌, ◌≢◌, refl, ◌∙◌, sym, ap, ap₂, inl, inr, arith, Bool-cases,
  eq_iff, eq_refl, Option, some, none,
}
use mikrotik_operator.RouterOs.{Sentence, get, id_of, comment_of, select}
use mikrotik_operator.Client.Entries.{is_managed_comment, first_ids, chain_of, precedes_unmanaged}

abbrev pub chain_in : Sentence → Text
chain_in = get (text "chain")

-- The entry stands before every entry of the chain that the operator does not manage.
abbrev pub IsAhead : Text → Sentence → List Sentence → Type 0
IsAhead chain e l =
    (above : List Sentence) × (below : List Sentence) × (l ≡ above ++ (e ∷ below))
    × All (λ f. chain_in f ≡ chain → is_managed_comment (comment_of f) ≡ true) above

-- A positive answer names a place in the table.
pub precedes_unmanaged-place :
    (id chain : Text) (l : List Sentence)
    → precedes_unmanaged id chain l ≡ true
    → (e : Sentence) × (id_of e ≡ id) × IsAhead chain e l
unfolding precedes_unmanaged
precedes_unmanaged-place id chain [] h = cc
precedes_unmanaged-place id chain (x ∷ l) h = elim (Bool-cases (chain_in x == chain)) [
  | inl on ↦ elim (Bool-cases (id_of x == id)) [
    | inl found ↦ (x, (eq_iff _ _).0 found, ([], l, refl, tt))
    | inr other ↦ step (λ c. ground arith) (precedes_unmanaged-place id chain l (ground arith))
  ]
  | inr off ↦
      step (λ c. ground (arith, eq_iff (chain_in x) chain))
        (precedes_unmanaged-place id chain l (ground arith))
]
  where
    step :
        (chain_in x ≡ chain → is_managed_comment (comment_of x) ≡ true)
        → (e : Sentence) × (id_of e ≡ id) × IsAhead chain e l
        → (e : Sentence) × (id_of e ≡ id) × IsAhead chain e (x ∷ l)
    step m (e, same, (above, below, at, all)) =
        (e, same, (x ∷ above, below, ap (λ t. x ∷ t) at, (m, all)))

-- The id of the first entry of a chain, empty if there is none.
unfoldable pub first_of : Text → List Sentence → Text
first_of chain [] = []
first_of chain (e ∷ l) = if chain_in e == chain then id_of e else first_of chain l

abbrev keys : Sentence → List Text
keys = map (λ (k, _). k)

get-missing : (k : Text) (found : Sentence) → contains k (keys found) ≡ false → get k found ≡ []
unfolding get
get-missing k [] h = refl
get-missing k (x ∷ found) h = ground (arith, get-missing k found)

get-first_ids_onto :
    (chain : Text) (found : Sentence) (l : List Sentence)
    → chain ≢ []
    → All (λ e. id_of e ≢ []) l
    → get chain (first_ids found l)
      ≡ (if contains chain (keys found) then get chain found else first_of chain l)
unfolding first_ids first_of get
get-first_ids_onto chain found [] named set = ground (arith, get-missing chain found)
get-first_ids_onto chain found (e ∷ l) named set =
    elim (Bool-cases (chain_in e == [] || id_of e == [] || contains (chain_in e) (keys found))) [
      | inl old ↦ rw old (
          get-first_ids_onto chain found l named set.1
          ∙ ground (arith, eq_iff (chain_in e) chain, eq_iff (chain_in e) [], eq_iff (id_of e) []))
      | inr new ↦ rw new (
          get-first_ids_onto chain ((chain_in e, id_of e) ∷ found) l named set.1
          ∙ ground (arith, eq_iff (chain_in e) chain, eq_iff (chain_in e) [], eq_iff (id_of e) []))
    ]

-- `firstIDsByChain` finds it for every chain that has a name.
pub get-first_ids :
    (chain : Text) (l : List Sentence)
    → chain ≢ []
    → All (λ e. id_of e ≢ []) l
    → get chain (first_ids [] l) ≡ first_of chain l
get-first_ids chain l named set = get-first_ids_onto chain [] l named set

-- The entry is not of the chain.
abbrev pub IsOff : Text → Sentence → Type 0
IsOff chain f = chain_in f ≢ chain

pub first_of-none :
    (chain : Text) (l : List Sentence)
    → All (λ e. id_of e ≢ []) l
    → first_of chain l ≡ []
    → All (IsOff chain) l
unfolding first_of
first_of-none chain [] set h = tt
first_of-none chain (e ∷ l) set h = elim (Bool-cases (chain_in e == chain)) [
  | inl on ↦ absurd (set.0 (rw on at h))
  | inr off ↦
      (λ c. ground (arith, eq_iff (chain_in e) chain), first_of-none chain l set.1 (rw off at h))
]

contains-at :
    (a b : List Sentence) (e : Sentence) → contains (id_of e) (map id_of (a ++ (e ∷ b))) ≡ true
contains-at [] b e = ground (arith, eq_refl (id_of e))
contains-at (x ∷ a) b e = ground (arith, contains-at a b e)

-- Nothing of the chain stands above its first entry.
pub first_of-above :
    (chain : Text) (a b : List Sentence) (e : Sentence)
    → Nodup (map id_of (a ++ (e ∷ b)))
    → id_of e ≡ first_of chain (a ++ (e ∷ b))
    → All (IsOff chain) a
unfolding first_of
first_of-above chain [] b e u h = tt
first_of-above chain (x ∷ a) b e u h = elim (Bool-cases (chain_in x == chain)) [
  | inl on ↦
      let same : id_of e ≡ id_of x = rw on at h in
      cc (sym (contains-at a b e) ∙ (ap (λ i. contains i (map id_of (a ++ (e ∷ b)))) same ∙ u.0))
  | inr off ↦
      (λ c. ground (arith, eq_iff (chain_in x) chain), first_of-above chain a b e u.1 (rw off at h))
]

-- The entry of an id.
find : Text → List Sentence → Option Sentence
find id [] = none
find id (e ∷ l) = if id_of e == id then some e else find id l

find-at :
    (a b : List Sentence) (e : Sentence)
    → Nodup (map id_of (a ++ (e ∷ b)))
    → find (id_of e) (a ++ (e ∷ b)) ≡ some e
unfolding find
find-at [] b e u = rw (eq_refl (id_of e))
find-at (x ∷ a) b e u = ground (arith, find-at a b e, contains-at a b e, eq_iff (id_of x) (id_of e))

pub chain_of-at :
    (a b : List Sentence) (e : Sentence)
    → Nodup (map id_of (a ++ (e ∷ b)))
    → chain_of (id_of e) (a ++ (e ∷ b)) ≡ chain_in e
unfolding chain_of
chain_of-at [] b e u = rw (eq_refl (id_of e))
chain_of-at (x ∷ a) b e u =
    ground (arith, chain_of-at a b e, contains-at a b e, eq_iff (id_of x) (id_of e))

contains-select :
    (mine : Text → Bool) (l : List Sentence) (e : Sentence)
    → select mine l ≡ e ∷ []
    → contains (id_of e) (map id_of l) ≡ true
unfolding select keep
contains-select mine [] e h = cc
contains-select mine (x ∷ l) e h = ground (arith, contains-select mine l e, eq_refl (id_of e))

find-select :
    (mine : Text → Bool) (l : List Sentence) (e : Sentence)
    → Nodup (map id_of l)
    → select mine l ≡ e ∷ []
    → find (id_of e) l ≡ some e
unfolding find select keep
find-select mine [] e u h = cc
find-select mine (x ∷ l) e u h = ground (
  arith,
  find-select mine l e,
  contains-select mine l e,
  eq_refl (id_of e),
  eq_iff (id_of x) (id_of e),
)

-- With distinct ids an id names one entry.
pub select_unique :
    (mine : Text → Bool) (a b : List Sentence) (e f : Sentence)
    → Nodup (map id_of (a ++ (f ∷ b)))
    → select mine (a ++ (f ∷ b)) ≡ e ∷ []
    → id_of f ≡ id_of e
    → f ≡ e
select_unique mine a b e f u h same =
    cc
      (find-at a b f u, find-select mine (a ++ (f ∷ b)) e u h, ap (λ i. find i (a ++ (f ∷ b))) same)

-- What a print shows is enough to find an order.
module _ (view : Sentence → Sentence) (ids : (e : Sentence) → id_of (view e) ≡ id_of e)
    (chains : (e : Sentence) → chain_in (view e) ≡ chain_in e) where
  pub chain_of-view : (id : Text) (l : List Sentence) → chain_of id (map view l) ≡ chain_of id l
  unfolding chain_of
  chain_of-view id [] = refl
  chain_of-view id (e ∷ l) = rw (ids e, chains e, chain_of-view id l)

  pub first_ids-view :
      (l : List Sentence) (found : Sentence) → first_ids found (map view l) ≡ first_ids found l
  unfolding first_ids
  first_ids-view [] found = refl
  first_ids-view (e ∷ l) found =
      first_ids-view l _
      ∙ ap (λ f. first_ids f l)
          (ap₂
            (λ c i. if c == [] || i == [] || contains c (keys found) then found else (c, i) ∷ found)
            (chains e) (ids e))

  pub precedes_unmanaged-view :
      ((e : Sentence) → comment_of (view e) ≡ comment_of e)
      → (id chain : Text) (l : List Sentence)
      → precedes_unmanaged id chain (map view l) ≡ precedes_unmanaged id chain l
  unfolding precedes_unmanaged
  precedes_unmanaged-view comments id chain [] = refl
  precedes_unmanaged-view comments id chain (e ∷ l) =
      rw (ids e, chains e, comments e, precedes_unmanaged-view comments id chain l)
