-- ===== src/Endpoints/Targets.antt =====
-- internal/controller/router_helpers.go: `durableRouterTargets`.
use mikrotik_operator.Base.{
  Text, List, [], ◌∷◌, ◌++◌, any, contains, Nodup, ◌==◌, nat_eq, list_eq, not, ◌&&◌, ◌||◌,
  if◌then◌else◌, Bool, false, ◌≡◌, refl, ◌∙◌, ap, arith, eq_iff, Bool-cases, inl, inr,
}
use mikrotik_operator.Strings.{trim_space, split}
use mikrotik_operator.Endpoints.Owners.{text_leb, insert, sort_strings}

-- The closure `add`; the set `seen` holds what `targets` lists.
unfoldable pub add_target : List Text → Text → List Text
add_target targets target =
    let trimmed = trim_space target in
    if trimmed == [] || contains trimmed targets then targets else targets ++ (trimmed ∷ [])

unfoldable pub add_targets : List Text → List Text → List Text
add_targets targets [] = targets
add_targets targets (t ∷ ts) = add_targets (add_target targets t) ts

-- The first argument is the annotation, empty if there is none.
unfoldable pub durable_router_targets : Text → List Text → List Text
durable_router_targets annotation additional =
    sort_strings (add_targets (add_targets [] (split b',' annotation)) additional)

pub contains-snoc :
    (k x : Text) (xs : List Text) → contains k (xs ++ (x ∷ [])) ≡ (contains k xs || x == k)
contains-snoc k x [] = ground arith
contains-snoc k x (y ∷ ys) = ground (arith, contains-snoc k x ys)

pub contains-insert :
    (k x : Text) (xs : List Text) → contains k (insert x xs) ≡ (x == k || contains k xs)
unfolding insert
contains-insert k x [] = refl
contains-insert k x (y ∷ ys) = ground (arith, contains-insert k x ys)

pub contains-sort : (k : Text) (xs : List Text) → contains k (sort_strings xs) ≡ contains k xs
unfolding sort_strings
contains-sort k [] = refl
contains-sort k (x ∷ xs) = ground (arith, contains-insert k x (sort_strings xs), contains-sort k xs)

insert-Nodup : (x : Text) (xs : List Text) → contains x xs ≡ false → Nodup xs → Nodup (insert x xs)
unfolding insert
insert-Nodup x [] h n = (refl, tt)
insert-Nodup x (y ∷ ys) h n = elim (Bool-cases (text_leb x y)) [
  | inl e ↦ rw e (h, n)
  | inr e ↦ rw e (
    ground (arith, contains-insert y x ys, eq_iff x y, eq_iff y x, n.0),
    insert-Nodup x ys (ground arith) n.1,
  )
]

sort-Nodup : (xs : List Text) → Nodup xs → Nodup (sort_strings xs)
unfolding sort_strings
sort-Nodup [] n = tt
sort-Nodup (x ∷ xs) n =
    insert-Nodup x (sort_strings xs) (contains-sort x xs ∙ n.0) (sort-Nodup xs n.1)

pub snoc-Nodup :
    (xs : List Text) (x : Text) → contains x xs ≡ false → Nodup xs → Nodup (xs ++ (x ∷ []))
snoc-Nodup [] x h n = (refl, tt)
snoc-Nodup (y ∷ ys) x h n = (
  ground (arith, contains-snoc y x ys, eq_iff x y, eq_iff y x, n.0),
  snoc-Nodup ys x (ground arith) n.1,
)

add_target-Nodup : (targets : List Text) (t : Text) → Nodup targets → Nodup (add_target targets t)
unfolding add_target
add_target-Nodup targets t n =
    elim (Bool-cases (trim_space t == [] || contains (trim_space t) targets)) [
      | inl e ↦ rw e n
      | inr e ↦ rw e (snoc-Nodup targets (trim_space t) (ground arith) n)
    ]

add_targets-Nodup : (targets ts : List Text) → Nodup targets → Nodup (add_targets targets ts)
unfolding add_targets
add_targets-Nodup targets [] n = n
add_targets-Nodup targets (t ∷ ts) n =
    add_targets-Nodup (add_target targets t) ts (add_target-Nodup targets t n)

-- A target that is named, with spaces around it or not.
abbrev pub names : Text → Text → Bool
names k t = trim_space t == k && not (k == [])

contains-add_target :
    (k : Text) (targets : List Text) (t : Text)
    → contains k (add_target targets t) ≡ (contains k targets || names k t)
unfolding add_target
contains-add_target k targets t = ground (
  arith,
  contains-snoc k (trim_space t) targets,
  eq_iff (trim_space t) k,
  eq_iff (trim_space t) [],
  eq_iff k [],
)

contains-add_targets :
    (k : Text) (targets ts : List Text)
    → contains k (add_targets targets ts) ≡ (contains k targets || any (names k) ts)
unfolding add_targets any
contains-add_targets k targets [] = ground arith
contains-add_targets k targets (t ∷ ts) =
    ground
      (arith, contains-add_targets k (add_target targets t) ts, contains-add_target k targets t)

-- `durableRouterTargets` lists no target twice, and it lists a target exactly if the target is not
-- empty and one of the comma-separated parts of the annotation or one of the additional targets is
-- that target, with spaces around it or not.
pub durable_router_targets_lem :
    (annotation : Text) (additional : List Text)
    → Nodup (durable_router_targets annotation additional)
      × ((k : Text)
          → contains k (durable_router_targets annotation additional)
            ≡ (any (names k) (split b',' annotation) || any (names k) additional))
unfolding durable_router_targets
durable_router_targets_lem annotation additional = (
  sort-Nodup _ (add_targets-Nodup _ additional (add_targets-Nodup [] (split b',' annotation) tt)),
  λ k.
      contains-sort k _
      ∙ (contains-add_targets k _ additional
          ∙ ap (λ b. b || any (names k) additional)
              (contains-add_targets k [] (split b',' annotation))),
)
