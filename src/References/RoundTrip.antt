-- ===== src/References/RoundTrip.antt =====
-- internal/controller/router_controller.go: `routerRefStorage` and `routerKeyFromRef`.
use mikrotik_operator.Base.{
  Text, [], ◌∷◌, ◌++◌, contains, ◌==◌, nat_eq, list_eq, ◌||◌, if◌then◌else◌, true, false, Option,
  some, none, ◌≡◌, ◌≢◌, refl, ◌∙◌, ap, arith, eq_iff, list_beq, Bool-cases, inl, inr,
}
use mikrotik_operator.Strings.{trim_space, cut}
use mikrotik_operator.References.Defs.{
  NamespacedName, cut_reference, split_router_reference, router_ref_storage, router_key_from_ref,
}

cut-plain : (s : Text) → contains b'/' s ≡ false → cut b'/' s ≡ none
unfolding cut
cut-plain [] h = refl
cut-plain (c ∷ s) h = rw (cut-plain s (ground arith)) (ground arith)

cut-append : (s t : Text) → contains b'/' s ≡ false → cut b'/' (s ++ (b'/' ∷ t)) ≡ some (s, t)
unfolding cut
cut-append [] t h = refl
cut-append (c ∷ s) t h = rw (cut-append s t (ground arith)) (ground arith)

-- The key of a reference with no space around it.
key_of_parts : Text → NamespacedName → NamespacedName
key_of_parts here (hint, name) =
    if name == [] then ([], []) else (if hint == [] then here else hint, name)

key-trimmed :
    (here s : Text) (o : Option (Text × Text))
    → trim_space s ≡ s
    → (s == []) ≡ false
    → cut b'/' s ≡ o
    → router_key_from_ref here s ≡ key_of_parts here (cut_reference s o)
unfolding router_key_from_ref split_router_reference key_of_parts
key-trimmed here s o t e c = rw (t, e, c) refl

ne-test : (s : Text) → s ≢ [] → (s == []) ≡ false
ne-test s h = ground (arith, eq_iff s [])

append-ne : (s t : Text) → ((s ++ (b'/' ∷ t)) == []) ≡ false
unfolding list_beq
append-ne [] t = refl
append-ne (c ∷ s) t = refl

-- For a namespace and a name that are not empty and hold no slash, and a resource's namespace: if
-- trimming changes nothing in what `routerRefStorage` writes, `routerKeyFromRef` reads the
-- namespace and the name back from it.
pub router_key_from_ref-router_ref_storage :
    (resource_namespace namespace name : Text)
    → namespace ≢ []
    → name ≢ []
    → contains b'/' namespace ≡ false
    → contains b'/' name ≡ false
    → trim_space (router_ref_storage resource_namespace (namespace, name))
      ≡ router_ref_storage resource_namespace (namespace, name)
    → router_key_from_ref resource_namespace
        (router_ref_storage resource_namespace (namespace, name))
      ≡ (namespace, name)
unfolding router_ref_storage key_of_parts list_beq
router_key_from_ref-router_ref_storage here namespace name n m p q trimmed =
    elim (Bool-cases (namespace == [] || namespace == here)) [
      | inl near ↦ rw near (
          key-trimmed here name none (rw near at trimmed) (ne-test name m) (cut-plain name q)
          ∙ (rw (ne-test name m) (ap (λ t. (t, name)) (here_is near))))
      | inr far ↦ rw far (
          key-trimmed here (namespace ++ (b'/' ∷ name)) (some (namespace, name)) (rw far at trimmed)
            (append-ne namespace name) (cut-append namespace name p)
          ∙ rw (ne-test name m, ne-test namespace n) refl)
    ]
  where
    here_is : (namespace == [] || namespace == here) ≡ true → here ≡ namespace
    here_is near = ground (arith, eq_iff namespace here, eq_iff namespace [])
