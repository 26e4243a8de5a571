-- ===== src/Endpoints/Ownership.antt =====
-- internal/controller/router_helpers.go: `ensureRouterEndpointOwnership`.
use mikrotik_operator.Base.{
  Text, List, [], ◌∷◌, ◌++◌, map, keep, any, contains, All, ◌==◌, nat_eq, list_eq, not, ◌&&◌, ◌||◌,
  Bool, true, false, ok, ◌≡◌, ◌≢◌, ◌⊎◌, inl, inr, refl, ◌∙◌, sym, ap, subst, arith, eq_iff, eq_refl,
  Bool-cases, list_beq,
}
use mikrotik_operator.Endpoints.Defs.{
  RouterEndpoint, MikroTikRouter, Net, endpoint_key, router_endpoints,
}
use mikrotik_operator.Endpoints.Owners.{
  text_leb, sort_strings, first_text, owner_name, same_router, has_key, rivals, check_owners,
  ensure_router_endpoint_ownership,
}
use mikrotik_operator.Endpoints.Order.{text_leb_antisym, sort_strings-first}

abbrev pub In : {A : Type 0} → A → List A → Type 0
In x [] = ⊥
In x (y ∷ ys) = (x ≡ y) ⊎ In x ys

All-In : {A : Type 0} (P : A → Type 0) (x : A) (xs : List A) → All P xs → In x xs → P x
All-In P x [] h m = elim m [ ]
All-In P x (y ∷ ys) h (inl e) = subst P (sym e) h.0
All-In P x (y ∷ ys) h (inr m) = All-In P x ys h.1 m

In-map : {A B : Type 0} (f : A → B) (x : A) (xs : List A) → In x xs → In (f x) (map f xs)
In-map f x [] m = elim m [ ]
In-map f x (y ∷ ys) (inl e) = inl (ap f e)
In-map f x (y ∷ ys) (inr m) = inr (In-map f x ys m)

In-keep :
    {A : Type 0} (p : A → Bool) (x : A) (xs : List A) → In x xs → p x ≡ true → In x (keep p xs)
unfolding keep
In-keep p x [] m h = elim m [ ]
In-keep p x (y ∷ ys) (inl e) h = rw (sym (ap p e) ∙ h) (inl e)
In-keep p x (y ∷ ys) (inr m) h = elim (Bool-cases (p y)) [
  | inl on ↦ rw on (inr (In-keep p x ys m h))
  | inr off ↦ rw off (In-keep p x ys m h)
]

In-any : {A : Type 0} (p : A → Bool) (x : A) (xs : List A) → In x xs → p x ≡ true → any p xs ≡ true
unfolding any
In-any p x [] m h = elim m [ ]
In-any p x (y ∷ ys) (inl e) h = rw (sym (ap p e) ∙ h) refl
In-any p x (y ∷ ys) (inr m) h = ground (arith, In-any p x ys m h)

-- A name without a slash ends at the first slash.
owner_name-injective :
    (a b : MikroTikRouter)
    → contains b'/' a.namespace ≡ false
    → contains b'/' b.namespace ≡ false
    → owner_name a ≡ owner_name b
    → same_router a b ≡ true
unfolding owner_name same_router list_beq
owner_name-injective a b ha hb h = parts a.namespace b.namespace a.router_name b.router_name ha hb h
  where
    parts :
        (s t u v : Text)
        → contains b'/' s ≡ false
        → contains b'/' t ≡ false
        → s ++ (b'/' ∷ u) ≡ t ++ (b'/' ∷ v)
        → (s == t && u == v) ≡ true
    parts [] [] u v h k e = ground (arith, eq_refl u)
    parts [] (d ∷ t) u v h k e = ground arith
    parts (c ∷ s) [] u v h k e = ground arith
    parts (c ∷ s) (d ∷ t) u v h k e = ground (arith, parts s t u v)

same_router_sym : (a b : MikroTikRouter) → same_router a b ≡ false → same_router b a ≡ false
unfolding same_router
same_router_sym a b h = ground (
  arith,
  eq_iff a.namespace b.namespace,
  eq_iff b.namespace a.namespace,
  eq_iff a.router_name b.router_name,
  eq_iff b.router_name a.router_name,
)

module _ (net : Net) where
  abbrev Owns : MikroTikRouter → List MikroTikRouter → Type 0
  Owns router routers = ensure_router_endpoint_ownership net (ok routers) router ≡ ok tt

  check_owners-first :
      (router : MikroTikRouter) (routers : List MikroTikRouter) (seen : List Text)
      (endpoints : List RouterEndpoint) (endpoint : RouterEndpoint)
      → check_owners net router routers seen endpoints ≡ ok tt
      → In endpoint endpoints
      → first_text (
          sort_strings (
            owner_name router
            ∷ map owner_name (rivals net router (endpoint_key net endpoint) routers)))
        ≡ owner_name router
  unfolding check_owners
  check_owners-first router routers seen [] endpoint h m = elim m [ ]
  check_owners-first router routers seen (x ∷ xs) endpoint h (inl e) = rw e (
      ground (
        arith,
        eq_iff
            (first_text (
              sort_strings (
                owner_name router
                ∷ map owner_name (rivals net router (endpoint_key net x) routers))))
            (owner_name router),
      ))
  check_owners-first router routers seen (x ∷ xs) endpoint h (inr m) =
      check_owners-first router routers (endpoint_key net x ∷ seen) xs endpoint (ground arith) m

  -- The owner of an endpoint is the least of those that name it.
  owner-least :
      (router other : MikroTikRouter) (routers : List MikroTikRouter)
      (endpoint rival : RouterEndpoint)
      → Owns router routers
      → In endpoint (router_endpoints router)
      → In other routers
      → In rival (router_endpoints other)
      → other.deleted ≡ false
      → same_router other router ≡ false
      → endpoint_key net rival ≡ endpoint_key net endpoint
      → text_leb (owner_name router) (owner_name other) ≡ true
  unfolding ensure_router_endpoint_ownership rivals has_key
  owner-least router other routers endpoint rival h m n r live apart same =
      let key : Text = endpoint_key net endpoint in
      let first = check_owners-first router routers [] (router_endpoints router) endpoint h m in
      let named : has_key net key other ≡ true =
        In-any _ rival (router_endpoints other) r ((eq_iff _ _).1 same) in
      let all =
        sort_strings-first (owner_name router) (map owner_name (rivals net router key routers)) in
      subst (λ t. text_leb t (owner_name other) ≡ true) first
        (All-In _ (owner_name other) (map owner_name (rivals net router key routers)) all.1
          (In-map owner_name other _ (In-keep _ other routers n (both live apart named))))
    where
      both : {d r k : Bool} → d ≡ false → r ≡ false → k ≡ true → (not (d || r) && k) ≡ true
      both x y z = ground arith

  -- Two.
  pub ensure_router_endpoint_ownership_exclusive :
      (a b : MikroTikRouter) (routers : List MikroTikRouter) (e f : RouterEndpoint)
      → In a routers
      → In b routers
      → a.deleted ≡ false
      → b.deleted ≡ false
      → contains b'/' a.namespace ≡ false
      → contains b'/' b.namespace ≡ false
      → same_router a b ≡ false
      → In e (router_endpoints a)
      → In f (router_endpoints b)
      → ensure_router_endpoint_ownership net (ok routers) a ≡ ok tt
      → ensure_router_endpoint_ownership net (ok routers) b ≡ ok tt
      → endpoint_key net e ≢ endpoint_key net f
  ensure_router_endpoint_ownership_exclusive a b routers e f ia ib la lb ka kb apart me mf oa ob
        same =
      let equal : owner_name a ≡ owner_name b =
        text_leb_antisym _ _
          (owner-least a b routers e f oa me ib mf lb (same_router_sym a b apart) (sym same))
          (owner-least b a routers f e ob mf ia me la apart same) in
      let found : same_router a b ≡ true = owner_name-injective a b ka kb equal in
      absurd (clash (sym found ∙ apart))
    where
      clash : true ≡ false → ⊥
      clash h = cc
