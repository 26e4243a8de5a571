-- ===== src/References/Resolve.antt =====
-- internal/controller/router_controller.go: `resolveRouterReference` and `generatedClaimRouterRefs`.
use mikrotik_operator.Base.{
  Text, List, [], ◌∷◌, ◌++◌, keep, contains, Nodup, ◌==◌, nat_eq, list_eq, ◌||◌, if◌then◌else◌,
  Result, ok, err, ◌≡◌, ◌⊎◌, inl, inr, refl, ◌∙◌, sym, ap, subst, arith, Bool-cases, Result-cases,
  list_beq,
}
use mikrotik_operator.Strings.{trim_space}
use mikrotik_operator.Endpoints.{MikroTikRouter}
use mikrotik_operator.Endpoints.Targets.{snoc-Nodup}
use mikrotik_operator.References.Defs.{
  NamespacedName, split_router_reference, RouterApi, live_routers, name_of, Resolution, resolved,
  unknown, ambiguous, failed, only_match, unique_cluster_router, unique_among, matches_name,
  only_live, implicit_key, implicit_claim, resolve_router_reference, claim_key, claim_keys,
  claims_of, generated_claim_router_refs, router_key_from_ref, canonical_router_claim_key,
}

-- The only live router of a list.
abbrev pub IsOnly : List MikroTikRouter → NamespacedName → Type 0
IsOnly l key = (r : MikroTikRouter) × (live_routers l ≡ r ∷ []) × (key ≡ name_of r)

resolved_injective : {a b : NamespacedName} → resolved a ≡ resolved b → a ≡ b
resolved_injective h = cc

all_match : (api : RouterApi) (l : List MikroTikRouter) → keep (matches_name api []) l ≡ l
unfolding keep list_beq
all_match api [] = refl
all_match api (r ∷ l) = ap (λ t. r ∷ t) (all_match api l)

only_match-resolved :
    (name : Text) (l : List MikroTikRouter) {key : NamespacedName}
    → only_match name l ≡ resolved key
    → (r : MikroTikRouter) × (l ≡ r ∷ []) × (key ≡ name_of r)
unfolding only_match
only_match-resolved name [] h = elim (Bool-cases (name == [])) [
  | inl e ↦ cc (rw e at h)
  | inr e ↦ cc (rw e at h)
]
only_match-resolved name (r ∷ []) h = (r, refl, resolved_injective (sym h))
only_match-resolved name (r ∷ q ∷ l) h = cc

module _ (api : RouterApi) where
  unique-resolved :
      (result : Result (List MikroTikRouter)) {key : NamespacedName}
      → unique_among api [] result ≡ resolved key
      → (l : List MikroTikRouter) × (result ≡ ok l) × IsOnly l key
  unique-resolved (err e) h = cc
  unique-resolved (ok l) h =
      let (r, at, same) = only_match-resolved [] _ h in
      (l, refl, (r, sym (all_match api (live_routers l)) ∙ at, same))

  -- What a reference that names no router stands for.
  abbrev pub IsImplicit : Text → NamespacedName → Type 0
  IsImplicit namespace key =
      (l : List MikroTikRouter) × (api.list_in namespace ≡ ok l)
      × (IsOnly l key
          ⊎ (live_routers l ≡ [])
            × ((all : List MikroTikRouter) × (api.list_all ≡ ok all) × IsOnly all key))

  only_live-resolved :
      (namespace : Text) (l live : List MikroTikRouter) {key : NamespacedName}
      → live_routers l ≡ live
      → only_live api namespace live ≡ resolved key
      → IsOnly l key
        ⊎ (live_routers l ≡ [])
          × ((all : List MikroTikRouter) × (api.list_all ≡ ok all) × IsOnly all key)
  unfolding unique_cluster_router
  only_live-resolved namespace l [] e h = inr (e, unique-resolved api.list_all h)
  only_live-resolved namespace l (r ∷ []) e h = inl (r, e, resolved_injective (sym h))
  only_live-resolved namespace l (r ∷ q ∷ live) e h = cc

  IsImplicit-resolved :
      (namespace : Text) (result : Result (List MikroTikRouter)) {key : NamespacedName}
      → api.list_in namespace ≡ result
      → implicit_key api namespace result ≡ resolved key
      → IsImplicit namespace key
  IsImplicit-resolved namespace (err e) at h = cc
  IsImplicit-resolved namespace (ok l) at h =
      (l, at, only_live-resolved namespace l (live_routers l) refl h)

  -- If a reference is blank and `resolveRouterReference` finds a router for it, the router is the
  -- only live one that the list of the namespace returns, or that list has no live router and it
  -- is the only live one that the list of the cluster returns.
  pub resolve_router_reference-IsImplicit :
      (namespace reference : Text) {key : NamespacedName}
      → trim_space reference ≡ []
      → resolve_router_reference api namespace reference ≡ resolved key
      → IsImplicit namespace key
  unfolding resolve_router_reference split_router_reference list_beq
  resolve_router_reference-IsImplicit namespace reference blank h =
      IsImplicit-resolved namespace (api.list_in namespace) refl (rw blank at h)

  claim_keys-Nodup :
      (namespace : Text) (refs keys : List Text) {out : List Text}
      → Nodup keys
      → claim_keys api namespace keys refs ≡ ok out
      → Nodup out
  unfolding claim_keys
  claim_keys-Nodup namespace [] keys {out} n h = let same : keys ≡ out = cc in subst Nodup same n
  claim_keys-Nodup namespace (ref ∷ refs) keys n h =
      elim (Result-cases (
        claim_key api (router_key_from_ref namespace ref)
          (resolve_router_reference api namespace ref))) [
            | inl (key, e) ↦
                claim_keys-Nodup namespace refs _ (kept (canonical_router_claim_key key))
                  (rw (claim_keys, e) at h)
            | inr (x, e) ↦ cc (rw (claim_keys, e) at h)
          ]
    where
      kept : (k : Text) → Nodup (if k == [] || contains k keys then keys else keys ++ (k ∷ []))
      kept k = elim (Bool-cases (k == [] || contains k keys)) [
        | inl e ↦ rw e n
        | inr e ↦ rw e (snoc-Nodup keys k (ground arith) n)
      ]

  implicit_claim-Nodup :
      (r : Resolution) {out : List Text} → implicit_claim api r ≡ ok out → Nodup out
  implicit_claim-Nodup (resolved key) {out} h =
      let same : canonical_router_claim_key key ∷ [] ≡ out = cc in subst Nodup same (refl, tt)
  implicit_claim-Nodup (ambiguous e) {out} h = let same : [] ≡ out = cc in subst Nodup same tt
  implicit_claim-Nodup unknown h = cc
  implicit_claim-Nodup (failed e) h = cc

  claims_of-Nodup :
      (namespace : Text) (refs : List Text) {out : List Text}
      → claims_of api namespace refs ≡ ok out
      → Nodup out
  claims_of-Nodup namespace [] h = implicit_claim-Nodup _ h
  claims_of-Nodup namespace (ref ∷ refs) h = claim_keys-Nodup namespace (ref ∷ refs) [] tt h

  -- If `generatedClaimRouterRefs` succeeds, it lists no router key twice.
  pub generated_claim_router_refs-Nodup :
      (namespace annotation : Text) (additional : List Text) {out : List Text}
      → generated_claim_router_refs api namespace annotation additional ≡ ok out
      → Nodup out
  unfolding generated_claim_router_refs
  generated_claim_router_refs-Nodup namespace annotation additional h =
      claims_of-Nodup namespace _ h
