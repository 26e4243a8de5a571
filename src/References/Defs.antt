-- ===== src/References/Defs.antt =====
-- References to routers.
use mikrotik_operator.Base.{
  Text, text, List, [], ◌∷◌, ◌++◌, keep, contains, ◌==◌, nat_eq, list_eq, ◌&&◌, ◌||◌, not,
  if◌then◌else◌, Bool, Option, some, none, Result, ok, err,
}
use mikrotik_operator.Strings.{trim_space, cut}
use mikrotik_operator.Endpoints.{MikroTikRouter}
use mikrotik_operator.Endpoints.Targets.{durable_router_targets}

-- A namespace and a name.
abbrev pub NamespacedName : Type 0
NamespacedName = Text × Text

abbrev pub cut_reference : Text → Option (Text × Text) → NamespacedName
cut_reference reference none = ([], reference)
cut_reference reference (some parts) = parts

unfoldable pub split_router_reference : Text → NamespacedName
split_router_reference reference =
    let trimmed = trim_space reference in
    if trimmed == [] then ([], []) else cut_reference trimmed (cut b'/' trimmed)

unfoldable pub router_ref_storage : Text → NamespacedName → Text
router_ref_storage resource_namespace (namespace, name) =
    if namespace == [] || namespace == resource_namespace then name else namespace ++ (b'/' ∷ name)

unfoldable pub router_key_from_ref : Text → Text → NamespacedName
router_key_from_ref resource_namespace reference =
    let (hint, name) = split_router_reference reference in
    if name == [] then ([], []) else (if hint == [] then resource_namespace else hint, name)

unfoldable pub canonical_router_claim_key : NamespacedName → Text
canonical_router_claim_key (namespace, name) = if name == [] then [] else namespace ++ (b'/' ∷ name)

unfoldable pub normalize_router_lookup_key : NamespacedName → NamespacedName
normalize_router_lookup_key (namespace, name) =
    let (parsed_namespace, parsed_name) = router_key_from_ref namespace name in
    if name == []
    then (namespace, name)
    else if not (parsed_name == [])
    then (parsed_namespace, parsed_name)
    else (namespace, name)

-- What a read of one router returns: `missing` is `IsNotFound`.
pub data Lookup : Type 0 where
  found : MikroTikRouter → Lookup
  missing : Lookup
  broken : Text → Lookup

-- The reads of the Kubernetes client.
pub record RouterApi : Type 0 where
  pub get : NamespacedName → Lookup
  pub list_all : Result (List MikroTikRouter)
  pub list_in : Text → Result (List MikroTikRouter)

unfoldable pub live_routers : List MikroTikRouter → List MikroTikRouter
live_routers = keep (λ r. not r.deleted)

unfoldable pub first_named : Text → List MikroTikRouter → Lookup
first_named name [] = missing
first_named name (r ∷ rs) =
    let rest = first_named name rs in if r.router_name == name then found r else rest

abbrev pub name_of : MikroTikRouter → NamespacedName
name_of r = (r.namespace, r.router_name)

pub data Resolution : Type 0 where
  resolved : NamespacedName → Resolution
  unknown : Resolution
  ambiguous : Text → Resolution
  failed : Text → Resolution

abbrev pub first_live : Text → Result (List MikroTikRouter) → Lookup
first_live name (err e) = broken e
first_live name (ok routers) = first_named name (live_routers routers)

abbrev pub several : Text
several =
    text
      "implicit router selection is invalid: multiple MikroTikRouters exist; set routerRef explicitly"

abbrev pub several_in : Text → Text
several_in namespace =
    text "implicit router selection is invalid: multiple MikroTikRouters exist in namespace "
    ++ (namespace ++ text "; set routerRef explicitly")

abbrev pub nowhere : Text
nowhere = text "implicit router selection is invalid: no MikroTikRouter exists in the cluster"

-- The end of `uniqueClusterRouter`, by the matches.
unfoldable pub only_match : Text → List MikroTikRouter → Resolution
only_match name [] = if not (name == []) then unknown else ambiguous nowhere
only_match name (r ∷ []) = resolved (name_of r)
only_match name (r ∷ q ∷ rs) = ambiguous several

module _ (api : RouterApi) where
  unfoldable pub list_mikrotik_router : NamespacedName → Lookup
  list_mikrotik_router (namespace, name) =
      if namespace == [] || name == [] then missing else first_live name (api.list_in namespace)

  abbrev pub or_listed : NamespacedName → Lookup → Lookup
  or_listed key missing = list_mikrotik_router key
  or_listed key (found r) = found r
  or_listed key (broken e) = broken e

  unfoldable pub get_mikrotik_router : NamespacedName → Lookup
  get_mikrotik_router key =
      let (namespace, name) = normalize_router_lookup_key key in
      if name == [] || contains b'/' name
      then missing
      else or_listed (namespace, name) (api.get (namespace, name))

  abbrev pub matches_name : Text → MikroTikRouter → Bool
  matches_name name r = name == [] || r.router_name == name

  abbrev pub unique_among : Text → Result (List MikroTikRouter) → Resolution
  unique_among name (err e) = failed e
  unique_among name (ok routers) = only_match name (keep (matches_name name) (live_routers routers))

  unfoldable pub unique_cluster_router : Text → Resolution
  unique_cluster_router name = unique_among name api.list_all

  -- The branches of `resolveRouterReference`.
  abbrev pub named_key : NamespacedName → Lookup → Resolution
  named_key key (found r) = resolved key
  named_key key missing = unknown
  named_key key (broken e) = failed e

  abbrev pub or_local : NamespacedName → Resolution → Resolution
  or_local local unknown = resolved local
  or_local local r = r

  abbrev pub local_key : NamespacedName → Lookup → Resolution
  local_key local (found r) = resolved local
  local_key (namespace, name) missing = or_local (namespace, name) (unique_cluster_router name)
  local_key local (broken e) = failed e

  abbrev pub only_live : Text → List MikroTikRouter → Resolution
  only_live namespace [] = unique_cluster_router []
  only_live namespace (r ∷ []) = resolved (name_of r)
  only_live namespace (r ∷ q ∷ rs) = ambiguous (several_in namespace)

  abbrev pub implicit_key : Text → Result (List MikroTikRouter) → Resolution
  implicit_key namespace (err e) = failed e
  implicit_key namespace (ok routers) = only_live namespace (live_routers routers)

  unfoldable pub resolve_router_reference : Text → Text → Resolution
  resolve_router_reference namespace reference =
      let (hint, name) = split_router_reference reference in
      if not (name == []) && not (hint == [])
      then named_key (hint, name) (get_mikrotik_router (hint, name))
      else if not (name == [])
      then local_key (namespace, name) (get_mikrotik_router (namespace, name))
      else implicit_key namespace (api.list_in namespace)

  -- The key of a reference whose router is gone or not chosen is the one that it spells.
  abbrev pub claim_key : NamespacedName → Resolution → Result NamespacedName
  claim_key spelled (resolved key) = ok key
  claim_key spelled (failed e) = err e
  claim_key spelled _ = ok spelled

  -- The loop of `generatedClaimRouterRefs` with its set `seen`, which holds the keys so far.
  unfoldable pub claim_keys : Text → List Text → List Text → Result (List Text)
  claim_keys namespace keys [] = ok keys
  claim_keys namespace keys (ref ∷ refs) =
      elim (claim_key (router_key_from_ref namespace ref)
        (resolve_router_reference namespace ref)) [
          | err e ↦ err e
          | ok key ↦
              let canonical = canonical_router_claim_key key in
              claim_keys namespace
                (if canonical == [] || contains canonical keys
                  then keys
                  else keys ++ (canonical ∷ []))
                refs
        ]

  abbrev pub implicit_claim : Resolution → Result (List Text)
  implicit_claim (resolved key) = ok (canonical_router_claim_key key ∷ [])
  implicit_claim (ambiguous e) = ok []
  implicit_claim unknown = err (text "not found")
  implicit_claim (failed e) = err e

  abbrev pub claims_of : Text → List Text → Result (List Text)
  claims_of namespace [] = implicit_claim (resolve_router_reference namespace [])
  claims_of namespace (ref ∷ refs) = claim_keys namespace [] (ref ∷ refs)

  unfoldable pub generated_claim_router_refs : Text → Text → List Text → Result (List Text)
  generated_claim_router_refs namespace annotation additional =
      claims_of namespace (durable_router_targets annotation additional)
