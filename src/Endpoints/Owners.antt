-- ===== src/Endpoints/Owners.antt =====
-- Which router owns an endpoint.
use mikrotik_operator.Base.{
  Text, text, List, [], ◌∷◌, ◌++◌, map, keep, any, contains, ◌==◌, nat_eq, list_eq, not, ◌&&◌, ◌||◌,
  if◌then◌else◌, Bool, true, false, Result, ok, err, ltb,
}
use mikrotik_operator.Endpoints.Defs.{
  RouterEndpoint, MikroTikRouter, Net, endpoint_key, router_endpoints,
  router_has_durable_current_endpoints,
}

-- The order of Go's strings.
unfoldable pub text_leb : Text → Text → Bool
text_leb [] t = true
text_leb (c ∷ s) [] = false
text_leb (c ∷ s) (d ∷ t) = ltb c d || (c == d && text_leb s t)

unfoldable pub insert : Text → List Text → List Text
insert s [] = s ∷ []
insert s (t ∷ ts) = let rest = insert s ts in if text_leb s t then s ∷ t ∷ ts else t ∷ rest

-- `sort.Strings`
unfoldable pub sort_strings : List Text → List Text
sort_strings [] = []
sort_strings (s ∷ ss) = insert s (sort_strings ss)

unfoldable pub first_text : List Text → Text
first_text [] = []
first_text (s ∷ ss) = s

unfoldable pub owner_name : MikroTikRouter → Text
owner_name router = router.namespace ++ (b'/' ∷ router.router_name)

unfoldable pub same_router : MikroTikRouter → MikroTikRouter → Bool
same_router a b = a.namespace == b.namespace && a.router_name == b.router_name

module _ (net : Net) where
  unfoldable pub has_key : Text → MikroTikRouter → Bool
  has_key key candidate = any (λ e. endpoint_key net e == key) (router_endpoints candidate)

  -- The other live routers with an endpoint of the key.
  unfoldable pub rivals : MikroTikRouter → Text → List MikroTikRouter → List MikroTikRouter
  rivals router key routers =
      keep (λ c. not (c.deleted || same_router c router) && has_key key c) routers

  unfoldable pub endpoint_claimed_by_other_router :
      Result (List MikroTikRouter) → MikroTikRouter → RouterEndpoint → Result Bool
  endpoint_claimed_by_other_router (err e) router endpoint = err e
  endpoint_claimed_by_other_router (ok routers) router endpoint = ok (
      any (λ c. not (c.deleted || same_router c router) && has_key (endpoint_key net endpoint) c)
        routers)

  abbrev pub duplicate_message : MikroTikRouter → RouterEndpoint → Text
  duplicate_message router endpoint =
      text "MikroTikRouter "
      ++ (owner_name router ++ (text " has duplicate endpoint " ++ endpoint.address))

  abbrev pub owned_message : MikroTikRouter → RouterEndpoint → Text → Text
  owned_message router endpoint owner =
      text "MikroTikRouter "
      ++ (owner_name router
          ++ (text " endpoint " ++ (endpoint.address ++ (text " is owned by " ++ owner))))

  -- The loop over the endpoints, with the keys seen.
  unfoldable pub check_owners :
      MikroTikRouter → List MikroTikRouter → List Text → List RouterEndpoint → Result (Unit {0})
  check_owners router routers seen [] = ok tt
  check_owners router routers seen (endpoint ∷ endpoints) =
      let key = endpoint_key net endpoint in
      let rest = check_owners router routers (key ∷ seen) endpoints in
      let owners = sort_strings (owner_name router ∷ map owner_name (rivals router key routers)) in
      if contains key seen
      then err (duplicate_message router endpoint)
      else if not (first_text owners == owner_name router)
      then err (owned_message router endpoint (first_text owners))
      else rest

  -- The first argument is what `kube.List` returns.
  unfoldable pub ensure_router_endpoint_ownership :
      Result (List MikroTikRouter) → MikroTikRouter → Result (Unit {0})
  ensure_router_endpoint_ownership (err e) router = err e
  ensure_router_endpoint_ownership (ok routers) router =
      check_owners router routers [] (router_endpoints router)

  abbrev pub inactive_message : MikroTikRouter → Text → Text
  inactive_message router why = text "MikroTikRouter " ++ (owner_name router ++ why)

  unfoldable pub ensure_router_active :
      Result (List MikroTikRouter) → MikroTikRouter → Result (Unit {0})
  ensure_router_active listed router =
      if router.deleted
      then err (inactive_message router (text " is being deleted"))
      else if not router.finalized
      then err (inactive_message router (text " is not finalized for external cleanup"))
      else if not (router_has_durable_current_endpoints net router)
      then err (inactive_message router (text " current endpoints are not durably recorded"))
      else ensure_router_endpoint_ownership listed router
