-- ===== src/Endpoints/Defs.antt =====
-- The endpoints of a MikroTikRouter and their keys.
use mikrotik_operator.Base.{
  Text, text, List, [], ◌∷◌, map, join, keep, contains, ◌==◌, nat_eq, list_eq, not, ◌&&◌, ◌||◌,
  if◌then◌else◌, Bool, true, false, Option, some, none, ℤ, show_int, is_zero, pos,
}
use mikrotik_operator.Strings.{trim_suffix, trim_space}

-- A reference to a secret is its name.
pub record RouterEndpoint : Type 0 where
  pub name : Text
  pub address : Text
  pub port : ℤ
  pub tls : Bool
  pub credentials_secret : Text
  pub route_gateway : Text

-- What the helpers read of a router; `finalized` says that it carries the operator's finalizer.
pub record MikroTikRouter : Type 0 where
  pub namespace : Text
  pub router_name : Text
  pub deleted : Bool
  pub finalized : Bool
  pub routers : List RouterEndpoint
  pub legacy : RouterEndpoint
  pub applied_endpoints : List RouterEndpoint

-- The packages `net` and `strings`: `net.ParseIP` with `IP.String`, and `strings.ToLower`.
pub record Net : Type 0 where
  pub parse_ip : Text → Option Text
  pub to_lower : Text → Text

abbrev pub is_blank : Text → Bool
is_blank s = trim_space s == []

-- The address and the secret of a legacy router become its one endpoint.
unfoldable pub legacy_endpoints : MikroTikRouter → List RouterEndpoint
legacy_endpoints router =
    if is_blank router.legacy.address || is_blank router.legacy.credentials_secret
    then []
    else record {
      name = router.router_name;
      address = router.legacy.address;
      port = router.legacy.port;
      tls = router.legacy.tls;
      credentials_secret = router.legacy.credentials_secret;
      route_gateway = router.legacy.route_gateway;
    }
      ∷ []

abbrev pub or_else {ℓ} : {A : Type ℓ} → List A → List A → List A
or_else [] ys = ys
or_else (x ∷ xs) ys = x ∷ xs

unfoldable pub router_endpoints : MikroTikRouter → List RouterEndpoint
router_endpoints router = or_else router.routers (legacy_endpoints router)

unfoldable pub router_cleanup_endpoints : MikroTikRouter → List RouterEndpoint
router_cleanup_endpoints router =
    keep (λ e. not (is_blank e.address || is_blank e.credentials_secret))
      (or_else router.applied_endpoints (router_endpoints router))

module _ (net : Net) where
  unfoldable pub endpoint_key : RouterEndpoint → Text
  endpoint_key endpoint =
      let port =
        if is_zero endpoint.port
        then (if endpoint.tls then pos 8729 else pos 8728)
        else endpoint.port in
      let trimmed = trim_space endpoint.address in
      let address : Text = elim (net.parse_ip trimmed) [
        | some ip ↦ ip
        | none ↦ net.to_lower (trim_suffix trimmed (b'.' ∷ []))
      ] in
      join (address ∷ show_int port ∷ (if endpoint.tls then text "true" else text "false") ∷ [])
        (text "|")

  unfoldable pub keys_of : List RouterEndpoint → List Text
  keys_of = map endpoint_key

  abbrev pub all_in : List Text → List Text → Bool
  all_in [] ys = true
  all_in (x ∷ xs) ys = contains x ys && all_in xs ys

  abbrev pub is_empty : List Text → Bool
  is_empty [] = true
  is_empty (x ∷ xs) = false

  -- The two loops over the sets of keys.
  unfoldable pub router_has_durable_current_endpoints : MikroTikRouter → Bool
  router_has_durable_current_endpoints router =
      let durable = keys_of router.applied_endpoints in
      let current = keys_of (router_endpoints router) in
      if not (all_in current durable)
      then false
      else if not (all_in durable current)
      then false
      else not (is_empty current)
