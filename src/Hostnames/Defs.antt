-- ===== src/Hostnames/Defs.antt =====
-- Hostnames with a wildcard, and the candidates for generated DNS records.
use mikrotik_operator.Base.{
  Text, text, List, [], ◌∷◌, ◌++◌, length, has_prefix, ◌==◌, ltb, nat_eq, list_eq, ◌&&◌, ◌||◌, not,
  if◌then◌else◌, Bool, false, Option, some, none, Result, ok, err,
}
use mikrotik_operator.Strings.{trim_prefix, trim_suffix, has_suffix}
use mikrotik_operator.Endpoints.{Net}

unfoldable pub wildcard_hostname_matches : Text → Text → Bool
wildcard_hostname_matches pattern hostname =
    let suffix = trim_prefix pattern (b'*' ∷ []) in
    ltb (length suffix) (length hostname) && has_suffix hostname suffix

abbrev pub is_wildcard : Text → Bool
is_wildcard name = has_prefix name (b'*' ∷ b'.' ∷ [])

-- `effectiveHostnameIntersection` once both names are in lower case, without a dot at the end.
unfoldable pub intersect_normal : Text → Text → Option Text
intersect_normal a b =
    let a_suffix = trim_prefix a (b'*' ∷ []) in
    let b_suffix = trim_prefix b (b'*' ∷ []) in
    if a == b
    then some a
    else if is_wildcard a && is_wildcard b
    then (if has_suffix a_suffix b_suffix
        then some a
        else if has_suffix b_suffix a_suffix
        then some b
        else none)
    else if is_wildcard a && wildcard_hostname_matches a b
    then some b
    else if is_wildcard b && wildcard_hostname_matches b a
    then some a
    else none

unfoldable pub when_some {ℓ} : {A : Type ℓ} → Option A → List A → List A
when_some none xs = xs
when_some (some x) xs = x ∷ xs

module _ (net : Net) where
  abbrev pub normal_hostname : Text → Text
  normal_hostname name = net.to_lower (trim_suffix name (b'.' ∷ []))

  unfoldable pub effective_hostname_intersection : Text → Text → Option Text
  effective_hostname_intersection a b = intersect_normal (normal_hostname a) (normal_hostname b)

  -- The loop of `acceptedRouteHostnames`.
  unfoldable pub accepted_each : Text → List Text → List Text
  accepted_each listener [] = []
  accepted_each listener (hostname ∷ hostnames) =
      when_some (effective_hostname_intersection listener hostname)
        (accepted_each listener hostnames)

  -- A listener with no hostname is the empty text.
  unfoldable pub accepted_route_hostnames : Text → List Text → List Text
  accepted_route_hostnames [] hostnames = hostnames
  accepted_route_hostnames (c ∷ s) [] = (c ∷ s) ∷ []
  accepted_route_hostnames (c ∷ s) (h ∷ hs) = accepted_each (c ∷ s) (h ∷ hs)

-- The service is its namespace and its name.
pub record GeneratedDnsCandidate : Type 0 where
  pub child_name : Text
  pub hostname : Text
  pub service : Text × Text
  pub address : Text

-- A target: a service and an address.
abbrev pub Target : Type 0
Target = (Text × Text) × Text

abbrev pub same_target : Target → Target → Bool
same_target ((a, b), c) ((d, e), f) = a == d && b == e && c == f

abbrev pub find_target : Text → List (Text × Target) → Option Target
find_target k [] = none
find_target k ((j, t) ∷ m) = if j == k then some t else find_target k m

abbrev pub conflicts : Option Target → Target → Bool
conflicts none t = false
conflicts (some u) t = not (same_target u t)

abbrev pub target_text : Target → Text
target_text ((namespace, name), address) =
    text "Service " ++ (namespace ++ (text "/" ++ (name ++ (text " (" ++ (address ++ text ")")))))

abbrev pub ambiguity : Text → Text → Option Target → Target → Text
ambiguity source hostname none target = []
ambiguity source hostname (some previous) target =
    text "generated child configuration is ambiguous: "
    ++ (source
        ++ (text " hostname "
            ++ (hostname
                ++ (text " targets both "
                    ++ (target_text previous ++ (text " and " ++ target_text target))))))

module _ (net : Net) where
  abbrev pub ignored : GeneratedDnsCandidate → Bool
  ignored c = normal_hostname net c.hostname == [] || c.address == [] || c.address == text "None"

  abbrev pub target_of : GeneratedDnsCandidate → Target
  target_of c = (c.service, c.address)

  -- The loop of `validateGeneratedDNSCandidates`.
  unfoldable pub validate_from :
      Text → List (Text × Target) → List GeneratedDnsCandidate → Result (Unit {0})
  validate_from source targets [] = ok tt
  validate_from source targets (c ∷ cs) =
      let hostname = normal_hostname net c.hostname in
      let rest =
        validate_from source (if ignored c then targets else (hostname, target_of c) ∷ targets)
          cs in
      if ignored c
      then rest
      else if conflicts (find_target hostname targets) (target_of c)
      then err (ambiguity source hostname (find_target hostname targets) (target_of c))
      else rest

  unfoldable pub validate_generated_dns_candidates :
      Text → List GeneratedDnsCandidate → Result (Unit {0})
  validate_generated_dns_candidates source candidates = validate_from source [] candidates
