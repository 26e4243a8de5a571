-- ===== src/Client/Operations.antt =====
-- internal/routeros/client.go: the operations of `apiClient`, over any device.
use mikrotik_operator.Base.{
  Text, text, List, [], ◌∷◌, ◌++◌, map, join, keep, contains, ◌==◌, nat_eq, list_eq, not,
  if◌then◌else◌, Bool, true, false, ℤ, M, ◌>>=◌, ◌>>◌, return,
}
use mikrotik_operator.RouterOs.{Word, command, attribute, Sentence, get, RouterOs, attributes}
use mikrotik_operator.Client.Entries.{
  FirewallRule, PortForward, managed_comment_prefix_matches, is_managed_comment,
  firewall_rule_matches, firewall_attributes, first_ids, place_before_arg, chain_of,
  precedes_unmanaged, dns_settled, route_settled, nat_settled, dns_attributes, route_attributes,
  dstnat_attributes, srcnat_attributes,
}

module _ (R : RouterOs) where
  abbrev Action : Type 0
  Action = M R.State (Unit {0})

  -- `runContext` and `runArgsContext`; running out of time is one of the device's errors.
  abbrev pub run_args : List Word → Action
  run_args words = R.run words >>= λ _. return tt

  unfoldable pub managed_entries : Text → (Text → Bool) → List Text → M R.State (List Sentence)
  managed_entries print_command matches properties = do
    r ←
        R.run
          (command print_command ∷ attribute (text ".proplist") (join properties (text ",")) ∷ [])
    return (keep (λ e. matches (get (text "comment") e)) r.re)

  unfoldable pub remove_each : Text → List Sentence → Action
  remove_each remove_command [] = return tt
  remove_each remove_command (entry ∷ entries) = do
    run_args (command remove_command ∷ attribute (text ".id") (get (text ".id") entry) ∷ [])
    remove_each remove_command entries

  unfoldable pub delete_matching : Text → Text → (Text → Bool) → Action
  delete_matching print_command remove_command matches = do
    entries ← managed_entries print_command matches (text ".id" ∷ text "comment" ∷ [])
    remove_each remove_command entries

  abbrev pub delete_by_comment : Text → Text → Text → Action
  delete_by_comment print_command remove_command comment =
      delete_matching print_command remove_command (λ value. value == comment)

  abbrev pub delete_by_comment_prefix : Text → Text → Text → Action
  delete_by_comment_prefix print_command remove_command prefix =
      delete_matching print_command remove_command
        (λ value. managed_comment_prefix_matches value prefix)

  abbrev pub delete_dns : Text → Action
  delete_dns = delete_by_comment (text "/ip/dns/static/print") (text "/ip/dns/static/remove")

  abbrev pub delete_port_forward : Text → Action
  delete_port_forward =
      delete_by_comment_prefix (text "/ip/firewall/nat/print") (text "/ip/firewall/nat/remove")

  abbrev pub delete_firewall_rule : Text → Action
  delete_firewall_rule =
      delete_by_comment_prefix (text "/ip/firewall/filter/print")
        (text "/ip/firewall/filter/remove")

  abbrev pub delete_route : Text → Action
  delete_route = delete_by_comment (text "/ip/route/print") (text "/ip/route/remove")

  abbrev pub delete_routes_by_prefix : Text → Action
  delete_routes_by_prefix =
      delete_by_comment_prefix (text "/ip/route/print") (text "/ip/route/remove")

  unfoldable pub delete_managed_configuration : Action
  delete_managed_configuration = do
    delete_matching (text "/ip/dns/static/print") (text "/ip/dns/static/remove") is_managed_comment
    delete_matching (text "/ip/firewall/nat/print") (text "/ip/firewall/nat/remove")
        is_managed_comment
    delete_matching (text "/ip/firewall/filter/print") (text "/ip/firewall/filter/remove")
        is_managed_comment
    delete_matching (text "/ip/route/print") (text "/ip/route/remove") is_managed_comment

  unfoldable pub ensure_dns : Text → Text → Text → Text → Action
  ensure_dns name address ttl comment = do
    entries ←
        managed_entries (text "/ip/dns/static/print") (λ value. value == comment)
          (text "name" ∷ text "address" ∷ text "ttl" ∷ text "comment" ∷ [])
    if dns_settled name address ttl entries then return tt else do
      delete_dns comment
      run_args (
          command (text "/ip/dns/static/add")
          ∷ attributes (dns_attributes name address ttl comment))

  unfoldable pub ensure_route : Text → Text → ℤ → Text → Action
  ensure_route destination gateway distance comment = do
    entries ←
        managed_entries (text "/ip/route/print") (λ value. value == comment)
          (text "dst-address" ∷ text "gateway" ∷ text "distance" ∷ text "comment" ∷ [])
    if route_settled destination gateway distance entries then return tt else do
      delete_route comment
      run_args (
          command (text "/ip/route/add")
          ∷ attributes (route_attributes destination gateway distance comment))

  unfoldable pub remove_undesired : List Text → List Sentence → Action
  remove_undesired desired [] = return tt
  remove_undesired desired (entry ∷ entries) =
      let gone = contains (get (text "comment") entry) desired in
      let remove = run_args (
        command (text "/ip/route/remove") ∷ attribute (text ".id") (get (text ".id") entry) ∷ []) in
      (if gone then return tt else remove) >> remove_undesired desired entries

  unfoldable pub ensure_each : Text → Text → List Text → Action
  ensure_each destination prefix [] = return tt
  ensure_each destination prefix (gateway ∷ gateways) = do
    ensure_route destination gateway (ℤ.pos 0) (prefix ++ (text "/" ++ gateway))
    ensure_each destination prefix gateways

  unfoldable pub ensure_routes : Text → List Text → Text → Action
  ensure_routes destination gateways prefix = do
    entries ←
        managed_entries (text "/ip/route/print")
          (λ value. managed_comment_prefix_matches value prefix) (text ".id" ∷ text "comment" ∷ [])
    remove_undesired (map (λ gateway. prefix ++ (text "/" ++ gateway)) gateways) entries
    ensure_each destination prefix gateways

  unfoldable pub first_ids_by_chain : Text → M R.State Sentence
  first_ids_by_chain print_command = do
    entries ← managed_entries print_command (λ _. true) (text ".id" ∷ text "chain" ∷ [])
    return (first_ids [] entries)

  unfoldable pub ensure_port_forward : PortForward → Text → Action
  ensure_port_forward forward comment = do
    entries ←
        managed_entries (text "/ip/firewall/nat/print")
          (λ value. managed_comment_prefix_matches value comment)
          (text "chain"
            ∷ text "protocol"
            ∷ text "dst-port"
            ∷ text "action"
            ∷ text "to-addresses"
            ∷ text "to-ports"
            ∷ text "dst-address"
            ∷ text "comment"
            ∷ [])
    if nat_settled forward comment entries then return tt else do
      delete_port_forward comment
      first ← first_ids_by_chain (text "/ip/firewall/nat/print")
      run_args (
          command (text "/ip/firewall/nat/add")
          ∷ attributes (dstnat_attributes forward comment first))
      run_args (
          command (text "/ip/firewall/nat/add")
          ∷ attributes (srcnat_attributes forward comment first))

  unfoldable pub firewall_rule_precedes_unmanaged : Text → M R.State Bool
  firewall_rule_precedes_unmanaged id = if id == [] then return false else do
    entries ←
        managed_entries (text "/ip/firewall/filter/print") (λ _. true)
          (text ".id" ∷ text "chain" ∷ text "comment" ∷ [])
    let chain = chain_of id entries
    return (if chain == [] then false else precedes_unmanaged id chain entries)

  -- The early returns of `EnsureFirewallRule`.
  unfoldable pub firewall_settled : FirewallRule → List Sentence → M R.State Bool
  firewall_settled rule (e ∷ []) =
      if firewall_rule_matches e rule
      then if not rule.place_before
        then return true
        else firewall_rule_precedes_unmanaged (get (text ".id") e)
      else return false
  firewall_settled rule _ = return false

  unfoldable pub firewall_place : FirewallRule → M R.State Sentence
  firewall_place rule =
      if rule.place_before
      then (first_ids_by_chain (text "/ip/firewall/filter/print") >>= λ first.
          return (place_before_arg rule.chain first))
      else return []

  unfoldable pub ensure_firewall_rule : FirewallRule → Text → Action
  ensure_firewall_rule rule comment = do
    entries ←
        managed_entries (text "/ip/firewall/filter/print") (λ value. value == comment)
          (text "chain"
            ∷ text "action"
            ∷ text "protocol"
            ∷ text "src-address"
            ∷ text "dst-address"
            ∷ text "src-port"
            ∷ text "dst-port"
            ∷ text "in-interface"
            ∷ text "out-interface"
            ∷ text "connection-state"
            ∷ text "connection-nat-state"
            ∷ text "log-prefix"
            ∷ text "comment"
            ∷ text ".id"
            ∷ [])
    settled ← firewall_settled rule entries
    if settled then return tt else do
      delete_firewall_rule comment
      place ← firewall_place rule
      run_args (
          command (text "/ip/firewall/filter/add")
          ∷ attributes (firewall_attributes rule comment ++ place))
