-- ===== src/Client/Entries.antt =====
-- internal/routeros/client.go: the data that the client sends, and its tests on the entries that it
-- reads back.
use mikrotik_operator.Base.{
  Text, text, List, [], ◌∷◌, ◌++◌, map, join, has_prefix, contains, ◌==◌, nat_eq, list_eq, not,
  ◌&&◌, ◌||◌, if◌then◌else◌, Bool, true, false, ℤ, show_int, is_zero, is_positive,
}
use mikrotik_operator.RouterOs.{Sentence, get}

pub record FirewallRule : Type 0 where
  pub chain : Text
  pub action : Text
  pub protocol : Text
  pub source_address : Text
  pub destination_address : Text
  pub source_port : Text
  pub destination_port : Text
  pub in_interface : Text
  pub out_interface : Text
  pub connection_state : List Text
  pub connection_nat_state : List Text
  pub log_prefix : Text
  pub place_before : Bool

pub record PortForward : Type 0 where
  pub protocol : Text
  pub external_port : ℤ
  pub target : Text
  pub target_port : ℤ
  pub public_ip : Text

abbrev pub managed_comment_prefix : Text
managed_comment_prefix = text "managed-by=mikrotik-operator"

unfoldable pub managed_comment : Text → Text → Text → Text
managed_comment kind name namespace =
    join (text "managed-by=mikrotik-operator" ∷ kind ∷ namespace ∷ name ∷ []) (text "/")

unfoldable pub managed_comment_prefix_matches : Text → Text → Bool
managed_comment_prefix_matches value prefix =
    value == prefix || has_prefix value (prefix ++ text "/")

unfoldable pub is_managed_comment : Text → Bool
is_managed_comment value =
    value == managed_comment_prefix || has_prefix value (managed_comment_prefix ++ text "/")

-- `if v != "" { args = append(args, "=k="+v) }`
unfoldable pub when_set : Text → Text → Sentence
when_set k v = if v == [] then [] else (k, v) ∷ []

unfoldable pub when_any : Text → List Text → Sentence
when_any k [] = []
when_any k (v ∷ vs) = (k, join (v ∷ vs) (text ",")) ∷ []

unfoldable pub firewall_rule_matches : Sentence → FirewallRule → Bool
firewall_rule_matches entry rule =
    get (text "chain") entry == rule.chain
    && get (text "action") entry == rule.action
    && get (text "protocol") entry == rule.protocol
    && get (text "src-address") entry == rule.source_address
    && get (text "dst-address") entry == rule.destination_address
    && get (text "src-port") entry == rule.source_port
    && get (text "dst-port") entry == rule.destination_port
    && get (text "in-interface") entry == rule.in_interface
    && get (text "out-interface") entry == rule.out_interface
    && get (text "connection-state") entry == join rule.connection_state (text ",")
    && get (text "connection-nat-state") entry == join rule.connection_nat_state (text ",")
    && get (text "log-prefix") entry == rule.log_prefix

-- The attributes of `/ip/firewall/filter/add` but for the place.
unfoldable pub firewall_attributes : FirewallRule → Text → Sentence
firewall_attributes rule comment =
    (text "chain", rule.chain)
    ∷ (text "action", rule.action)
    ∷ (text "comment", comment)
    ∷ (when_set (text "protocol") rule.protocol
        ++ (when_set (text "src-address") rule.source_address
            ++ (when_set (text "dst-address") rule.destination_address
                ++ (when_set (text "src-port") rule.source_port
                    ++ (when_set (text "dst-port") rule.destination_port
                        ++ (when_set (text "in-interface") rule.in_interface
                            ++ (when_set (text "out-interface") rule.out_interface
                                ++ (when_any (text "connection-state") rule.connection_state
                                    ++ (when_any (text "connection-nat-state")
                                          rule.connection_nat_state
                                        ++ when_set (text "log-prefix") rule.log_prefix)))))))))

-- The loop of `firstIDsByChain`; the map's new keys go to the front.
unfoldable pub first_ids : Sentence → List Sentence → Sentence
first_ids found [] = found
first_ids found (entry ∷ entries) =
    let chain = get (text "chain") entry in
    let id = get (text ".id") entry in
    first_ids
      (if chain == [] || id == [] || contains chain (map (λ (k, _). k) found)
        then found
        else (chain, id) ∷ found)
      entries

unfoldable pub place_before_arg : Text → Sentence → Sentence
place_before_arg chain first = when_set (text "place-before") (get chain first)

-- The chain of the entry of an id, empty if there is none.
unfoldable pub chain_of : Text → List Sentence → Text
chain_of id [] = []
chain_of id (entry ∷ entries) =
    if get (text ".id") entry == id then get (text "chain") entry else chain_of id entries

-- The second loop of `firewallRulePrecedesUnmanaged`.
unfoldable pub precedes_unmanaged : Text → Text → List Sentence → Bool
precedes_unmanaged id chain [] = false
precedes_unmanaged id chain (entry ∷ entries) =
    let rest = precedes_unmanaged id chain entries in
    if not (get (text "chain") entry == chain)
    then rest
    else if get (text ".id") entry == id
    then true
    else if not (is_managed_comment (get (text "comment") entry))
    then false
    else rest

-- The early return of `EnsureDNS`.
unfoldable pub dns_settled : Text → Text → Text → List Sentence → Bool
dns_settled name address ttl (e ∷ []) =
    get (text "name") e == name
    && get (text "address") e == address
    && (ttl == [] || get (text "ttl") e == ttl)
dns_settled name address ttl _ = false

unfoldable pub route_settled : Text → Text → ℤ → List Sentence → Bool
route_settled destination gateway distance (e ∷ []) =
    get (text "dst-address") e == destination
    && get (text "gateway") e == gateway
    && (is_zero distance || get (text "distance") e == show_int distance)
route_settled destination gateway distance _ = false

unfoldable pub dstnat_matches : Sentence → PortForward → Bool
dstnat_matches entry forward =
    get (text "chain") entry == text "dstnat"
    && get (text "protocol") entry == forward.protocol
    && get (text "dst-port") entry == show_int forward.external_port
    && get (text "action") entry == text "dst-nat"
    && get (text "to-addresses") entry == forward.target
    && get (text "to-ports") entry == show_int forward.target_port
    && get (text "dst-address") entry == forward.public_ip

unfoldable pub srcnat_matches : Sentence → PortForward → Bool
srcnat_matches entry forward =
    get (text "chain") entry == text "srcnat"
    && get (text "dst-address") entry == forward.target
    && get (text "action") entry == text "masquerade"

-- The loop of `EnsurePortForward` over the entries, with `dstOK` and `srcOK`.
unfoldable pub nat_scan : PortForward → Text → Bool → Bool → List Sentence → Bool × Bool
nat_scan forward comment dst_ok src_ok [] = (dst_ok, src_ok)
nat_scan forward comment dst_ok src_ok (entry ∷ entries) =
    let c = get (text "comment") entry in
    let is_dst = c == comment ++ text "/dstnat" in
    let is_src = c == comment ++ text "/srcnat" in
    nat_scan forward comment (if is_dst then dstnat_matches entry forward else dst_ok)
      (if is_dst then src_ok else if is_src then srcnat_matches entry forward else src_ok) entries

unfoldable pub nat_settled : PortForward → Text → List Sentence → Bool
nat_settled forward comment (e ∷ f ∷ []) =
    let (dst_ok, src_ok) = nat_scan forward comment false false (e ∷ f ∷ []) in dst_ok && src_ok
nat_settled forward comment _ = false

abbrev pub dns_attributes : Text → Text → Text → Text → Sentence
dns_attributes name address ttl comment =
    (text "name", name)
    ∷ (text "address", address)
    ∷ (text "comment", comment)
    ∷ when_set (text "ttl") ttl

abbrev pub route_attributes : Text → Text → ℤ → Text → Sentence
route_attributes destination gateway distance comment =
    (text "dst-address", destination)
    ∷ (text "gateway", gateway)
    ∷ (text "comment", comment)
    ∷ (if is_positive distance then (text "distance", show_int distance) ∷ [] else [])

abbrev pub dstnat_attributes : PortForward → Text → Sentence → Sentence
dstnat_attributes forward comment first =
    (text "chain", text "dstnat")
    ∷ (text "protocol", forward.protocol)
    ∷ (text "dst-port", show_int forward.external_port)
    ∷ (text "action", text "dst-nat")
    ∷ (text "to-addresses", forward.target)
    ∷ (text "to-ports", show_int forward.target_port)
    ∷ (text "comment", comment ++ text "/dstnat")
    ∷ (when_set (text "dst-address") forward.public_ip ++ place_before_arg (text "dstnat") first)

abbrev pub srcnat_attributes : PortForward → Text → Sentence → Sentence
srcnat_attributes forward comment first =
    (text "chain", text "srcnat")
    ∷ (text "dst-address", forward.target)
    ∷ (text "action", text "masquerade")
    ∷ (text "comment", comment ++ text "/srcnat")
    ∷ place_before_arg (text "srcnat") first
