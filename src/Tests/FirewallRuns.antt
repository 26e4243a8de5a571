-- ===== src/Tests/FirewallRuns.antt =====
-- The client's routes and firewall rules against the device in memory.
use mikrotik_operator.Base.{
  Text, text, List, [], ◌∷◌, ◌++◌, All, ◌≡◌, refl, has_prefix, any, keep, ◌==◌, nat_eq, list_eq,
  true, pos, show_int, join,
}
use mikrotik_operator.RouterOs.{Sentence, select, Same, nat, filter, route}
use mikrotik_operator.RouterOs.Memory.{Tables, memory, answer, table_of}
use mikrotik_operator.RouterOs.Memory.Lawful.{memory-IsLawful}
use mikrotik_operator.Client.{
  FirewallRule, PortForward, ensure_route, ensure_routes, ensure_port_forward, ensure_firewall_rule,
  managed_entries, route_settled, delete_matching, remove_each, when_set, when_any,
  is_managed_comment, remove_undesired, ensure_each, managed_comment_prefix_matches, nat_settled,
  nat_scan, dstnat_matches, srcnat_matches, first_ids_by_chain, first_ids, place_before_arg,
  firewall_settled, firewall_place, firewall_rule_matches, firewall_rule_precedes_unmanaged,
  chain_of, precedes_unmanaged, firewall_attributes,
}
use mikrotik_operator.Client.Spares.{Spares}
use mikrotik_operator.Client.Route.{IsRoute, ensure_route_lem, ensure_route_again}
use mikrotik_operator.Client.Routes.{route_comment, stale, ensure_routes-Spares}
use mikrotik_operator.Client.RouteSet.{ensure_routes_lem}
use mikrotik_operator.Client.Nat.{IsPair, ensure_port_forward-Spares}
use mikrotik_operator.Client.NatPair.{ensure_port_forward_lem}
use mikrotik_operator.Client.Order.{IsAhead}
use mikrotik_operator.Client.Filter.{IsRule}
use mikrotik_operator.Client.Firewall.{ensure_firewall_rule-Spares}
use mikrotik_operator.Client.Placement.{ensure_firewall_rule_lem}

firewall_runs : Unit {0}
unfolding ensure_route ensure_routes ensure_port_forward ensure_firewall_rule managed_entries
    route_settled delete_matching remove_each when_set when_any is_managed_comment remove_undesired
    ensure_each managed_comment_prefix_matches nat_settled nat_scan dstnat_matches srcnat_matches
    first_ids_by_chain first_ids place_before_arg firewall_settled firewall_place
    firewall_rule_matches firewall_rule_precedes_unmanaged chain_of precedes_unmanaged
    firewall_attributes has_prefix any keep answer show_int join
firewall_runs = tt

abbrev route_owner : Text
route_owner = text "managed-by=mikrotik-operator/route/default/lan"

abbrev stale_route : Sentence
stale_route =
    (text ".id", text "1")
    ∷ (text "dst-address", text "10.0.0.0/8")
    ∷ (text "gateway", text "192.0.2.1")
    ∷ (text "comment", route_owner ++ text "/192.0.2.1")
    ∷ []

abbrev accept_rule : Sentence
accept_rule =
    (text ".id", text "2") ∷ (text "chain", text "forward") ∷ (text "action", text "drop") ∷ []

abbrev before_runs : Tables
before_runs = record {
  dns_table = [];
  nat_table = [];
  filter_table = accept_rule ∷ [];
  route_table = stale_route ∷ [];
}

abbrev one_route : Text → Tables
one_route comment =
    (ensure_route memory (text "10.0.0.0/8") (text "192.0.2.2") (pos 5) comment before_runs).1

ensure_route_lem_example :
    (e : Sentence) × (select (λ v. v == route_owner) (table_of route (one_route route_owner))
      ≡ e ∷ [])
    × IsRoute (text "10.0.0.0/8") (text "192.0.2.2") (pos 5) e
unfolding firewall_runs
ensure_route_lem_example =
    ensure_route_lem memory memory-IsLawful (text "10.0.0.0/8") (text "192.0.2.2") (pos 5)
      route_owner tt tt (λ h. tt) (λ h. refl) before_runs refl

ensure_route_again_example :
    Same memory
      (one_route route_owner)
      (ensure_route memory
        (text "10.0.0.0/8")
        (text "192.0.2.2")
        (pos 5)
        route_owner
        (one_route route_owner)).1
unfolding firewall_runs
ensure_route_again_example =
    ensure_route_again memory memory-IsLawful (text "10.0.0.0/8") (text "192.0.2.2") (pos 5)
      route_owner tt tt (λ h. tt) (λ h. refl) before_runs refl

abbrev gateways : List Text
gateways = text "192.0.2.2" ∷ text "192.0.2.3" ∷ []

abbrev two_routes : Tables
two_routes = (ensure_routes memory (text "10.0.0.0/8") gateways route_owner before_runs).1

ensure_routes-Spares_example :
    Spares memory route (λ v. managed_comment_prefix_matches v route_owner) before_runs two_routes
ensure_routes-Spares_example =
    ensure_routes-Spares memory memory-IsLawful (text "10.0.0.0/8") gateways route_owner before_runs

ensure_routes_lem_example :
    (select
        (stale memory memory-IsLawful (text "10.0.0.0/8") gateways route_owner)
        (table_of route two_routes)
      ≡ [])
    × All
        (λ g.
          (e : Sentence) × (select
              (λ v. v == route_comment route_owner g)
              (table_of route two_routes)
            ≡ e ∷ [])
          × IsRoute (text "10.0.0.0/8") g (pos 0) e)
        gateways
unfolding firewall_runs
ensure_routes_lem_example =
    ensure_routes_lem memory memory-IsLawful (text "10.0.0.0/8") gateways route_owner tt
      (tt, (tt, tt)) before_runs refl

abbrev forward : PortForward
forward = record {
  protocol = text "tcp";
  external_port = pos 8443;
  target = text "192.0.2.10";
  target_port = pos 443;
  public_ip = text "198.51.100.4";
}

abbrev nat_owner : Text
nat_owner = text "managed-by=mikrotik-operator/portforward/default/web"

abbrev forwarded : Tables
forwarded = (ensure_port_forward memory forward nat_owner before_runs).1

ensure_port_forward_lem_example :
    IsPair forward nat_owner
      (select (λ v. managed_comment_prefix_matches v nat_owner) (table_of nat forwarded))
unfolding firewall_runs
ensure_port_forward_lem_example =
    ensure_port_forward_lem memory memory-IsLawful forward nat_owner (λ k v h. tt) (λ k v h. tt)
      before_runs refl

ensure_port_forward-Spares_example :
    Spares memory nat (λ v. managed_comment_prefix_matches v nat_owner) before_runs forwarded
ensure_port_forward-Spares_example =
    ensure_port_forward-Spares memory memory-IsLawful forward nat_owner before_runs

abbrev rule : FirewallRule
rule = record {
  chain = text "forward";
  action = text "accept";
  protocol = text "tcp";
  source_address = [];
  destination_address = text "192.0.2.10";
  source_port = [];
  destination_port = text "443";
  in_interface = [];
  out_interface = [];
  connection_state = text "new" ∷ text "established" ∷ [];
  connection_nat_state = [];
  log_prefix = [];
  place_before = true;
}

abbrev rule_owner : Text
rule_owner = text "managed-by=mikrotik-operator/firewallrule/default/web"

abbrev guarded : Tables
guarded = (ensure_firewall_rule memory rule rule_owner before_runs).1

ensure_firewall_rule_lem_example :
    (e : Sentence) × (select (λ v. v == rule_owner) (table_of filter guarded) ≡ e ∷ [])
    × IsRule rule e
    × (true ≡ true → IsAhead (text "forward") e (table_of filter guarded))
unfolding firewall_runs
ensure_firewall_rule_lem_example =
    ensure_firewall_rule_lem memory memory-IsLawful rule rule_owner (λ e. cc) (λ k v h. tt)
      before_runs refl

ensure_firewall_rule-Spares_example :
    Spares memory filter (λ v. managed_comment_prefix_matches v rule_owner) before_runs guarded
ensure_firewall_rule-Spares_example =
    ensure_firewall_rule-Spares memory memory-IsLawful rule rule_owner before_runs
