-- ===== src/Tests/ClientRuns.antt =====
-- The client against the device in memory.
use mikrotik_operator.Base.{join, Text, text, [], ◌∷◌, ◌≡◌, refl, has_prefix, ◌==◌, nat_eq, list_eq}
use mikrotik_operator.RouterOs.{Sentence, select, others, Same, dns}
use mikrotik_operator.RouterOs.Memory.{Tables, memory, answer, table_of}
use mikrotik_operator.RouterOs.Memory.Lawful.{memory-IsLawful}
use mikrotik_operator.Client.{
  managed_comment, ensure_dns, ensure_route, delete_managed_configuration, managed_entries,
  dns_settled, route_settled, delete_matching, remove_each, when_set, is_managed_comment,
  managed_comment_prefix_matches,
}
use mikrotik_operator.Client.Identity.{managed_comment_identifies}
use mikrotik_operator.Client.Spares.{Spares, SparesAll}
use mikrotik_operator.Client.Dns.{IsDns, ensure_dns-Spares, ensure_dns_lem, ensure_dns_again}
use mikrotik_operator.Client.Managed.{
  delete_managed_configuration_lem, delete_managed_configuration-SparesAll,
}

-- What a run of the client computes with.
runs : Unit {0}
unfolding ensure_dns ensure_route delete_managed_configuration managed_entries dns_settled
    route_settled delete_matching remove_each when_set is_managed_comment
    managed_comment_prefix_matches has_prefix answer
runs = tt

abbrev owner : Text
owner = text "managed-by=mikrotik-operator/dns/default/web"

abbrev foreign_record : Sentence
foreign_record =
    (text ".id", text "1") ∷ (text "name", text "nas.lan") ∷ (text "address", text "192.0.2.9") ∷ []

abbrev stale_record : Sentence
stale_record =
    (text ".id", text "2")
    ∷ (text "name", text "web.lan")
    ∷ (text "address", text "192.0.2.1")
    ∷ (text "comment", owner)
    ∷ []

abbrev start : Tables
start = record {
  dns_table = foreign_record ∷ stale_record ∷ [];
  nat_table = [];
  filter_table = [];
  route_table = [];
}

abbrev after_dns : Tables
after_dns = (ensure_dns memory (text "web.lan") (text "192.0.2.7") (text "5m") owner start).1

ensure_dns_lem_example :
    (e : Sentence) × (select (λ v. v == owner) (table_of dns after_dns) ≡ e ∷ [])
    × IsDns (text "web.lan") (text "192.0.2.7") (text "5m") e
unfolding runs
ensure_dns_lem_example =
    ensure_dns_lem memory memory-IsLawful (text "web.lan") (text "192.0.2.7") (text "5m") owner tt
      tt (λ h. tt) start refl

ensure_dns_again_example :
    Same memory after_dns
      (ensure_dns memory (text "web.lan") (text "192.0.2.7") (text "5m") owner after_dns).1
unfolding runs
ensure_dns_again_example =
    ensure_dns_again memory memory-IsLawful (text "web.lan") (text "192.0.2.7") (text "5m") owner tt
      tt (λ h. tt) start refl

ensure_dns-Spares_example : Spares memory dns (λ v. v == owner) start after_dns
ensure_dns-Spares_example =
    ensure_dns-Spares memory memory-IsLawful (text "web.lan") (text "192.0.2.7") (text "5m") owner
      start

abbrev cleared : Tables
cleared = (delete_managed_configuration memory start).1

delete_managed_configuration_lem_example :
    table_of dns cleared ≡ others is_managed_comment (table_of dns start)
unfolding runs
delete_managed_configuration_lem_example =
    delete_managed_configuration_lem memory memory-IsLawful start refl dns

delete_managed_configuration-SparesAll_example : SparesAll memory is_managed_comment start cleared
delete_managed_configuration-SparesAll_example =
    delete_managed_configuration-SparesAll memory memory-IsLawful start

managed_comment_identifies_example :
    (text "dns" ≡ text "dns") × (text "default" ≡ text "default") × (text "web" ≡ text "web")
unfolding runs managed_comment join
managed_comment_identifies_example =
    managed_comment_identifies (text "managed-by=mikrotik-operator/dns/default/web/dstnat")
      (text "dns") (text "web") (text "default") (text "dns") (text "web") (text "default") refl
      refl refl refl refl refl refl refl
