-- ===== src/Tests/HostnameRuns.antt =====
-- Wildcards and generated records.
use mikrotik_operator.Base.{
  ◌&&◌, Text, text, List, [], ◌∷◌, ◌≡◌, refl, inl, inr, none, some, any, has_prefix, nat_eq,
  list_eq,
}
use mikrotik_operator.Strings.{trim_suffix, trim_prefix, has_suffix}
use mikrotik_operator.Endpoints.{Net}
use mikrotik_operator.Hostnames.{
  wildcard_hostname_matches, intersect_normal, when_some, normal_hostname,
  effective_hostname_intersection, accepted_each, accepted_route_hostnames, GeneratedDnsCandidate,
  validate_from, validate_generated_dns_candidates,
}
use mikrotik_operator.Hostnames.Meets.{
  covers, effective_hostname_intersection-covers, accepted_route_hostnames-covers, covers_some,
}
use mikrotik_operator.Hostnames.Candidates.{validate_generated_dns_candidates_lem}

hostname_runs : Unit {0}
unfolding trim_suffix trim_prefix has_suffix wildcard_hostname_matches intersect_normal when_some
    effective_hostname_intersection accepted_each accepted_route_hostnames validate_from
    validate_generated_dns_candidates has_prefix text any
hostname_runs = tt

abbrev lower_net : Net
lower_net = record { parse_ip = λ s. none; to_lower = λ s. s }

meet_of_wildcards :
    effective_hostname_intersection lower_net (text "*.example.com.") (text "*.a.example.com")
    ≡ some (text "*.a.example.com")
unfolding hostname_runs
meet_of_wildcards = refl

effective_hostname_intersection-covers_example :
    covers_some
      (effective_hostname_intersection lower_net (text "*.b.c") (text "a.b.c."))
      (text "a.b.c")
    ≡ (covers (normal_hostname lower_net (text "*.b.c")) (text "a.b.c")
        && covers (normal_hostname lower_net (text "a.b.c.")) (text "a.b.c"))
effective_hostname_intersection-covers_example =
    effective_hostname_intersection-covers lower_net (text "*.b.c") (text "a.b.c.") (text "a.b.c")

accepted_route_hostnames-covers_example :
    any
      (λ name. covers name (text "a.b"))
      (accepted_route_hostnames lower_net (text "*.b") (text "a.b" ∷ text "d" ∷ []))
    ≡ (covers (normal_hostname lower_net (text "*.b")) (text "a.b")
        && any
            (λ name. covers (normal_hostname lower_net name) (text "a.b"))
            (text "a.b" ∷ text "d" ∷ []))
unfolding hostname_runs
accepted_route_hostnames-covers_example =
    accepted_route_hostnames-covers lower_net (text "*.b") (text "a.b") (text "a.b" ∷ text "d" ∷ [])
      (λ e. cc) (λ e. cc)

abbrev candidate_at : Text → Text → GeneratedDnsCandidate
candidate_at child hostname = record {
  child_name = child;
  hostname = hostname;
  service = (text "default", text "web");
  address = text "10.0.0.1";
}

abbrev two_candidates : List GeneratedDnsCandidate
two_candidates =
    candidate_at (text "a") (text "web.b") ∷ candidate_at (text "b") (text "web.b.") ∷ []

validate_generated_dns_candidates_lem_example :
    ((candidate_at (text "a") (text "web.b")).service
      ≡ (candidate_at (text "b") (text "web.b.")).service)
    × (text "10.0.0.1" ≡ text "10.0.0.1")
unfolding hostname_runs
validate_generated_dns_candidates_lem_example =
    validate_generated_dns_candidates_lem lower_net (text "Ingress default/web") two_candidates
      (candidate_at (text "a") (text "web.b")) (candidate_at (text "b") (text "web.b.")) refl
      (inl refl) (inr (inl refl)) refl refl refl
