-- ===== src/Client/Filter.antt =====
-- `EnsureFirewallRule`: the attributes that it sends and compares.
use mikrotik_operator.Base.{
  Text, text, List, [], ◌∷◌, ◌++◌, join, contains, ◌==◌, nat_eq, list_eq, true, false, ◌≡◌, ◌≢◌,
  refl, ◌∙◌, sym, arith, eq_iff, eq_refl, Option, some, none,
}
use mikrotik_operator.RouterOs.{Sentence, get, lookup, RouterOs, IsLawful, Added}
use mikrotik_operator.Client.Entries.{
  FirewallRule, firewall_rule_matches, firewall_attributes, when_set, when_any,
}

abbrev pub filter_properties : List Text
filter_properties =
    text "chain"
    ∷ text "action"
    ∷ text "protocol"
    ∷ text "src-address"
    ∷ text "dst-address"
    ∷ text "src-port"
    ∷ text "dst-port"
    ∷ text "in-interface"
    ∷ text "out-interface"
    ∷ text "connection-state"
    ∷ text "connection-nat-state"
    ∷ text "log-prefix"
    ∷ text "comment"
    ∷ text ".id"
    ∷ []

-- The entry of a rule: what the rule leaves open is not said.
pub record IsRule (rule : FirewallRule) (e : Sentence) : Type 0 where
  pub chained : get (text "chain") e ≡ rule.chain
  pub acts : get (text "action") e ≡ rule.action
  pub spoken : rule.protocol ≢ [] → get (text "protocol") e ≡ rule.protocol
  pub from : rule.source_address ≢ [] → get (text "src-address") e ≡ rule.source_address
  pub to : rule.destination_address ≢ [] → get (text "dst-address") e ≡ rule.destination_address
  pub from_port : rule.source_port ≢ [] → get (text "src-port") e ≡ rule.source_port
  pub to_port : rule.destination_port ≢ [] → get (text "dst-port") e ≡ rule.destination_port
  pub enters : rule.in_interface ≢ [] → get (text "in-interface") e ≡ rule.in_interface
  pub leaves : rule.out_interface ≢ [] → get (text "out-interface") e ≡ rule.out_interface
  pub states :
      rule.connection_state ≢ []
      → get (text "connection-state") e ≡ join rule.connection_state (text ",")
  pub nat_states :
      rule.connection_nat_state ≢ []
      → get (text "connection-nat-state") e ≡ join rule.connection_nat_state (text ",")
  pub logged : rule.log_prefix ≢ [] → get (text "log-prefix") e ≡ rule.log_prefix

-- Looking up a key among the optional attributes.
skip :
    (k j v : Text) (rest : Sentence) (o : Option Text)
    → (j == k) ≡ false
    → lookup k rest ≡ o
    → lookup k (when_set j v ++ rest) ≡ o
unfolding when_set lookup
skip k j v rest o d h = ground arith

skip_any :
    (k j : Text) (vs : List Text) (rest : Sentence) (o : Option Text)
    → (j == k) ≡ false
    → lookup k rest ≡ o
    → lookup k (when_any j vs ++ rest) ≡ o
unfolding when_any lookup
skip_any k j [] rest o d h = h
skip_any k j (v ∷ vs) rest o d h = ground arith

hit_last : (k v : Text) → v ≢ [] → lookup k (when_set k v) ≡ some v
unfolding when_set lookup
hit_last k v h = ground (arith, eq_iff v [], eq_refl k)

skip_last : (k j v : Text) → (j == k) ≡ false → lookup k (when_set j v) ≡ none
unfolding when_set lookup
skip_last k j v d = ground arith

lookup-append_none :
    (k : Text) (attrs rest : Sentence)
    → lookup k attrs ≡ none
    → lookup k (attrs ++ rest) ≡ lookup k rest
unfolding lookup
lookup-append_none k [] rest h = refl
lookup-append_none k (x ∷ attrs) rest h = ground (arith, lookup-append_none k attrs rest)

lookup-append :
    (k v : Text) (attrs rest : Sentence)
    → lookup k attrs ≡ some v
    → lookup k (attrs ++ rest) ≡ some v
unfolding lookup
lookup-append k v [] rest h = cc
lookup-append k v (x ∷ attrs) rest h = ground (arith, lookup-append k v attrs rest)

hit : (k v : Text) (rest : Sentence) → v ≢ [] → lookup k (when_set k v ++ rest) ≡ some v
unfolding when_set lookup
hit k v rest h = ground (arith, eq_iff v [], eq_refl k)

hit_any :
    (k : Text) (vs : List Text) (rest : Sentence)
    → vs ≢ []
    → lookup k (when_any k vs ++ rest) ≡ some (join vs (text ","))
unfolding when_any lookup
hit_any k [] rest h = absurd (h refl)
hit_any k (v ∷ vs) rest h = ground (arith, eq_refl k)

module _ (R : RouterOs) (L : IsLawful R) (rule : FirewallRule) where
  abbrev shown : Sentence → Sentence
  shown = R.view filter_properties

  reads :
      (e : Sentence) (k v : Text)
      → contains k filter_properties ≡ true
      → (get k (shown e) == v) ≡ true
      → get k e ≡ v
  reads e k v c h = sym (L.view_reads k filter_properties e c) ∙ (eq_iff (get k (shown e)) v).0 h

  pub firewall_rule_matches-IsRule :
      (e : Sentence) → firewall_rule_matches (shown e) rule ≡ true → IsRule rule e
  unfolding firewall_rule_matches text
  firewall_rule_matches-IsRule e h = record {
    chained = reads e (text "chain") _ refl (ground arith);
    acts = reads e (text "action") _ refl (ground arith);
    spoken = λ set. reads e (text "protocol") _ refl (ground arith);
    from = λ set. reads e (text "src-address") _ refl (ground arith);
    to = λ set. reads e (text "dst-address") _ refl (ground arith);
    from_port = λ set. reads e (text "src-port") _ refl (ground arith);
    to_port = λ set. reads e (text "dst-port") _ refl (ground arith);
    enters = λ set. reads e (text "in-interface") _ refl (ground arith);
    leaves = λ set. reads e (text "out-interface") _ refl (ground arith);
    states = λ set. reads e (text "connection-state") _ refl (ground arith);
    nat_states = λ set. reads e (text "connection-nat-state") _ refl (ground arith);
    logged = λ set. reads e (text "log-prefix") _ refl (ground arith);
  }

-- Each attribute of a rule is sent if it is set.
module _ (rule : FirewallRule) (comment : Text) where
  abbrev sent : Sentence
  sent = firewall_attributes rule comment

  sent_spoken : rule.protocol ≢ [] → lookup (text "protocol") sent ≡ some rule.protocol
  unfolding firewall_attributes lookup text
  sent_spoken set = hit _ _ _ set

  sent_from : rule.source_address ≢ [] → lookup (text "src-address") sent ≡ some rule.source_address
  unfolding firewall_attributes lookup text
  sent_from set = skip _ _ _ _ _ refl (hit _ _ _ set)

  sent_to :
      rule.destination_address ≢ []
      → lookup (text "dst-address") sent ≡ some rule.destination_address
  unfolding firewall_attributes lookup text
  sent_to set = skip _ _ _ _ _ refl (skip _ _ _ _ _ refl (hit _ _ _ set))

  sent_from_port : rule.source_port ≢ [] → lookup (text "src-port") sent ≡ some rule.source_port
  unfolding firewall_attributes lookup text
  sent_from_port set =
      skip _ _ _ _ _ refl (skip _ _ _ _ _ refl (skip _ _ _ _ _ refl (hit _ _ _ set)))

  sent_to_port :
      rule.destination_port ≢ [] → lookup (text "dst-port") sent ≡ some rule.destination_port
  unfolding firewall_attributes lookup text
  sent_to_port set =
      skip _ _ _ _ _ refl
        (skip _ _ _ _ _ refl (skip _ _ _ _ _ refl (skip _ _ _ _ _ refl (hit _ _ _ set))))

  sent_enters : rule.in_interface ≢ [] → lookup (text "in-interface") sent ≡ some rule.in_interface
  unfolding firewall_attributes lookup text
  sent_enters set = skip _ _ _ _ _ refl (
      skip _ _ _ _ _ refl
        (skip _ _ _ _ _ refl (skip _ _ _ _ _ refl (skip _ _ _ _ _ refl (hit _ _ _ set)))))

  sent_leaves :
      rule.out_interface ≢ [] → lookup (text "out-interface") sent ≡ some rule.out_interface
  unfolding firewall_attributes lookup text
  sent_leaves set = skip _ _ _ _ _ refl (
      skip _ _ _ _ _ refl (
        skip _ _ _ _ _ refl
          (skip _ _ _ _ _ refl (skip _ _ _ _ _ refl (skip _ _ _ _ _ refl (hit _ _ _ set))))))

  sent_states :
      rule.connection_state ≢ []
      → lookup (text "connection-state") sent ≡ some (join rule.connection_state (text ","))
  unfolding firewall_attributes lookup text
  sent_states set = skip _ _ _ _ _ refl (
      skip _ _ _ _ _ refl (
        skip _ _ _ _ _ refl (
          skip _ _ _ _ _ refl
            (skip _ _ _ _ _ refl (skip _ _ _ _ _ refl (skip _ _ _ _ _ refl (hit_any _ _ _ set)))))))

  sent_nat_states :
      rule.connection_nat_state ≢ []
      → lookup (text "connection-nat-state") sent ≡ some (join rule.connection_nat_state (text ","))
  unfolding firewall_attributes lookup text
  sent_nat_states set = skip _ _ _ _ _ refl (
      skip _ _ _ _ _ refl (
        skip _ _ _ _ _ refl (
          skip _ _ _ _ _ refl (
            skip _ _ _ _ _ refl (
              skip _ _ _ _ _ refl
                (skip _ _ _ _ _ refl (skip_any _ _ _ _ _ refl (hit_any _ _ _ set))))))))

  sent_logged : rule.log_prefix ≢ [] → lookup (text "log-prefix") sent ≡ some rule.log_prefix
  unfolding firewall_attributes lookup text
  sent_logged set = skip _ _ _ _ _ refl (
      skip _ _ _ _ _ refl (
        skip _ _ _ _ _ refl (
          skip _ _ _ _ _ refl (
            skip _ _ _ _ _ refl (
              skip _ _ _ _ _ refl (
                skip _ _ _ _ _ refl
                  (skip_any _ _ _ _ _ refl (skip_any _ _ _ _ _ refl (hit_last _ _ set)))))))))

  unsent_place : lookup (text "place-before") sent ≡ none
  unfolding firewall_attributes lookup text
  unsent_place = skip _ _ _ _ _ refl (
      skip _ _ _ _ _ refl (
        skip _ _ _ _ _ refl (
          skip _ _ _ _ _ refl (
            skip _ _ _ _ _ refl (
              skip _ _ _ _ _ refl (
                skip _ _ _ _ _ refl
                  (skip_any _ _ _ _ _ refl (skip_any _ _ _ _ _ refl (skip_last _ _ _ refl)))))))))

  -- The place goes out as it is given.
  pub sent_place :
      (id : Text)
      → id ≢ []
      → lookup (text "place-before") (sent ++ when_set (text "place-before") id) ≡ some id
  sent_place id set = lookup-append_none _ sent _ unsent_place ∙ hit_last _ id set

module _ (R : RouterOs) (rule : FirewallRule) (comment : Text) (place : Sentence)
    (fits : (k v : Text)
      → lookup k (firewall_attributes rule comment) ≡ some v
      → R.Canonical k v) where
  kept :
      {before after : List Sentence}
      (a : Added R (firewall_attributes rule comment ++ place) before after) (k v : Text)
      → lookup k (firewall_attributes rule comment) ≡ some v
      → get k a.entry ≡ v
  kept a k v h = a.stored k v (lookup-append k v _ place h) (fits k v h)

  pub Added-IsRule :
      {before after : List Sentence}
      (a : Added R (firewall_attributes rule comment ++ place) before after)
      → IsRule rule a.entry
  unfolding firewall_attributes lookup text
  Added-IsRule a = record {
    chained = kept a (text "chain") _ refl;
    acts = kept a (text "action") _ refl;
    spoken = λ set. kept a (text "protocol") _ (sent_spoken rule comment set);
    from = λ set. kept a (text "src-address") _ (sent_from rule comment set);
    to = λ set. kept a (text "dst-address") _ (sent_to rule comment set);
    from_port = λ set. kept a (text "src-port") _ (sent_from_port rule comment set);
    to_port = λ set. kept a (text "dst-port") _ (sent_to_port rule comment set);
    enters = λ set. kept a (text "in-interface") _ (sent_enters rule comment set);
    leaves = λ set. kept a (text "out-interface") _ (sent_leaves rule comment set);
    states = λ set. kept a (text "connection-state") _ (sent_states rule comment set);
    nat_states = λ set. kept a (text "connection-nat-state") _ (sent_nat_states rule comment set);
    logged = λ set. kept a (text "log-prefix") _ (sent_logged rule comment set);
  }
