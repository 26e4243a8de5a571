-- ===== src/Client/Dns.antt =====
-- internal/routeros/client.go: `EnsureDNS`.
use mikrotik_operator.Base.{
  Text, text, List, [], ◌∷◌, map, ◌==◌, nat_eq, list_eq, Bool, true, ◌≡◌, ◌≢◌, refl, inl, inr,
  arith, ok, some, eq_refl, eq_iff,
}
use mikrotik_operator.RouterOs.{Sentence, get, lookup, select, RouterOs, IsLawful, Added, Same, dns}
use mikrotik_operator.Client.Entries.{dns_settled, dns_attributes, when_set}
use mikrotik_operator.Client.Operations.{ensure_dns}
use mikrotik_operator.Client.Spares.{Spares}
use mikrotik_operator.Client.Ensure.{ensure, ensure_cases, ensure_idle, ensure-Spares}

abbrev dns_properties : List Text
dns_properties = text "name" ∷ text "address" ∷ text "ttl" ∷ text "comment" ∷ []

-- The entry that `EnsureDNS` asks for.
pub record IsDns (name address ttl : Text) (e : Sentence) : Type 0 where
  pub named : get (text "name") e ≡ name
  pub addressed : get (text "address") e ≡ address
  pub timed : ttl ≢ [] → get (text "ttl") e ≡ ttl

module _ (R : RouterOs) (L : IsLawful R) (name address ttl comment : Text) where
  abbrev mine : Text → Bool
  mine value = value == comment

  sent : lookup (text "comment") (dns_attributes name address ttl comment) ≡ some comment
  unfolding lookup text
  sent = refl

  ensure_dns_shape :
      ensure_dns R name address ttl comment
      ≡ ensure R dns mine dns_properties
          (dns_settled name address ttl)
          (dns_attributes name address ttl comment)
  unfolding ensure_dns
  ensure_dns_shape = refl

  IsDns-settled :
      (e : Sentence)
      → IsDns name address ttl e
      → dns_settled name address ttl (R.view dns_properties e ∷ []) ≡ true
  unfolding dns_settled text
  IsDns-settled e h = ground (
    arith,
    L.view_reads (text "name") dns_properties e refl,
    L.view_reads (text "address") dns_properties e refl,
    L.view_reads (text "ttl") dns_properties e refl,
    eq_iff (get (text "name") e) name,
    eq_iff (get (text "address") e) address,
    eq_iff (get (text "ttl") e) ttl,
    eq_iff ttl [],
  )

  view_facts :
      (e : Sentence)
      → dns_settled name address ttl (R.view dns_properties e ∷ []) ≡ true
      → IsDns name address ttl e
  unfolding dns_settled text
  view_facts e h = ground (
    arith,
    L.view_reads (text "name") dns_properties e refl,
    L.view_reads (text "address") dns_properties e refl,
    L.view_reads (text "ttl") dns_properties e refl,
    eq_iff (get (text "name") (R.view dns_properties e)) name,
    eq_iff (get (text "address") (R.view dns_properties e)) address,
    eq_iff (get (text "ttl") (R.view dns_properties e)) ttl,
    eq_iff ttl [],
  )

  settled-IsDns :
      (es : List Sentence)
      → dns_settled name address ttl (map (R.view dns_properties) es) ≡ true
      → (e : Sentence) × (es ≡ e ∷ []) × IsDns name address ttl e
  unfolding dns_settled
  settled-IsDns [] h = cc
  settled-IsDns (e ∷ []) h = (e, refl, view_facts e h)
  settled-IsDns (e ∷ f ∷ es) h = cc

  -- On a device that obeys the laws of RouterOs.Defs, whether `EnsureDNS` succeeds or fails at any
  -- command, the entries of the DNS table with another comment are the same, and so are the other
  -- tables.
  pub ensure_dns-Spares :
      (s : R.State) → Spares R dns mine s (ensure_dns R name address ttl comment s).1
  unfolding ensure_dns
  ensure_dns-Spares s =
      ensure-Spares R L dns mine dns_properties (dns_settled name address ttl)
        (dns_attributes name address ttl comment) sent (eq_refl comment) s

  module _ (name_fits : R.Canonical (text "name") name)
      (address_fits : R.Canonical (text "address") address)
      (ttl_fits : ttl ≢ [] → R.Canonical (text "ttl") ttl) where
    Added-IsDns :
        {before after : List Sentence}
        (a : Added R (dns_attributes name address ttl comment) before after)
        → IsDns name address ttl a.entry
    unfolding lookup text when_set
    Added-IsDns a = record {
      named = a.stored (text "name") name refl name_fits;
      addressed = a.stored (text "address") address refl address_fits;
      timed = λ h. a.stored (text "ttl") ttl (ground (arith, eq_iff ttl [])) (ttl_fits h);
    }

    -- On a device that obeys the laws of RouterOs.Defs, if the name, the address and the TTL, when
    -- it is set, are stored as they are sent and `EnsureDNS` succeeds, the DNS table holds exactly
    -- one entry with the comment, and it has the name, the address and, when it is set, the TTL.
    pub ensure_dns_lem :
        (s : R.State) {t : R.State} {u : Unit {0}}
        → ensure_dns R name address ttl comment s ≡ (ok u, t)
        → (e : Sentence) × (select mine (R.table dns t) ≡ e ∷ []) × IsDns name address ttl e
    unfolding ensure_dns text
    ensure_dns_lem s {t} h =
        elim (ensure_cases R L dns mine dns_properties (dns_settled name address ttl)
          (dns_attributes name address ttl comment) refl sent (eq_refl comment) s h) [
            | inl (settled, same) ↦ settled-IsDns (select mine (R.table dns t)) settled
            | inr (a, alone) ↦ (a.entry, alone, Added-IsDns a)
          ]

    -- On a device that obeys the laws of RouterOs.Defs, if the name, the address and the TTL, when
    -- it is set, are stored as they are sent, `EnsureDNS` called again after it has succeeded
    -- changes no table.
    pub ensure_dns_again :
        (s : R.State) {t : R.State} {u : Unit {0}}
        → ensure_dns R name address ttl comment s ≡ (ok u, t)
        → Same R t (ensure_dns R name address ttl comment t).1
    unfolding ensure_dns text
    ensure_dns_again s {t} h =
        let (e, alone, fits) = ensure_dns_lem s h in
        ensure_idle R L dns mine dns_properties (dns_settled name address ttl)
          (dns_attributes name address ttl comment) refl t (rw alone (IsDns-settled e fits))
