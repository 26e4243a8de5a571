-- ===== src/Hostnames/Candidates.antt =====
-- internal/controller/router_controller.go: `validateGeneratedDNSCandidates`.
use mikrotik_operator.Base.{
  Text, List, [], ◌∷◌, ◌==◌, nat_eq, list_eq, if◌then◌else◌, true, false, Option, some, none, ok,
  ◌≡◌, inl, inr, refl, ◌∙◌, sym, ap, subst, arith, eq_iff, eq_refl, Bool-cases,
}
use mikrotik_operator.Endpoints.{Net}
use mikrotik_operator.Endpoints.Ownership.{In}
use mikrotik_operator.Hostnames.Defs.{
  normal_hostname, GeneratedDnsCandidate, Target, same_target, find_target, conflicts, ignored,
  target_of, validate_from, validate_generated_dns_candidates,
}

same_target_eq : (t u : Target) → same_target t u ≡ true → t ≡ u
same_target_eq ((a, b), c) ((d, e), f) h = ground (arith, eq_iff a d, eq_iff b e, eq_iff c f)

same_target_refl : (t : Target) → same_target t t ≡ true
same_target_refl ((a, b), c) = ground (arith, eq_refl a, eq_refl b, eq_refl c)

conflicts-false : (o : Option Target) (t u : Target) → conflicts o t ≡ false → o ≡ some u → u ≡ t
conflicts-false none t u h e = cc
conflicts-false (some v) t u h e =
    let same : v ≡ t = same_target_eq v t (ground arith) in
    let found : v ≡ u = cc in sym found ∙ same

module _ (net : Net) (source : Text) where
  abbrev grown : List (Text × Target) → GeneratedDnsCandidate → List (Text × Target)
  grown targets c =
      if ignored net c then targets else (normal_hostname net c.hostname, target_of net c) ∷ targets

  validate_from-rest :
      (targets : List (Text × Target)) (c : GeneratedDnsCandidate) (cs : List GeneratedDnsCandidate)
      → validate_from net source targets (c ∷ cs) ≡ ok tt
      → validate_from net source (grown targets c) cs ≡ ok tt
  unfolding validate_from
  validate_from-rest targets c cs h = ground arith

  validate_from-first :
      (targets : List (Text × Target)) (c : GeneratedDnsCandidate) (cs : List GeneratedDnsCandidate)
      → ignored net c ≡ false
      → validate_from net source targets (c ∷ cs) ≡ ok tt
      → conflicts (find_target (normal_hostname net c.hostname) targets) (target_of net c) ≡ false
  unfolding validate_from
  validate_from-first targets c cs i h = ground arith

  -- A target that is held for a hostname stays.
  find-grown :
      (targets : List (Text × Target)) (c : GeneratedDnsCandidate) (k : Text) (t : Target)
      → (ignored net c ≡ false
          → conflicts (find_target (normal_hostname net c.hostname) targets) (target_of net c)
            ≡ false)
      → find_target k targets ≡ some t
      → find_target k (grown targets c) ≡ some t
  find-grown targets c k t agree h = elim (Bool-cases (ignored net c)) [
    | inl i ↦ rw i h
    | inr i ↦ rw i (elim (Bool-cases (normal_hostname net c.hostname == k)) [
      | inl e ↦ rw e (
          ap some (
            sym (
              conflicts-false _ (target_of net c) t (agree i)
                (ap (λ x. find_target x targets) ((eq_iff _ _).0 e) ∙ h))))
      | inr e ↦ rw e h
    ])
  ]

  validate_from-agrees :
      (targets : List (Text × Target)) (cs : List GeneratedDnsCandidate) (c : GeneratedDnsCandidate)
      (t : Target)
      → validate_from net source targets cs ≡ ok tt
      → In c cs
      → ignored net c ≡ false
      → find_target (normal_hostname net c.hostname) targets ≡ some t
      → t ≡ target_of net c
  validate_from-agrees targets [] c t h m i f = elim m [ ]
  validate_from-agrees targets (x ∷ xs) c t h (inl e) i f =
      conflicts-false _ (target_of net c) t
        (subst
          (λ y.
            conflicts (find_target (normal_hostname net y.hostname) targets) (target_of net y)
            ≡ false)
          (sym e) (validate_from-first targets x xs (ap (ignored net) (sym e) ∙ i) h))
        f
  validate_from-agrees targets (x ∷ xs) c t h (inr m) i f =
      validate_from-agrees (grown targets x) xs c t (validate_from-rest targets x xs h) m i
        (find-grown targets x _ t (λ j. validate_from-first targets x xs j h) f)

  held :
      (targets : List (Text × Target)) (c : GeneratedDnsCandidate)
      → ignored net c ≡ false
      → find_target (normal_hostname net c.hostname) (grown targets c) ≡ some (target_of net c)
  held targets c i = rw (i, eq_refl (normal_hostname net c.hostname)) refl

  pairs_agree :
      (targets : List (Text × Target)) (cs : List GeneratedDnsCandidate)
      (c d : GeneratedDnsCandidate)
      → validate_from net source targets cs ≡ ok tt
      → In c cs
      → In d cs
      → ignored net c ≡ false
      → ignored net d ≡ false
      → normal_hostname net c.hostname ≡ normal_hostname net d.hostname
      → target_of net c ≡ target_of net d
  pairs_agree targets [] c d h m n i j e = elim m [ ]
  pairs_agree targets (x ∷ xs) c d h (inl m) (inl n) i j e = ap (target_of net) (m ∙ sym n)
  pairs_agree targets (x ∷ xs) c d h (inl m) (inr n) i j e =
      validate_from-agrees (grown targets x) xs d (target_of net c)
        (validate_from-rest targets x xs h) n j
        (subst
          (λ y.
            find_target (normal_hostname net d.hostname) (grown targets y) ≡ some (target_of net c))
          m
          (subst (λ k. find_target k (grown targets c) ≡ some (target_of net c)) e
            (held targets c i)))
  pairs_agree targets (x ∷ xs) c d h (inr m) (inl n) i j e = sym (
      validate_from-agrees (grown targets x) xs c (target_of net d)
        (validate_from-rest targets x xs h) m i
        (subst
          (λ y.
            find_target (normal_hostname net c.hostname) (grown targets y) ≡ some (target_of net d))
          n
          (subst (λ k. find_target k (grown targets d) ≡ some (target_of net d)) (sym e)
            (held targets d j))))
  pairs_agree targets (x ∷ xs) c d h (inr m) (inr n) i j e =
      pairs_agree (grown targets x) xs c d (validate_from-rest targets x xs h) m n i j e

-- If `validateGeneratedDNSCandidates` returns no error, two of the candidates that it does not
-- skip and whose host names have the same normal form name the same service and the same address.
pub validate_generated_dns_candidates_lem :
    (net : Net) (source : Text) (candidates : List GeneratedDnsCandidate)
    (c d : GeneratedDnsCandidate)
    → validate_generated_dns_candidates net source candidates ≡ ok tt
    → In c candidates
    → In d candidates
    → ignored net c ≡ false
    → ignored net d ≡ false
    → normal_hostname net c.hostname ≡ normal_hostname net d.hostname
    → (c.service ≡ d.service) × (c.address ≡ d.address)
unfolding validate_generated_dns_candidates
validate_generated_dns_candidates_lem net source candidates c d h m n i j e =
    let same = pairs_agree net source [] candidates c d h m n i j e in
    (ap (λ t. t.0) same, ap (λ t. t.1) same)
