-- ===== src/Hostnames/Meets.antt =====
-- internal/controller/router_controller.go: `effectiveHostnameIntersection` and `acceptedRouteHostnames`.
use mikrotik_operator.Base.{
  Text, List, [], ◌∷◌, any, ◌==◌, nat_eq, list_eq, ◌&&◌, ◌||◌, if◌then◌else◌, Bool, true, false,
  Option, some, none, ◌≡◌, ◌≢◌, ◌⊎◌, inl, inr, refl, ◌∙◌, sym, ap, arith, eq_iff, Bool-cases,
}
use mikrotik_operator.Strings.{trim_prefix, has_suffix}
use mikrotik_operator.Endpoints.{Net}
use mikrotik_operator.Hostnames.Defs.{
  wildcard_hostname_matches, is_wildcard, intersect_normal, effective_hostname_intersection,
  normal_hostname, when_some, accepted_each, accepted_route_hostnames,
}
use mikrotik_operator.Hostnames.Suffixes.{has_suffix_trans, has_suffix_total, has_suffix-length}

-- The hosts that a name stands for.
abbrev pub covers : Text → Text → Bool
covers name host = if is_wildcard name then wildcard_hostname_matches name host else name == host

abbrev pub covers_some : Option Text → Text → Bool
covers_some none host = false
covers_some (some name) host = covers name host

wildcard_trans :
    (a b host : Text)
    → has_suffix (trim_prefix a (b'*' ∷ [])) (trim_prefix b (b'*' ∷ [])) ≡ true
    → wildcard_hostname_matches a host ≡ true
    → wildcard_hostname_matches b host ≡ true
unfolding wildcard_hostname_matches
wildcard_trans a b host h k = ground (
  arith,
  has_suffix_trans host (trim_prefix a (b'*' ∷ [])) (trim_prefix b (b'*' ∷ [])),
  has_suffix-length (trim_prefix a (b'*' ∷ [])) (trim_prefix b (b'*' ∷ [])),
)

wildcard_total :
    (a b host : Text)
    → wildcard_hostname_matches a host ≡ true
    → wildcard_hostname_matches b host ≡ true
    → (has_suffix (trim_prefix a (b'*' ∷ [])) (trim_prefix b (b'*' ∷ [])) ≡ true)
      ⊎ (has_suffix (trim_prefix b (b'*' ∷ [])) (trim_prefix a (b'*' ∷ [])) ≡ true)
unfolding wildcard_hostname_matches
wildcard_total a b host h k =
    has_suffix_total host (trim_prefix a (b'*' ∷ [])) (trim_prefix b (b'*' ∷ [])) (ground arith)
      (ground arith)

and_self : (p : Bool) → p ≡ (p && p)
and_self p = ground arith

-- The two names stand for hosts: what a choice between them stands for, from the tests alone.
both_wild :
    (s t p q : Bool)
    → (s ≡ true → p ≡ true → q ≡ true)
    → (t ≡ true → q ≡ true → p ≡ true)
    → (p ≡ true → q ≡ true → (s ≡ true) ⊎ (t ≡ true))
    → (if s then p else if t then q else false) ≡ (p && q)
both_wild s t p q f g h = ground arith

one_wild : (m p e : Bool) → (e ≡ true → p ≡ m) → (if m then e else false) ≡ (p && e)
one_wild m p e h = ground arith

covers-if :
    (b : Bool) (x y : Option Text) (host : Text)
    → covers_some (if b then x else y) host ≡ (if b then covers_some x host else covers_some y host)
covers-if true x y host = refl
covers-if false x y host = refl

and_comm : (p q : Bool) → (p && q) ≡ (q && p)
and_comm p q = ground arith

apart : (a b host : Text) → (a == b) ≡ false → false ≡ (a == host && b == host)
apart a b host e = ground (arith, eq_iff a b, eq_iff a host, eq_iff b host)

with_one :
    (a b host : Text)
    → is_wildcard b ≡ false
    → covers_some (if wildcard_hostname_matches a b then some b else none) host
      ≡ (wildcard_hostname_matches a host && b == host)
with_one a b host wb =
    covers-if (wildcard_hostname_matches a b) (some b) none host
    ∙ (ap (λ t. if wildcard_hostname_matches a b then t else false) (rw wb refl)
        ∙ one_wild (wildcard_hostname_matches a b) (wildcard_hostname_matches a host) (b == host)
            (λ q. ap (wildcard_hostname_matches a) (sym ((eq_iff b host).0 q))))

intersect_normal-covers :
    (a b host : Text) → covers_some (intersect_normal a b) host ≡ (covers a host && covers b host)
unfolding intersect_normal
intersect_normal-covers a b host = elim (Bool-cases (a == b)) [
  | inl e ↦
      rw e (and_self (covers a host) ∙ ap (λ t. covers a host && covers t host) ((eq_iff a b).0 e))
  | inr e ↦ rw e (elim (Bool-cases (is_wildcard a)) [
    | inl wa ↦ elim (Bool-cases (is_wildcard b)) [
      | inl wb ↦
          rw (wa, wb)
            (ground
              (arith, wildcard_trans a b host, wildcard_trans b a host, wildcard_total a b host))
      | inr wb ↦ rw (wa, wb) (with_one a b host wb)
    ]
    | inr wa ↦ elim (Bool-cases (is_wildcard b)) [
      | inl wb ↦
          rw (wa, wb)
            (with_one b a host wa ∙ and_comm (wildcard_hostname_matches b host) (a == host))
      | inr wb ↦ rw (wa, wb) (apart a b host e)
    ]
  ])
]

-- The host names that the result of `effectiveHostnameIntersection` covers, none if it has none,
-- are those that both of its arguments cover once they are in normal form; a name covers itself,
-- and a name that starts with `*.` covers what ends with the rest of it and is longer.
pub effective_hostname_intersection-covers :
    (net : Net) (a b host : Text)
    → covers_some (effective_hostname_intersection net a b) host
      ≡ (covers (normal_hostname net a) host && covers (normal_hostname net b) host)
unfolding effective_hostname_intersection
effective_hostname_intersection-covers net a b host = intersect_normal-covers _ _ host

any-when_some :
    (p : Text → Bool) (o : Option Text) (xs : List Text)
    → any p (when_some o xs) ≡ ((elim o [ none ↦ false | some x ↦ p x ]) || any p xs)
unfolding any when_some
any-when_some p none xs = refl
any-when_some p (some x) xs = refl

accepted_each-covers :
    (net : Net) (listener host : Text) (hostnames : List Text)
    → any (λ name. covers name host) (accepted_each net listener hostnames) ≡ (
        covers (normal_hostname net listener) host
        && any (λ name. covers (normal_hostname net name) host) hostnames)
unfolding accepted_each any
accepted_each-covers net listener host [] = ground arith
accepted_each-covers net listener host (h ∷ hs) =
    split_one (effective_hostname_intersection net listener h)
      (covers (normal_hostname net listener) host) (covers (normal_hostname net h) host)
      (any (λ name. covers (normal_hostname net name) host) hs)
      (effective_hostname_intersection-covers net listener h host)
      (accepted_each-covers net listener host hs)
  where
    split_one :
        (o : Option Text) (p q r : Bool)
        → covers_some o host ≡ (p && q)
        → any (λ name. covers name host) (accepted_each net listener hs) ≡ (p && r)
        → any (λ name. covers name host) (when_some o (accepted_each net listener hs))
          ≡ (p && (q || r))
    split_one none p q r e f =
        ground
          (arith, any-when_some (λ name. covers name host) none (accepted_each net listener hs))
    split_one (some x) p q r e f =
        ground
          (arith, any-when_some (λ name. covers name host) (some x) (accepted_each net listener hs))

-- If neither the listener's host name nor the list of the route's is empty, the names that
-- `acceptedRouteHostnames` returns cover exactly the host names that the listener's name covers
-- and one of the route's covers too, all in normal form.
pub accepted_route_hostnames-covers :
    (net : Net) (listener host : Text) (hostnames : List Text)
    → listener ≢ []
    → hostnames ≢ []
    → any (λ name. covers name host) (accepted_route_hostnames net listener hostnames) ≡ (
        covers (normal_hostname net listener) host
        && any (λ name. covers (normal_hostname net name) host) hostnames)
unfolding accepted_route_hostnames
accepted_route_hostnames-covers net [] host hostnames h k = absurd (h refl)
accepted_route_hostnames-covers net (c ∷ s) host [] h k = absurd (k refl)
accepted_route_hostnames-covers net (c ∷ s) host (x ∷ xs) h k =
    accepted_each-covers net (c ∷ s) host (x ∷ xs)
