-- ===== src/Cluster/Unique.antt =====
-- internal/controller/router_controller.go: the gateways of `routeGateways`.
use mikrotik_operator.Base.{
  Text, text, List, [], ◌∷◌, All, All-map, contains, Nodup, ◌==◌, nat_eq, list_eq, ◌||◌, Bool, true,
  false, Option, some, none, ok, ◌≡◌, ◌≢◌, ◌⊎◌, inl, inr, refl, ◌∙◌, sym, ap, subst, arith, eq_iff,
  Bool-cases, Option-cases, any,
}
use mikrotik_operator.Endpoints.{text_leb, insert, sort_strings}
use mikrotik_operator.Endpoints.Order.{
  text_leb_refl, text_leb_antisym, text_leb_trans, text_leb_total,
}
use mikrotik_operator.Endpoints.Targets.{contains-sort, contains-snoc}
use mikrotik_operator.Cluster.Gateways.{
  Service, Node, gather, internal_ip, append_some, unique_after, some_gateways, known_mode,
  route_gateways,
}

abbrev LeAll : Text → List Text → Type 0
LeAll s = All (λ t. text_leb s t ≡ true)

abbrev IsSorted : List Text → Type 0
IsSorted [] = Unit
IsSorted (x ∷ xs) = LeAll x xs × IsSorted xs

insert-LeAll :
    (s x : Text) (xs : List Text) → text_leb s x ≡ true → LeAll s xs → LeAll s (insert x xs)
unfolding insert
insert-LeAll s x [] h k = (h, tt)
insert-LeAll s x (y ∷ ys) h k = elim (Bool-cases (text_leb x y)) [
  | inl e ↦ rw e (h, k)
  | inr e ↦ rw e (k.0, insert-LeAll s x ys h k.1)
]

insert-IsSorted : (x : Text) (xs : List Text) → IsSorted xs → IsSorted (insert x xs)
unfolding insert
insert-IsSorted x [] h = (tt, tt)
insert-IsSorted x (y ∷ ys) h = elim (Bool-cases (text_leb x y)) [
  | inl e ↦ rw e ((e, All-map _ _ ys (λ t. text_leb_trans x y t e) h.0), h)
  | inr e ↦ rw e (insert-LeAll y x ys (text_leb_total x y e) h.0, insert-IsSorted x ys h.1)
]

sort-IsSorted : (xs : List Text) → IsSorted (sort_strings xs)
unfolding sort_strings
sort-IsSorted [] = tt
sort-IsSorted (x ∷ xs) = insert-IsSorted x (sort_strings xs) (sort-IsSorted xs)

-- What follows a text in a sorted list holds it no more, once its copies are dropped.
unique_after-without :
    (k last : Text) (xs : List Text)
    → IsSorted xs
    → LeAll last xs
    → text_leb k last ≡ true
    → contains k (unique_after (some last) xs) ≡ false
unfolding unique_after
unique_after-without k last [] s l h = refl
unique_after-without k last (x ∷ xs) s l h = elim (Bool-cases (last == x)) [
  | inl e ↦ rw e (unique_after-without k x xs s.1 s.0 (text_leb_trans k last x h l.0))
  | inr e ↦ rw e (
      both (x == k) (contains k (unique_after (some x) xs)) (other e)
        (unique_after-without k x xs s.1 s.0 (text_leb_trans k last x h l.0)))
]
  where
    both : (p q : Bool) → p ≡ false → q ≡ false → (p || q) ≡ false
    both p q a b = ground arith

    other : (last == x) ≡ false → (x == k) ≡ false
    other e = elim (Bool-cases (x == k)) [
      | inr f ↦ f
      | inl f ↦
          let same : last ≡ x =
            text_leb_antisym last x l.0
              (subst (λ t. text_leb t last ≡ true) (sym ((eq_iff x k).0 f)) h) in
          cc (e, (eq_iff last x).1 same)
    ]

unique_after-Nodup :
    (last : Text) (xs : List Text)
    → IsSorted xs
    → LeAll last xs
    → Nodup (unique_after (some last) xs)
unfolding unique_after
unique_after-Nodup last [] s l = tt
unique_after-Nodup last (x ∷ xs) s l = elim (Bool-cases (last == x)) [
  | inl e ↦ rw e (unique_after-Nodup x xs s.1 s.0)
  | inr e ↦
      rw e (unique_after-without x x xs s.1 s.0 (text_leb_refl x), unique_after-Nodup x xs s.1 s.0)
]

unique-Nodup : (xs : List Text) → IsSorted xs → Nodup (unique_after none xs)
unfolding unique_after
unique-Nodup [] s = tt
unique-Nodup (x ∷ xs) s =
    (unique_after-without x x xs s.1 s.0 (text_leb_refl x), unique_after-Nodup x xs s.1 s.0)

contains-unique_after :
    (k last : Text) (xs : List Text)
    → (last == k || contains k (unique_after (some last) xs)) ≡ (last == k || contains k xs)
unfolding unique_after
contains-unique_after k last [] = refl
contains-unique_after k last (x ∷ xs) =
    ground (arith, contains-unique_after k x xs, eq_iff last x, eq_iff x k, eq_iff last k)

contains_unique : (k : Text) (xs : List Text) → contains k (unique_after none xs) ≡ contains k xs
unfolding unique_after
contains_unique k [] = refl
contains_unique k (x ∷ xs) = contains-unique_after k x xs

some_gateways-eq-ok :
    (service : Service) (gs : List Text) {out : List Text}
    → some_gateways service gs ≡ ok out
    → (gs ≡ out) × (out ≢ [])
some_gateways-eq-ok service [] h = cc
some_gateways-eq-ok service (g ∷ gs) h = (cc, λ e. cc (h, e))

abbrev pub ip_is : Text → Option Text → Bool
ip_is k none = false
ip_is k (some g) = g == k

contains-append_some :
    (k : Text) (gs : List Text) (o : Option Text)
    → contains k (append_some gs o) ≡ (contains k gs || ip_is k o)
contains-append_some k gs none = ground arith
contains-append_some k gs (some g) = contains-snoc k g gs

contains-gather :
    (k : Text) (gs : List Text) (nodes : List Node)
    → contains k (gather false gs nodes)
      ≡ (contains k gs || any (λ n. ip_is k (internal_ip n)) nodes)
unfolding gather any
contains-gather k gs [] = ground arith
contains-gather k gs (node ∷ nodes) = ground (
  arith,
  contains-gather k (append_some gs (internal_ip node)) nodes,
  contains-append_some k gs (internal_ip node),
)

gather_single :
    (nodes : List Node)
    → (gather true [] nodes ≡ []) ⊎ ((g : Text) × (gather true [] nodes ≡ g ∷ []))
unfolding gather
gather_single [] = inl refl
gather_single (node ∷ nodes) = elim (Option-cases (internal_ip node)) [
  | inl e ↦ rw e (gather_single nodes)
  | inr (g, e) ↦ rw e (inr (g, refl))
]

route_gateways_lem :
    (service : Service) (nodes : List Node) {out : List Text}
    → route_gateways service (ok nodes) ≡ ok out
    → (out ≢ [])
      × Nodup out
      × ((service.route_mode == text "single-node") ≡ false
          → (k : Text) → contains k out ≡ any (λ n. ip_is k (internal_ip n)) nodes)
      × ((service.route_mode == text "single-node") ≡ true → (g : Text) × (out ≡ g ∷ []))
unfolding route_gateways unique_after sort_strings insert
route_gateways_lem service nodes {out} h = elim (Bool-cases (known_mode service.route_mode)) [
  | inr e ↦ cc (rw e at h)
  | inl e ↦
      let (same, some_left) = some_gateways-eq-ok service _ (rw e at h) in
      (
        some_left,
        subst Nodup same (
            unique-Nodup _
              (sort-IsSorted (gather (service.route_mode == text "single-node") [] nodes))),
        (λ f k.
            ap (contains k) (sym same) ∙ (contains_unique k _ ∙ (contains-sort k _ ∙ many f k))),
        (λ t. one _ t same some_left (gather_single nodes)),
      )
]
  where
    many :
        (service.route_mode == text "single-node") ≡ false
        → (k : Text)
        → contains k (gather (service.route_mode == text "single-node") [] nodes)
          ≡ any (λ n. ip_is k (internal_ip n)) nodes
    many f k = ap (λ b. contains k (gather b [] nodes)) f ∙ contains-gather k [] nodes

    one :
        (b : Bool)
        → b ≡ true
        → unique_after none (sort_strings (gather b [] nodes)) ≡ out
        → out ≢ []
        → (gather true [] nodes ≡ []) ⊎ ((g : Text) × (gather true [] nodes ≡ g ∷ []))
        → (g : Text) × (out ≡ g ∷ [])
    one b t same some_left (inl e) = absurd (
        some_left (
          sym same
          ∙ ap (λ l. unique_after none (sort_strings l)) (ap (λ c. gather c [] nodes) t ∙ e)))
    one b t same some_left (inr (g, e)) = (
      g,
      sym same ∙ ap (λ l. unique_after none (sort_strings l)) (ap (λ c. gather c [] nodes) t ∙ e),
    )

-- If the mode is not `single-node` and `routeGateways` succeeds on a list of nodes, it returns at
-- least one address and none twice, and an address is among them exactly if it is the first
-- internal address of some node.
pub route_gateways_all :
    (service : Service) (nodes : List Node) (k : Text) {out : List Text}
    → (service.route_mode == text "single-node") ≡ false
    → route_gateways service (ok nodes) ≡ ok out
    → (out ≢ []) × Nodup out × (contains k out ≡ any (λ n. ip_is k (internal_ip n)) nodes)
route_gateways_all service nodes k f h =
    let (some_left, apart, all, one) = route_gateways_lem service nodes h in
    (some_left, apart, all f k)
