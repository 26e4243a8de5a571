-- ===== src/Cluster/Adds.antt =====
-- internal/controller/cluster_routes.go: the closure `add` of `desiredClusterRouteHops`.
use mikrotik_operator.Base.{
  Text, text, List, [], ◌∷◌, ◌++◌, map, map-append, contains, Nodup, ◌==◌, nat_eq, list_eq, ◌||◌,
  if◌then◌else◌, Bool, true, false, ◌≡◌, ◌≢◌, ◌⊎◌, inl, inr, refl, ◌∙◌, sym, ap, subst, arith,
  eq_iff, eq_refl, Bool-cases, list_beq,
}
use mikrotik_operator.Endpoints.Ownership.{In}
use mikrotik_operator.Endpoints.Targets.{snoc-Nodup}
use mikrotik_operator.Cluster.Hops.{
  nodes_origin, both_origins, ClusterRouteHop, merge_cluster_route_origin, Origins, keys, origin_of,
  put_origin, HopState, add_hop, add_hops,
}

abbrev pub gateways_of : List ClusterRouteHop → List Text
gateways_of = map (λ h. h.gateway)

abbrev pub is_nodal : Text → Bool
is_nodal o = o == nodes_origin || o == both_origins

contains-put :
    (k j o : Text) (m : Origins)
    → contains k (keys (put_origin j o m)) ≡ (contains k (keys m) || j == k)
unfolding put_origin
contains-put k j o [] = ground arith
contains-put k j o ((i, p) ∷ m) =
    ground (arith, contains-put k j o m, eq_iff i j, eq_iff i k, eq_iff j k)

origin_of-put :
    (k j o : Text) (m : Origins)
    → origin_of k (put_origin j o m) ≡ (if j == k then o else origin_of k m)
unfolding put_origin origin_of
origin_of-put k j o [] = refl
origin_of-put k j o ((i, p) ∷ m) =
    ground (arith, origin_of-put k j o m, eq_iff i j, eq_iff i k, eq_iff j k)

keys-put_new :
    (k o : Text) (m : Origins)
    → contains k (keys m) ≡ false
    → keys (put_origin k o m) ≡ keys m ++ (k ∷ [])
unfolding put_origin
keys-put_new k o [] h = refl
keys-put_new k o ((i, p) ∷ m) h = ground (arith, keys-put_new k o m)

keys-put_old :
    (k o : Text) (m : Origins) → contains k (keys m) ≡ true → keys (put_origin k o m) ≡ keys m
unfolding put_origin
keys-put_old k o [] h = cc
keys-put_old k o ((i, p) ∷ m) h = ground (arith, keys-put_old k o m, eq_iff i k)

-- The hops are the keys of the map, each once.
pub record IsAligned (s : HopState) : Type 0 where
  pub aligned : gateways_of s.hops ≡ keys s.seen
  pub distinct : Nodup (keys s.seen)

-- What is never lost: the gateways, and that a gateway is a node's.
pub record Grows (s t : HopState) : Type 0 where
  pub held : (k : Text) → contains k (keys s.seen) ≡ true → contains k (keys t.seen) ≡ true
  pub nodal :
      (k : Text)
      → contains k (keys s.seen) ≡ true
      → is_nodal (origin_of k s.seen) ≡ true
      → is_nodal (origin_of k t.seen) ≡ true

pub Grows-refl : (s : HopState) → Grows s s
Grows-refl s = record { held = λ k h. h; nodal = λ k h n. n }

pub Grows-trans : (s t u : HopState) → Grows s t → Grows t u → Grows s u
Grows-trans s t u a b = record {
  held = λ k h. b.held k (a.held k h);
  nodal = λ k h n. b.nodal k (a.held k h) (a.nodal k h n);
}

-- The two ways to add a gateway.
module _ (origin value : Text) (s : HopState) where
  add_hop-cases :
      value ≢ []
      → ((contains value (keys s.seen) ≡ true)
          × (add_hop origin s value ≡ record {
            hops = s.hops;
            seen =
                put_origin value
                  (merge_cluster_route_origin (origin_of value s.seen) origin)
                  s.seen;
          }))
        ⊎ ((contains value (keys s.seen) ≡ false)
            × (add_hop origin s value ≡ record {
              hops = s.hops ++ (record { gateway = value; origin = origin } ∷ []);
              seen = put_origin value origin s.seen;
            }))
  unfolding add_hop
  add_hop-cases set = elim (Bool-cases (contains value (keys s.seen))) [
    | inl e ↦ inl (e, rw (ne_test set, e) refl)
    | inr e ↦ inr (e, rw (ne_test set, e) refl)
  ]
    where
      ne_test : value ≢ [] → (value == []) ≡ false
      ne_test h = ground (arith, eq_iff value [])

  add_hop-nil : value ≡ [] → add_hop origin s value ≡ s
  unfolding add_hop
  add_hop-nil e = rw ((eq_iff value []).1 e) refl

put-Grows :
    (s : HopState) (hops : List ClusterRouteHop) (k o : Text)
    → (contains k (keys s.seen) ≡ true → is_nodal (origin_of k s.seen) ≡ true → is_nodal o ≡ true)
    → Grows s (record { hops = hops; seen = put_origin k o s.seen })
put-Grows s hops k o keeps = record {
  held = λ j h. ground (arith, contains-put j k o s.seen);
  nodal = λ j h n. elim (Bool-cases (k == j)) [
    | inl e ↦
        let same : k ≡ j = (eq_iff k j).0 e in
        rw (origin_of-put j k o s.seen, e)
          (keeps (subst (λ i. contains i (keys s.seen) ≡ true) (sym same) h)
            (subst (λ i. is_nodal (origin_of i s.seen) ≡ true) (sym same) n))
    | inr e ↦ rw (origin_of-put j k o s.seen, e) n
  ];
}

merge-nodal :
    (existing added : Text)
    → is_nodal existing ≡ true
    → is_nodal (merge_cluster_route_origin existing added) ≡ true
unfolding merge_cluster_route_origin text list_beq
merge-nodal existing added n =
    ground (arith, eq_iff existing added, eq_iff existing [], ap is_nodal)

merge-nodes : (existing : Text) → is_nodal (merge_cluster_route_origin existing nodes_origin) ≡ true
unfolding merge_cluster_route_origin text list_beq
merge-nodes existing = elim (Bool-cases (existing == [] || existing == nodes_origin)) [
  | inl e ↦ rw e refl
  | inr e ↦ rw e refl
]

-- What one addition gives.
pub record Adds (origin value : Text) (s t : HopState) : Type 0 where
  pub grows : Grows s t
  pub aligns : IsAligned s → IsAligned t
  pub added : value ≢ [] → contains value (keys t.seen) ≡ true
  pub by_node : value ≢ [] → origin ≡ nodes_origin → is_nodal (origin_of value t.seen) ≡ true

add_old :
    (origin value : Text) (s : HopState)
    → contains value (keys s.seen) ≡ true
    → Adds origin value s (record {
      hops = s.hops;
      seen = put_origin value (merge_cluster_route_origin (origin_of value s.seen) origin) s.seen;
    })
add_old origin value s old = record {
  grows = put-Grows s s.hops value _ (λ h n. merge-nodal (origin_of value s.seen) origin n);
  aligns = λ a. record {
    aligned = a.aligned ∙ sym (keys-put_old value _ s.seen old);
    distinct = subst Nodup (sym (keys-put_old value _ s.seen old)) a.distinct;
  };
  added = λ set. ground (
    arith,
    contains-put value value (merge_cluster_route_origin (origin_of value s.seen) origin) s.seen,
  );
  by_node = λ set e.
      rw
        (
          origin_of-put value value (merge_cluster_route_origin (origin_of value s.seen) origin)
              s.seen,
          eq_refl value,
          e,
        )
        (merge-nodes (origin_of value s.seen));
}

add_new :
    (origin value : Text) (s : HopState)
    → contains value (keys s.seen) ≡ false
    → Adds origin value s (record {
      hops = s.hops ++ (record { gateway = value; origin = origin } ∷ []);
      seen = put_origin value origin s.seen;
    })
unfolding text list_beq
add_new origin value s new = record {
  grows = put-Grows s _ value origin (λ h n. cc (h, new));
  aligns = λ a. record {
    aligned =
        map-append (λ h. h.gateway) s.hops _
        ∙ (ap (λ l. l ++ (value ∷ [])) a.aligned ∙ sym (keys-put_new value origin s.seen new));
    distinct =
        subst Nodup (sym (keys-put_new value origin s.seen new))
          (snoc-Nodup (keys s.seen) value new a.distinct);
  };
  added = λ set. ground (arith, contains-put value value origin s.seen, eq_refl value);
  by_node = λ set e. rw (origin_of-put value value origin s.seen, eq_refl value, e) refl;
}

add_hop-Adds : (origin value : Text) (s : HopState) → Adds origin value s (add_hop origin s value)
add_hop-Adds origin value s = elim (Bool-cases (value == [])) [
  | inl e ↦
      let same : value ≡ [] = (eq_iff value []).0 e in
      subst (Adds origin value s) (sym (add_hop-nil origin value s same)) (record {
        grows = Grows-refl s;
        aligns = λ a. a;
        added = λ set. absurd (set same);
        by_node = λ set o. absurd (set same);
      })
  | inr e ↦ elim (add_hop-cases origin value s (λ n. cc (e, (eq_iff value []).1 n))) [
    | inl (old, at) ↦ subst (Adds origin value s) (sym at) (add_old origin value s old)
    | inr (new, at) ↦ subst (Adds origin value s) (sym at) (add_new origin value s new)
  ]
]

-- What many additions give.
pub record AddsAll (origin : Text) (values : List Text) (s t : HopState) : Type 0 where
  pub grows : Grows s t
  pub aligns : IsAligned s → IsAligned t
  pub added : (v : Text) → In v values → v ≢ [] → contains v (keys t.seen) ≡ true
  pub by_node :
      (v : Text)
      → In v values
      → v ≢ []
      → origin ≡ nodes_origin
      → is_nodal (origin_of v t.seen) ≡ true

module _ (origin value : Text) (values : List Text) (s t u : HopState) (one : Adds origin value s t)
    (rest : AddsAll origin values t u) where
  cons_added : (v : Text) → In v (value ∷ values) → v ≢ [] → contains v (keys u.seen) ≡ true
  cons_added v (inl e) set =
      subst (λ w. contains w (keys u.seen) ≡ true) (sym e)
        (rest.grows.held value (one.added (λ n. set (e ∙ n))))
  cons_added v (inr m) set = rest.added v m set

  cons_by_node :
      (v : Text)
      → In v (value ∷ values)
      → v ≢ []
      → origin ≡ nodes_origin
      → is_nodal (origin_of v u.seen) ≡ true
  cons_by_node v (inl e) set o =
      subst (λ w. is_nodal (origin_of w u.seen) ≡ true) (sym e)
        (rest.grows.nodal value (one.added (λ n. set (e ∙ n))) (one.by_node (λ n. set (e ∙ n)) o))
  cons_by_node v (inr m) set o = rest.by_node v m set o

  AddsAll-cons : AddsAll origin (value ∷ values) s u
  AddsAll-cons = record {
    grows = Grows-trans s t u one.grows rest.grows;
    aligns = λ a. rest.aligns (one.aligns a);
    added = cons_added;
    by_node = cons_by_node;
  }

pub add_hops-AddsAll :
    (origin : Text) (values : List Text) (s : HopState)
    → AddsAll origin values s (add_hops origin s values)
unfolding add_hops
add_hops-AddsAll origin [] s = record {
  grows = Grows-refl s;
  aligns = λ a. a;
  added = λ v m. elim m [ ];
  by_node = λ v m. elim m [ ];
}
add_hops-AddsAll origin (value ∷ values) s =
    AddsAll-cons origin value values s (add_hop origin s value) _ (add_hop-Adds origin value s)
      (add_hops-AddsAll origin values (add_hop origin s value))
