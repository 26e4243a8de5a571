-- ===== src/OwnedRoutes/Memory.antt =====
-- A server in memory: an object stands in front of its older versions, which it hides.
use mikrotik_operator.Base.{
  Text, List, [], ◌∷◌, keep, ◌==◌, nat_eq, list_eq, ◌&&◌, not, if◌then◌else◌, Bool, true, false,
  Option, some, none, ok, ◌≡◌, ◌≢◌, inl, inr, refl, sym, ap, ◌∙◌, arith, subst, result_injective,
  eq_iff, eq_refl, Bool-cases, Option-cases,
}
use mikrotik_operator.Endpoints.Ownership.{In}
use mikrotik_operator.OwnedRoutes.Api.{
  MikroTikRoute, Read, got, not_there, Answer, done, absent, present, Kube,
}
use mikrotik_operator.OwnedRoutes.Laws.{IsElsewhere, IsLawful, IsGone}

abbrev Store : Type 0
Store = List MikroTikRoute

abbrev is_at : Text → Text → MikroTikRoute → Bool
is_at ns n r = r.namespace == ns && r.route_name == n

abbrev find_route : Store → Text → Text → Option MikroTikRoute
find_route [] ns n = none
find_route (r ∷ s) ns n = if is_at ns n r then some r else find_route s ns n

abbrev add_some : Option MikroTikRoute → Store → Store
add_some none l = l
add_some (some r) l = r ∷ l

abbrev list_each : Store → Text → Store → Store
list_each s ns [] = []
list_each s ns (r ∷ l) =
    let rest = list_each s ns l in
    if r.namespace == ns then add_some (find_route s ns r.route_name) rest else rest

abbrev read_of : Option MikroTikRoute → Read
read_of none = not_there
read_of (some r) = got r

abbrev create_by : Option MikroTikRoute → Store → MikroTikRoute → Answer × Store
create_by none s r = (done, r ∷ s)
create_by (some x) s r = (present, s)

abbrev update_by : Option MikroTikRoute → Store → MikroTikRoute → Answer × Store
update_by none s r = (absent, s)
update_by (some x) s r = (done, r ∷ s)

abbrev delete_by : Option MikroTikRoute → Store → MikroTikRoute → Answer × Store
delete_by none s r = (absent, s)
delete_by (some x) s r = (done, keep (λ q. not (is_at r.namespace r.route_name q)) s)

abbrev controlled : Text → MikroTikRoute → MikroTikRoute
controlled owner r = record {
  namespace = r.namespace;
  route_name = r.route_name;
  controller = some owner;
  source = r.source;
  origin = r.origin;
  router_ref = r.router_ref;
  destination = r.destination;
  gateway = r.gateway;
  deleted = r.deleted;
}

abbrev pub memory : Kube
memory = record {
  State = Store;
  stored = find_route;
  list = λ s ns. ok (list_each s ns s);
  get = λ s ns n. read_of (find_route s ns n);
  create = λ s r. create_by (find_route s r.namespace r.route_name) s r;
  update = λ s r. update_by (find_route s r.namespace r.route_name) s r;
  delete = λ s r. delete_by (find_route s r.namespace r.route_name) s r;
  set_controller_reference = λ owner r. ok (controlled owner r);
}

find_route-keyed :
    (s : Store) (ns n : Text) (r : MikroTikRoute)
    → find_route s ns n ≡ some r
    → (r.namespace ≡ ns) × (r.route_name ≡ n)
find_route-keyed [] ns n r h = cc
find_route-keyed (q ∷ s) ns n r h = elim (Bool-cases (is_at ns n q)) [
  | inl e ↦
      let same : q ≡ r = cc (rw e at h) in
      (
        ap (λ x. x.namespace) (sym same) ∙ (eq_iff q.namespace ns).0 (ground arith),
        ap (λ x. x.route_name) (sym same) ∙ (eq_iff q.route_name n).0 (ground arith),
      )
  | inr e ↦ find_route-keyed s ns n r (rw e at h)
]

find_route-first :
    (s : Store) (r : MikroTikRoute) → find_route (r ∷ s) r.namespace r.route_name ≡ some r
find_route-first s r = rw (eq_refl r.namespace, eq_refl r.route_name)

not_at : (r : MikroTikRoute) (ns n : Text) → IsElsewhere r ns n → is_at ns n r ≡ false
not_at r ns n d = elim (Bool-cases (is_at ns n r)) [
  | inr e ↦ e
  | inl e ↦
      absurd
        (d ((eq_iff r.namespace ns).0 (ground arith)) ((eq_iff r.route_name n).0 (ground arith)))
]

find_route-elsewhere :
    (s : Store) (r : MikroTikRoute) (ns n : Text)
    → IsElsewhere r ns n
    → find_route (r ∷ s) ns n ≡ find_route s ns n
find_route-elsewhere s r ns n d = rw (not_at r ns n d)

find_route-keep :
    (s : Store) (ns n : Text) → find_route (keep (λ q. not (is_at ns n q)) s) ns n ≡ none
unfolding keep
find_route-keep [] ns n = refl
find_route-keep (q ∷ s) ns n = elim (Bool-cases (is_at ns n q)) [
  | inl e ↦ rw e (find_route-keep s ns n)
  | inr e ↦ rw (e, e) (find_route-keep s ns n)
]

find_route-keep_elsewhere :
    (s : Store) (r : MikroTikRoute) (ns n : Text)
    → IsElsewhere r ns n
    → find_route (keep (λ q. not (is_at r.namespace r.route_name q)) s) ns n ≡ find_route s ns n
unfolding keep
find_route-keep_elsewhere [] r ns n d = refl
find_route-keep_elsewhere (q ∷ s) r ns n d = elim (Bool-cases (is_at r.namespace r.route_name q)) [
  | inr e ↦
      rw e (ap (λ o. if is_at ns n q then some q else o) (find_route-keep_elsewhere s r ns n d))
  | inl e ↦
      rw (e, not_at q ns n (λ a b. d (sym (at_ns e) ∙ a) (sym (at_name e) ∙ b)))
        (find_route-keep_elsewhere s r ns n d)
]
  where
    at_ns : is_at r.namespace r.route_name q ≡ true → q.namespace ≡ r.namespace
    at_ns e = (eq_iff q.namespace r.namespace).0 (ground arith)

    at_name : is_at r.namespace r.route_name q ≡ true → q.route_name ≡ r.route_name
    at_name e = (eq_iff q.route_name r.route_name).0 (ground arith)

list_each-listed :
    (s : Store) (ns : Text) (l : Store) (r : MikroTikRoute)
    → In r (list_each s ns l)
    → find_route s ns r.route_name ≡ some r
list_each-listed s ns [] r m = elim m [ ]
list_each-listed s ns (q ∷ l) r m = elim (Bool-cases (q.namespace == ns)) [
  | inr e ↦ list_each-listed s ns l r (rw e at m)
  | inl e ↦ elim (Option-cases (find_route s ns q.route_name)) [
    | inl f ↦ list_each-listed s ns l r (rw (e, f) at m)
    | inr (x, f) ↦ elim (rw (e, f) at m) [
      | inl same ↦
          ap (λ y. find_route s ns y.route_name) same
          ∙ (ap (find_route s ns) (find_route-keyed s ns q.route_name x f).1
              ∙ (f ∙ ap some (sym same)))
      | inr k ↦ list_each-listed s ns l r k
    ]
  ]
]

list_each_complete :
    (s : Store) (ns n : Text) (l : Store) (y r : MikroTikRoute)
    → find_route l ns n ≡ some y
    → find_route s ns n ≡ some r
    → In r (list_each s ns l)
list_each_complete s ns n [] y r a h = cc
list_each_complete s ns n (q ∷ l) y r a h = elim (Bool-cases (is_at ns n q)) [
  | inl e ↦
      let there : (q.namespace == ns) ≡ true = ground arith in
      let name : q.route_name ≡ n = (eq_iff q.route_name n).0 (ground arith) in
      rw (there, ap (find_route s ns) name ∙ h) (inl refl)
  | inr e ↦
      let rest = list_each_complete s ns n l y r (rw e at a) h in
      elim (Bool-cases (q.namespace == ns)) [
        | inr f ↦ rw f rest
        | inl f ↦ elim (Option-cases (find_route s ns q.route_name)) [
          | inl g ↦ rw (f, g) rest
          | inr (x, g) ↦ rw (f, g) (inr rest)
        ]
      ]
]

module _ (s : Store) (r : MikroTikRoute) where
  created_at :
      (o : Option MikroTikRoute)
      → find_route s r.namespace r.route_name ≡ o
      → (create_by o s r).0 ≡ done
      → find_route (create_by o s r).1 r.namespace r.route_name ≡ some r
  created_at none f h = find_route-first s r
  created_at (some x) f h = cc

  created_present : (o : Option MikroTikRoute) → (create_by o s r).0 ≡ present → o ≢ none
  created_present none h = cc
  created_present (some x) h = λ e. cc

  created_old :
      (o : Option MikroTikRoute) (x : MikroTikRoute)
      → find_route s r.namespace r.route_name ≡ o
      → o ≡ some x
      → find_route (create_by o s r).1 r.namespace r.route_name ≡ some x
  created_old none x f e = cc
  created_old (some y) x f e = f ∙ e

  created_elsewhere :
      (o : Option MikroTikRoute) (ns n : Text)
      → IsElsewhere r ns n
      → find_route (create_by o s r).1 ns n ≡ find_route s ns n
  created_elsewhere none ns n d = find_route-elsewhere s r ns n d
  created_elsewhere (some y) ns n d = refl

  updated_at :
      (o : Option MikroTikRoute)
      → (update_by o s r).0 ≡ done
      → find_route (update_by o s r).1 r.namespace r.route_name ≡ some r
  updated_at none h = cc
  updated_at (some x) h = find_route-first s r

  updated_elsewhere :
      (o : Option MikroTikRoute) (ns n : Text)
      → IsElsewhere r ns n
      → find_route (update_by o s r).1 ns n ≡ find_route s ns n
  updated_elsewhere none ns n d = refl
  updated_elsewhere (some y) ns n d = find_route-elsewhere s r ns n d

  deleted_at :
      (o : Option MikroTikRoute)
      → (delete_by o s r).0 ≡ done
      → IsGone (find_route (delete_by o s r).1 r.namespace r.route_name)
  deleted_at none h = cc
  deleted_at (some x) h = rw (find_route-keep s r.namespace r.route_name) tt

  deleted_absent :
      (o : Option MikroTikRoute)
      → find_route s r.namespace r.route_name ≡ o
      → (delete_by o s r).0 ≡ absent
      → find_route (delete_by o s r).1 r.namespace r.route_name ≡ none
  deleted_absent none f h = f
  deleted_absent (some x) f h = cc

  deleted_elsewhere :
      (o : Option MikroTikRoute) (ns n : Text)
      → IsElsewhere r ns n
      → find_route (delete_by o s r).1 ns n ≡ find_route s ns n
  deleted_elsewhere none ns n d = refl
  deleted_elsewhere (some y) ns n d = find_route-keep_elsewhere s r ns n d

read_got : (o : Option MikroTikRoute) (r : MikroTikRoute) → read_of o ≡ got r → o ≡ some r
read_got none r h = cc
read_got (some x) r h = cc

pub memory-IsLawful : IsLawful memory
memory-IsLawful = record {
  keyed = find_route-keyed;
  get_got = λ s ns n r h. read_got _ r h;
  listed = λ s ns l r g m. list_each-listed s ns s r (subst (In r) (sym (result_injective g)) m);
  list_complete =
      λ s ns n l r g h. subst (In r) (result_injective g) (list_each_complete s ns n s r r h h);
  create_done = λ s r h. created_at s r _ refl h;
  create_present = λ s r h. created_present s r _ h;
  create_old = λ s r x h. created_old s r _ x refl h;
  create_elsewhere = λ s r ns n d. created_elsewhere s r _ ns n d;
  update_done = λ s r h. updated_at s r _ h;
  update_elsewhere = λ s r ns n d. updated_elsewhere s r _ ns n d;
  delete_done = λ s r h. deleted_at s r _ h;
  delete_absent = λ s r h. deleted_absent s r _ refl h;
  delete_elsewhere = λ s r ns n d. deleted_elsewhere s r _ ns n d;
  set_controller = λ owner r q h. sym (result_injective h);
}

-- The same server behind a cache that has seen no object yet.
abbrev pub lagging : Kube
lagging = record {
  State = Store;
  stored = memory.stored;
  list = memory.list;
  get = λ s ns n. not_there;
  create = memory.create;
  update = memory.update;
  delete = memory.delete;
  set_controller_reference = memory.set_controller_reference;
}

pub lagging-IsLawful : IsLawful lagging
lagging-IsLawful = record {
  keyed = memory-IsLawful.keyed;
  get_got = λ s ns n r h. cc;
  listed = memory-IsLawful.listed;
  list_complete = memory-IsLawful.list_complete;
  create_done = memory-IsLawful.create_done;
  create_present = memory-IsLawful.create_present;
  create_old = memory-IsLawful.create_old;
  create_elsewhere = memory-IsLawful.create_elsewhere;
  update_done = memory-IsLawful.update_done;
  update_elsewhere = memory-IsLawful.update_elsewhere;
  delete_done = memory-IsLawful.delete_done;
  delete_absent = memory-IsLawful.delete_absent;
  delete_elsewhere = memory-IsLawful.delete_elsewhere;
  set_controller = memory-IsLawful.set_controller;
}
