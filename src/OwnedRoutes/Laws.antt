-- ===== src/OwnedRoutes/Laws.antt =====
-- What the code relies on in the Kubernetes client. The state is what the server holds. `get` may
-- miss an object: the client reads from a cache, and the object may have been made since.
use mikrotik_operator.Base.{Text, List, Option, some, none, true, ok, ◌≡◌, ◌≢◌}
use mikrotik_operator.Endpoints.Ownership.{In}
use mikrotik_operator.OwnedRoutes.Api.{MikroTikRoute, got, done, absent, present, Kube}

-- An object with finalizers is only marked by a deletion.
abbrev pub IsGone : Option MikroTikRoute → Type 0
IsGone none = Unit {0}
IsGone (some route) = route.deleted ≡ true

-- A write changes only what is stored under the name of the object.
abbrev pub IsElsewhere : MikroTikRoute → Text → Text → Type 0
IsElsewhere route ns n = route.namespace ≡ ns → route.route_name ≢ n

pub record IsLawful (A : Kube) : Type 0 where
  pub keyed :
      (s : A.State) (ns n : Text) (r : MikroTikRoute)
      → A.stored s ns n ≡ some r
      → (r.namespace ≡ ns) × (r.route_name ≡ n)
  pub get_got :
      (s : A.State) (ns n : Text) (r : MikroTikRoute)
      → A.get s ns n ≡ got r
      → A.stored s ns n ≡ some r
  pub listed :
      (s : A.State) (ns : Text) (l : List MikroTikRoute) (r : MikroTikRoute)
      → A.list s ns ≡ ok l
      → In r l
      → A.stored s ns r.route_name ≡ some r
  pub list_complete :
      (s : A.State) (ns n : Text) (l : List MikroTikRoute) (r : MikroTikRoute)
      → A.list s ns ≡ ok l
      → A.stored s ns n ≡ some r
      → In r l
  pub create_done :
      (s : A.State) (r : MikroTikRoute)
      → (A.create s r).0 ≡ done
      → A.stored (A.create s r).1 r.namespace r.route_name ≡ some r
  pub create_present :
      (s : A.State) (r : MikroTikRoute)
      → (A.create s r).0 ≡ present
      → A.stored s r.namespace r.route_name ≢ none
  pub create_old :
      (s : A.State) (r x : MikroTikRoute)
      → A.stored s r.namespace r.route_name ≡ some x
      → A.stored (A.create s r).1 r.namespace r.route_name ≡ some x
  pub create_elsewhere :
      (s : A.State) (r : MikroTikRoute) (ns n : Text)
      → IsElsewhere r ns n
      → A.stored (A.create s r).1 ns n ≡ A.stored s ns n
  pub update_done :
      (s : A.State) (r : MikroTikRoute)
      → (A.update s r).0 ≡ done
      → A.stored (A.update s r).1 r.namespace r.route_name ≡ some r
  pub update_elsewhere :
      (s : A.State) (r : MikroTikRoute) (ns n : Text)
      → IsElsewhere r ns n
      → A.stored (A.update s r).1 ns n ≡ A.stored s ns n
  pub delete_done :
      (s : A.State) (r : MikroTikRoute)
      → (A.delete s r).0 ≡ done
      → IsGone (A.stored (A.delete s r).1 r.namespace r.route_name)
  pub delete_absent :
      (s : A.State) (r : MikroTikRoute)
      → (A.delete s r).0 ≡ absent
      → A.stored (A.delete s r).1 r.namespace r.route_name ≡ none
  pub delete_elsewhere :
      (s : A.State) (r : MikroTikRoute) (ns n : Text)
      → IsElsewhere r ns n
      → A.stored (A.delete s r).1 ns n ≡ A.stored s ns n
  pub set_controller :
      (owner : Text) (r q : MikroTikRoute)
      → A.set_controller_reference owner r ≡ ok q
      → q ≡ record {
        namespace = r.namespace;
        route_name = r.route_name;
        controller = some owner;
        source = r.source;
        origin = r.origin;
        router_ref = r.router_ref;
        destination = r.destination;
        gateway = r.gateway;
        deleted = r.deleted;
      }
