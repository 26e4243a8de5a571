-- ===== src/OwnedRoutes/Api.antt =====
-- MikroTikRoute objects, and the calls of the Kubernetes client on them.
use mikrotik_operator.Base.{
  Text, List, ◌==◌, nat_eq, list_eq, Bool, false, Option, some, none, Result,
}

-- `controller` is the UID of the owner reference that is marked as controller; `source` and
-- `origin` are the labels of the operator, and `deleted` says that a deletion time is set.
pub record MikroTikRoute : Type 0 where
  pub namespace : Text
  pub route_name : Text
  pub controller : Option Text
  pub source : Text
  pub origin : Text
  pub router_ref : Text
  pub destination : Text
  pub gateway : Text
  pub deleted : Bool

abbrev is_uid : Option Text → Text → Bool
is_uid none owner = false
is_uid (some uid) owner = uid == owner

-- `metav1.IsControlledBy`.
abbrev pub is_controlled_by : MikroTikRoute → Text → Bool
is_controlled_by route owner = is_uid route.controller owner

pub data Read : Type 0 where
  got : MikroTikRoute → Read
  not_there : Read
  not_read : Text → Read

-- What a write answers; `absent` is `IsNotFound` and `present` is `IsAlreadyExists`.
pub data Answer : Type 0 where
  done : Answer
  absent : Answer
  present : Answer
  refused : Text → Answer

-- `stored` is what the server holds under a namespace and a name.
pub record Kube : Type 1 where
  pub State : Type 0
  pub stored : State → Text → Text → Option MikroTikRoute
  pub list : State → Text → Result (List MikroTikRoute)
  pub get : State → Text → Text → Read
  pub create : State → MikroTikRoute → Answer × State
  pub update : State → MikroTikRoute → Answer × State
  pub delete : State → MikroTikRoute → Answer × State
  pub set_controller_reference : Text → MikroTikRoute → Result MikroTikRoute
