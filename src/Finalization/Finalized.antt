-- ===== src/Finalization/Finalized.antt =====
-- internal/controller/router_controller.go: `reconcileDeletionLocked`.
use mikrotik_operator.Base.{
  List, [], ◌∷◌, nat_eq, list_eq, not, if◌then◌else◌, Bool, true, false, Option, some, Result, ok,
  err, next, return, ◌≡◌, inl, inr, refl, sym, ap, ◌∙◌, subst, Result-cases, Respects,
  result_injective,
}
use mikrotik_operator.Endpoints.{
  RouterEndpoint, MikroTikRouter, Net, router_cleanup_endpoints, endpoint_claimed_by_other_router,
}
use mikrotik_operator.Endpoints.Ownership.{In}
use mikrotik_operator.Finalization.Defs.{
  Event, wiped, update_sent, Outside, clean_any, send_update, keep_unclaimed, owned_endpoints,
  finish_deletion, Action, reconcile_deletion_locked,
}
use mikrotik_operator.Finalization.Wipes.{
  touches, About, Only, clean_endpoints-Only, clean_any-wiped,
}

-- The device is wiped before the update is sent, which is the last event.
abbrev pub IsWipedBefore : RouterEndpoint → List Event → Type 0
IsWipedBefore e events =
    (before : List Event) × (events ≡ update_sent ∷ before) × In (wiped e) before

pub some_same : {d e : RouterEndpoint} → ◌≡◌ {A = Option RouterEndpoint} (some d) (some e) → d ≡ e
some_same h = cc

module _ (out : Outside) (net : Net) (routers : Result (List MikroTikRouter))
    (router : MikroTikRouter) where
  abbrev Claimed : RouterEndpoint → Result Bool
  Claimed e = endpoint_claimed_by_other_router net routers router e

  -- The devices of a list that no other router claims.
  abbrev pub IsMine : List RouterEndpoint → RouterEndpoint → Type 0
  IsMine es e = In e es × (Claimed e ≡ ok false)

  owned_endpoints-eq-ok :
      (d : RouterEndpoint) (es : List RouterEndpoint) {l : List RouterEndpoint}
      → owned_endpoints out net routers router (d ∷ es) ≡ ok l
      → (b : Bool) × (rest : List RouterEndpoint) × (Claimed d ≡ ok b)
        × (owned_endpoints out net routers router es ≡ ok rest)
        × (keep_unclaimed out net routers b d rest ≡ l)
  unfolding owned_endpoints
  owned_endpoints-eq-ok d es h = elim (Result-cases (Claimed d)) [
    | inr (x, e) ↦ cc (rw (owned_endpoints, e) at h)
    | inl (b, e) ↦ elim (Result-cases (owned_endpoints out net routers router es)) [
      | inr (x, f) ↦ cc (rw (owned_endpoints, e, f) at h)
      | inl (rest, f) ↦ (b, rest, e, f, result_injective (rw (owned_endpoints, e, f) at h))
    ]
  ]

  owned_endpoints-IsMine :
      (es : List RouterEndpoint) {l : List RouterEndpoint} (e : RouterEndpoint)
      → owned_endpoints out net routers router es ≡ ok l
      → In e l
      → IsMine es e
  unfolding owned_endpoints
  owned_endpoints-IsMine [] e h m = elim (subst (In e) (sym (result_injective h)) m) [ ]
  owned_endpoints-IsMine (d ∷ es) e h m =
      let (b, rest, claim, more, same) = owned_endpoints-eq-ok d es h in
      by_claim b rest claim (λ k. owned_endpoints-IsMine es e more k) (subst (In e) (sym same) m)
    where
      by_claim :
          (b : Bool) (rest : List RouterEndpoint)
          → Claimed d ≡ ok b
          → (In e rest → IsMine es e)
          → In e (keep_unclaimed out net routers b d rest)
          → IsMine (d ∷ es) e
      by_claim true rest claim more k = let (n, c) = more k in (inr n, c)
      by_claim false rest claim more (inl s) = (inl s, ap Claimed s ∙ claim)
      by_claim false rest claim more (inr k) = let (n, c) = more k in (inr n, c)

  owned_endpoints-In :
      (es : List RouterEndpoint) {l : List RouterEndpoint} (e : RouterEndpoint)
      → owned_endpoints out net routers router es ≡ ok l
      → IsMine es e
      → In e l
  unfolding owned_endpoints
  owned_endpoints-In [] e h m = elim m.0 [ ]
  owned_endpoints-In (d ∷ es) e h m =
      let (b, rest, claim, more, same) = owned_endpoints-eq-ok d es h in
      subst (In e) same (by_claim b rest claim (λ k. owned_endpoints-In es e more k) m)
    where
      by_claim :
          (b : Bool) (rest : List RouterEndpoint)
          → Claimed d ≡ ok b
          → (IsMine es e → In e rest)
          → IsMine (d ∷ es) e
          → In e (keep_unclaimed out net routers b d rest)
      by_claim true rest claim more (inl s, c) = cc (ap Claimed s, claim)
      by_claim true rest claim more (inr k, c) = more (k, c)
      by_claim false rest claim more (inl s, c) = inl s
      by_claim false rest claim more (inr k, c) = inr (more (k, c))

  clean_any-Only :
      (Q : RouterEndpoint → Type 0) (es : List RouterEndpoint)
      → ((e : RouterEndpoint) → In e es → Q e)
      → Respects (Only Q) (clean_any out router es)
  clean_any-Only Q [] all = λ s x m. inl m
  clean_any-Only Q (d ∷ es) all = clean_endpoints-Only out Q router d es all

  abbrev Mine : RouterEndpoint → Type 0
  Mine = IsMine (router_cleanup_endpoints router)

  About-update_sent :
      (Q : RouterEndpoint → Type 0) → About Q update_sent → (e : RouterEndpoint) → In (wiped e) []
  About-update_sent Q (d, t, q) e = cc

  -- The pass after the claims are known.
  module _ (es : List RouterEndpoint) where
    finish-wiped :
        (e : RouterEndpoint) (p : Result (Unit {0}) × List Event)
        → clean_any out router es [] ≡ p
        → In e es
        → In update_sent (next p (λ a. send_update out)).1
        → IsWipedBefore e (next p (λ a. send_update out)).1
    finish-wiped e (ok y, t) h m k = (t, refl, clean_any-wiped out router es e [] t h m)
    finish-wiped e (err y, t) h m k =
        elim (clean_any-Only (λ d. Unit {0}) es (λ d n. tt) [] update_sent
          (subst (λ p. In update_sent p.1) (sym h) k)) [
            | inl n ↦ elim n [ ]
            | inr a ↦ elim (About-update_sent _ a e) [ ]
          ]

    About-Mine :
        (all : (e : RouterEndpoint) → In e es → Mine e) (x : Event) (e : RouterEndpoint)
        → touches x ≡ some e
        → In x (clean_any out router es []).1
        → Mine e
    About-Mine all x e a m = elim (clean_any-Only Mine es all [] x m) [
      | inl n ↦ elim n [ ]
      | inr (d, t, q) ↦
          let same : ◌≡◌ {A = Option RouterEndpoint} (some d) (some e) = sym t ∙ a in
          subst Mine (some_same same) q
    ]

    finish-touches :
        (all : (e : RouterEndpoint) → In e es → Mine e) (x : Event) (e : RouterEndpoint)
        (p : Result (Unit {0}) × List Event)
        → clean_any out router es [] ≡ p
        → touches x ≡ some e
        → In x (next p (λ a. send_update out)).1
        → Mine e
    finish-touches all x e (ok y, t) h a (inl same) = cc (sym (ap touches same) ∙ a)
    finish-touches all x e (ok y, t) h a (inr m) =
        About-Mine all x e a (subst (λ p. In x p.1) (sym h) m)
    finish-touches all x e (err y, t) h a m = About-Mine all x e a (subst (λ p. In x p.1) (sym h) m)

  abbrev pass : Bool → Result (List RouterEndpoint) → Action
  pass finalized owned =
      if not finalized then return tt else finish_deletion out net routers router owned

  pass-wiped :
      (b : Bool) (o : Result (List RouterEndpoint))
      → owned_endpoints out net routers router (router_cleanup_endpoints router) ≡ o
      → (e : RouterEndpoint) → In update_sent (pass b o []).1
      → Mine e
      → IsWipedBefore e (pass b o []).1
  pass-wiped false o g e k m = elim k [ ]
  pass-wiped true (err x) g e k m = elim k [ ]
  pass-wiped true (ok es) g e k m =
      finish-wiped es e _ refl (owned_endpoints-In (router_cleanup_endpoints router) e g m) k

  pass-touches :
      (b : Bool) (o : Result (List RouterEndpoint))
      → owned_endpoints out net routers router (router_cleanup_endpoints router) ≡ o
      → (x : Event) (e : RouterEndpoint) → In x (pass b o []).1
      → touches x ≡ some e
      → Mine e
  pass-touches false o g x e m t = elim m [ ]
  pass-touches true (err y) g x e m t = elim m [ ]
  pass-touches true (ok es) g x e m t =
      finish-touches es (λ d n. owned_endpoints-IsMine (router_cleanup_endpoints router) d g n) x e
        _ refl t m

  -- Started with no event, with the answer of `kube.List` given: if `reconcileDeletionLocked`
  -- sends the update that removes the finalizer, this is its last call, and before it every device
  -- of `routerCleanupEndpoints` that no other router claims has been wiped with success.
  pub reconcile_deletion_locked_wipes :
      (e : RouterEndpoint)
      → In update_sent (reconcile_deletion_locked out net routers router []).1
      → In e (router_cleanup_endpoints router)
      → endpoint_claimed_by_other_router net routers router e ≡ ok false
      → IsWipedBefore e (reconcile_deletion_locked out net routers router []).1
  unfolding reconcile_deletion_locked
  reconcile_deletion_locked_wipes e k m c = pass-wiped router.finalized _ refl e k (m, c)

  -- Started with no event, with the answer of `kube.List` given: every device that
  -- `reconcileDeletionLocked` dials or wipes, with success or not, is one of
  -- `routerCleanupEndpoints` that no other router claims.
  pub reconcile_deletion_locked-touches :
      (x : Event) (e : RouterEndpoint)
      → In x (reconcile_deletion_locked out net routers router []).1
      → touches x ≡ some e
      → In e (router_cleanup_endpoints router)
        × (endpoint_claimed_by_other_router net routers router e ≡ ok false)
  unfolding reconcile_deletion_locked
  reconcile_deletion_locked-touches x e m t = pass-touches router.finalized _ refl x e m t
