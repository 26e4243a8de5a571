-- ===== src/OwnedRoutes/Labeled.antt =====
-- internal/controller/cluster_routes.go: `deleteLabeledClusterRoutes`.
use mikrotik_operator.Base.{
  Text, List, [], ◌∷◌, keep, ◌==◌, nat_eq, list_eq, Bool, true, false, Option, some, ok, ◌≡◌, inl,
  inr, refl, sym, ap, ap₂, ◌∙◌, Bool-cases, Result-cases, Respects, >>=-Respects,
}
use mikrotik_operator.Endpoints.Ownership.{In}
use mikrotik_operator.OwnedRoutes.Api.{MikroTikRoute, Kube}
use mikrotik_operator.OwnedRoutes.Candidates.{cluster_route_source_value}
use mikrotik_operator.OwnedRoutes.Operations.{delete_each, delete_labeled_cluster_routes}
use mikrotik_operator.OwnedRoutes.Laws.{IsElsewhere, IsLawful}

In-keep :
    (p : MikroTikRoute → Bool) (l : List MikroTikRoute) (r : MikroTikRoute)
    → In r (keep p l)
    → In r l × (p r ≡ true)
unfolding keep
In-keep p [] r m = elim m [ ]
In-keep p (q ∷ l) r m = elim (Bool-cases (p q)) [
  | inr e ↦ let (k, t) = In-keep p l r (rw e at m) in (inr k, t)
  | inl e ↦ elim (rw e at m) [
    | inl same ↦ (inl same, ap p same ∙ e)
    | inr k ↦ let (j, t) = In-keep p l r k in (inr j, t)
  ]
]

module _ (A : Kube) (law : IsLawful A) (value ns n : Text) (x : MikroTikRoute)
    (apart : (x.source == value) ≡ false) where
  abbrev Stays : A.State → A.State → Type 0
  Stays s t = A.stored s ns n ≡ some x → A.stored t ns n ≡ some x

  labeled-IsElsewhere :
      (s : A.State) (r : MikroTikRoute)
      → A.stored s r.namespace r.route_name ≡ some r
      → (r.source == value) ≡ true
      → A.stored s ns n ≡ some x
      → IsElsewhere r ns n
  labeled-IsElsewhere s r at labeled h e f =
      let same : ◌≡◌ {A = Option MikroTikRoute} (some x) (some r) =
        sym h ∙ (sym (ap₂ (A.stored s) e f) ∙ at) in
      let source : x.source ≡ r.source = cc in cc (apart, ap (λ t. t == value) source, labeled)

  delete_each-Stays :
      (namespace : Text) (first : A.State) (l rest : List MikroTikRoute)
      → A.list first namespace ≡ ok l
      → A.stored first ns n ≡ some x
      → ((r : MikroTikRoute) → In r rest → In r l × ((r.source == value) ≡ true))
      → Respects Stays (delete_each A rest)
  unfolding delete_each
  delete_each-Stays namespace first l [] at held within = λ s h. h
  delete_each-Stays namespace first l (r ∷ rest) at held within =
      >>=-Respects Stays (λ s t u h k p. k (h p)) _ _
        (λ s h.
          law.delete_elsewhere s r ns n
            (labeled-IsElsewhere first r there (within r (inl refl)).1 held)
          ∙ h)
        (λ a. delete_each-Stays namespace first l rest at held (λ q m. within q (inr m)))
    where
      listed : A.stored first namespace r.route_name ≡ some r
      listed = law.listed first namespace l r at (within r (inl refl)).0

      there : A.stored first r.namespace r.route_name ≡ some r
      there =
          ap (λ y. A.stored first y r.route_name)
            (law.keyed first namespace r.route_name r listed).0
          ∙ listed

-- On a Kubernetes client that obeys the laws of OwnedRoutes.Laws: a MikroTikRoute whose source
-- label is not the value of the namespace and the source is stored unchanged after
-- `deleteLabeledClusterRoutes`, whether it succeeds or fails at any call.
pub delete_labeled_cluster_routes_spares :
    (A : Kube) (law : IsLawful A) (sha1_hex : Text → Text) (namespace source_name ns n : Text)
    (x : MikroTikRoute) (s : A.State)
    → (x.source == cluster_route_source_value sha1_hex namespace source_name) ≡ false
    → A.stored s ns n ≡ some x
    → A.stored (delete_labeled_cluster_routes A sha1_hex namespace source_name s).1 ns n ≡ some x
unfolding delete_labeled_cluster_routes
delete_labeled_cluster_routes_spares A law sha1_hex namespace source_name ns n x s apart h =
    elim (Result-cases (A.list s namespace)) [
      | inr (e, g) ↦ rw g h
      | inl (l, g) ↦
          let value = cluster_route_source_value sha1_hex namespace source_name in
          rw g (
            delete_each-Stays A law value ns n x apart namespace s l
              (keep (λ r. r.source == value) l) g h (In-keep (λ r. r.source == value) l) s h)
    ]
