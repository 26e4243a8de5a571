-- ===== src/Client/Managed.antt =====
-- internal/routeros/client.go: `DeleteManagedConfiguration`.
use mikrotik_operator.Base.{◌≡◌, ◌∙◌, ap, M, ok, ◌>>◌, >>=-Respects, >>=-eq-ok}
use mikrotik_operator.RouterOs.{
  others, Menu, dns, nat, filter, route, RouterOs, IsLawful, SameBut, print_cmd, remove_cmd,
}
use mikrotik_operator.Client.Entries.{is_managed_comment}
use mikrotik_operator.Client.Operations.{delete_matching, delete_managed_configuration}
use mikrotik_operator.Client.Spares.{SparesAll, SparesAll-Spares}
use mikrotik_operator.Client.Delete.{delete_matching-Spares, delete_matching-eq-ok}

module _ (R : RouterOs) (L : IsLawful R) where
  -- The pass over one menu.
  abbrev clear : Menu → M R.State (Unit {0})
  clear m = delete_matching R (print_cmd m) (remove_cmd m) is_managed_comment

  clear-SparesAll : (m : Menu) (s : R.State) → SparesAll R is_managed_comment s (clear m s).1
  clear-SparesAll m s =
      SparesAll-Spares R m is_managed_comment s _
        (delete_matching-Spares R L m is_managed_comment s)

  then-SparesAll :
      (m : Menu) (k : M R.State (Unit {0}))
      → ((s : R.State) → SparesAll R is_managed_comment s (k s).1)
      → (s : R.State) → SparesAll R is_managed_comment s ((clear m >> k) s).1
  then-SparesAll m k h =
      >>=-Respects (SparesAll R is_managed_comment) (λ s t u a b n. b n ∙ a n) (clear m) (λ _. k)
        (clear-SparesAll m) (λ _. h)

  -- On a device that obeys the laws of RouterOs.Defs, the entries that the operator does not
  -- manage are the same after `DeleteManagedConfiguration`, in all four tables, whether it
  -- succeeds or fails at any command.
  pub delete_managed_configuration-SparesAll :
      (s : R.State) → SparesAll R is_managed_comment s (delete_managed_configuration R s).1
  unfolding delete_managed_configuration
  delete_managed_configuration-SparesAll =
      then-SparesAll dns _ (then-SparesAll nat _ (then-SparesAll filter _ (clear-SparesAll route)))

  -- On a device that obeys the laws of RouterOs.Defs, if `DeleteManagedConfiguration` succeeds,
  -- each of the four tables is what it was without the entries that the operator manages, the
  -- others in their order.
  pub delete_managed_configuration_lem :
      (s : R.State) {t : R.State} {u : Unit {0}}
      → delete_managed_configuration R s ≡ (ok u, t)
      → (m : Menu) → R.table m t ≡ others is_managed_comment (R.table m s)
  unfolding delete_managed_configuration
  delete_managed_configuration_lem s h m =
      let (_, s₁, a₁, h₁) = >>=-eq-ok (clear dns) _ h in
      let (_, s₂, a₂, h₂) = >>=-eq-ok (clear nat) _ h₁ in
      let (_, s₃, a₃, h₃) = >>=-eq-ok (clear filter) _ h₂ in
      cleared m (delete_matching-eq-ok R L dns is_managed_comment s a₁)
        (delete_matching-eq-ok R L nat is_managed_comment s₁ a₂)
        (delete_matching-eq-ok R L filter is_managed_comment s₂ a₃)
        (delete_matching-eq-ok R L route is_managed_comment s₃ h₃)
    where
      cleared :
          {s₁ s₂ s₃ t : R.State} (m : Menu)
          → (R.table dns s₁ ≡ others is_managed_comment (R.table dns s)) × SameBut R dns s s₁
          → (R.table nat s₂ ≡ others is_managed_comment (R.table nat s₁)) × SameBut R nat s₁ s₂
          → (R.table filter s₃ ≡ others is_managed_comment (R.table filter s₂))
            × SameBut R filter s₂ s₃
          → (R.table route t ≡ others is_managed_comment (R.table route s₃)) × SameBut R route s₃ t
          → R.table m t ≡ others is_managed_comment (R.table m s)
      cleared dns a b c d = d.1 dns (λ e. cc) ∙ (c.1 dns (λ e. cc) ∙ (b.1 dns (λ e. cc) ∙ a.0))
      cleared nat a b c d =
          d.1 nat (λ e. cc) ∙ (c.1 nat (λ e. cc) ∙ (b.0 ∙ ap (others _) (a.1 nat (λ e. cc))))
      cleared filter a b c d =
          d.1 filter (λ e. cc) ∙ (c.0 ∙ ap (others _) (b.1 filter (λ e. cc) ∙ a.1 filter (λ e. cc)))
      cleared route a b c d =
          d.0 ∙ ap (others _) (c.1 route (λ e. cc) ∙ (b.1 route (λ e. cc) ∙ a.1 route (λ e. cc)))
