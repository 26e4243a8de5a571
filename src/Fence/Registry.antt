-- ===== src/Fence/Registry.antt =====
-- The registry of fences, and its two critical sections.
use mikrotik_operator.Base.{
  ℕ, ◌+◌, ◌-◌, Eq, ◌==◌, nat_eq, ◌&&◌, if◌then◌else◌, Bool, true, false, Option, some, none, ◌≡◌,
  ◌≢◌, ap, ◌⊎◌, inl, inr, eq_iff, eq_refl, arith, Bool-cases,
}

abbrev pub update {ℓ κ} : {A : Type ℓ} {B : Type κ} ⦃e : Eq A⦄ → (A → B) → A → B → A → B
update f a b x = if a == x then b else f x

pub update_at {ℓ κ} :
    {A : Type ℓ} {B : Type κ} ⦃e : Eq A⦄ (f : A → B) (a : A) (b : B) → update f a b a ≡ b
update_at f a b = rw (eq_refl a)

pub update_off {ℓ κ} :
    {A : Type ℓ} {B : Type κ} ⦃e : Eq A⦄ (f : A → B) (a : A) (b : B) (x : A)
    → a ≢ x
    → update f a b x ≡ f x
update_off f a b x d = ground (arith, eq_iff a x, d)

pub update-cases {ℓ κ} :
    {A : Type ℓ} {B : Type κ} ⦃e : Eq A⦄ (f : A → B) (a : A) (b : B) (x : A)
    → ((a ≡ x) × (update f a b x ≡ b)) ⊎ ((a ≢ x) × (update f a b x ≡ f x))
update-cases f a b x = elim (Bool-cases (a == x)) [
  | inl q ↦ inl ((eq_iff a x).0 q, rw q)
  | inr q ↦ inr (λ y. absurd (ground (arith, eq_iff a x)), rw q)
]

-- `token` says that the channel holds its token.
pub record RouterFenceEntry : Type 0 where
  pub token : Bool
  pub refs : ℕ

-- The entries stand in a heap: the map holds pointers to them, and so do the callers. `next` is
-- the first address that is not in use.
pub record RouterFenceRegistry (K : Type 0) : Type 0 where
  pub entries : K → Option ℕ
  pub heap : ℕ → RouterFenceEntry
  pub next : ℕ

abbrev pub add_ref : RouterFenceEntry → RouterFenceEntry
add_ref x = record { token = x.token; refs = x.refs + 1 }

abbrev pub is_entry : Option ℕ → ℕ → Bool
is_entry none p = false
is_entry (some q) p = q == p

module _ {K : Type 0} ⦃e : Eq K⦄ where
  unfoldable pub new_router_fence_registry : RouterFenceRegistry K
  new_router_fence_registry = record {
    entries = λ k. none;
    heap = λ p. record { token = false; refs = 0 };
    next = 0;
  }

  -- The entry of a key, made if there is none, with one reference more: `acquire` under the lock.
  abbrev pub refer : RouterFenceRegistry K → K → Option ℕ → ℕ × RouterFenceRegistry K
  refer r key (some p) = (
    p,
    record { entries = r.entries; heap = update r.heap p (add_ref (r.heap p)); next = r.next },
  )
  refer r key none = (
    r.next,
    record {
      entries = update r.entries key (some r.next);
      heap = update r.heap r.next (record { token = true; refs = 1 });
      next = r.next + 1;
    },
  )

  unfoldable pub begin_acquire : RouterFenceRegistry K → K → ℕ × RouterFenceRegistry K
  begin_acquire r key = refer r key (r.entries key)

  unfoldable pub release_reference : RouterFenceRegistry K → K → ℕ → RouterFenceRegistry K
  release_reference r key p =
      let left = (r.heap p).refs - 1 in
      record {
        entries =
            if left == 0 && is_entry (r.entries key) p
            then update r.entries key none
            else r.entries;
        heap = update r.heap p (record { token = (r.heap p).token; refs = left });
        next = r.next;
      }

  unfoldable pub set_token : RouterFenceRegistry K → ℕ → Bool → RouterFenceRegistry K
  set_token r p b = record {
    entries = r.entries;
    heap = update r.heap p (record { token = b; refs = (r.heap p).refs });
    next = r.next;
  }

  pub set_token-token :
      (r : RouterFenceRegistry K) (p : ℕ) (b : Bool) → ((set_token r p b).heap p).token ≡ b
  unfolding set_token
  set_token-token r p b =
      ap (λ x. x.token) (update_at r.heap p (record { token = b; refs = (r.heap p).refs }))
