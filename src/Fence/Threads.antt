-- ===== src/Fence/Threads.antt =====
-- The callers of `withFence`, interleaved in any order.
use mikrotik_operator.Base.{ℕ, ◌<◌, Eq, nat_eq, true, false, ◌≡◌}
use mikrotik_operator.Fence.Registry.{
  update, RouterFenceRegistry, new_router_fence_registry, begin_acquire, release_reference,
  set_token,
}

-- Where a caller stands: before `acquire`, in its `select`, in the operation, and between the two
-- lines of `release`.
pub data Pc (K : Type 0) : Type 0 where
  idle : Pc K
  waiting : K → ℕ → Pc K
  holding : K → ℕ → Pc K
  leaving : K → ℕ → Pc K

pub record System (K : Type 0) : Type 0 where
  pub registry : RouterFenceRegistry K
  pub pc : ℕ → Pc K

module _ {K : Type 0} ⦃e : Eq K⦄ where
  -- A step of one caller on the registry. A send to the channel waits until there is room.
  pub data Move (r : RouterFenceRegistry K) : Pc K → RouterFenceRegistry K → Pc K → Type 0 where
    enter : (key : K) → Move r idle (begin_acquire r key).1 (waiting key (begin_acquire r key).0)
    take :
        (key : K) (p : ℕ)
        → (r.heap p).token ≡ true
        → Move r (waiting key p) (set_token r p false) (holding key p)
    cancel : (key : K) (p : ℕ) → Move r (waiting key p) (release_reference r key p) idle
    put :
        (key : K) (p : ℕ)
        → (r.heap p).token ≡ false
        → Move r (holding key p) (set_token r p true) (leaving key p)
    leave : (key : K) (p : ℕ) → Move r (leaving key p) (release_reference r key p) idle

  pub data Step (n : ℕ) (s : System K) : System K → Type 0 where
    pick :
        (i : ℕ) {r : RouterFenceRegistry K} {c : Pc K}
        → i < n
        → Move s.registry (s.pc i) r c
        → Step n s (record { registry = r; pc = update s.pc i c })

  abbrev pub init : System K
  init = record { registry = new_router_fence_registry; pc = λ i. idle }

  pub data Reach (n : ℕ) : System K → Type 0 where
    start : Reach n init
    later : {s t : System K} → Reach n s → Step n s t → Reach n t
