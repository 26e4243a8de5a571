-- ===== src/Fence/Safety.antt =====
-- The callers of a fence: what they can and cannot do together.
use mikrotik_operator.Base.{
  ℕ, ◌<◌, Eq, nat_eq, true, false, Option, some, none, ◌≡◌, ◌≢◌, ◌↔◌, refl, arith, ap, ◌∙◌, sym,
  subst, inl, inr, eq_iff, Bool-cases, ◌⊎◌,
}
use mikrotik_operator.Fence.Registry.{
  update, RouterFenceRegistry, set_token-token, update_at, new_router_fence_registry,
}
use mikrotik_operator.Fence.Threads.{
  Pc, idle, waiting, holding, leaving, System, Move, enter, take, cancel, put, leave, Step, pick,
  Reach, start, later, init,
}
use mikrotik_operator.Fence.Totals.{two-le-total, some-total}
use mikrotik_operator.Fence.Invariant.{at, one_if, uses_of, uses, holds, Inv, bound, set_token-Inv}
use mikrotik_operator.Fence.Preserved.{
  begin_acquire-Inv, release_reference-Inv, one_if-other, one_if-same,
}

used_at : {K : Type 0} (o : Option (K × ℕ)) (p : ℕ) → 0 < uses_of p o → (k : K) × (o ≡ some (k, p))
used_at none p h = absurd (omega arith)
used_at (some (k, q)) p h = (k, ap (λ x. some (k, x)) (ground (arith, eq_iff q p)))

held_at : {K : Type 0} (c : Pc K) (p : ℕ) → 0 < holds p c → (k : K) × (c ≡ holding k p)
held_at idle p h = absurd (omega arith)
held_at (waiting k q) p h = absurd (omega arith)
held_at (holding k q) p h = (k, ap (holding k) (ground (arith, eq_iff q p)))
held_at (leaving k q) p h = absurd (omega arith)

module _ {K : Type 0} ⦃e : Eq K⦄ {n : ℕ} where
  init-Inv : Inv n (init {K = K}).registry (init {K = K}).pc
  unfolding new_router_fence_registry
  init-Inv = record {
    linked = λ i k p l a. cc;
    fresh = λ k p a. cc;
    owned = λ k l p a b. cc;
    lively = λ k p a. cc;
    counted = λ p m. absurd (omega arith);
    tokens = λ p m. absurd (omega arith);
  }

  Move-Inv :
      {r s : RouterFenceRegistry K} {pc : ℕ → Pc K} {c d : Pc K} (i : ℕ)
      → i < n
      → Inv n r pc
      → pc i ≡ c
      → Move r c s d
      → Inv n s (update pc i d)
  Move-Inv i l inv a (enter key) = begin_acquire-Inv inv i l key a
  Move-Inv i l inv a (take key p full) =
      set_token-Inv inv i l key p (ap at a) false (holding key p) refl
        (λ q d. one_if-other p q (λ w. d (sym w)) ∙ sym (ap (holds q) a))
        (omega (arith, ap one_if full, one_if-same p p refl, ap (holds p) a))
  Move-Inv i l inv a (cancel key p) =
      release_reference-Inv inv i l key p (ap at a) (λ q. ap (holds q) a)
  Move-Inv i l inv a (put key p empty) =
      set_token-Inv inv i l key p (ap at a) true (leaving key p) refl
        (λ q d. sym (ap (holds q) a ∙ one_if-other p q (λ w. d (sym w))))
        (omega (arith, ap one_if empty, one_if-same p p refl, ap (holds p) a))
  Move-Inv i l inv a (leave key p) =
      release_reference-Inv inv i l key p (ap at a) (λ q. ap (holds q) a)

  Step-Inv : {s t : System K} → Inv n s.registry s.pc → Step n s t → Inv n t.registry t.pc
  Step-Inv inv (pick i l m) = Move-Inv i l inv refl m

  pub Reach-Inv : {s : System K} → Reach n s → Inv n s.registry s.pc
  Reach-Inv start = init-Inv
  Reach-Inv (later h k) = Step-Inv (Reach-Inv h) k

  moved :
      (s : System K) (i : ℕ) {c d : Pc K} {r : RouterFenceRegistry K}
      → i < n
      → s.pc i ≡ c
      → Move s.registry c r d
      → (t : System K) × Step n s t × (t.pc i ≡ d) × (t.registry ≡ r)
  moved s i {d = d} {r = r} l a m = (
    record { registry = r; pc = update s.pc i d },
    pick i l (subst (λ c. Move s.registry c r d) (sym a) m),
    update_at s.pc i d,
    refl,
  )

  -- In every state that any number of callers of a fence can reach, step by step in any order and
  -- with calls cancelled while they wait: no two different callers are inside `withFence` for the
  -- same key at once.
  pub one_holder :
      (s : System K) (i j : ℕ) (key : K) (p q : ℕ)
      → Reach n s
      → i < n
      → j < n
      → i ≢ j
      → s.pc i ≡ holding key p
      → s.pc j ≢ holding key q
  one_holder s i j key p q h l m apart a b =
      let inv = Reach-Inv h in
      let same : p ≡ q = cc (inv.linked i key p l (ap at a), inv.linked j key q m (ap at b)) in
      omega (
        arith,
        two-le-total (holds p) n s.pc i j l m apart,
        ap (holds p) a,
        ap (holds p) b,
        one_if-same p p refl,
        one_if-same q p (sym same),
        inv.tokens p (bound inv i l key p (ap at a)),
      )

  -- In every state that any number of callers of a fence can reach, step by step in any order and
  -- with calls cancelled while they wait: the registry has an entry for a key exactly if some
  -- caller has this entry in hand for this key; so no entry is left behind when the last caller
  -- goes, and none is taken away from a caller that has it.
  pub entry_in_use :
      (s : System K) (key : K) (p : ℕ)
      → Reach n s
      → (s.registry.entries key ≡ some p) ↔ ((i : ℕ) × (i < n) × (at (s.pc i) ≡ some (key, p)))
  entry_in_use s key p h = (used, λ u. let (i, l, a) = u in (Reach-Inv h).linked i key p l a)
    where
      used : s.registry.entries key ≡ some p → (i : ℕ) × (i < n) × (at (s.pc i) ≡ some (key, p))
      used x =
          let inv = Reach-Inv h in
          let (i, l, some_use) =
            some-total (uses p) n s.pc
              (omega (arith, inv.lively key p x, inv.counted p (inv.fresh key p x))) in
          let (k, a) = used_at (at (s.pc i)) p some_use in
          (i, l, a ∙ ap (λ y. some (y, p)) (inv.owned k key p (inv.linked i k p l a) x))

  -- In every state that any number of callers of a fence can reach, step by step in any order and
  -- with calls cancelled while they wait: a caller that waits for the token of an entry can take
  -- it with its next step, or some caller inside `withFence` for the same key can give it back
  -- with its next step, after which the token is there.
  pub waiting_proceeds :
      (s : System K) (i : ℕ) (key : K) (p : ℕ)
      → Reach n s
      → i < n
      → s.pc i ≡ waiting key p
      → ((t : System K) × Step n s t × (t.pc i ≡ holding key p))
        ⊎ ((j : ℕ) × (s.pc j ≡ holding key p)
            × (t : System K) × Step n s t
            × (t.pc j ≡ leaving key p)
            × ((t.registry.heap p).token ≡ true))
  waiting_proceeds s i key p h l a = elim (Bool-cases (s.registry.heap p).token) [
    | inl full ↦ let (t, k, b, r) = moved s i l a (take key p full) in inl (t, k, b)
    | inr empty ↦
        let inv = Reach-Inv h in
        let old = inv.linked i key p l (ap at a) in
        let (j, m, some_hold) =
          some-total (holds p) n s.pc
            (omega (arith, inv.tokens p (inv.fresh key p old), ap one_if empty)) in
        let (k, b) = held_at (s.pc j) p some_hold in
        let held : s.pc j ≡ holding key p =
          b ∙ ap (λ x. holding x p) (inv.owned k key p (inv.linked j k p m (ap at b)) old) in
        let (t, step, c, r) = moved s j m held (put key p empty) in
        inr (j, held, t, step, c, rw r (set_token-token s.registry p true))
  ]
