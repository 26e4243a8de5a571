-- ===== src/Tests/FenceRuns.antt =====
-- Two callers at one fence.
use mikrotik_operator.Base.{ℕ, ◌<◌, ◌≢◌, nat_eq, ◌≡◌, ◌↔◌, ◌⊎◌, refl, arith, true, false, some}
use mikrotik_operator.Fence.{update, new_router_fence_registry, begin_acquire, set_token}
use mikrotik_operator.Fence.Threads.{
  waiting, holding, leaving, System, Step, pick, enter, take, Reach, start, later, init,
}
use mikrotik_operator.Fence.Invariant.{at}
use mikrotik_operator.Fence.Safety.{one_holder, entry_in_use, waiting_proceeds}

-- The first caller holds the fence of the key 7, and the second waits for it.
abbrev entered : System ℕ
entered = record {
  registry = (begin_acquire new_router_fence_registry 7).1;
  pc = update init.pc 0 (waiting 7 0);
}

abbrev held : System ℕ
held = record {
  registry = set_token entered.registry 0 false;
  pc = update entered.pc 0 (holding 7 0);
}

abbrev contended : System ℕ
contended = record {
  registry = (begin_acquire held.registry 7).1;
  pc = update held.pc 1 (waiting 7 0);
}

contended-Reach : Reach 2 contended
unfolding new_router_fence_registry begin_acquire set_token
contended-Reach =
    later
      (later (later start (pick 0 (omega arith) (enter 7))) (pick 0 (omega arith) (take 7 0 refl)))
      (pick 1 (omega arith) (enter 7))

one_holder_example : contended.pc 1 ≢ holding 7 0
one_holder_example =
    one_holder contended 0 1 7 0 0 contended-Reach (omega arith) (omega arith) (omega arith) refl

entry_in_use_example :
    (contended.registry.entries 7 ≡ some 0)
    ↔ ((i : ℕ) × (i < 2) × (at (contended.pc i) ≡ some (7, 0)))
entry_in_use_example = entry_in_use contended 7 0 contended-Reach

waiting_proceeds_example :
    ((t : System ℕ) × Step 2 contended t × (t.pc 1 ≡ holding 7 0))
    ⊎ ((j : ℕ) × (contended.pc j ≡ holding 7 0)
        × (t : System ℕ) × Step 2 contended t
        × (t.pc j ≡ leaving 7 0)
        × ((t.registry.heap 0).token ≡ true))
waiting_proceeds_example = waiting_proceeds contended 1 7 0 contended-Reach (omega arith) refl
