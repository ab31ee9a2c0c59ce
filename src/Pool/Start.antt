-- ===== src/Pool/Start.antt =====
-- The main thread returns, and not before every worker has registered.
use sshinner.Base.{
  ℕ, zero, suc, ◌+◌, ◌*◌, ◌≤◌, ◌<◌, ◌≡◌, ◌⊎◌, refl, false, some, List, [], ◌∷◌, arith, Bool-cases,
  inl, inr, All, length, get_elem?,
}
use native.Mathlib.Decide.{dec_lt}
use sshinner.Pool.{
  Main, making, locking, checking, waiting, waking, leaving, returned, Worker, born, counting,
  signalling, unlocking, looping, Pool, Move, creates, has_created, locks, waits, regains, leaves,
  unlocks, worker_locks, worker_counts, worker_signals, worker_unlocks, wake, Reach,
}
use sshinner.Pool.Invariant.{
  total, total-append, total-set, total-mem, registered, main_holds, registered-le, holds, owes,
  Inv, Move-Inv, Reach-Inv,
}

-- The steps that are left for a worker, and for the main thread with its workers to come. A signal may
-- cost the main thread three more.
abbrev worker_cost : Worker → ℕ
worker_cost born = 7
worker_cost counting = 6
worker_cost signalling = 5
worker_cost unlocking = 1
worker_cost looping = 0

abbrev main_cost : Main → ℕ
main_cost (making k) = 4 + k * 8
main_cost locking = 3
main_cost checking = 2
main_cost waiting = 0
main_cost waking = 3
main_cost leaving = 1
main_cost returned = 0

abbrev cost : Pool → ℕ
cost s = main_cost s.main + total worker_cost s.workers

cost-wake : (m : Main) → main_cost (wake m) ≤ main_cost m + 3
cost-wake m = ground arith

Move-cost : (n : ℕ) (s t : Pool) → Move n s t → cost t < cost s
Move-cost n s t (creates e) = ground (arith, e, total-append worker_cost s.workers (born ∷ []))
Move-cost n s t (has_created e) = ground (arith, e)
Move-cost n s t (locks e free) = ground (arith, e)
Move-cost n s t (waits e less) = ground (arith, e)
Move-cost n s t (regains e free) = ground (arith, e)
Move-cost n s t (leaves e le) = ground (arith, e)
Move-cost n s t (unlocks e) = ground (arith, e)
Move-cost n s t (worker_locks i e free) =
    omega (arith, total-set worker_cost s.workers i born counting e)
Move-cost n s t (worker_counts i e) =
    omega (arith, total-set worker_cost s.workers i counting signalling e)
Move-cost n s t (worker_signals i e) =
    omega (arith, cost-wake s.main, total-set worker_cost s.workers i signalling unlocking e)
Move-cost n s t (worker_unlocks i e) =
    omega (arith, total-set worker_cost s.workers i unlocking looping e)

module _ (n : ℕ) (s : Pool) (inv : Inv n s) where
  abbrev CanMove : Type 0
  CanMove = (t : Pool) × Move n s t

  -- The worker with the lock moves.
  holder_moves : 0 < total holds s.workers → CanMove
  holder_moves some_hold =
      let (i, w, at_i, has) = total-mem holds s.workers some_hold in by_state i w at_i has
    where
      by_state : (i : ℕ) (w : Worker) → get_elem? s.workers i ≡ some w → 0 < holds w → CanMove
      by_state i born e h = ground arith
      by_state i counting e h = (_, worker_counts i e)
      by_state i signalling e h = (_, worker_signals i e)
      by_state i unlocking e h = (_, worker_unlocks i e)
      by_state i looping e h = ground arith

  -- Where the lock is free, a worker that has not registered, or the main thread before the lock, can
  -- take it; where it is not, the worker that has it moves.
  free_or_moves : main_holds s.main ≡ 0 → (s.locked ≡ false) ⊎ CanMove
  free_or_moves none_of_main = elim (Bool-cases s.locked) [
    | inr free ↦ inl free
    | inl held ↦ inr (holder_moves (ground (arith, inv.owned)))
  ]

  owing_moves : main_holds s.main ≡ 0 → 0 < total owes s.workers → CanMove
  owing_moves none_of_main owed =
      let (i, w, at_i, has) = total-mem owes s.workers owed in by_state i w at_i has
    where
      by_state : (i : ℕ) (w : Worker) → get_elem? s.workers i ≡ some w → 0 < owes w → CanMove
      by_state i born e h = elim (free_or_moves none_of_main) [
        | inl free ↦ (_, worker_locks i e free)
        | inr go ↦ go
      ]
      by_state i counting e h = (_, worker_counts i e)
      by_state i signalling e h = (_, worker_signals i e)
      by_state i unlocking e h = ground arith
      by_state i looping e h = ground arith

  -- Some thread can move until the main thread has returned.
  can_move : (m : Main) → s.main ≡ m → (m ≡ returned) ⊎ CanMove
  can_move (making zero) e = inr (_, has_created e)
  can_move (making (suc k)) e = inr (_, creates e)
  can_move locking e = elim (free_or_moves (ground (arith, e))) [
    | inl free ↦ inr (_, locks e free)
    | inr go ↦ inr go
  ]
  can_move checking e = elim (dec_lt s.init_count n) [
    | yes less ↦ inr (_, waits e less)
    | no le ↦ inr (_, leaves e (omega arith))
  ]
  can_move waiting e = inr (owing_moves (ground (arith, e)) (inv.signalled e))
  can_move waking e = elim (free_or_moves (ground (arith, e))) [
    | inl free ↦ inr (_, regains e free)
    | inr go ↦ inr go
  ]
  can_move leaving e = inr (_, unlocks e)
  can_move returned e = inl refl

each_registered :
    (ws : List Worker) → length ws ≤ total registered ws → All (λ w. registered w ≡ 1) ws
each_registered [] le = tt
each_registered (w ∷ ws) le = ground (arith, registered-le ws, each_registered ws)

-- All `n` workers are there, and each has counted itself.
abbrev pub AllRegistered : ℕ → Pool → Type 0
AllRegistered n s = (length s.workers ≡ n) × All (λ w. registered w ≡ 1) s.workers

-- Whatever steps are taken, the main thread returns behind finitely many, with all workers registered;
-- and until then some step can be taken.
pub data Completes (n : ℕ) : Pool → Type 0 where
  done : {s : Pool} → s.main ≡ returned → AllRegistered n s → Completes n s
  goes_on :
      {s : Pool}
      → (t : Pool) × Move n s t
      → ((t : Pool) → Move n s t → Completes n t)
      → Completes n s

completes : (n fuel : ℕ) (s : Pool) → cost s < fuel → Inv n s → Completes n s
completes n zero s le inv = ground arith
completes n (suc fuel) s le inv = elim (can_move n s inv s.main refl) [
  | inl e ↦ done e (
    ground (arith, inv.made, e),
    each_registered s.workers (ground (arith, inv.made, inv.counted, inv.complete, e)),
  )
  | inr go ↦
      goes_on go
        λ t step. completes n fuel t (omega (arith, Move-cost n s t step)) (Move-Inv n s inv t step)
]

-- In every state that the threads of a start with `n` threads reach, by steps in any order and with any
-- wakes without a signal, some thread can move until the main thread has returned; and whatever steps
-- are then taken, it returns behind finitely many of them if it is not woken without a signal again,
-- when there are `n` workers and each has counted itself.
pub Reach-Completes : (n : ℕ) (s : Pool) → Reach n s → Completes n s
Reach-Completes n s r = completes n (suc (cost s)) s (omega arith) (Reach-Inv n s r)
