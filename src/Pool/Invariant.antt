-- ===== src/Pool/Invariant.antt =====
-- What holds of the threads in every state that they reach.
use sshinner.Base.{
  ℕ, zero, suc, ◌+◌, ◌≤◌, ◌<◌, ◌≡◌, refl, Bool, true, false, some, List, [], ◌∷◌, ◌++◌, arith,
  Bool-cases, inl, inr, ◌==◌, if◌then◌else◌, length, length-append, length-set, get_elem?, set,
}
use sshinner.Pool.{
  Main, making, locking, checking, waiting, waking, leaving, returned, Worker, born, counting,
  signalling, unlocking, looping, Pool, Move, creates, has_created, locks, waits, regains, leaves,
  unlocks, worker_locks, worker_counts, worker_signals, worker_unlocks, wake, Reach, start, moves,
  wakes_up,
}

-- The sum of a weight over the workers.
abbrev pub total : (Worker → ℕ) → List Worker → ℕ
total f [] = 0
total f (w ∷ ws) = f w + total f ws

module _ (f : Worker → ℕ) where
  pub total-append : (ws vs : List Worker) → total f (ws ++ vs) ≡ total f ws + total f vs
  total-append [] vs = omega arith
  total-append (w ∷ ws) vs = omega (arith, total-append ws vs)

  pub total-set :
      (ws : List Worker) (i : ℕ) (w v : Worker)
      → get_elem? ws i ≡ some w
      → total f (set ws i v) + f w ≡ total f ws + f v
  total-set [] i w v e = ground (arith, e)
  total-set (u ∷ ws) zero w v e = ground (arith, e)
  total-set (u ∷ ws) (suc i) w v e = ground (arith, total-set ws i w v e)

  pub total-mem :
      (ws : List Worker)
      → 0 < total f ws
      → (i : ℕ) × (w : Worker) × (get_elem? ws i ≡ some w) × (0 < f w)
  total-mem [] h = ground arith
  total-mem (w ∷ ws) h = elim (Bool-cases (f w == 0)) [
    | inl e ↦ let (i, v, at, pos) = total-mem ws (ground arith) in (suc i, v, at, pos)
    | inr pos ↦ (zero, w, refl, ground arith)
  ]

abbrev pub registered : Worker → ℕ
registered born = 0
registered counting = 0
registered w = 1

abbrev pub holds : Worker → ℕ
holds counting = 1
holds signalling = 1
holds unlocking = 1
holds w = 0

-- The signals to come.
abbrev pub owes : Worker → ℕ
owes born = 1
owes counting = 1
owes signalling = 1
owes w = 0

abbrev pub main_holds : Main → ℕ
main_holds checking = 1
main_holds leaving = 1
main_holds m = 0

abbrev pub to_make : Main → ℕ
to_make (making k) = k
to_make m = 0

abbrev pub has_left : Main → Bool
has_left leaving = true
has_left returned = true
has_left m = false

pub registered-le : (ws : List Worker) → total registered ws ≤ length ws
registered-le [] = omega arith
registered-le (w ∷ ws) = ground (arith, registered-le ws)

pub record Inv (n : ℕ) (s : Pool) : Type 0 where
  pub made : length s.workers + to_make s.main ≡ n
  pub counted : s.init_count ≡ total registered s.workers
  pub owned : (if s.locked then 1 else 0) ≡ main_holds s.main + total holds s.workers
  pub signalled : s.main ≡ waiting → 0 < total owes s.workers
  pub complete : has_left s.main ≡ true → n ≤ s.init_count

registered-owes : (ws : List Worker) → length ws ≤ total registered ws + total owes ws
registered-owes [] = omega arith
registered-owes (w ∷ ws) = ground (arith, registered-owes ws)

module _ (n : ℕ) (s : Pool) (inv : Inv n s) where
  -- A step of the main thread that creates no worker.
  main-Inv :
      (m : Main) (b : Bool)
      → to_make m ≡ to_make s.main
      → (if b then 1 else 0) ≡ main_holds m + total holds s.workers
      → (m ≡ waiting → 0 < total owes s.workers)
      → (has_left m ≡ true → n ≤ s.init_count)
      → Inv n (record s { main = m; locked = b })
  main-Inv m b same own owed left = record {
    made = omega (arith, inv.made);
    counted = inv.counted;
    owned = own;
    signalled = owed;
    complete = left;
  }

  -- A step of the worker `i`.
  worker-Inv :
      (i : ℕ) (w v : Worker) (m : Main) (c : ℕ) (b : Bool)
      → get_elem? s.workers i ≡ some w
      → to_make m ≡ to_make s.main
      → main_holds m ≡ main_holds s.main
      → c + registered w ≡ s.init_count + registered v
      → (if b then 1 else 0) + holds w ≡ (if s.locked then 1 else 0) + holds v
      → (m ≡ waiting → 0 < total owes (set s.workers i v))
      → (has_left m ≡ true → n ≤ c)
      → Inv n (record s { workers = set s.workers i v; main = m; init_count = c; locked = b })
  worker-Inv i w v m c b e same held count own owed left = record {
    made = omega (arith, inv.made, length-set s.workers i v);
    counted = omega (arith, inv.counted, total-set registered s.workers i w v e);
    owned = omega (arith, inv.owned, total-set holds s.workers i w v e);
    signalled = owed;
    complete = left;
  }

  -- The signals to come, behind a step of a worker that sends none.
  still_owes :
      (i : ℕ) (w v : Worker)
      → get_elem? s.workers i ≡ some w
      → owes v ≡ owes w
      → s.main ≡ waiting
      → 0 < total owes (set s.workers i v)
  still_owes i w v e same h = omega (arith, inv.signalled h, total-set owes s.workers i w v e)

  pub Move-Inv : (t : Pool) → Move n s t → Inv n t
  Move-Inv t (creates {k} e) = record {
    made = ground (arith, inv.made, e, length-append s.workers (born ∷ []));
    counted = ground (arith, inv.counted, total-append registered s.workers (born ∷ []));
    owned = ground (arith, inv.owned, e, total-append holds s.workers (born ∷ []));
    signalled = λ h. ground (arith, h);
    complete = λ h. ground (arith, h);
  }
  Move-Inv t (waits e less) = record {
    made = ground (arith, inv.made, e);
    counted = inv.counted;
    owned = ground (arith, inv.owned, e);
    signalled = λ h. ground (arith, inv.made, e, inv.counted, registered-owes s.workers);
    complete = λ h. ground (arith, h);
  }
  Move-Inv t (worker_locks i e free) =
      worker-Inv i born counting s.main s.init_count true e refl refl refl (ground (arith, free))
        (still_owes i born counting e refl) inv.complete
  Move-Inv t (worker_counts i e) =
      worker-Inv i counting signalling s.main (s.init_count + 1) s.locked e refl refl (omega arith)
        refl (still_owes i counting signalling e refl) (λ h. omega (arith, inv.complete h))
  Move-Inv t (worker_signals i e) =
      worker-Inv i signalling unlocking (wake s.main) s.init_count s.locked e (ground arith)
        (ground arith) refl refl (λ h. ground (arith, h)) (λ h. inv.complete (ground (arith, h)))
  Move-Inv t (worker_unlocks i e) =
      worker-Inv i unlocking looping s.main s.init_count false e refl refl refl
        (ground (arith, inv.owned, total-set holds s.workers i unlocking looping e))
        (still_owes i unlocking looping e refl) inv.complete
  Move-Inv t (has_created e) =
      main-Inv locking s.locked (ground (arith, e)) (ground (arith, inv.owned, e))
        (λ h. ground (arith, h)) (λ h. ground (arith, h))
  Move-Inv t (locks e free) =
      main-Inv checking true (ground (arith, e)) (ground (arith, inv.owned, e, free))
        (λ h. ground (arith, h)) (λ h. ground (arith, h))
  Move-Inv t (regains e free) =
      main-Inv checking true (ground (arith, e)) (ground (arith, inv.owned, e, free))
        (λ h. ground (arith, h)) (λ h. ground (arith, h))
  Move-Inv t (leaves e le) =
      main-Inv leaving s.locked (ground (arith, e)) (ground (arith, inv.owned, e))
        (λ h. ground (arith, h)) (λ h. le)
  Move-Inv t (unlocks e) =
      main-Inv returned false (ground (arith, e)) (ground (arith, inv.owned, e))
        (λ h. ground (arith, h)) (λ h. inv.complete (ground (arith, e)))

pub Reach-Inv : (n : ℕ) (s : Pool) → Reach n s → Inv n s
Reach-Inv n s start = record {
  made = omega arith;
  counted = refl;
  owned = refl;
  signalled = λ h. ground (arith, h);
  complete = λ h. ground (arith, h);
}
Reach-Inv n t (moves {s} r step) = Move-Inv n s (Reach-Inv n s r) t step
Reach-Inv n t (wakes_up {s} r asleep) =
    let inv = Reach-Inv n s r in
    main-Inv n s inv waking s.locked (ground (arith, asleep)) (ground (arith, inv.owned, asleep))
      (λ h. ground (arith, h)) (λ h. ground (arith, h))
