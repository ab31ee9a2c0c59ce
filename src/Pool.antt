-- ===== src/Pool.antt =====
-- The start of the worker threads (server/source/sshinner_s_threads.c, `ss_create_worker_threads`,
-- `wait_for_thread_registration`, `register_thread_initialized` and `thread_run`): the main thread and the
-- workers, interleaved, a step for each use of what they share. client/source/sshinner_c_threads.c has
-- the same text.
pub mod Invariant
pub mod Start
use sshinner.Base.{
  ℕ, zero, suc, ◌+◌, ◌≤◌, ◌<◌, ◌≡◌, Bool, true, false, some, List, [], ◌∷◌, ◌++◌, get_elem?, set,
}

-- Where the main thread stands: it has so many threads to create; it is before the lock; it has the
-- lock, at the test of `init_count`; it sleeps in `pthread_cond_wait`; it was woken, and has to take the
-- lock again; it is behind the loop; it has returned.
pub data Main : Type 0 where
  making : ℕ → Main
  locking checking waiting waking leaving returned : Main

-- Where a worker stands in `thread_run`: before the lock; with the lock, before `init_count++`, before
-- the signal, and before the unlock; in its event loop.
pub data Worker : Type 0 where
  born counting signalling unlocking looping : Worker

-- What the threads share, and where they stand. `init_count` counts threads, of which there are less
-- than 2 ^ 31, so that an `int` holds it.
pub record Pool : Type 0 where
  pub main : Main
  pub workers : List Worker
  pub init_count : ℕ
  pub locked : Bool

-- `pthread_cond_signal` wakes the main thread if it sleeps, and is lost if it does not.
abbrev pub wake : Main → Main
wake Main.waiting = Main.waking
wake m = m

-- A step of a start with `n` threads.
pub data Move (n : ℕ) (s : Pool) : Pool → Type 0 where
  -- the loop of `ss_create_worker_threads`
  creates :
      {k : ℕ}
      → s.main ≡ Main.making (suc k)
      → Move n s (record s { main = Main.making k; workers = s.workers ++ Worker.born ∷ [] })
  has_created : s.main ≡ Main.making zero → Move n s (record s { main = Main.locking })
  locks :
      s.main ≡ Main.locking
      → s.locked ≡ false
      → Move n s (record s { main = Main.checking; locked = true })
  -- `wait_for_thread_registration`; `pthread_cond_wait` gives the lock back while it sleeps
  waits :
      s.main ≡ Main.checking
      → s.init_count < n
      → Move n s (record s { main = Main.waiting; locked = false })
  regains :
      s.main ≡ Main.waking
      → s.locked ≡ false
      → Move n s (record s { main = Main.checking; locked = true })
  leaves : s.main ≡ Main.checking → n ≤ s.init_count → Move n s (record s { main = Main.leaving })
  unlocks : s.main ≡ Main.leaving → Move n s (record s { main = Main.returned; locked = false })
  -- `register_thread_initialized`
  worker_locks :
      (i : ℕ)
      → get_elem? s.workers i ≡ some Worker.born
      → s.locked ≡ false
      → Move n s (record s { workers = set s.workers i Worker.counting; locked = true })
  worker_counts :
      (i : ℕ)
      → get_elem? s.workers i ≡ some Worker.counting
      → Move n s
          (record s { workers = set s.workers i Worker.signalling; init_count = s.init_count + 1 })
  worker_signals :
      (i : ℕ)
      → get_elem? s.workers i ≡ some Worker.signalling
      → Move n s (record s { workers = set s.workers i Worker.unlocking; main = wake s.main })
  worker_unlocks :
      (i : ℕ)
      → get_elem? s.workers i ≡ some Worker.unlocking
      → Move n s (record s { workers = set s.workers i Worker.looping; locked = false })

abbrev pub first : ℕ → Pool
first n = record { main = Main.making n; workers = []; init_count = 0; locked = false }

-- What the threads reach in any order of steps; the main thread may also wake up for no reason.
pub data Reach (n : ℕ) : Pool → Type 0 where
  start : Reach n (first n)
  moves : {s t : Pool} → Reach n s → Move n s t → Reach n t
  wakes_up :
      {s : Pool} → Reach n s → s.main ≡ Main.waiting → Reach n (record s { main = Main.waking })
