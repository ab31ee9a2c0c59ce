-- ===== src/Server/Start/Started.antt =====
-- The server at its event loop: the state that `Reach` starts from.
use mathlib.Core.List.{append_assoc, append-nil}
use sshinner.Base.{
  ℕ, zero, suc, ◌^◌, ◌<◌, ◌≡◌, ◌≢◌, ◌∙◌, refl, ap, Bool, true, some, [], ◌∷◌, ◌++◌, ==_false, arith,
  ltb, replicate,
}
use sshinner.Run.{ok, Returns, returns}
use sshinner.Json.{Json}
use sshinner.Server.{Env, Server}
use sshinner.Server.Start.{Settings, load_settings_server, Host, create_worker_threads, main}
use sshinner.Server.Consistent.Reach.{started, Reach, start}

create_workers_lem :
    (made : ℕ → Bool)
    → ((i : ℕ) → made i ≡ true)
    → (n i : ℕ) (s : Server)
    → create_worker_threads made i n s ≡ ok tt (record s { queues = s.queues ++ replicate n [] })
unfolding create_worker_threads
create_workers_lem made all zero i s = rw (append-nil s.queues) refl
create_workers_lem made all (suc n) i s = rw (all i) (
    create_workers_lem made all n (suc i) (record s { queues = s.queues ++ [] ∷ [] })
    ∙ ap (λ q. ok tt (record s { queues = q })) (append_assoc s.queues ([] ∷ []) (replicate n [])))

below_true : (n k : ℕ) → n < k → ltb n k ≡ true
below_true n k less = ground arith

-- Let the settings file be read, with a number of threads below 2 ^ 31, and the key, the block, the threads
-- and the port be had. Then `main` comes to its event loop and listens on the port of the file, in the
-- state that `Reach` starts from, with as many workers as the file says and their queues empty.
pub main-Reach :
    {J : Type 0} (json : Json J) (env : Env) (host : Host J) (opt : Settings)
    → load_settings_server json host.settings ≡ some opt
    → opt.thread_num < 2 ^ 31
    → host.opens_key ≡ true
    → host.reads_key ≡ true
    → host.thread_objs ≢ 0
    → ((i : ℕ) → host.thread_made i ≡ true)
    → host.can_listen opt.port ≡ true
    → Returns
        (λ p s'.
          (p ≡ opt.port) × (s'.queues ≡ replicate opt.thread_num []) × Reach env s'.queues s')
        (main json host (started []))
unfolding main
main-Reach json env host opt read few opens reads block all can =
    rw
      (
        read,
        main,
        opens,
        reads,
        below_true opt.thread_num (2 ^ 31) few,
        ==_false host.thread_objs 0 block,
        create_workers_lem host.thread_made all opt.thread_num 0 (started []),
        can,
      )
      (returns (refl, refl, start))
