-- ===== src/Server/Start.antt =====
-- The start of the server (server/source/server.c, `main` up to its event loop, and
-- `load_settings_server` of server/source/sshinner_s_utils.c).
pub mod Started
use sshinner.Base.{
  ℕ, zero, suc, ◌+◌, ◌^◌, ◌≡◌, ◌≢◌, refl, Bool, true, false, not, ◌&&◌, Option, none, some, List,
  [], ◌∷◌, ◌++◌, ◌==◌, ==_false, arith, ltb, if◌then◌else◌, replicate, length,
}
use sshinner.Run.{ok, Returns, returns, pure, halt, exited, require, ◌>>=◌, ◌>>◌}
use sshinner.Json.{Json, server, port, thread_num}
use sshinner.Server.{Ptr, Server, Srv, leaf}
use sshinner.Server.Trans.{ushort}

-- The members of `SRV_OPT` that are settings.
pub record Settings : Type 0 where
  pub port : ℕ
  pub thread_num : ℕ

-- `load_settings_server`, for what `json_object_from_file` makes of the file; `none` for `RET_NO`.
unfoldable pub load_settings_server : {J : Type 0} → Json J → Option J → Option Settings
load_settings_server json none = none
load_settings_server json (some obj) = elim (json.member obj server) [
  | none ↦ none
  | some v ↦ some (record {
    port = elim (json.member v port) [ none ↦ 0 | some n ↦ ushort (json.int n) ];
    thread_num = elim (json.member v thread_num) [ none ↦ 5 | some n ↦ json.int n ];
  })
]

-- What the private key, `calloc` and libevent answer: whether the key file opens and holds a key; the block
-- for the worker threads, and for each of them whether its pipe, event base, event and thread are made;
-- and the ports that can be listened on.
pub record Host (J : Type 0) : Type 0 where
  pub settings : Option J
  pub opens_key : Bool
  pub reads_key : Bool
  pub thread_objs : Ptr
  pub thread_made : ℕ → Bool
  pub can_listen : ℕ → Bool

-- The loop of `ss_create_worker_threads`. The wait for the threads behind it ends, as `Pool` shows.
unfoldable pub create_worker_threads : (made : ℕ → Bool) → (i thread_num : ℕ) → Srv (Unit {0})
create_worker_threads made i zero = pure tt
create_worker_threads made i (suc n) = do
  require (made i)
  (λ s. ok tt (record s { queues = s.queues ++ [] ∷ [] }))
  create_worker_threads made (suc i) n

-- `main`, up to `event_base_loop`: the port that the server listens on. `calloc` refuses a number of threads
-- below 0, which is one of 2 ^ 31 or more here.
unfoldable pub main : {J : Type 0} → Json J → Host J → Srv ℕ
unfolding load_settings_server create_worker_threads
main json host = elim (load_settings_server json host.settings) [
  | none ↦ halt exited
  | some opt ↦
      if not (host.opens_key) then halt exited else if not (host.reads_key) then halt exited else do
        require (ltb opt.thread_num (2 ^ 31) && not (host.thread_objs == 0))
        create_worker_threads host.thread_made 0 opt.thread_num
        if host.can_listen opt.port then pure opt.port else halt exited
]
