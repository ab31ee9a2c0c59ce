-- ===== src/Server/Worker/Takeover.antt =====
-- The two ends of a transfer at a worker: taken over, and joined.
use mathlib.Core.List.{append_assoc}
use sshinner.Base.{
  ℕ, ◌≡◌, ◌≢◌, Bool, none, some, List, [], ◌∷◌, ◌++◌, arith, get_elem?, set, get_elem?-set,
}
use sshinner.Run.{ok, Returns, returns, ◌>>=◌}
use sshinner.Protocol.{usr_daemon, daemon_usr, cmd_conn_act}
use sshinner.Server.{
  Ptr, Env, Server, CItem, TransItem, ActivItem, relay_cbs, binds, enables, sends, forwards,
  find_at, write_at,
}
use sshinner.Server.Worker.{
  SockAddr, fetch_item, act_head, take_daemon, take_usr, take_over, thread_process,
}
use sshinner.Server.Transfer.{bufferread_cb}

-- What the workers leave of a transfer whose ends are `b` on the USR's side and `b'` on the DAEMON's.
abbrev pub Joined :
    Server → ActivItem → Ptr → TransItem → ℕ → List CItem → (b b' : Ptr) → Server → Type 0
Joined s a x t w q b b' s' =
    (find_at s'.transs x ≡ some (record t { bev_u = b; bev_d = b' }))
    × (get_elem? s'.queues w ≡ some q)
    × (s'.trace
        ≡ s.trace
          ++ binds b relay_cbs x
            ∷ enables b
            ∷ binds b' relay_cbs x
            ∷ sends a.bev_daemon (act_head usr_daemon cmd_conn_act t a)
            ∷ sends a.bev_usr (act_head daemon_usr cmd_conn_act t a)
            ∷ enables b'
            ∷ [])
    × ((bytes : List ℕ)
        → bufferread_cb b x bytes s'
          ≡ ok tt (record s' { trace = s'.trace ++ forwards b' bytes ∷ [] }))
    × ((bytes : List ℕ)
        → bufferread_cb b' x bytes s'
          ≡ ok tt (record s' { trace = s'.trace ++ forwards b bytes ∷ [] }))

module _ (env : Env) (connects : SockAddr → Bool) (x w b b' : ℕ) where
  fetch_item_lem :
      (c : CItem) (q : List CItem) (s : Server)
      → get_elem? s.queues w ≡ some (c ∷ q)
      → fetch_item w s ≡ ok (some c) (record s { queues = set s.queues w q })
  unfolding fetch_item
  fetch_item_lem c q s at_w = rw (fetch_item, at_w)

  -- The state behind the USR's connection.
  abbrev with_usr : TransItem → List CItem → Server → Server
  with_usr t q s = record s {
    queues = set s.queues w q;
    transs = write_at s.transs x (some (record t { bev_u = b }));
    trace = (s.trace ++ binds b relay_cbs x ∷ []) ++ enables b ∷ [];
  }

  take_usr_lem :
      (fd e : ℕ) (t : TransItem) (q : List CItem) (s : Server)
      → get_elem? s.queues w ≡ some (record { socket = fd; p_trans = x } ∷ q)
      → find_at s.transs x ≡ some t
      → b ≢ 0
      → thread_process env connects w (some b'U') b e s ≡ ok none (with_usr t q s)
  unfolding thread_process take_over take_usr
  take_usr_lem fd e t q s at_w here real =
      rw (fetch_item_lem (record { socket = fd; p_trans = x }) q s at_w) (ground (arith, here))

  -- The state behind the DAEMON's connection.
  abbrev with_daemon : TransItem → ActivItem → List CItem → Server → Server
  with_daemon t a q s = record s {
    queues = set s.queues w q;
    transs = write_at s.transs x (some (record t { bev_d = b' }));
    trace =
        (((s.trace ++ binds b' relay_cbs x ∷ [])
            ++ sends a.bev_daemon (act_head usr_daemon cmd_conn_act t a) ∷ [])
          ++ sends a.bev_usr (act_head daemon_usr cmd_conn_act t a) ∷ [])
        ++ enables b' ∷ [];
  }

  take_daemon_lem :
      (fd e : ℕ) (t : TransItem) (a : ActivItem) (q : List CItem) (s : Server)
      → get_elem? s.queues w ≡ some (record { socket = fd; p_trans = x } ∷ q)
      → find_at s.transs x ≡ some t
      → find_at s.activs t.p_activ_item ≡ some a
      → b' ≢ 0
      → t.bev_u ≢ 0
      → t.usr_lport ≢ 0
      → a.bev_daemon ≢ 0
      → a.bev_usr ≢ 0
      → thread_process env connects w (some b'D') b' e s ≡ ok none (with_daemon t a q s)
  unfolding thread_process take_over take_daemon
  take_daemon_lem fd e t a q s at_w here owner real linked named up down =
      rw (fetch_item_lem (record { socket = fd; p_trans = x }) q s at_w)
        (ground (arith, here, owner))

module _ (env : Env) (connects : SockAddr → Bool) (x w b b' e fd fd' : ℕ) (t : TransItem)
    (a : ActivItem) (q : List CItem) (s : Server)
    (at_w : get_elem? s.queues w
      ≡ some (record { socket = fd; p_trans = x } ∷ record { socket = fd'; p_trans = x } ∷ q))
    (here : find_at s.transs x ≡ some t) (owner : find_at s.activs t.p_activ_item ≡ some a)
    (real : b ≢ 0) (real' : b' ≢ 0) (apart : b ≢ b') (named : t.usr_lport ≢ 0)
    (up : a.bev_daemon ≢ 0) (down : a.bev_usr ≢ 0) where
  abbrev first : Server
  first = with_usr env connects x w b b' t (record { socket = fd'; p_trans = x } ∷ q) s

  abbrev second : Server
  second = with_daemon env connects x w b b' (record t { bev_u = b }) a q first

  here_second : find_at second.transs x ≡ some (record t { bev_u = b; bev_d = b' })
  here_second = ground (arith, here)

  relay_usr :
      (bytes : List ℕ)
      → bufferread_cb b x bytes second
        ≡ ok tt (record second { trace = second.trace ++ forwards b' bytes ∷ [] })
  unfolding bufferread_cb
  relay_usr bytes = ground (arith, here_second)

  relay_daemon :
      (bytes : List ℕ)
      → bufferread_cb b' x bytes second
        ≡ ok tt (record second { trace = second.trace ++ forwards b bytes ∷ [] })
  unfolding bufferread_cb
  relay_daemon bytes = ground (arith, here_second)

  -- Let a worker's queue hold the USR's and then the DAEMON's connection of one transfer, in a session
  -- with both clients. By the letters `U` and `D` the worker makes the two connections the ends of the
  -- transfer, and tells both clients to start. From then on, whatever arrives at one end is written to
  -- the other.
  pub thread_process-thread_process :
      Returns
        (λ r s'. Joined s a x t w q b b' s')
        ((thread_process env connects w (some b'U') b e >>= λ r.
            thread_process env connects w (some b'D') b' e)
          s)
  thread_process-thread_process =
      rw
        (
          take_usr_lem env connects x w b b' fd e t (record { socket = fd'; p_trans = x } ∷ q) s
              at_w here real,
          take_daemon_lem env connects x w b b' fd' e (record t { bev_u = b }) a q first
              (get_elem?-set s.queues w _ _ at_w) (ground (arith, here)) owner real' real named up
              down,
        )
        (returns (
          here_second,
          get_elem?-set first.queues w (record { socket = fd'; p_trans = x } ∷ q) q
              (get_elem?-set s.queues w _ _ at_w),
          simp append_assoc,
          relay_usr,
          relay_daemon,
        ))
