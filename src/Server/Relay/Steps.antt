-- ===== src/Server/Relay/Steps.antt =====
-- The parts of the handling of a CONN packet, each by the state that it leaves.
use sshinner.Base.{
  ℕ, ◌%◌, ◌≡◌, ◌≢◌, ap, sym, ◌∙◌, true, false, none, some, List, [], ◌∷◌, ◌++◌, arith, ◌==◌,
  if◌then◌else◌, length, get_elem?, set, ne_zero_of_elem,
}
use sshinner.Run.{ok}
use sshinner.Protocol.{CtlHead, usr_daemon, cmd_conn}
use sshinner.Server.{
  Ptr, Env, Server, CItem, TransItem, ActivItem, zero_trans, frees, sends, notifies, reads_freed,
  write_at,
}
use sshinner.Server.Memory.{calloc}
use sshinner.Server.Uuid.{uuid_search}
use sshinner.Server.Trans.{ushort}
use sshinner.Server.Trans.Ports.{scan, IsSession, create_free}
use sshinner.Server.Trans.Release.{write-write}
use sshinner.Server.Relay.{hand_over, conn_trans, handle_ctl}

-- The item that goes to a worker.
abbrev pub item_of : Env → Ptr → Ptr → CItem
item_of env bev x = record { socket = env.getfd bev; p_trans = x }

-- The state behind a handover to the worker `w`, whose queue was `q`.
abbrev pub handed : Env → Ptr → Ptr → ℕ → ℕ → List CItem → Server → Server
handed env bev x letter w q s = record s {
  queues = set s.queues w (q ++ item_of env bev x ∷ []);
  trace = (s.trace ++ reads_freed ∷ []) ++ notifies w letter ∷ [];
}

pub hand_over_lem :
    (env : Env) (bev x letter w : ℕ) (head : CtlHead) (q : List CItem) (s : Server)
    → w ≡ head.extra_param % length s.queues
    → get_elem? s.queues w ≡ some q
    → hand_over env bev head x letter s ≡ ok true (handed env bev x letter w q s)
unfolding hand_over
hand_over_lem env bev x letter w head q s e at_w =
    rw (ne_zero_of_elem s.queues w q at_w, sym e, at_w, e)

-- The state behind the handling of a CONN packet, from the one where its transfer is known.
abbrev pub taken : Env → Ptr → Ptr → ℕ → ℕ → List CItem → List Ptr → Server → Server
taken env bev x letter w q rest s = handed env bev x letter w q (record s { supply = rest })

module _ (env : Env) (bev p x c w letter : ℕ) (head : CtlHead) (q : List CItem) (rest : List Ptr)
    (conn : (head.cmd == cmd_conn) ≡ true) (real : (p == 0) ≡ false) (there : (x == 0) ≡ false)
    (block : (c == 0) ≡ false)
    (sort : (if head.direct == usr_daemon then b'U' else b'D') ≡ letter) where
  pub handle_ctl_lem :
      (s s' : Server)
      → uuid_search head.mach_uuid s.uuid_tree s ≡ ok p s
      → conn_trans p head (record s { trace = s.trace ++ frees bev ∷ [] }) ≡ ok x s'
      → s'.supply ≡ c ∷ rest
      → w ≡ head.extra_param % length s'.queues
      → get_elem? s'.queues w ≡ some q
      → handle_ctl env bev head s ≡ ok true (taken env bev x letter w q rest s')
  unfolding handle_ctl calloc
  handle_ctl_lem s s' found has memory e at_w =
      rw (found, conn, real, has, there, memory, block, sort)
        (hand_over_lem env bev x letter w head q (record s' { supply = rest }) e at_w)

-- The transfer that a CONN packet makes.
abbrev pub joined : Ptr → ℕ → TransItem
joined p port = record zero_trans { p_activ_item = p; usr_lport = ushort port }

module _ (p x : ℕ) (head : CtlHead) (rest : List Ptr) (a : ActivItem) where
  -- The state behind the making of the transfer.
  abbrev pub opened : Server → Server
  opened s = record s {
    supply = rest;
    transs = write_at s.transs x (some (joined p head.extra_param));
    activs = write_at s.activs p (some (record a { trans = a.trans ++ x ∷ [] }));
    trace = s.trace ++ sends a.bev_daemon head ∷ [];
  }

  pub conn_trans_usr :
      (s : Server)
      → IsSession s p a
      → s.supply ≡ x ∷ rest
      → x ≢ 0
      → s.transs x ≡ none
      → (scan s.transs (ushort head.extra_param) a.trans == 0) ≡ true
      → (head.direct == usr_daemon) ≡ true
      → (a.bev_daemon == 0) ≡ false
      → conn_trans p head s ≡ ok x (opened s)
  unfolding conn_trans
  conn_trans_usr s session next real unused free usr linked =
      rw (usr, create_free s p head.extra_param x rest a session next real unused free)
        (ground (arith, session.here)
          ∙ ap (λ g. ok x (record (opened s) { transs = g }))
              (write-write s.transs x
                (some (record zero_trans { usr_lport = ushort head.extra_param }))
                (some (joined p head.extra_param))))
