-- ===== src/Server/Memory.antt =====
-- Reads and writes of the server's objects.
use sshinner.Base.{
  ℕ, ◌%◌, List, [], ◌∷◌, ◌++◌, Option, none, some, ◌==◌, if◌then◌else◌, length, get_elem?, set,
}
use sshinner.Run.{ok, stop, faulted, halt, deref}
use sshinner.Protocol.{CtlHead}
use sshinner.Server.{
  CItem, sends, Ptr, TransItem, ActivItem, AcctItem, Tree, Effect, Server, Srv, find_at, write_at,
}

abbrev pub load_acct : Ptr → Srv AcctItem
load_acct p s = deref (find_at s.accts p) s

abbrev pub load_activ : Ptr → Srv ActivItem
load_activ p s = deref (find_at s.activs p) s

abbrev pub load_trans : Ptr → Srv TransItem
load_trans p s = deref (find_at s.transs p) s

abbrev pub put_acct : Ptr → Option AcctItem → Srv (Unit {0})
put_acct p c s = ok tt (record s { accts = write_at s.accts p c })

abbrev pub put_activ : Ptr → Option ActivItem → Srv (Unit {0})
put_activ p c s = ok tt (record s { activs = write_at s.activs p c })

abbrev pub put_trans : Ptr → Option TransItem → Srv (Unit {0})
put_trans p c s = ok tt (record s { transs = write_at s.transs p c })

abbrev pub set_tree : Tree → Srv (Unit {0})
set_tree t s = ok tt (record s { uuid_tree = t })

abbrev pub set_acct_items : List Ptr → Srv (Unit {0})
set_acct_items ps s = ok tt (record s { acct_items = ps })

abbrev pub get : Srv Server
get s = ok s s

-- `emit`: one more thing done.
abbrev pub emit : Effect → Srv (Unit {0})
emit e s = ok tt (record s { trace = s.trace ++ e ∷ [] })

-- `malloc` and `calloc`: the next answer, `NULL` where none is left.
abbrev next_block : List Ptr → Server → Ptr × Server
next_block [] s = (0, s)
next_block (p ∷ ps) s = (p, record s { supply = ps })

unfoldable pub calloc : Srv Ptr
calloc s = let (p, s') = next_block s.supply s in ok p s'

-- `bufferevent_write` of a head; there must be a bufferevent.
abbrev pub send : Ptr → CtlHead → Srv (Unit {0})
send bev head = if bev == 0 then halt faulted else emit (sends bev head)

-- `ss_get_threadobj`: the worker for a number. Without workers it divides by zero.
abbrev pub get_threadobj : ℕ → Srv ℕ
get_threadobj salt s = if length s.queues == 0 then stop faulted else ok (salt % length s.queues) s

-- `slist_add` to a worker's `conn_queue`.
abbrev pub enqueue : ℕ → CItem → Srv (Unit {0})
enqueue i c s = ok tt (record s {
  queues = elim (get_elem? s.queues i) [ none ↦ s.queues | some q ↦ set s.queues i (q ++ c ∷ []) ];
})
