-- ===== src/Client/Memory.antt =====
-- Reads and writes of the client's objects.
use sshinner.Base.{ℕ, Option, List, [], ◌∷◌, ◌++◌, ◌==◌, if◌then◌else◌}
use sshinner.Run.{ok, faulted, halt, deref}
use sshinner.Server.{Ptr, find_at, write_at}
use sshinner.Client.{PortTrans, PortMap, Action, frees, enables, Client, Clt}

abbrev pub get : Clt Client
get s = ok s s

abbrev pub load_trans : Ptr → Clt PortTrans
load_trans p s = deref (find_at s.transs p) s

abbrev pub put_trans : Ptr → Option PortTrans → Clt (Unit {0})
put_trans p c s = ok tt (record s { transs = write_at s.transs p c })

abbrev pub set_trans : List Ptr → Clt (Unit {0})
set_trans ps s = ok tt (record s { trans = ps })

abbrev pub set_maps : List PortMap → Clt (Unit {0})
set_maps ms s = ok tt (record s { maps = ms })

abbrev pub set_transid_ports : List ℕ → Clt (Unit {0})
set_transid_ports ports s = ok tt (record s { transid_ports = ports })

abbrev pub set_control : Ptr → Clt (Unit {0})
set_control bev s = ok tt (record s { control_bev = bev })

abbrev pub emit : Action → Clt (Unit {0})
emit e s = ok tt (record s { trace = s.trace ++ e ∷ [] })

-- `calloc`: the next answer, `NULL` where none is left.
unfoldable pub calloc : Clt Ptr
calloc s = elim s.supply [ [] ↦ ok 0 s | (p ∷ ps) ↦ ok p (record s { supply = ps }) ]

-- `bufferevent_enable`; there must be a bufferevent.
abbrev pub enable : Ptr → Clt (Unit {0})
enable bev = if bev == 0 then halt faulted else emit (enables bev)

-- `bufferevent_free` of a bufferevent that is there.
abbrev pub free_bev : Ptr → Clt (Unit {0})
free_bev bev s = if bev == 0 then ok tt s else emit (frees bev) s
