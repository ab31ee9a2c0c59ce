-- ===== src/Client/Control/Accept.antt =====
-- A USR client that accepts a connection of a local program.
use sshinner.Base.{ℕ, ◌≡◌, ◌≢◌, refl, true, none, some, List, [], ◌∷◌, ◌++◌, arith, ==_true}
use mathlib.Core.List.{append_assoc}
use sshinner.Run.{ok, Returns, returns}
use sshinner.Protocol.{CtlHead, zero_head, cmd_conn, usr_daemon}
use sshinner.Server.{Ptr, find_at, write_at}
use sshinner.Server.Trans.{ushort}
use sshinner.Client.{PortMap, PortTrans, Client, zero_port_trans, sends, binds, forwards, data_cbs}
use sshinner.Client.Trans.Ports.{AllLive, scan, create_free}
use sshinner.Client.Control.{Net, accept_conn_cb, bufferread_cb}

-- The packet that asks the server for a transfer.
abbrev pub conn_head : Client → PortMap → ℕ → CtlHead
conn_head s map sbuf = record zero_head {
  cmd = cmd_conn;
  daemonport = map.daemonport;
  usrport = map.usrport;
  extra_param = sbuf;
  mach_uuid = s.session_uuid;
  direct = usr_daemon;
}

-- The transfer of an accepted connection.
abbrev pub accepted : Net → ℕ → PortTrans
accepted net sbuf = record zero_port_trans {
  l_port = ushort sbuf;
  local_bev = net.local_bev;
  srv_bev = net.srv_bev;
}

-- What is left: the transfer, the packet, and a relay between the two ends.
abbrev pub Accepted : Client → Net → PortMap → ℕ → Ptr → Client → Type 0
Accepted s net map sbuf x s' =
    (s'.trans ≡ s.trans ++ x ∷ [])
    × (find_at s'.transs x ≡ some (accepted net sbuf))
    × (s'.trace
        ≡ s.trace
          ++ binds net.local_bev data_cbs x
            ∷ binds net.srv_bev data_cbs x
            ∷ sends net.srv_bev (conn_head s map sbuf)
            ∷ [])
    × ((bytes : List ℕ)
        → bufferread_cb net.local_bev x bytes s'
          ≡ ok tt (record s' { trace = s'.trace ++ forwards net.srv_bev bytes ∷ [] }))
    × ((bytes : List ℕ)
        → bufferread_cb net.srv_bev x bytes s'
          ≡ ok tt (record s' { trace = s'.trace ++ forwards net.local_bev bytes ∷ [] }))

module _ (s : Client) (net : Net) (map : PortMap) (sbuf x : ℕ) (rest : List Ptr)
    (live : AllLive s.transs s.trans) (memory : s.supply ≡ x ∷ rest) (real : x ≢ 0)
    (unused : s.transs x ≡ none) (free : scan s.transs (ushort sbuf) s.trans ≡ 0)
    (up : net.connects_srv ≡ true) (local : net.local_bev ≢ 0) (far : net.srv_bev ≢ 0)
    (apart : net.local_bev ≢ net.srv_bev) where
  abbrev done : Client
  done = record s {
    supply = rest;
    transs =
        write_at (write_at s.transs x (some (record zero_port_trans { l_port = ushort sbuf }))) x
          (some (accepted net sbuf));
    trans = s.trans ++ x ∷ [];
    trace =
        ((s.trace ++ binds net.local_bev data_cbs x ∷ []) ++ binds net.srv_bev data_cbs x ∷ [])
        ++ sends net.srv_bev (conn_head s map sbuf) ∷ [];
  }

  accept_lem : accept_conn_cb net map sbuf s ≡ ok tt done
  unfolding accept_conn_cb
  accept_lem = ground (
    arith,
    create_free s sbuf x rest live memory real unused
        (==_true (scan s.transs (ushort sbuf) s.trans) 0 free),
  )

  there : find_at done.transs x ≡ some (accepted net sbuf)
  there = ground arith

  outward :
      (bytes : List ℕ)
      → bufferread_cb net.local_bev x bytes done
        ≡ ok tt (record done { trace = done.trace ++ forwards net.srv_bev bytes ∷ [] })
  unfolding bufferread_cb
  outward bytes = ground (arith, there)

  inward :
      (bytes : List ℕ)
      → bufferread_cb net.srv_bev x bytes done
        ≡ ok tt (record done { trace = done.trace ++ forwards net.local_bev bytes ∷ [] })
  unfolding bufferread_cb
  inward bytes = ground (arith, there)

  -- Let a program connect to a USR client from a port that no transfer has, while the server can be
  -- reached and memory is there. Then the client has a transfer with that port, the server is asked for
  -- it by one CONN packet on the new connection, and from then on whatever arrives from the
  -- program goes to the server, and back.
  pub accept_conn_cb-Accepted :
      Returns (λ _ s'. Accepted s net map sbuf x s') (accept_conn_cb net map sbuf s)
  accept_conn_cb-Accepted =
      rw accept_lem (returns (refl, there, simp append_assoc, outward, inward))
