-- ===== src/Client/Control/Retry.antt =====
-- A DAEMON client whose service cannot be reached.
use sshinner.Base.{
  ℕ, ◌≡◌, ◌≢◌, ap, ◌∙◌, true, false, none, some, List, ◌∷◌, arith, ==_false, ==_true,
}
use sshinner.Run.{ok, stop, faulted, ◌>>◌}
use sshinner.Protocol.{CtlHead}
use sshinner.Server.{Ptr}
use sshinner.Server.Trans.{ushort}
use sshinner.Server.Trans.Release.{write-write}
use sshinner.Client.{PortMap, Client}
use sshinner.Client.Portmap.Table.{find_daemon_portmap_maps}
use sshinner.Client.Trans.Ports.{
  AllLive, scan, fresh, after_create, create_free, create_in_use, after-AllLive, scan_after,
}
use sshinner.Client.Control.{Net, conn}

module _ (net again : Net) (head : CtlHead) (s : Client) (x : ℕ) (rest : List Ptr)
    (daemon : s.is_daemon ≡ true) (down : net.connects_local ≡ false)
    (live : AllLive s.transs s.trans) (free : scan s.transs (ushort head.extra_param) s.trans ≡ 0)
    (memory : s.supply ≡ x ∷ rest) (real : x ≢ 0) (unused : s.transs x ≡ none) where
  -- The state behind the first packet, but for the table.
  abbrev stuck : List PortMap → Client
  stuck ms = after_create (record s { maps = ms }) head.extra_param x rest live memory real unused

  first_conn : (ms : List PortMap) × (conn net head s ≡ ok tt (stuck ms))
  unfolding conn
  first_conn =
      let (r, ms, table) = find_daemon_portmap_maps head.daemonport true s in
      (
        ms,
        ground (
          arith,
          daemon,
          down,
          table,
          create_free (record s { maps = ms }) head.extra_param x rest live memory real unused
              (==_true (scan s.transs (ushort head.extra_param) s.trans) 0 free),
        )
            ∙ ap (λ g. ok tt (record (stuck ms) { transs = g }))
                (write-write s.transs x
                  (some (
                    fresh (record s { maps = ms }) head.extra_param x rest live memory real unused))
                  (some (
                    fresh (record s { maps = ms }) head.extra_param x rest live memory real
                      unused))),
      )

  -- Let a DAEMON client be asked for a new transfer while its service cannot be reached, with memory at
  -- hand. It keeps the transfer, so that the next request with the same number stops it with a write
  -- through `NULL`, whatever the sockets answer then.
  pub conn-conn : (conn net head >> conn again head) s ≡ stop faulted
  unfolding conn
  conn-conn =
      let (ms, first) = first_conn in
      let (r, ms', table) = find_daemon_portmap_maps head.daemonport true (stuck ms) in
      let kept : AllLive (stuck ms).transs (stuck ms).trans =
        after-AllLive (record s { maps = ms }) head.extra_param x rest live memory real unused in
      let taken =
        scan_after (record s { maps = ms }) head.extra_param x rest live memory real unused
          (ushort head.extra_param) free in
      rw first (
        ground (
          arith,
          daemon,
          table,
          create_in_use (record (stuck ms) { maps = ms' }) head.extra_param kept
              (==_false (scan (stuck ms).transs (ushort head.extra_param) (stuck ms).trans) 0
                (ground (arith, taken))),
        ))
