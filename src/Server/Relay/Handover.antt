-- ===== src/Server/Relay/Handover.antt =====
-- A transfer between a USR and a DAEMON client: how the two CONN packets meet.
use mathlib.Core.List.{append_assoc}
use sshinner.Base.{
  ℕ, ◌%◌, ◌≡◌, ◌≢◌, ◌∉◌, refl, ap, ◌∙◌, Bool, true, false, none, some, List, [], ◌∷◌, ◌++◌, arith,
  ◌==◌, ==_true, ==_false, length, get_elem?, set, get_elem?-set, length-set,
}
use sshinner.Run.{ok, Returns, returns, ◌>>=◌}
use sshinner.Protocol.{CtlHead, usr_daemon, cmd_conn}
use sshinner.Server.{
  Ptr, Env, Server, Effect, CItem, ActivItem, frees, sends, notifies, reads_freed, find_at,
}
use sshinner.Server.Uuid.{uuid_search}
use sshinner.Server.Uuid.Search.{uuid_search-find}
use sshinner.Server.Uuid.Sequence.{in_order, find_uuid}
use sshinner.Server.Uuid.Rewrite.{Rising-write, find_uuid-write}
use sshinner.Server.Uuid.Update.{IsIndexed}
use sshinner.Server.Trans.{ushort, find_trans}
use sshinner.Server.Trans.Ports.{
  scan, Apart, IsSession, not-mem_of_none, scan-write, Apart-write, scan-snoc, Apart-snoc,
  find_trans-scan,
}
use sshinner.Server.Relay.{conn_trans, handle_ctl}
use sshinner.Server.Relay.Steps.{item_of, joined, taken, opened, handle_ctl_lem, conn_trans_usr}

-- What the two CONN packets of a transfer leave, `u` from the USR and `d` from the DAEMON client.
abbrev pub Met :
    Env
    → Server
    → Ptr
    → ActivItem
    → Ptr
    → ℕ
    → List CItem
    → CtlHead
    → (u d : Ptr) → Bool
    → Server
    → Type 0
Met env s p a x w q head u d r s' =
    (r ≡ true)
    × (find_trans p head.extra_param s' ≡ ok x s')
    × (find_at s'.transs x ≡ some (joined p head.extra_param))
    × (get_elem? s'.queues w ≡ some (q ++ item_of env u x ∷ item_of env d x ∷ []))
    × (s'.trace
        ≡ s.trace
          ++ frees u
            ∷ sends a.bev_daemon head
            ∷ reads_freed
            ∷ notifies w b'U'
            ∷ frees d
            ∷ reads_freed
            ∷ notifies w b'D'
            ∷ [])

module _ (env : Env) (s : Server) (indexed : IsIndexed s) (head : CtlHead)
    (p x c c' u d w direct : ℕ) (rest : List Ptr) (a : ActivItem) (q : List CItem)
    (session : IsSession s p a)
    (registered : find_uuid s.activs head.mach_uuid (in_order s.uuid_tree) ≡ p)
    (linked : a.bev_daemon ≢ 0) (conn : head.cmd ≡ cmd_conn) (usr : head.direct ≡ usr_daemon)
    (free : scan s.transs (ushort head.extra_param) a.trans ≡ 0) (daemon : direct ≢ usr_daemon)
    (memory : s.supply ≡ x ∷ c ∷ c' ∷ rest) (unused : s.transs x ≡ none) (x_real : x ≢ 0)
    (c_real : c ≢ 0) (c'_real : c' ≢ 0) (worker : w ≡ head.extra_param % length s.queues)
    (at_w : get_elem? s.queues w ≡ some q) where
  abbrev half : Server
  half =
      taken env u x b'U' w q (c' ∷ rest)
        (opened p x head (c ∷ c' ∷ rest) a (record s { trace = s.trace ++ frees u ∷ [] }))

  p_real : (p == 0) ≡ false
  p_real = ground (arith, session.here)

  first_half : handle_ctl env u head s ≡ ok true half
  first_half =
      handle_ctl_lem env u p x c w b'U' head q (c' ∷ rest) (==_true head.cmd cmd_conn conn) p_real
        (==_false x 0 x_real) (==_false c 0 c_real) (rw (==_true head.direct usr_daemon usr)) s
        (opened p x head (c ∷ c' ∷ rest) a (record s { trace = s.trace ++ frees u ∷ [] }))
        (uuid_search-find s head.mach_uuid 0 s.uuid_tree indexed ∙ ap (λ r. ok r s) registered)
        (conn_trans_usr p x head (c ∷ c' ∷ rest) a (record s { trace = s.trace ++ frees u ∷ [] })
          (record { here = session.here; apart = session.apart }) memory x_real unused
          (==_true (scan s.transs (ushort head.extra_param) a.trans) 0 free)
          (==_true head.direct usr_daemon usr) (==_false a.bev_daemon 0 linked))
        refl worker at_w

  abbrev longer : ActivItem
  longer = record a { trans = a.trans ++ x ∷ [] }

  out : x ∉ a.trans
  out = not-mem_of_none s.transs x a.trans session.apart unused

  half-Apart : Apart s.transs a.trans → Apart half.transs a.trans
  half-Apart = Apart-write s.transs x (some (joined p head.extra_param)) a.trans out

  scan_half : (l : ℕ) → scan half.transs l a.trans ≡ scan s.transs l a.trans
  scan_half l = scan-write s.transs x (some (joined p head.extra_param)) l a.trans out

  half-IsSession : IsSession half p longer
  half-IsSession = record {
    here = ground (arith, session.here);
    apart =
        Apart-snoc half.transs x a.trans (joined p head.extra_param, ground arith)
          (ground (arith, scan_half (ushort head.extra_param))) (half-Apart session.apart);
  }

  -- A state that differs from `half` where a search for a transfer does not look.
  abbrev like : List Ptr → List (List CItem) → List Effect → Server
  like supply queues trace = record half { supply = supply; queues = queues; trace = trace }

  find_half :
      (supply : List Ptr) (queues : List (List CItem)) (trace : List Effect)
      → find_trans p head.extra_param (like supply queues trace) ≡ ok x (like supply queues trace)
  find_half supply queues trace =
      find_trans-scan (like supply queues trace) p head.extra_param longer
        (record { here = half-IsSession.here; apart = half-IsSession.apart })
      ∙ ap (λ r. ok r (like supply queues trace))
          (ground (
            arith,
            scan-snoc half.transs x (ushort head.extra_param) a.trans (half-Apart session.apart),
            scan_half (ushort head.extra_param),
          ))

  search_half : uuid_search head.mach_uuid half.uuid_tree half ≡ ok p half
  search_half =
      uuid_search-find half head.mach_uuid 0 s.uuid_tree
        (Rising-write s.activs p a longer session.here refl 0 (in_order s.uuid_tree) indexed)
      ∙ ap (λ r. ok r half)
          (find_uuid-write s.activs p a longer session.here refl head.mach_uuid
              (in_order s.uuid_tree)
            ∙ registered)

  abbrev reply : CtlHead
  reply = record head { direct = direct }

  abbrev half' : Server
  half' = record half { trace = half.trace ++ frees d ∷ [] }

  conn_trans_daemon : conn_trans p reply half' ≡ ok x half'
  unfolding conn_trans
  conn_trans_daemon =
      rw (==_false direct usr_daemon daemon) (find_half half'.supply half'.queues half'.trace)

  second_half :
      handle_ctl env d reply half
      ≡ ok true (taken env d x b'D' w (q ++ item_of env u x ∷ []) rest half')
  second_half =
      handle_ctl_lem env d p x c' w b'D' reply (q ++ item_of env u x ∷ []) rest
        (==_true head.cmd cmd_conn conn) p_real (==_false x 0 x_real) (==_false c' 0 c'_real)
        (rw (==_false direct usr_daemon daemon)) half half' search_half conn_trans_daemon refl
        (rw (length-set s.queues w (q ++ item_of env u x ∷ [])) worker)
        (get_elem?-set s.queues w q (q ++ item_of env u x ∷ []) at_w)

  -- Let the sessions be in order, and let a USR client ask by a CONN packet for a transfer in a
  -- session with a DAEMON client, on a port that no transfer of the session has; let the DAEMON answer
  -- with the same packet in the other direction; and let memory be there. Then both are accepted. The
  -- store has a transfer of that port and session, which a search for the port finds. Its worker gets
  -- first the USR's and then the DAEMON's socket, each with that transfer, and the letters `U` and `D`;
  -- between the two the request went to the DAEMON's control connection.
  pub handle_ctl-handle_ctl :
      Returns
        (Met env s p a x w q head u d)
        ((handle_ctl env u head >>= λ done. handle_ctl env d reply) s)
  handle_ctl-handle_ctl =
      rw (first_half, second_half)
        (returns (
          refl,
          find_half rest _ _,
          ground arith,
          get_elem?-set (set s.queues w _) w (q ++ item_of env u x ∷ []) _
                (get_elem?-set s.queues w q _ at_w)
              ∙ ap some (append_assoc q (item_of env u x ∷ []) (item_of env d x ∷ [])),
          simp append_assoc,
        ))
