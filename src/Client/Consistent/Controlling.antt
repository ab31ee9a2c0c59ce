-- ===== src/Client/Consistent/Controlling.antt =====
-- The callbacks of the control connection and of plain data keep the client's transfers together.
use sshinner.Base.{
  ℕ, refl, true, false, not, [], ◌∷◌, ◌++◌, ◌||◌, ◌&&◌, some, List, ◌==◌, length, arith,
}
use sshinner.Run.Ensures.{ended, stopped, after, branch, after_read, require-Reads}
use sshinner.Protocol.{
  CtlHead, cmd_conn, cmd_conn_act, cmd_ss5_act, cmd_dns_act, cmd_end_trans, cmd_error,
}
use sshinner.Server.{Ptr, Env, write_at}
use sshinner.Server.Dispatch.{Events}
use sshinner.Server.Trans.{ushort}
use sshinner.Client.{PortMap, Client, srv_cbs, data_cbs, arms, binds, leaves}
use sshinner.Client.Memory.{set_control, enable}
use sshinner.Client.Portmap.{find_daemon_portmap}
use sshinner.Client.Portmap.Table.{find_daemon_portmap_maps}
use sshinner.Client.Control.{
  Net, conn_act, end_trans, ss5_act, dns_act, conn, follow, srv_bufferread_cb, set_eventcb_srv,
  srv_bufferevent_cb, bufferevent_cb, bufferread_cb, accept_conn_cb,
}
use sshinner.Client.Trans.Ports.{scan}
use sshinner.Client.Consistent.{IsLinked, Kept}
use sshinner.Client.Consistent.Writes.{Sound-write}
use sshinner.Client.Consistent.Quietly.{
  no_end, beside, Quiet, quiet, after-Quiet, end-Quiet, also-Quiet, branch-Quiet, emit-Quiet,
  enable-Quiet, free_bev-Quiet, bind_bev-Quiet, trans-Reads,
}
use sshinner.Client.Register.{PacketEnv}
use sshinner.Client.Consistent.Packets.{daemon_init_srv-Quiet}
use sshinner.Client.Consistent.Lists.{
  Made-port, find_trans-scan, create_trans-Made, free_trans-Kept, free_all_trans-Kept,
}

module _ (head : CtlHead) (s : Client) (sound : IsLinked s) where
  abbrev found : Ptr
  found = scan s.transs (ushort head.extra_param) s.trans

  conn_act-Kept : Kept (conn_act head s)
  unfolding conn_act
  conn_act-Kept = rw (find_trans-scan s head.extra_param sound) (
      branch (found == 0) _ _ s (λ _. stopped)
        λ _. after_read _ (trans-Reads found s) λ t _.
          after-Quiet _ (enable-Quiet t.local_bev s)
            λ _ s1. end-Quiet (enable-Quiet t.srv_bev (beside s s1)) λ _ _. sound)

  end_trans-Kept : Kept (end_trans head s)
  unfolding end_trans
  end_trans-Kept = rw (find_trans-scan s head.extra_param sound) (
      branch (found == 0) _ _ s (λ _. ended sound)
        λ _. after_read _ (trans-Reads found s) λ t there.
          after-Quiet _ (free_bev-Quiet t.srv_bev s) λ _ s1.
            after-Quiet _ (free_bev-Quiet t.local_bev (beside s s1))
              λ _ s2. ended (Sound-write s.transs s.trans s.supply sound found t _ there refl))

  ss5_act-Kept : Kept (ss5_act head s)
  unfolding ss5_act
  ss5_act-Kept = rw (find_trans-scan s head.extra_param sound) (
      branch (found == 0) _ _ s (λ _. ended sound)
        λ _. after_read _ (trans-Reads found s) λ t _.
          after-Quiet _ (enable-Quiet t.local_bev s)
            λ _ s1. after-Quiet _ (enable-Quiet t.srv_bev (beside s s1)) λ _ _. ended sound)

  dns_act-Kept : Kept (dns_act head s)
  unfolding dns_act
  dns_act-Kept = rw (find_trans-scan s head.extra_param sound) (
      after_read _ (trans-Reads found s) λ t _.
        after_read _ (require-Reads (t.local_bev == 0) s) λ _ _.
          after-Quiet _
            (branch-Quiet (t.extra_ev == 0) _ _ s no_end (emit-Quiet (arms t.extra_ev) s))
            λ _ s1. end-Quiet (enable-Quiet t.srv_bev (beside s s1)) λ _ _. sound)

find_daemon_portmap-Quiet : (port : ℕ) (s : Client) → Quiet s (find_daemon_portmap port true s)
find_daemon_portmap-Quiet port s =
    let (r, maps, run) = find_daemon_portmap_maps port true s in
    rw run (quiet (record s { maps = maps }))

module _ (net : Net) (head : CtlHead) where
  conn-Kept : (s : Client) → IsLinked s → Kept (conn net head s)
  unfolding conn
  conn-Kept s sound = after_read _ (require-Reads s.is_daemon s) λ _ _.
      after-Quiet _ (find_daemon_portmap-Quiet head.daemonport s) λ _ s1.
        after (create_trans-Made head.extra_param (beside s s1) sound) λ p s2 made.
          after_read _ (trans-Reads p s2) λ t there.
            let sound3 = Sound-write s2.transs s2.trans s2.supply made.0 p t _ there refl in
            let s3 : Client = record s2 {
              transs = write_at s2.transs p (some (record t { is_enc = false }));
            } in
            branch (not net.connects_local || not net.connects_srv) _ _ s3 (λ _. ended sound3)
              λ _. after-Quiet _ (bind_bev-Quiet net.local_bev data_cbs p s3) λ _ s4.
                after-Quiet _ (bind_bev-Quiet net.srv_bev data_cbs p (beside s3 s4)) λ _ s5. ended (
                  Sound-write s3.transs s3.trans s3.supply sound3 p (record t { is_enc = false }) _
                    (ground (arith, there)) (Made-port head.extra_param p s2 t made there))

  follow-Kept : (s : Client) → IsLinked s → Kept (follow net head s)
  unfolding follow
  follow-Kept s sound =
      branch (head.cmd == cmd_conn_act) _ _ s (λ _. conn_act-Kept head s sound)
        λ _.
          branch (head.cmd == cmd_end_trans) _ _ s (λ _. end_trans-Kept head s sound)
            λ _.
              branch (head.cmd == cmd_ss5_act) _ _ s (λ _. ss5_act-Kept head s sound)
                λ _.
                  branch (head.cmd == cmd_dns_act) _ _ s (λ _. dns_act-Kept head s sound)
                    λ _.
                      branch (head.cmd == cmd_conn) _ _ s (λ _. conn-Kept s sound) λ _. ended sound

pub srv_bufferread_cb-Kept :
    (env : Env) (net : Net) (input : List ℕ) (s : Client)
    → IsLinked s
    → Kept (srv_bufferread_cb env net input s)
unfolding srv_bufferread_cb
srv_bufferread_cb-Kept env net input s sound =
    let bytes = (env.evbuffer_remove env.head_len input).0 in
    let head = env.head_of bytes in
    branch (not (length bytes == env.head_len)) _ _ s (λ _. ended sound)
      λ _.
        branch (not (head.mach_uuid == s.session_uuid)) _ _ s (λ _. stopped)
          λ _.
            branch (head.cmd == cmd_error) _ _ s (λ _. stopped)
              λ _. after (follow-Kept net head s sound) λ _ _ still. ended still

control-Quiet : (bev : Ptr) (s : Client) → Quiet s (set_control bev s)
control-Quiet bev s = quiet (record s { control_bev = bev })

pub set_eventcb_srv-Quiet : (bev : Ptr) (s : Client) → Quiet s (set_eventcb_srv bev s)
unfolding set_eventcb_srv
set_eventcb_srv-Quiet bev s = also-Quiet _ (bind_bev-Quiet bev srv_cbs 0 s) λ _ s1.
    also-Quiet (λ _. enable bev) (control-Quiet bev (beside s s1))
      λ _ s2. enable-Quiet bev (beside s s2)

pub srv_bufferevent_cb-Kept :
    (penv : PacketEnv) (net : Net) (srv_fd : ℕ) (reply : CtlHead) (bev : Ptr) (events : Events)
    (s : Client)
    → IsLinked s
    → Kept (srv_bufferevent_cb penv net srv_fd reply bev events s)
unfolding srv_bufferevent_cb
srv_bufferevent_cb-Kept penv net srv_fd reply bev events s sound =
    branch events.connected _ _ s (λ _. ended sound)
      λ _.
        branch events.error _ _ s (λ _. ended sound)
          λ _.
            branch (not events.eof) _ _ s (λ _. ended sound)
              λ _.
                branch (not s.is_daemon) _ _ s (λ _. stopped)
                  λ _. after (free_all_trans-Kept s sound) λ _ s1 sound1.
                    after-Quiet _
                      (branch-Quiet net.connects_srv _ _ s1 (quiet s1) (emit-Quiet leaves s1))
                      λ _ s2.
                        after-Quiet _ (daemon_init_srv-Quiet penv srv_fd reply (beside s1 s2))
                          λ done s3.
                            after-Quiet _
                              (branch-Quiet done _ _ _ (quiet (beside s1 s3))
                                (emit-Quiet leaves (beside s1 s3)))
                              λ _ s4.
                                end-Quiet (set_eventcb_srv-Quiet net.srv_bev (beside s1 s4))
                                  λ _ _. sound1

pub bufferevent_cb-Kept :
    (events : Events) (p : Ptr) (s : Client) → IsLinked s → Kept (bufferevent_cb events p s)
unfolding bufferevent_cb
bufferevent_cb-Kept events p s sound =
    branch (events.connected || not (events.error || events.eof || events.timeout)) _ _ s
      (λ _. ended sound)
      λ _.
        after_read _ (trans-Reads p s)
          λ t _. after (free_trans-Kept p s sound) λ _ _ still. ended still

pub bufferread_cb-Kept :
    (bev p : Ptr) (input : List ℕ) (s : Client) → IsLinked s → Kept (bufferread_cb bev p input s)
unfolding bufferread_cb
bufferread_cb-Kept bev p input s sound = after_read _ (trans-Reads p s) λ t _.
    branch ((bev == t.local_bev) && not (t.srv_bev == 0)) _ _ s (λ _. ended sound)
      λ _.
        branch ((bev == t.srv_bev) && not (t.local_bev == 0)) _ _ s (λ _. ended sound) λ _. stopped

pub accept_conn_cb-Kept :
    (net : Net) (map : PortMap) (sbuf : ℕ) (s : Client)
    → IsLinked s
    → Kept (accept_conn_cb net map sbuf s)
unfolding accept_conn_cb
accept_conn_cb-Kept net map sbuf s sound =
    branch (not net.connects_srv) _ _ s (λ _. ended sound)
      λ _. after (create_trans-Made sbuf s sound) λ p s1 made.
        branch (p == 0) _ _ s1 (λ _. ended made.0)
          λ real. after_read _ (require-Reads (not (net.local_bev == 0)) s1) λ _ _.
            let s2 : Client = record s1 {
              trace = s1.trace ++ binds net.local_bev data_cbs p ∷ [];
            } in
            after_read _ (require-Reads (not (net.srv_bev == 0)) s2) λ _ _.
              let s3 : Client = record s2 {
                trace = s2.trace ++ binds net.srv_bev data_cbs p ∷ [];
              } in
              after_read _ (trans-Reads p s3) λ t there. ended (
                Sound-write s1.transs s1.trans s1.supply made.0 p t _ there
                  (Made-port sbuf p s1 t made there))
