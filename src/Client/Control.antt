-- ===== src/Client/Control.antt =====
-- The client's callbacks (client/source/sshinner_c_event.c).
pub mod Retry
pub mod Accept
use sshinner.Base.{
  ℕ, Bool, true, false, not, ◌&&◌, ◌||◌, some, List, [], ◌∷◌, ◌==◌, if◌then◌else◌, length,
}
use sshinner.Run.{pure, halt, aborted, exited, faulted, require, ◌>>=◌, ◌>>◌}
use sshinner.Protocol.{
  CtlHead, zero_head, usr_daemon, daemon_usr, cmd_conn, cmd_conn_act, cmd_ss5_act, cmd_dns_act,
  cmd_end_trans, cmd_error,
}
use sshinner.Server.{Ptr, Env}
use sshinner.Server.Trans.{ushort}
use sshinner.Server.Dispatch.{Events}
use sshinner.Client.{
  PortMap, Clt, Handlers, srv_cbs, data_cbs, sends, forwards, frees, binds, arms, leaves,
}
use sshinner.Client.Memory.{get, load_trans, put_trans, set_control, emit, enable, free_bev}
use sshinner.Client.Register.{PacketEnv, daemon_init_srv}
use sshinner.Client.Portmap.{find_daemon_portmap}
use sshinner.Client.Trans.{find_trans, create_trans, free_trans, free_all_trans}

-- What the sockets answer in one call: whether the local service and the server can be reached (with
-- the socket options set), and the bufferevents that libevent makes.
pub record Net : Type 0 where
  pub connects_local : Bool
  pub connects_srv : Bool
  pub local_bev : Ptr
  pub srv_bev : Ptr

-- `bufferevent_setcb`; there must be a bufferevent.
abbrev pub bind_bev : Ptr → Handlers → Ptr → Clt (Unit {0})
bind_bev bev cbs p_trans = if bev == 0 then halt faulted else emit (binds bev cbs p_trans)

-- CONN_ACT: both ends of a transfer are enabled.
unfoldable pub conn_act : CtlHead → Clt (Unit {0})
conn_act head = do
  p_trans ← find_trans head.extra_param
  if p_trans == 0
      then halt aborted
      else do t ← load_trans p_trans; enable t.local_bev; enable t.srv_bev

-- END_TRANS: both ends of a transfer are closed. The transfer stays in the list.
unfoldable pub end_trans : CtlHead → Clt (Unit {0})
end_trans head = do
  p_trans ← find_trans head.extra_param
  if p_trans == 0 then pure tt else do
    t ← load_trans p_trans
    free_bev t.srv_bev
    free_bev t.local_bev
    put_trans p_trans (some (record t { srv_bev = 0; local_bev = 0 }))

-- SS5_ACT: both ends are enabled, and the local program gets the SOCKS5 reply.
unfoldable pub ss5_act : CtlHead → Clt (Unit {0})
ss5_act head = do
  p_trans ← find_trans head.extra_param
  if p_trans == 0 then pure tt else do
    t ← load_trans p_trans
    enable t.local_bev
    enable t.srv_bev
    emit (forwards t.local_bev (5 ∷ 0 ∷ 0 ∷ 1 ∷ 0 ∷ 0 ∷ 0 ∷ 0 ∷ 16 ∷ 16 ∷ []))

-- DNS_ACT: the socket of the DNS proxy is enabled. The transfer is not tested for `NULL`.
unfoldable pub dns_act : CtlHead → Clt (Unit {0})
dns_act head = do
  p_trans ← find_trans head.extra_param
  t ← load_trans p_trans
  require (t.local_bev == 0)
  if t.extra_ev == 0 then halt faulted else emit (arms t.extra_ev)
  enable t.srv_bev

-- CONN, at a DAEMON client: it connects to its service and to the server. The transfer is written to
-- before it is tested for `NULL`.
unfoldable pub conn : Net → CtlHead → Clt (Unit {0})
conn net head = do
  s ← get
  require s.is_daemon
  find_daemon_portmap head.daemonport true
  p_trans ← create_trans head.extra_param
  t ← load_trans p_trans
  put_trans p_trans (some (record t { is_enc = false }))
  if not net.connects_local || not net.connects_srv then pure tt else do
    bind_bev net.local_bev data_cbs p_trans
    bind_bev net.srv_bev data_cbs p_trans
    put_trans p_trans (
        some (record t {
          is_enc = false;
          l_port = ushort head.extra_param;
          local_bev = net.local_bev;
          srv_bev = net.srv_bev;
        }))
    emit (
        sends net.srv_bev (record zero_head {
          cmd = cmd_conn;
          extra_param = ushort head.extra_param;
          mach_uuid = s.session_uuid;
          direct = daemon_usr;
        }))

-- What the command of a packet asks for.
unfoldable pub follow : Net → CtlHead → Clt (Unit {0})
follow net head =
    if head.cmd == cmd_conn_act
    then conn_act head
    else if head.cmd == cmd_end_trans
    then end_trans head
    else if head.cmd == cmd_ss5_act
    then ss5_act head
    else if head.cmd == cmd_dns_act
    then dns_act head
    else if head.cmd == cmd_conn
    then conn net head
    else pure tt

-- `srv_bufferread_cb`: what is returned is the input that is left.
unfoldable pub srv_bufferread_cb : Env → Net → List ℕ → Clt (List ℕ)
srv_bufferread_cb env net input =
    let (bytes, rest) = env.evbuffer_remove env.head_len input in
    let head = env.head_of bytes in
    if not (length bytes == env.head_len) then pure rest else do
      s ← get
      if not (head.mach_uuid == s.session_uuid)
          then halt aborted
          else if head.cmd == cmd_error
          then halt exited
          else do follow net head; pure rest

-- `sc_set_eventcb_srv`
unfoldable pub set_eventcb_srv : Ptr → Clt (Unit {0})
set_eventcb_srv bev = do bind_bev bev srv_cbs 0; set_control bev; enable bev

-- `srv_bufferevent_cb`: a DAEMON client whose connection is closed drops all transfers and registers
-- again over a new socket `srv_fd`, from which `reply` is read, and goes on even where that fails.
unfoldable pub srv_bufferevent_cb :
    PacketEnv → Net → (srv_fd : ℕ) → (reply : CtlHead) → Ptr → Events → Clt (Unit {0})
srv_bufferevent_cb penv net srv_fd reply bev events =
    if events.connected
    then pure tt
    else if events.error
    then (do emit (frees bev); emit leaves)
    else if not events.eof
    then pure tt
    else do
      s ← get
      if not s.is_daemon then halt exited else do
        free_all_trans
        if net.connects_srv then pure tt else emit leaves
        done ← daemon_init_srv penv srv_fd reply
        if done then pure tt else emit leaves
        set_eventcb_srv net.srv_bev

-- `bufferevent_cb`; `ss5_bufferevent_cb` and `dns_bufferevent_cb` have the same text.
unfoldable pub bufferevent_cb : Events → Ptr → Clt (Unit {0})
bufferevent_cb events p_trans =
    if events.connected || not (events.error || events.eof || events.timeout)
    then pure tt
    else do load_trans p_trans; free_trans p_trans; pure tt

-- `bufferread_cb`
unfoldable pub bufferread_cb : Ptr → Ptr → List ℕ → Clt (Unit {0})
bufferread_cb bev p_trans input = do
  t ← load_trans p_trans
  if (bev == t.local_bev) && not (t.srv_bev == 0)
      then emit (forwards t.srv_bev input)
      else (if (bev == t.srv_bev) && not (t.local_bev == 0)
          then emit (forwards t.local_bev input)
          else halt aborted)

-- `accept_conn_cb`: a program connects to a port of a USR client, from the port `sbuf`.
unfoldable pub accept_conn_cb : Net → PortMap → (sbuf : ℕ) → Clt (Unit {0})
accept_conn_cb net map sbuf = if not net.connects_srv then pure tt else do
  p_trans ← create_trans sbuf
  if p_trans == 0 then pure tt else do
    require (not (net.local_bev == 0))
    emit (binds net.local_bev data_cbs p_trans)
    require (not (net.srv_bev == 0))
    emit (binds net.srv_bev data_cbs p_trans)
    t ← load_trans p_trans
    put_trans p_trans (
        some (record t {
          is_enc = false;
          l_port = ushort sbuf;
          local_bev = net.local_bev;
          srv_bev = net.srv_bev;
        }))
    s ← get
    emit (
        sends net.srv_bev (record zero_head {
          cmd = cmd_conn;
          daemonport = map.daemonport;
          usrport = map.usrport;
          extra_param = sbuf;
          mach_uuid = s.session_uuid;
          direct = usr_daemon;
        }))
