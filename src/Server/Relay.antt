-- ===== src/Server/Relay.antt =====
-- The packets that start a transfer (server/source/sshinner_s_event.c, `ss_main_handle_ctl`,
-- `ss_main_handle_ss5` and `ss_main_handle_dns`).
pub mod Steps
pub mod Handover
pub mod Proxied
use sshinner.Base.{
  ℕ, ◌-◌, Bool, true, false, not, ◌||◌, Option, none, some, List, ◌++◌, ◌==◌, if◌then◌else◌, length,
  take, replicate,
}
use sshinner.Run.{pure, require, ◌>>=◌, ◌>>◌}
use sshinner.Protocol.{CtlHead, usr_daemon, cmd_conn, cmd_ss5, cmd_dns}
use sshinner.Server.{Ptr, Env, Srv, frees, notifies, reads_freed}
use sshinner.Server.Memory.{
  load_activ, load_trans, put_trans, get, emit, calloc, send, get_threadobj, enqueue,
}
use sshinner.Server.Uuid.{uuid_search}
use sshinner.Server.Trans.{ushort, find_trans, create_trans}

-- The end of the three handlers: a `C_ITEM` with the socket goes to a worker, and a letter to its
-- pipe. The socket is read from the bufferevent behind its `bufferevent_free`.
unfoldable pub hand_over : Env → Ptr → CtlHead → Ptr → ℕ → Srv Bool
hand_over env bev p_head p_trans letter = do
  emit reads_freed
  worker ← get_threadobj p_head.extra_param
  enqueue worker (record { socket = env.getfd bev; p_trans = p_trans })
  emit (notifies worker letter)
  pure true

-- The transfer of a CONN packet: made for the USR side, which the DAEMON side then hears of, and
-- found for the DAEMON side.
unfoldable pub conn_trans : Ptr → CtlHead → Srv Ptr
conn_trans p_activ_item p_head =
    if p_head.direct == usr_daemon
    then (do
      p_trans ← create_trans p_activ_item p_head.extra_param
      if p_trans == 0 then pure 0 else do
        t ← load_trans p_trans
        put_trans p_trans (
            some (record t {
              is_enc = false;
              p_activ_item = p_activ_item;
              usr_lport = ushort p_head.extra_param;
            }))
        activ ← load_activ p_activ_item
        send activ.bev_daemon p_head
        pure p_trans)
    else find_trans p_activ_item p_head.extra_param

-- `ss_main_handle_ctl`
unfoldable pub handle_ctl : Env → Ptr → CtlHead → Srv Bool
handle_ctl env bev p_head = do
  s ← get
  p_activ_item ← uuid_search p_head.mach_uuid s.uuid_tree
  require (p_head.cmd == cmd_conn)
  if p_activ_item == 0 then pure false else do
    emit (frees bev)
    p_trans ← conn_trans p_activ_item p_head
    if p_trans == 0 then pure false else do
      p_c ← calloc
      if p_c == 0
          then pure false
          else hand_over env bev p_head p_trans (if p_head.direct == usr_daemon then b'U' else b'D')

-- `memcpy(dat, dec_buf, p_head->dat_len)`, from a buffer of 4096 bytes that was cleared first.
abbrev pub decrypted : ℕ → List ℕ → List ℕ
decrypted dat_len out = take dat_len (out ++ replicate (4096 - length out) 0)

-- The common text of `ss_main_handle_ss5` and `ss_main_handle_dns`, which differ in the command that
-- they check and in the letter that they send.
unfoldable pub handle_proxy : Env → (cmd letter : ℕ) → Ptr → CtlHead → Option (List ℕ) → Srv Bool
unfolding hand_over
handle_proxy env cmd letter bev p_head none = pure false
handle_proxy env cmd letter bev p_head (some packet) =
    if not (p_head.cmd == cmd) || (p_head.direct == usr_daemon)
    then pure false
    else elim (env.rsa_private_decrypt (take p_head.dat_len packet)) [
      | none ↦ pure false
      | some out ↦ (do
        s ← get
        p_activ_item ← uuid_search p_head.mach_uuid s.uuid_tree
        if p_activ_item == 0 then pure false else do
          p_trans ← create_trans p_activ_item p_head.extra_param
          if p_trans == 0 then pure false else do
            t ← load_trans p_trans
            put_trans p_trans (
                some (record t {
                  is_enc = true;
                  p_activ_item = p_activ_item;
                  usr_lport = ushort p_head.extra_param;
                  bev_d = bev;
                  bev_u = 0;
                  request = some (decrypted p_head.dat_len out);
                }))
            p_c ← calloc
            if p_c == 0
                then pure false
                else do emit (frees bev); hand_over env bev p_head p_trans letter)
    ]

-- `ss_main_handle_ss5`
unfoldable pub handle_ss5 : Env → Ptr → CtlHead → Option (List ℕ) → Srv Bool
unfolding handle_proxy
handle_ss5 env = handle_proxy env cmd_ss5 b'S'

-- `ss_main_handle_dns`
unfoldable pub handle_dns : Env → Ptr → CtlHead → Option (List ℕ) → Srv Bool
unfolding handle_proxy
handle_dns env = handle_proxy env cmd_dns b'N'
