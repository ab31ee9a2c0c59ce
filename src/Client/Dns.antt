-- ===== src/Client/Dns.antt =====
-- The DNS proxy of a DAEMON client (client/source/sshinner_c_dns.c, and the end of `main` in
-- client/source/client.c).
pub mod Return
use sshinner.Base.{
  Bool, Option, ℕ, ◌+◌, ◌*◌, ◌%◌, ◌^◌, true, false, not, ◌&&◌, ◌||◌, some, none, List, ◌++◌, ◌==◌,
  ltb, if◌then◌else◌, length, set, take, drop, replicate,
}
use sshinner.Run.{pure, halt, aborted, exited, faulted, ◌>>=◌, ◌>>◌}
use sshinner.Crypt.{Evp, EncFrame, encrypt_ctx_init}
use sshinner.Server.{Ptr}
use sshinner.Server.Dispatch.{Events}
use sshinner.Server.Trans.{ushort}
use sshinner.Server.Transfer.{frame_of}
use sshinner.Client.{PortTrans, Clt, dns_cbs, forwards, answers}
use sshinner.Client.Memory.{get, load_trans, put_trans, set_transid_ports, emit}
use sshinner.Client.Trans.{create_trans, free_trans}
use sshinner.Client.Control.{bind_bev}
use sshinner.Client.Register.{PacketEnv, daemon_dns_init_srv}
use sshinner.Client.Proxy.{byte_at, encrypt_read, decrypt_read}

-- `dat[0] << 8 | dat[1]` as an `unsigned short`, where the two are `char`s: a second byte of 128 or more
-- is negative, and its sign covers the first.
abbrev pub transid : List ℕ → ℕ
transid dat =
    if ltb (byte_at dat 1) 128
    then byte_at dat 0 * 256 + byte_at dat 1
    else 255 * 256 + byte_at dat 1

-- A write and a read of the table of ports, within its bounds.
abbrev pub record_port : (id port : ℕ) → Clt (Unit {0})
record_port id port s =
    if ltb id (length s.transid_ports)
    then set_transid_ports (set s.transid_ports id port) s
    else halt faulted s

abbrev pub recorded_port : (id : ℕ) → Clt ℕ
recorded_port id s =
    if ltb id (length s.transid_ports) then pure (byte_at s.transid_ports id) s else halt faulted s

-- `dns_client_to_proxy_cb`, for the `input` that arrives from the port `sin_port` of a program; `held` and
-- `stored` are what the two frames on the stack hold before.
unfoldable pub client_to_proxy_cb :
    Evp → (held stored : EncFrame) → Ptr → (sin_port : ℕ) → (input : List ℕ) → Clt (Unit {0})
client_to_proxy_cb evp held stored p_trans sin_port input =
    if not (ltb 0 (length input)) then pure tt else do
      let from_f : EncFrame = record {
        dat = input ++ drop (length input) held.dat;
        len = length input;
      }
      record_port (transid from_f.dat) sin_port
      t ← load_trans p_trans
      to_f ← encrypt_read evp p_trans t stored from_f
      if t.srv_bev == 0 then halt faulted else emit (forwards t.srv_bev (take to_f.len to_f.dat))

-- `dns_bufferread_cb_enc`: what the server sends goes to the port that the answer's number was asked from.
unfoldable pub dns_bufferread_cb_enc :
    Evp → (stored : EncFrame) → Ptr → Ptr → (input : List ℕ) → Clt (Unit {0})
dns_bufferread_cb_enc evp stored bev p_trans input = do
  t ← load_trans p_trans
  if not ((bev == t.srv_bev) && (t.local_bev == 0))
      then halt aborted
      else if not (ltb 0 (length input))
      then pure tt
      else do
        to_f ← decrypt_read evp p_trans t stored (frame_of input)
        if not (ltb 0 to_f.len) then pure tt else do
          port ← recorded_port (transid to_f.dat)
          if t.extra_ev == 0
              then halt faulted
              else emit (answers t.extra_ev port (take to_f.len to_f.dat))

-- `dns_bufferevent_cb`
unfoldable pub dns_bufferevent_cb : Events → Ptr → Clt (Unit {0})
dns_bufferevent_cb events p_trans =
    if events.connected || not (events.error || events.eof || events.timeout)
    then pure tt
    else do load_trans p_trans; free_trans p_trans; pure tt

-- What the start of the proxy is given: whether `socket` and `bind` succeed, the table that `malloc` returns
-- (`none` for `NULL`), what `event_new` and `bufferevent_socket_new` make, and the connection to the server.
pub record DnsSockets : Type 0 where
  pub socket_made : Bool
  pub bound : Bool
  pub table : Option (List ℕ)
  pub extra_ev : Ptr
  pub srv_fd : ℕ
  pub connects_srv : Bool
  pub srv_bev : Ptr

-- The part of `main` that starts the proxy at the port `dns_port`. What `sc_daemon_dns_init_srv` returns is
-- not looked at.
unfoldable pub start_dns_proxy : PacketEnv → Evp → DnsSockets → (dns_port : ℕ) → Clt (Unit {0})
start_dns_proxy env evp net dns_port =
    if not net.socket_made
    then halt exited
    else if not net.bound
    then halt exited
    else elim net.table [
      | none ↦ halt exited
      | some table ↦ (do
        set_transid_ports table
        p_trans ← create_trans dns_port
        if p_trans == 0 then halt exited else do
          t ← load_trans p_trans
          s ← get
          let t1 : PortTrans = record t {
            is_enc = true;
            l_port = dns_port;
            ctx_enc = (encrypt_ctx_init evp t.ctx_enc dns_port s.enc_key true).1;
            ctx_dec = (encrypt_ctx_init evp t.ctx_dec dns_port s.enc_key false).1;
            extra_ev = net.extra_ev;
          }
          put_trans p_trans (some t1)
          if not net.connects_srv then halt aborted else do
            daemon_dns_init_srv env net.srv_fd dns_port 12333
            put_trans p_trans (some (record t1 { srv_bev = net.srv_bev }))
            bind_bev net.srv_bev dns_cbs p_trans)
    ]
