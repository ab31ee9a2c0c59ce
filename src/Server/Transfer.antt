-- ===== src/Server/Transfer.antt =====
-- The transfer of data (server/source/sshinner_s_threads.c): what the workers do when a connection
-- has bytes to read, or ends.
pub mod Streams
use sshinner.Base.{ℕ, not, ◌&&◌, ◌||◌, some, List, ◌==◌, ltb, if◌then◌else◌, length, take}
use sshinner.Run.{pure, halt, aborted, ◌>>=◌, ◌>>◌}
use sshinner.Protocol.{zero_head, usr_daemon, cmd_end_trans}
use sshinner.Crypt.{EncFrame, encrypt, decrypt}
use sshinner.Server.{Ptr, TransItem, Env, Srv, forwards, asks}
use sshinner.Server.Memory.{load_activ, load_trans, put_trans, emit, send}
use sshinner.Server.Trans.{free_trans}
use sshinner.Server.Dispatch.{Events}

-- The bytes of a read, as a frame.
abbrev pub frame_of : List ℕ → EncFrame
frame_of bytes = record { dat = bytes; len = length bytes }

-- `bufferevent_write` of bytes to a bufferevent that is there.
abbrev pub forward : Ptr → List ℕ → Srv (Unit {0})
forward bev bytes = emit (forwards bev bytes)

-- `thread_bufferread_cb`, where `input` is the bytes that have arrived at `bev`.
unfoldable pub bufferread_cb : Ptr → Ptr → List ℕ → Srv (Unit {0})
bufferread_cb bev p_trans input = do
  t ← load_trans p_trans
  if (bev == t.bev_u) && not (t.bev_d == 0)
      then forward t.bev_d input
      else (if (bev == t.bev_d) && not (t.bev_u == 0) then forward t.bev_u input else halt aborted)

-- `decrypt` of the bytes of a read into the frame `held`, with what it leaves of the transfer.
abbrev pub decrypt_read : Env → Ptr → TransItem → EncFrame → List ℕ → Srv EncFrame
decrypt_read env p_trans t held input =
    let (done, ctx, out) = decrypt env.evp t.ctx_dec (frame_of input) held in
    do put_trans p_trans (some (record t { ctx_dec = ctx })); pure out

abbrev pub encrypt_read : Env → Ptr → TransItem → EncFrame → List ℕ → Srv EncFrame
encrypt_read env p_trans t held input =
    let (done, ctx, out) = encrypt env.evp t.ctx_enc (frame_of input) held in
    do put_trans p_trans (some (record t { ctx_enc = ctx })); pure out

-- `thread_bufferread_cb_enc`: what comes from the outside at `bev_u` goes through `decrypt`, and what
-- comes from the client at `bev_d` through `encrypt`. `input` is what
-- `bufferevent_read` returns, and `held` what the frame on the stack holds before.
unfoldable pub bufferread_cb_enc : Env → (held : EncFrame) → Ptr → Ptr → List ℕ → Srv (Unit {0})
bufferread_cb_enc env held bev p_trans input = do
  t ← load_trans p_trans
  if (bev == t.bev_u) && not (t.bev_d == 0)
      then (if ltb 0 (length input)
          then (do
            out ← decrypt_read env p_trans t held input
            forward t.bev_d (take (length input) out.dat))
          else pure tt)
      else (if (bev == t.bev_d) && not (t.bev_u == 0)
          then (if ltb 0 (length input)
              then (do
                out ← encrypt_read env p_trans t held input
                forward t.bev_u (take out.len out.dat))
              else pure tt)
          else halt aborted)

-- `thread_bufferread_cb_dns_enc`: `new_ev` is what `event_new` makes for a socket where the transfer
-- has none, and 0 where `socket` fails.
unfoldable pub bufferread_cb_dns_enc :
    Env → (held : EncFrame) → (new_ev : Ptr) → Ptr → Ptr → List ℕ → Srv (Unit {0})
bufferread_cb_dns_enc env held new_ev bev p_trans input = do
  t ← load_trans p_trans
  if (bev == t.bev_d) && (t.bev_u == 0) && ltb 0 (length input)
      then (do
        out ← decrypt_read env p_trans t held input
        t' ← load_trans p_trans
        if not (t'.extra_ev == 0)
            then emit (asks t'.extra_ev (take out.len out.dat))
            else (if new_ev == 0 then pure tt else do
              put_trans p_trans (some (record t' { extra_ev = new_ev }))
              emit (asks new_ev (take out.len out.dat))))
      else pure tt

-- `dns_remote_cb`: what the name server answers goes to the client, encrypted.
unfoldable pub dns_remote_cb : Env → (held : EncFrame) → Ptr → List ℕ → Srv (Unit {0})
dns_remote_cb env held p_trans input = if not (ltb 0 (length input)) then pure tt else do
  t ← load_trans p_trans
  out ← encrypt_read env p_trans t held input
  forward t.bev_d (take out.len out.dat)

-- `thread_bufferevent_cb`: any end but the news that a connection was made ends the transfer.
unfoldable pub bufferevent_cb : Events → Ptr → Srv (Unit {0})
bufferevent_cb events p_trans =
    if events.connected || not (events.error || events.eof || events.timeout)
    then pure tt
    else do t ← load_trans p_trans; free_trans t.p_activ_item p_trans; pure tt

-- `ss_cmd_end_trans`
unfoldable pub cmd_end : Ptr → Srv (Unit {0})
cmd_end p_trans = if p_trans == 0 then halt aborted else do
  t ← load_trans p_trans
  if t.p_activ_item == 0 then halt aborted else do
    activ ← load_activ t.p_activ_item
    if activ.bev_daemon == 0
        then halt aborted
        else send activ.bev_daemon (record zero_head {
          direct = usr_daemon;
          cmd = cmd_end_trans;
          extra_param = t.usr_lport;
          mach_uuid = activ.mach_uuid;
        })
