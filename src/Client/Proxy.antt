-- ===== src/Client/Proxy.antt =====
-- The SOCKS5 proxy of a DAEMON client (client/source/sshinner_c_sockets.c and
-- sshinner_c_threads.c).
pub mod Request
pub mod Refusal
use sshinner.Base.{
  ℕ, ◌+◌, ◌-◌, ◌*◌, ◌%◌, Bool, true, false, not, ◌&&◌, ◌||◌, Option, none, some, List, [], ◌∷◌,
  ◌++◌, ◌==◌, ltb, if◌then◌else◌, length, get_elem?, set, take, drop, replicate,
}
use sshinner.Run.{ok, stop, pure, halt, aborted, exited, faulted, require, deref, ◌>>=◌, ◌>>◌}
use sshinner.Crypt.{Evp, EncFrame, frame_size, encrypt_ctx_init, encrypt, decrypt}
use sshinner.Server.{Ptr}
use sshinner.Server.Dispatch.{Events}
use sshinner.Server.Trans.{ushort}
use sshinner.Server.Transfer.{frame_of}
use sshinner.Client.{
  PortTrans, CItem, Clt, ss5_cbs, binds, forwards, writes, closes, notifies, answers,
}
use sshinner.Client.Memory.{get, load_trans, put_trans, emit, calloc}
use sshinner.Client.Trans.{create_trans, free_trans}
use sshinner.Client.Register.{PacketEnv, daemon_ss5_init_srv, daemon_dns_init_srv}

-- `encrypt` and `decrypt` of the bytes of a read into the frame `held`, with what they leave of the
-- transfer.
abbrev pub encrypt_read : Evp → Ptr → PortTrans → EncFrame → EncFrame → Clt EncFrame
encrypt_read evp p_trans t held from_f =
    let (done, ctx, out) = encrypt evp t.ctx_enc from_f held in
    do put_trans p_trans (some (record t { ctx_enc = ctx })); pure out

abbrev pub decrypt_read : Evp → Ptr → PortTrans → EncFrame → EncFrame → Clt EncFrame
decrypt_read evp p_trans t held from_f =
    let (done, ctx, out) = decrypt evp t.ctx_dec from_f held in
    do put_trans p_trans (some (record t { ctx_dec = ctx })); pure out

-- `ss5_bufferread_cb_enc`: what the program sends goes through `encrypt`, and what the server sends
-- through `decrypt`. `held` is what the frame on the stack holds before.
unfoldable pub ss5_bufferread_cb_enc : Evp → (held : EncFrame) → Ptr → Ptr → List ℕ → Clt (Unit {0})
ss5_bufferread_cb_enc evp held bev p_trans input = do
  t ← load_trans p_trans
  if (bev == t.local_bev) && not (t.srv_bev == 0)
      then (if ltb 0 (length input)
          then (do
            out ← encrypt_read evp p_trans t held (frame_of input)
            emit (forwards t.srv_bev (take out.len out.dat)))
          else pure tt)
      else (if (bev == t.srv_bev) && not (t.local_bev == 0)
          then (if ltb 0 (length input)
              then (do
                out ← decrypt_read evp p_trans t held (frame_of input)
                emit (forwards t.local_bev (take out.len out.dat)))
              else pure tt)
          else halt aborted)

-- `ss5_bufferevent_cb`
unfoldable pub ss5_bufferevent_cb : Events → Ptr → Clt (Unit {0})
ss5_bufferevent_cb events p_trans =
    if events.connected || not (events.error || events.eof || events.timeout)
    then pure tt
    else do load_trans p_trans; free_trans p_trans; pure tt

-- A buffer of 260 bytes that was cleared, behind a `read`.
abbrev pub buffer : List ℕ → List ℕ
buffer bytes = take 260 (bytes ++ replicate (260 - length bytes) 0)

-- The byte of a buffer.
abbrev pub byte_at : List ℕ → ℕ → ℕ
byte_at buf i = elim (get_elem? buf i) [ none ↦ 0 | some b ↦ b ]

-- The test of a SOCKS5 request: version 5, CONNECT, to an IPv4 address or to a name.
abbrev pub is_request : List ℕ → Bool
is_request buf =
    (byte_at buf 0 == 5) && (byte_at buf 1 == 1) && ((byte_at buf 3 == 1) || (byte_at buf 3 == 3))

-- `sc_get_threadobj`: the worker for a number. Without workers it divides by zero.
abbrev pub get_threadobj : ℕ → Clt ℕ
get_threadobj salt s = if length s.queues == 0 then stop faulted else ok (salt % length s.queues) s

-- `slist_add` to a worker's `conn_queue`.
abbrev pub enqueue : ℕ → CItem → Clt (Unit {0})
enqueue i c s = ok tt (record s {
  queues = elim (get_elem? s.queues i) [ none ↦ s.queues | some q ↦ set s.queues i (q ++ c ∷ []) ];
})

-- `slist_fetch` from a worker's `conn_queue`.
unfoldable pub fetch_item : ℕ → Clt (Option CItem)
fetch_item worker s = elim (get_elem? s.queues worker) [
  | none ↦ ok none s
  | some [] ↦ ok none s
  | some (c ∷ cs) ↦ ok (some c) (record s { queues = set s.queues worker cs })
]

-- `ss5_accept_conn_cb`, for a program that connects from the port `sbuf`: `greeting` and `request` are
-- the bytes of the two reads. The item is not freed where there is no transfer.
unfoldable pub ss5_accept_conn_cb : (fd sbuf : ℕ) → (greeting request : List ℕ) → Clt (Unit {0})
ss5_accept_conn_cb fd sbuf greeting request =
    if not (byte_at (buffer greeting) 0 == 5) then emit (closes fd) else do
      emit (writes fd (5 ∷ 0 ∷ []))
      if not (is_request (buffer request)) then emit (closes fd) else do
        p_c ← calloc
        if p_c == 0 then emit (closes fd) else do
          p_trans ← create_trans sbuf
          if p_trans == 0 then emit (closes fd) else do
            t ← load_trans p_trans
            put_trans p_trans (some (record t { is_enc = true; l_port = ushort sbuf }))
            worker ← get_threadobj (ushort sbuf)
            enqueue worker (record { socket = fd; p_trans = p_trans; buf = buffer request })
            emit (notifies worker b'Q')

-- What the sockets give a worker: the descriptor of its connection, whether `sc_connect_srv` reaches
-- the server, and the bufferevents for the program and for the server.
pub record Sockets : Type 0 where
  pub srv_fd : ℕ
  pub connects_srv : Bool
  pub local_bev : Ptr
  pub new_bev : Ptr

-- The letter `Q`, for the connection at the head of the queue.
unfoldable pub take_ss5 : PacketEnv → Evp → Sockets → CItem → Clt (Unit {0})
take_ss5 env evp net c = if not net.connects_srv then (do free_trans c.p_trans; pure tt) else do
  t ← load_trans c.p_trans
  sent ← daemon_ss5_init_srv env net.srv_fd c.buf t.l_port
  if not sent then (do emit (closes net.srv_fd); free_trans c.p_trans; pure tt) else do
    require (not (net.local_bev == 0))
    emit (binds net.local_bev ss5_cbs c.p_trans)
    require (not (net.new_bev == 0))
    emit (binds net.new_bev ss5_cbs c.p_trans)
    require t.is_enc
    s ← get
    put_trans c.p_trans (
        some (record t {
          ctx_enc = (encrypt_ctx_init evp t.ctx_enc t.l_port s.enc_key true).1;
          ctx_dec = (encrypt_ctx_init evp t.ctx_dec t.l_port s.enc_key false).1;
          local_bev = net.local_bev;
          srv_bev = net.new_bev;
        }))

-- `thread_process`: `letter` is the byte that is read from the pipe, if there is one.
unfoldable pub thread_process : PacketEnv → Evp → Sockets → (worker : ℕ) → Option ℕ → Clt (Unit {0})
thread_process env evp net worker none = pure tt
thread_process env evp net worker (some letter) =
    if not (letter == b'Q')
    then halt aborted
    else do item ← fetch_item worker; elim item [ none ↦ pure tt | some c ↦ take_ss5 env evp net c ]
