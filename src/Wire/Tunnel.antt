-- ===== src/Wire/Tunnel.antt =====
-- The bytes of a SOCKS5 transfer through both programs: `ss5_bufferread_cb_enc` of
-- client/source/sshinner_c_sockets.c and `thread_bufferread_cb_enc` of
-- server/source/sshinner_s_threads.c.
use mathlib.Core.List.{append-nil, append_assoc}
use sshinner.Base.{
  ℕ, ◌≡◌, ◌≢◌, ◌<◌, refl, sym, ◌∙◌, true, false, some, List, [], ◌∷◌, ◌++◌, arith, ◌==◌,
  if◌then◌else◌, length, All,
}
use sshinner.Run.{ok, Returns, returns}
use sshinner.Crypt.{Evp, EncFrame, EncryptCtx}
use sshinner.Crypt.Stream.{IsRc4, pump, step, step_held, payload, frame_of}
use sshinner.Crypt.Relay.{each, Moved, each-pump}
use sshinner.Server.{Ptr, Env, Server, TransItem, Effect, find_at, write_at}
use sshinner.Server.Transfer.{bufferread_cb_enc}
use sshinner.Server.Transfer.Streams.{written, written-append, from_client, from_outside}
use sshinner.Client.{PortTrans, Client, Action, forwards}
use sshinner.Client.Proxy.{ss5_bufferread_cb_enc}

-- The bytes that a client wrote to a bufferevent.
abbrev pub sent : Ptr → List Action → List ℕ
sent p [] = []
sent p (forwards q bytes ∷ es) = if q == p then bytes ++ sent p es else sent p es
sent p (e ∷ es) = sent p es

pub sent-append : (p : Ptr) (es es' : List Action) → sent p (es ++ es') ≡ sent p es ++ sent p es'
sent-append p [] es' = refl
sent-append p (forwards q bytes ∷ es) es' =
    ground (arith, sent-append p es es', append_assoc bytes (sent p es) (sent p es'))
sent-append p (e ∷ es) es' = sent-append p es es'

module _ (evp : Evp) (mix : List ℕ → ℕ → ℕ → ℕ) (rc4 : IsRc4 evp mix) (held : EncFrame) (p : Ptr)
    (t : PortTrans) (apart : t.local_bev ≢ t.srv_bev) where
  module _ (far : t.srv_bev ≢ 0) where
    from_program :
        (c : EncryptCtx) (bytes : List ℕ) (s : Client)
        → find_at s.transs p ≡ some (record t { ctx_enc = c })
        → 0 < length bytes
        → let (done, c', out) = step evp true c (frame_of bytes) (frame_of []) in
          ss5_bufferread_cb_enc evp held t.local_bev p bytes s
          ≡ ok tt (record s {
            transs = write_at s.transs p (some (record t { ctx_enc = c' }));
            trace = s.trace ++ forwards t.srv_bev (payload out) ∷ [];
          })
    unfolding ss5_bufferread_cb_enc
    from_program c bytes s here more =
        let (same, size) = step_held evp mix rc4 true c bytes held in
        rw (here, sym same) (ground (arith, here))

  module _ (near : t.local_bev ≢ 0) where
    from_server :
        (c : EncryptCtx) (bytes : List ℕ) (s : Client)
        → find_at s.transs p ≡ some (record t { ctx_dec = c })
        → 0 < length bytes
        → let (done, c', out) = step evp false c (frame_of bytes) (frame_of []) in
          ss5_bufferread_cb_enc evp held t.srv_bev p bytes s
          ≡ ok tt (record s {
            transs = write_at s.transs p (some (record t { ctx_dec = c' }));
            trace = s.trace ++ forwards t.local_bev (payload out) ∷ [];
          })
    unfolding ss5_bufferread_cb_enc
    from_server c bytes s here more =
        let (same, size) = step_held evp mix rc4 false c bytes held in
        rw (here, sym same) (ground (arith, here))

-- What a write adds to the bytes of its bufferevent, and of another.
sent_to :
    (q f : Ptr) (bytes : List ℕ) (es : List Action)
    → q ≢ f
    → (sent f (es ++ forwards f bytes ∷ []) ≡ sent f es ++ bytes)
      × (sent q (es ++ forwards f bytes ∷ []) ≡ sent q es)
sent_to q f bytes es other = (
  sent-append f es _ ∙ ground (arith, append-nil bytes),
  sent-append q es _ ∙ ground (arith, append-nil (sent q es)),
)

written_to :
    (q f : Ptr) (bytes : List ℕ) (es : List Effect)
    → q ≢ f
    → (written f (es ++ sshinner.Server.forwards f bytes ∷ []) ≡ written f es ++ bytes)
      × (written q (es ++ sshinner.Server.forwards f bytes ∷ []) ≡ written q es)
written_to q f bytes es other = (
  written-append f es _ ∙ ground (arith, append-nil bytes),
  written-append q es _ ∙ ground (arith, append-nil (written q es)),
)

-- Reads with at least one byte each.
abbrev pub IsReads : List (List ℕ) → Type 0
IsReads reads = All (λ bytes. 0 < length bytes) reads

-- A half of the transfer holds a context for one direction.
abbrev ClientEnc : Ptr → PortTrans → EncryptCtx → Client → Type 0
ClientEnc p u ctx c = find_at c.transs p ≡ some (record u { ctx_enc = ctx })

abbrev ClientDec : Ptr → PortTrans → EncryptCtx → Client → Type 0
ClientDec p u ctx c = find_at c.transs p ≡ some (record u { ctx_dec = ctx })

abbrev ServerEnc : Ptr → TransItem → EncryptCtx → Server → Type 0
ServerEnc x t ctx s = find_at s.transs x ≡ some (record t { ctx_enc = ctx })

abbrev ServerDec : Ptr → TransItem → EncryptCtx → Server → Type 0
ServerDec x t ctx s = find_at s.transs x ≡ some (record t { ctx_dec = ctx })

abbrev sent_at : Ptr → Client → List ℕ
sent_at bev c = sent bev c.trace

abbrev written_at : Ptr → Server → List ℕ
written_at bev s = written bev s.trace

module _ (env : Env) (mix : List ℕ → ℕ → ℕ → ℕ) (rc4 : IsRc4 env.evp mix) (held : EncFrame) where
  module _ (p : Ptr) (u : PortTrans) (apart : u.local_bev ≢ u.srv_bev) (reads : List (List ℕ))
      (c : Client) (here : find_at c.transs p ≡ some u) (more : IsReads reads) where
    pub program-Moved :
        u.srv_bev ≢ 0
        → Returns
            (λ _ c'.
              (ctx : EncryptCtx) × Moved
                (ClientEnc p u)
                (sent_at u.srv_bev)
                (sent_at u.local_bev)
                c
                ctx
                (pump (step env.evp true) u.ctx_enc reads)
                c')
            (each (ss5_bufferread_cb_enc env.evp held u.local_bev p) reads c)
    program-Moved srv =
        each-pump env.evp true (ClientEnc p u) (sent_at u.srv_bev) (sent_at u.local_bev)
          (ss5_bufferread_cb_enc env.evp held u.local_bev p)
          (λ ctx bytes s at some'.
            rw (from_program env.evp mix rc4 held p u apart srv ctx bytes s at some') (
              let (to_far, to_near) = sent_to u.local_bev u.srv_bev _ s.trace apart in
              returns (ground (arith, at), to_far, to_near)))
          reads u.ctx_enc c here more

    pub reply-Moved :
        u.local_bev ≢ 0
        → Returns
            (λ _ c'.
              (ctx : EncryptCtx) × Moved
                (ClientDec p u)
                (sent_at u.local_bev)
                (sent_at u.srv_bev)
                c
                ctx
                (pump (step env.evp false) u.ctx_dec reads)
                c')
            (each (ss5_bufferread_cb_enc env.evp held u.srv_bev p) reads c)
    reply-Moved local =
        each-pump env.evp false (ClientDec p u) (sent_at u.local_bev) (sent_at u.srv_bev)
          (ss5_bufferread_cb_enc env.evp held u.srv_bev p)
          (λ ctx bytes s at some'.
            rw (from_server env.evp mix rc4 held p u apart local ctx bytes s at some') (
              let (to_far, to_near) =
                sent_to u.srv_bev u.local_bev _ s.trace (λ e. apart (sym e)) in
              returns (ground (arith, at), to_far, to_near)))
          reads u.ctx_dec c here more

  module _ (x : Ptr) (t : TransItem) (split : t.bev_d ≢ t.bev_u) (reads : List (List ℕ))
      (s : Server) (there : find_at s.transs x ≡ some t) (more : IsReads reads) where
    pub client-Moved :
        t.bev_u ≢ 0
        → Returns
            (λ _ s'.
              (ctx : EncryptCtx) × Moved
                (ServerEnc x t)
                (written_at t.bev_u)
                (written_at t.bev_d)
                s
                ctx
                (pump (step env.evp true) t.ctx_enc reads)
                s')
            (each (bufferread_cb_enc env held t.bev_d x) reads s)
    client-Moved outside =
        each-pump env.evp true (ServerEnc x t) (written_at t.bev_u) (written_at t.bev_d)
          (bufferread_cb_enc env held t.bev_d x)
          (λ ctx bytes s at some'.
            rw
              (from_client env mix rc4 held x (record t { ctx_enc = ctx }) bytes s at outside split
                some')
              (let (to_far, to_near) = written_to t.bev_d t.bev_u _ s.trace split in
                returns (ground (arith, at), to_far, to_near)))
          reads t.ctx_enc s there more

    pub outside-Moved :
        t.bev_d ≢ 0
        → Returns
            (λ _ s'.
              (ctx : EncryptCtx) × Moved
                (ServerDec x t)
                (written_at t.bev_d)
                (written_at t.bev_u)
                s
                ctx
                (pump (step env.evp false) t.ctx_dec reads)
                s')
            (each (bufferread_cb_enc env held t.bev_u x) reads s)
    outside-Moved inside =
        each-pump env.evp false (ServerDec x t) (written_at t.bev_d) (written_at t.bev_u)
          (bufferread_cb_enc env held t.bev_u x)
          (λ ctx bytes s at some'.
            rw (from_outside env mix rc4 held x t ctx bytes s at inside some') (
              let (to_far, to_near) = written_to t.bev_u t.bev_d _ s.trace (λ e. split (sym e)) in
              returns (ground (arith, at), to_far, to_near)))
          reads t.ctx_dec s there more
