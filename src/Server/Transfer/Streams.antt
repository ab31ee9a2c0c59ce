-- ===== src/Server/Transfer/Streams.antt =====
-- What an encrypted transfer writes to its far end, over any number of reads.
use mathlib.Core.List.{append-nil, append_assoc, flatten}
use sshinner.Base.{
  ℕ, ◌≡◌, ◌≢◌, ◌<◌, refl, sym, ap, ◌∙◌, Bool, true, false, some, List, [], ◌∷◌, ◌++◌, arith, ◌==◌,
  ==_true, if◌then◌else◌, length, All,
}
use sshinner.Run.{ok, pure, Returns, returns, weaken, ◌>>◌}
use sshinner.Crypt.{EncFrame, EncryptCtx, encrypt_ctx_init}
use sshinner.Crypt.Stream.{IsRc4, pump, step, step_held, payload, pump-pump, frame_of}
use sshinner.Server.{Ptr, Env, Srv, Server, TransItem, Effect, forwards, find_at, write_at}
use sshinner.Server.Transfer.{bufferread_cb_enc}

-- The bytes that were written to a bufferevent.
abbrev pub written : Ptr → List Effect → List ℕ
written p [] = []
written p (forwards q bytes ∷ es) = if q == p then bytes ++ written p es else written p es
written p (e ∷ es) = written p es

-- The callback for each of a list of reads at one end.
unfoldable pub reads_at : Env → EncFrame → Ptr → Ptr → List (List ℕ) → Srv (Unit {0})
reads_at env held bev x [] = pure tt
reads_at env held bev x (bytes ∷ reads) = do
  bufferread_cb_enc env held bev x bytes
  reads_at env held bev x reads

pub written-append :
    (p : Ptr) (es es' : List Effect) → written p (es ++ es') ≡ written p es ++ written p es'
written-append p [] es' = refl
written-append p (forwards q bytes ∷ es) es' =
    ground (arith, written-append p es es', append_assoc bytes (written p es) (written p es'))
written-append p (e ∷ es) es' = written-append p es es'

module _ (env : Env) (mix : List ℕ → ℕ → ℕ → ℕ) (rc4 : IsRc4 env.evp mix) (held : EncFrame)
    (x : Ptr) where
  pub from_client :
      (t : TransItem) (bytes : List ℕ) (s : Server)
      → find_at s.transs x ≡ some t
      → t.bev_u ≢ 0
      → t.bev_d ≢ t.bev_u
      → 0 < length bytes
      → let (done, ctx, out) = step env.evp true t.ctx_enc (frame_of bytes) (frame_of []) in
        bufferread_cb_enc env held t.bev_d x bytes s
        ≡ ok tt (record s {
          transs = write_at s.transs x (some (record t { ctx_enc = ctx }));
          trace = s.trace ++ forwards t.bev_u (payload out) ∷ [];
        })
  unfolding bufferread_cb_enc
  from_client t bytes s here there apart more =
      let (same, size) = step_held env.evp mix rc4 true t.ctx_enc bytes held in
      rw (here, sym same) (ground (arith, here))

  -- The other way, from the remote end.
  pub from_outside :
      (t : TransItem) (c : EncryptCtx) (bytes : List ℕ) (s : Server)
      → find_at s.transs x ≡ some (record t { ctx_dec = c })
      → t.bev_d ≢ 0
      → 0 < length bytes
      → let (done, c', out) = step env.evp false c (frame_of bytes) (frame_of []) in
        bufferread_cb_enc env held t.bev_u x bytes s
        ≡ ok tt (record s {
          transs = write_at s.transs x (some (record t { ctx_dec = c' }));
          trace = s.trace ++ forwards t.bev_d (payload out) ∷ [];
        })
  unfolding bufferread_cb_enc
  from_outside t c bytes s here far more =
      let (same, size) = step_held env.evp mix rc4 false c bytes held in
      let kept : (step env.evp false c (frame_of bytes) (frame_of [])).2.len ≡ length bytes =
        rw same at size in
      rw (here, same, sym kept) (ground (arith, here))

  -- With rc4, let reads arrive one after another at the client's end of an encrypted transfer, none of
  -- them empty. What is then written to the remote end is what one `encrypt` context makes of them in
  -- order, from the state that it was in; and nothing else stops or fails.
  pub reads_at-pump :
      (t : TransItem) (reads : List (List ℕ)) (s : Server)
      → find_at s.transs x ≡ some t
      → t.bev_u ≢ 0
      → t.bev_d ≢ t.bev_u
      → All (λ bytes. 0 < length bytes) reads
      → Returns
          (λ _ s'.
            written t.bev_u s'.trace
            ≡ written t.bev_u s.trace ++ pump (step env.evp true) t.ctx_enc reads)
          (reads_at env held t.bev_d x reads s)
  unfolding reads_at pump
  reads_at-pump t [] s here there apart more = returns (sym (append-nil (written t.bev_u s.trace)))
  reads_at-pump t (bytes ∷ reads) s here there apart (some', more) =
      let (done, ctx, out) = step env.evp true t.ctx_enc (frame_of bytes) (frame_of []) in
      rw (from_client t bytes s here there apart some') (
        weaken
          (reads_at-pump (record t { ctx_enc = ctx }) reads _ (ground (arith, here)) there apart
            more)
          (λ _ s' e.
            e
            ∙ rw
                (
                  written-append t.bev_u s.trace (forwards t.bev_u (payload out) ∷ []),
                  ==_true t.bev_u t.bev_u refl,
                  append-nil (payload out),
                )
                (append_assoc (written t.bev_u s.trace) (payload out)
                  (pump (step env.evp true) ctx reads))))

  -- With rc4, let a transfer's contexts have been initialised at both ends with the same port and key,
  -- and let the client put a stream through its context. However the stream is cut when it arrives, the
  -- server writes to the remote end the bytes that the client had before, in order, and no others.
  pub reads_at-flatten :
      (t : TransItem) (a b : EncryptCtx) (salt : ℕ) (enc_key : List ℕ) (out : Bool)
      (sent reads : List (List ℕ)) (s : Server)
      → find_at s.transs x ≡ some t
      → t.bev_u ≢ 0
      → t.bev_d ≢ t.bev_u
      → t.ctx_enc ≡ (encrypt_ctx_init env.evp b salt enc_key true).1
      → All (λ bytes. 0 < length bytes) reads
      → flatten reads ≡ pump (step env.evp out) (encrypt_ctx_init env.evp a salt enc_key out).1 sent
      → Returns
          (λ _ s'. written t.bev_u s'.trace ≡ written t.bev_u s.trace ++ flatten sent)
          (reads_at env held t.bev_d x reads s)
  reads_at-flatten t a b salt enc_key out sent reads s here there apart same some' line =
      weaken (reads_at-pump t reads s here there apart some') (λ _ s' e.
        e
        ∙ rw same (
            ap (λ plain. written t.bev_u s.trace ++ plain)
              (pump-pump env.evp mix rc4 a b salt enc_key out true sent reads line)))
