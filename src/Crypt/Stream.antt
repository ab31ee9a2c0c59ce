-- ===== src/Crypt/Stream.antt =====
-- The byte stream between the two ends of a transfer: it is put through rc4 in the frames that one
-- end reads from its socket, and once more in the frames that the other end happens to read.
use sshinner.Base.{
  Bool-cases, inl, inr, ℕ, ◌+◌, ◌≡◌, refl, sym, ap, ◌∙◌, Bool, true, false, some, List, [], ◌∷◌,
  ◌++◌, arith, length, take,
}
use mathlib.Core.List.{flatten}
use sshinner.Crypt.{
  Evp, EncryptCtx, EncFrame, encrypt, decrypt, encrypt_ctx_init, true_key, ensure_key, update_frame,
  key_len, salt_text,
}

-- rc4 is a synchronous stream cipher: whatever the direction, each byte is combined with a key byte
-- that depends on the key and the position, and doing so twice gives the byte back.
abbrev pub stream : (List ℕ → ℕ → ℕ → ℕ) → List ℕ → ℕ → List ℕ → List ℕ
stream mix key n [] = []
stream mix key n (b ∷ bs) = mix key n b ∷ stream mix key (n + 1) bs

pub record IsRc4 (evp : Evp) (mix : List ℕ → ℕ → ℕ → ℕ) : Type 0 where
  pub involutive : (key : List ℕ) (n b : ℕ) → mix key n (mix key n b) ≡ b
  pub starts : (enc : Bool) → evp.init_rc4 enc ≡ true
  pub sizes : evp.set_key_length ≡ true
  pub keys : (enc : Bool) (key : List ℕ) → evp.set_key enc key ≡ true
  pub updates :
      (enc : Bool) (key : List ℕ) (n : ℕ) (bs : List ℕ)
      → evp.update enc key n bs ≡ some (stream mix key n bs)

-- The frame that holds the bytes of a read.
abbrev pub frame_of : List ℕ → EncFrame
frame_of bs = record { dat = bs; len = length bs }

-- The bytes of a frame.
abbrev pub payload : EncFrame → List ℕ
payload f = take f.len f.dat

-- The call that an end makes for a frame.
abbrev pub step : Evp → Bool → EncryptCtx → EncFrame → EncFrame → Bool × EncryptCtx × EncFrame
step evp true = encrypt evp
step evp false = decrypt evp

-- A context put through the frames of a list of reads by `step`: the bytes that come out.
unfoldable pub pump :
    (EncryptCtx → EncFrame → EncFrame → Bool × EncryptCtx × EncFrame)
    → EncryptCtx
    → List (List ℕ)
    → List ℕ
pump step c [] = []
pump step c (bs ∷ reads) =
    let (done, c', out) = step c (frame_of bs) (frame_of []) in payload out ++ pump step c' reads

module _ (mix : List ℕ → ℕ → ℕ → ℕ) (key : List ℕ) where
  length-stream : (n : ℕ) (bs : List ℕ) → length (stream mix key n bs) ≡ length bs
  length-stream n [] = refl
  length-stream n (b ∷ bs) = omega (arith, length-stream (n + 1) bs)

  stream-append :
      (n m : ℕ) (xs ys : List ℕ)
      → n + length xs ≡ m
      → stream mix key n (xs ++ ys) ≡ stream mix key n xs ++ stream mix key m ys
  stream-append n m [] ys e = let e' : n ≡ m = omega arith in rw e'
  stream-append n m (x ∷ xs) ys e =
      ap (◌∷◌ (mix key n x)) (stream-append (n + 1) m xs ys (omega arith))

  stream-stream :
      ((n b : ℕ) → mix key n (mix key n b) ≡ b)
      → (n : ℕ) (xs : List ℕ) → stream mix key n (stream mix key n xs) ≡ xs
  stream-stream back n [] = refl
  stream-stream back n (x ∷ xs) = ground (arith, back n x, stream-stream back (n + 1) xs)

take-length : (xs ys : List ℕ) → take (length xs) (xs ++ ys) ≡ xs
take-length [] ys = refl
take-length (x ∷ xs) ys = ap (◌∷◌ x) (take-length xs ys)

take_all : (xs : List ℕ) → take (length xs) xs ≡ xs
take_all [] = refl
take_all (x ∷ xs) = ap (◌∷◌ x) (take_all xs)

module _ (evp : Evp) (mix : List ℕ → ℕ → ℕ → ℕ) (rc4 : IsRc4 evp mix) where
  -- A keyed context.
  abbrev keyed : EncryptCtx → Bool → List ℕ → ℕ → EncryptCtx
  keyed c enc key n = record c {
    ctx = record { enc = enc; key = key; position = n };
    is_init = true;
  }

  update_keyed :
      (c : EncryptCtx) (enc : Bool) (key : List ℕ) (n : ℕ) (bs : List ℕ)
      → let (done, c', out) = update_frame evp (keyed c enc key n) (frame_of bs) (frame_of []) in
        (payload out ≡ stream mix key n bs) × (c' ≡ keyed c enc key (n + length bs))
  unfolding update_frame
  update_keyed c enc key n bs =
      let cut : evp.update enc key n (take (length bs) bs) ≡ some (stream mix key n bs) =
        rw (take_all bs) (rc4.updates enc key n bs) in
      rw (cut, update_frame)
        (
          take-length (stream mix key n bs) _,
          ap (λ k. keyed c enc key (n + k)) (length-stream mix key n bs),
        )

  pump-keyed :
      (c : EncryptCtx) (enc : Bool) (key : List ℕ) (n : ℕ) (reads : List (List ℕ))
      → pump (step evp enc) (keyed c enc key n) reads ≡ stream mix key n (flatten reads)
  unfolding pump encrypt decrypt flatten
  pump-keyed c true key n [] = refl
  pump-keyed c false key n [] = refl
  pump-keyed c true key n (bs ∷ reads) =
      let (out, after) = update_keyed c true key n bs in
      rw (out, after, pump-keyed c true key (n + length bs) reads)
        (sym (stream-append mix key n (n + length bs) bs (flatten reads) refl))
  pump-keyed c false key n (bs ∷ reads) =
      let (out, after) = update_keyed c false key n bs in
      rw (out, after, pump-keyed c false key (n + length bs) reads)
        (sym (stream-append mix key n (n + length bs) bs (flatten reads) refl))

  -- A context that `encrypt_ctx_init` has made takes its key at the first frame.
  pump_new :
      (c : EncryptCtx) (enc : Bool) (reads : List (List ℕ))
      → c.is_init ≡ false
      → pump (step evp enc) c reads ≡ stream mix (true_key evp c) 0 (flatten reads)
  unfolding pump encrypt decrypt ensure_key flatten
  pump_new c true [] e = refl
  pump_new c false [] e = refl
  pump_new c true (bs ∷ reads) e =
      rw (e, rc4.keys true (true_key evp c)) (pump-keyed c true (true_key evp c) 0 (bs ∷ reads))
  pump_new c false (bs ∷ reads) e =
      rw (e, rc4.keys false (true_key evp c)) (pump-keyed c false (true_key evp c) 0 (bs ∷ reads))

  update_held :
      (c : EncryptCtx) (bs : List ℕ) (held : EncFrame)
      → (update_frame evp c (frame_of bs) held ≡ update_frame evp c (frame_of bs) (frame_of []))
        × ((update_frame evp c (frame_of bs) held).2.len ≡ length bs)
  unfolding update_frame
  update_held c bs held =
      let cut : evp.update c.ctx.enc c.ctx.key c.ctx.position (take (length bs) bs)
          ≡ some (stream mix c.ctx.key c.ctx.position bs) =
        rw (take_all bs) (rc4.updates c.ctx.enc c.ctx.key c.ctx.position bs) in
      (
        rw (update_frame, cut),
        rw (update_frame, cut) (length-stream mix c.ctx.key c.ctx.position bs),
      )

  -- What a frame held before does not matter, and the length is kept.
  pub step_held :
      (enc : Bool) (c : EncryptCtx) (bs : List ℕ) (held : EncFrame)
      → (step evp enc c (frame_of bs) held ≡ step evp enc c (frame_of bs) (frame_of []))
        × ((step evp enc c (frame_of bs) held).2.len ≡ length bs)
  unfolding encrypt decrypt ensure_key
  step_held true c bs held = elim (Bool-cases c.is_init) [
    | inl e ↦ simp e (update_held c bs held)
    | inr e ↦
        rw (e, rc4.keys true (true_key evp c))
          (update_held (keyed c true (true_key evp c) 0) bs held)
  ]
  step_held false c bs held = elim (Bool-cases c.is_init) [
    | inl e ↦ simp e (update_held c bs held)
    | inr e ↦
        rw (e, rc4.keys false (true_key evp c))
          (update_held (keyed c false (true_key evp c) 0) bs held)
  ]

  -- What `encrypt_ctx_init` leaves.
  abbrev started : EncryptCtx → ℕ → List ℕ → Bool → EncryptCtx
  started c salt enc_key enc = record {
    ctx = record { enc = enc; key = []; position = 0 };
    is_init = false;
    enc_key = take key_len enc_key;
    iv = take key_len (evp.md5 (salt_text evp salt));
  }

  init_lem :
      (c : EncryptCtx) (salt : ℕ) (enc_key : List ℕ) (enc : Bool)
      → encrypt_ctx_init evp c salt enc_key enc ≡ (true, started c salt enc_key enc)
  unfolding encrypt_ctx_init
  init_lem c salt enc_key enc = rw (rc4.starts enc, rc4.sizes)

  -- Given rc4, let the two ends of a transfer initialise a context each with the same salt and key, and
  -- put a stream through it at one end and through it again at the other, by `encrypt` or by `decrypt` at
  -- either. However the network cuts the stream into reads between them, the bytes that come out are
  -- those that went in, in order.
  pub pump-pump :
      (a b : EncryptCtx) (salt : ℕ) (enc_key : List ℕ) (out into : Bool)
      (sent received : List (List ℕ))
      → flatten received ≡ pump (step evp out) (encrypt_ctx_init evp a salt enc_key out).1 sent
      → pump (step evp into) (encrypt_ctx_init evp b salt enc_key into).1 received ≡ flatten sent
  pump-pump a b salt enc_key out into sent received e =
      let a' = started a salt enc_key out in
      let b' = started b salt enc_key into in
      let key = true_key evp a' in
      let line : flatten received ≡ stream mix key 0 (flatten sent) =
        e ∙ rw (init_lem a salt enc_key out) (pump_new a' out sent refl) in
      rw (init_lem b salt enc_key into) (
        pump_new b' into received refl
        ∙ ap (stream mix key 0) line
        ∙ stream-stream mix key (rc4.involutive key) 0 (flatten sent))
