-- ===== src/Crypt.antt =====
-- common/sshinner_crypt.c: the RC4-MD5 contexts and frames. OpenSSL is the parameter `Evp`; a cipher
-- context is what the calls have made of it: its key, and how many bytes it has processed.
pub mod Decimal
pub mod Stream
pub mod Relay
use sshinner.Base.{
  ℕ, ◌+◌, ◌≡◌, Bool, true, false, not, Option, none, some, List, [], ◌∷◌, ◌++◌, length, take, drop,
  replicate, if◌then◌else◌,
}
use sshinner.Crypt.Decimal.{print_int}

-- What the code calls of OpenSSL.
pub record Evp : Type 0 where
  -- `MD5`
  pub md5 : List ℕ → List ℕ
  -- the key that `EVP_BytesToKey` derives for rc4 with MD5 in 10 rounds, if it succeeds
  pub bytes_to_key : List ℕ → Option (List ℕ)
  -- whether `EVP_CipherInit_ex` (for encryption or not) and `EVP_CIPHER_CTX_set_key_length` succeed
  -- on a new context
  pub init_rc4 : Bool → Bool
  pub set_key_length : Bool
  -- whether `EVP_CipherInit_ex` takes a key, for encryption or not
  pub set_key : Bool → List ℕ → Bool
  -- `EVP_CipherUpdate` for encryption or not, with a key, at a position of the stream
  pub update : Bool → List ℕ → ℕ → List ℕ → Option (List ℕ)

abbrev pub frame_size : ℕ
frame_size = 4096

abbrev pub key_len : ℕ
key_len = 16

-- `EVP_CIPHER_CTX`
pub record CipherCtx : Type 0 where
  pub enc : Bool
  pub key : List ℕ
  pub position : ℕ

-- `ENCRYPT_CTX`
pub record EncryptCtx : Type 0 where
  pub ctx : CipherCtx
  pub is_init : Bool
  pub enc_key : List ℕ
  pub iv : List ℕ

-- A context filled with zeros.
abbrev pub blank_ctx : EncryptCtx
blank_ctx = record {
  ctx = record { enc = false; key = []; position = 0 };
  is_init = false;
  enc_key = [];
  iv = [];
}

-- `ENC_FRAME`; the bytes of a frame are the first `len` of `dat`.
pub record EncFrame : Type 0 where
  pub dat : List ℕ
  pub len : ℕ

module _ (evp : Evp) where
  -- `encrypt_init`: the key, or `none` for `RET_NO`.
  unfoldable pub encrypt_init : List ℕ → Option (List ℕ)
  encrypt_init passwd = evp.bytes_to_key passwd

  -- The text that `sprintf(buf, "-XX%dXX-", salt)` prints.
  abbrev salt_text : ℕ → List ℕ
  salt_text salt = b'-' ∷ b'X' ∷ b'X' ∷ print_int salt ++ b'X' ∷ b'X' ∷ b'-' ∷ []

  -- `encrypt_ctx_init`: what it returns, and the context that it leaves.
  unfoldable pub encrypt_ctx_init : EncryptCtx → ℕ → List ℕ → Bool → Bool × EncryptCtx
  encrypt_ctx_init c salt enc_key enc =
      let fresh : EncryptCtx = record c { ctx = record { enc = enc; key = []; position = 0 } } in
      if not (evp.init_rc4 enc)
      then (false, fresh)
      else if not evp.set_key_length
      then (false, fresh)
      else (
        true,
        record fresh {
          enc_key = take key_len enc_key;
          iv = take key_len (evp.md5 (salt_text salt));
          is_init = false;
        },
      )

  -- `true_key`
  abbrev pub true_key : EncryptCtx → List ℕ
  true_key c = evp.md5 (take key_len c.enc_key ++ take key_len c.iv)

  -- The first call on a context sets its key.
  ensure_key : Bool → EncryptCtx → Bool × EncryptCtx
  ensure_key enc c =
      if c.is_init then (true, c) else if not (evp.set_key enc (true_key c)) then (false, c) else (
        true,
        record c { ctx = record { enc = enc; key = true_key c; position = 0 }; is_init = true },
      )

  -- The call of `EVP_CipherUpdate` behind it. The bytes of `store` are cleared, its `len` is not.
  update_frame : EncryptCtx → EncFrame → EncFrame → Bool × EncryptCtx × EncFrame
  update_frame c from store =
      let cleared : EncFrame = record store { dat = replicate frame_size 0 } in
      elim (evp.update c.ctx.enc c.ctx.key c.ctx.position (take from.len from.dat)) [
        | none ↦ (false, c, cleared)
        | some out ↦ (
          true,
          record c {
            ctx = record {
              enc = c.ctx.enc;
              key = c.ctx.key;
              position = c.ctx.position + length out;
            };
          },
          record { dat = out ++ drop (length out) cleared.dat; len = length out },
        )
      ]

  -- `encrypt`: whether it succeeds, the context that it leaves, and the frame in `store`.
  unfoldable pub encrypt : EncryptCtx → EncFrame → EncFrame → Bool × EncryptCtx × EncFrame
  unfolding ensure_key update_frame
  encrypt c plain store =
      let (keyed, c') = ensure_key true c in
      if keyed
      then update_frame c' plain store
      else (false, c', record store { dat = replicate frame_size 0 })

  -- `decrypt`
  unfoldable pub decrypt : EncryptCtx → EncFrame → EncFrame → Bool × EncryptCtx × EncFrame
  unfolding ensure_key update_frame
  decrypt c cipher store =
      let (keyed, c') = ensure_key false c in
      if keyed
      then update_frame c' cipher store
      else (false, c', record store { dat = replicate frame_size 0 })

-- `encrypt_ctx_free`
unfoldable pub encrypt_ctx_free : EncryptCtx → EncryptCtx
encrypt_ctx_free c = record c {
  ctx = record { enc = false; key = []; position = 0 };
  is_init = false;
}
