-- ===== src/Wire/Exchange.antt =====
-- A question and its answer through a SOCKS5 transfer, from a program to a remote host and back.
use mathlib.Core.List.{flatten}
use sshinner.Base.{ℕ, ◌≡◌, ◌≢◌, refl, ap, ◌∙◌, Bool, true, false, some, List, [], ◌++◌}
use sshinner.Run.{Returns, weaken}
use sshinner.Crypt.{Evp, EncFrame, EncryptCtx, encrypt_ctx_init}
use sshinner.Crypt.Stream.{IsRc4, pump, step, pump-pump}
use sshinner.Crypt.Relay.{each}
use sshinner.Server.{Ptr, Env, Server, TransItem, find_at}
use sshinner.Server.Transfer.{bufferread_cb_enc}
use sshinner.Server.Transfer.Streams.{written}
use sshinner.Client.{PortTrans, Client}
use sshinner.Client.Proxy.{ss5_bufferread_cb_enc}
use sshinner.Wire.Tunnel.{sent, IsReads, program-Moved, reply-Moved, client-Moved, outside-Moved}

-- A context that `encrypt_ctx_init` has made.
abbrev pub IsNew : Evp → (salt : ℕ) → (enc_key : List ℕ) → Bool → EncryptCtx → Type 0
IsNew evp salt enc_key enc c =
    (before : EncryptCtx) × (c ≡ (encrypt_ctx_init evp before salt enc_key enc).1)

-- The network cuts a stream into reads.
abbrev pub Cuts : (List ℕ → List (List ℕ)) → Type 0
Cuts cut = (bytes : List ℕ) → (flatten (cut bytes) ≡ bytes) × IsReads (cut bytes)

-- The transfer `u` of a client and the transfer `t` of the server are the two halves of an encrypted
-- transfer, whose four contexts are new, and over which nothing was sent.
pub record Joined (evp : Evp) (p x : Ptr) (u : PortTrans) (t : TransItem) (c : Client) (s : Server)
    : Type 0 where
  pub port : ℕ
  pub enc_key : List ℕ
  pub here : find_at c.transs p ≡ some u
  pub there : find_at s.transs x ≡ some t
  pub local : u.local_bev ≢ 0
  pub srv : u.srv_bev ≢ 0
  pub apart : u.local_bev ≢ u.srv_bev
  pub outside : t.bev_u ≢ 0
  pub inside : t.bev_d ≢ 0
  pub split : t.bev_d ≢ t.bev_u
  pub client_enc : IsNew evp port enc_key true u.ctx_enc
  pub client_dec : IsNew evp port enc_key false u.ctx_dec
  pub server_enc : IsNew evp port enc_key true t.ctx_enc
  pub server_dec : IsNew evp port enc_key false t.ctx_dec
  pub unsent : sent u.srv_bev c.trace ≡ []
  pub unwritten : written t.bev_d s.trace ≡ []

module _ (env : Env) (mix : List ℕ → ℕ → ℕ → ℕ) (rc4 : IsRc4 env.evp mix) (held : EncFrame) where
  -- A stream that two new contexts of the same port and key are put on comes out as it was.
  through :
      (port : ℕ) (enc_key : List ℕ) (enc : Bool) (a b : EncryptCtx)
      → IsNew env.evp port enc_key enc a
      → IsNew env.evp port enc_key enc b
      → (reads received : List (List ℕ)) → flatten received ≡ pump (step env.evp enc) a reads
      → pump (step env.evp enc) b received ≡ flatten reads
  through port enc_key enc a b (a', ea) (b', eb) reads received line =
      rw eb (pump-pump env.evp mix rc4 a' b' port enc_key enc enc reads received (rw ea at line))

  -- Given rc4, let the two halves of an encrypted transfer be open at the client and at the server, with
  -- contexts that both made for the same port and key, and nothing sent yet. A program's reads arrive at
  -- the client and a remote host's at the server, none of them empty, and the network cuts what is
  -- sent between them in any way. Then the server writes to the remote host the bytes of the
  -- program, in order, and the client, from the states that this leaves, writes to the program the bytes
  -- of the remote host, in order; no callback stops.
  pub bufferread_cb_enc-ss5_bufferread_cb_enc :
      (cut : List ℕ → List (List ℕ))
      → Cuts cut
      → (p x : Ptr) (u : PortTrans) (t : TransItem) (c : Client) (s : Server)
      → Joined env.evp p x u t c s
      → (asked answered : List (List ℕ)) → IsReads asked
      → IsReads answered
      → Returns
          (λ _ c1.
            Returns
              (λ _ s1.
                (written t.bev_u s1.trace ≡ written t.bev_u s.trace ++ flatten asked)
                × Returns
                    (λ _ s2.
                      Returns
                        (λ _ c2.
                          sent u.local_bev c2.trace ≡ sent u.local_bev c.trace ++ flatten answered)
                        (each
                          (ss5_bufferread_cb_enc env.evp held u.srv_bev p)
                          (cut (written t.bev_d s2.trace))
                          c1))
                    (each (bufferread_cb_enc env held t.bev_u x) answered s1))
              (each (bufferread_cb_enc env held t.bev_d x) (cut (sent u.srv_bev c1.trace)) s))
          (each (ss5_bufferread_cb_enc env.evp held u.local_bev p) asked c)
  bufferread_cb_enc-ss5_bufferread_cb_enc cut cuts p x u t c s j asked answered asks answers =
      weaken (program-Moved env mix rc4 held p u j.apart asked c j.here asks j.srv)
        λ _ c1 (enc1, (at1, up, quiet1)).
          let line = sent u.srv_bev c1.trace in
          let plain : pump (step env.evp true) t.ctx_enc (cut line) ≡ flatten asked =
            through j.port j.enc_key true u.ctx_enc t.ctx_enc j.client_enc j.server_enc asked
              (cut line) ((cuts line).0 ∙ up ∙ rw j.unsent refl) in
          weaken
            (client-Moved env mix rc4 held x t j.split (cut line) s j.there ((cuts line).1)
              j.outside)
            λ _ s1 (enc2, (at2, out, quiet2)). (
              out ∙ ap (λ bytes. written t.bev_u s.trace ++ bytes) plain,
              weaken
                  (outside-Moved env mix rc4 held x (record t { ctx_enc = enc2 }) j.split answered
                    s1 at2 answers j.inside)
                  λ _ s2 (dec2, (at3, down, quiet3)).
                    let back = written t.bev_d s2.trace in
                    let reply : pump (step env.evp false) u.ctx_dec (cut back) ≡ flatten answered =
                      through j.port j.enc_key false t.ctx_dec u.ctx_dec j.server_dec j.client_dec
                        answered (cut back)
                        ((cuts back).0 ∙ down ∙ rw (quiet2, j.unwritten) refl) in
                    weaken
                      (reply-Moved env mix rc4 held p (record u { ctx_enc = enc1 }) j.apart
                        (cut back) c1 at1 ((cuts back).1) j.local)
                      λ _ c2 (dec1, (at4, into, quiet4)). into ∙ rw (quiet1, reply) refl,
            )
