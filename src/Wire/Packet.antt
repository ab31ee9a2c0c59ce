-- ===== src/Wire/Packet.antt =====
-- A packet with an encrypted body, as the server takes it in.
use mathlib.Core.Path.{subst}
use sshinner.Base.{
  ==_false, All, List, [], ap, arith, c_string, drop, false, length, refl, some, suc, sym, take,
  true, zero, ℕ, ◌%◌, ◌++◌, ◌+◌, ◌-◌, ◌<◌, ◌==◌, ◌^◌, ◌||◌, ◌∙◌, ◌∷◌, ◌≡◌, ◌≢◌, ◌≤◌,
}
use sshinner.Run.{pure, ◌>>=◌, ◌>>◌}
use sshinner.Protocol.{CtlHead, cmd_init, cmd_ss5, cmd_dns}
use sshinner.Server.{Ptr, Key, Env, Server}
use sshinner.Server.Dispatch.{call_body, answer, main_bufferread_cb}
use sshinner.Server.Dispatch.Reading.{main_bufferread_cb_body}
use sshinner.Server.Init.{json_fetch_and_copy}
use sshinner.Client.Register.{PacketEnv, too_long}
use sshinner.Wire.{Matches}

take_all : (xs : List ℕ) → take (length xs) xs ≡ xs
take_all [] = refl
take_all (x ∷ xs) = ap (◌∷◌ x) (take_all xs)

-- A text in a cleared block ends where it ended.
pub c_string-append :
    (text : List ℕ) → All (λ byte. byte ≢ 0) text → c_string (text ++ 0 ∷ []) ≡ text
c_string-append [] real = refl
c_string-append (c ∷ text) (real, rest) = ground (arith, c_string-append text rest)

c_string-take :
    (n : ℕ) (text : List ℕ)
    → All (λ byte. byte ≢ 0) text
    → length text ≤ n
    → c_string (take n text) ≡ text
c_string-take zero [] real le = refl
c_string-take zero (c ∷ text) real le = ground arith
c_string-take (suc n) [] real le = refl
c_string-take (suc n) (c ∷ text) (real, rest) le = ground (arith, c_string-take n text rest)

-- A member that fits its buffer is copied whole.
pub copied :
    (held text : List ℕ) (n : ℕ)
    → All (λ byte. byte ≢ 0) text
    → 0 < length text
    → length text ≤ n
    → json_fetch_and_copy (some text) held n ≡ text
copied held [] n real some_text le = ground arith
copied held (c ∷ text) n real some_text le = c_string-take n (c ∷ text) real le

-- A text that fits the key is not too long for it.
pub too_long_lem :
    (client : PacketEnv) (text : List ℕ)
    → length text + 12 ≤ client.rsa_size
    → client.rsa_size < 2 ^ 32
    → too_long client text ≡ false
too_long_lem client text fits narrow =
    let wraps : (client.rsa_size + 2 ^ 64 - 11) % 2 ^ 64 ≡ client.rsa_size - 11 = omega arith in
    ground (arith, wraps)

module _ (client : PacketEnv) (env : Env) (matches : Matches client env) (text body : List ℕ)
    (sealed : client.rsa_public_encrypt text ≡ some body) where
  pub decrypt_lem : env.rsa_private_decrypt (take (length body) body) ≡ some text
  decrypt_lem = ap env.rsa_private_decrypt (take_all body) ∙ matches.decrypts text body sealed

  -- The packet with a head goes to the handler that the head names.
  pub packet_lem :
      (head : CtlHead)
      → head.dat_len ≡ length body
      → head.crc ≡ client.crc32 body
      → ((head.cmd == cmd_ss5) || (head.cmd == cmd_dns) || (head.cmd == cmd_init)) ≡ true
      → 0 < client.rsa_size
      → ((n : ℕ) (bs : List ℕ) → env.evbuffer_remove n bs ≡ (take n bs, drop n bs))
      → (held : Key → List ℕ) (bev : Ptr) (s : Server) (b : Ptr) (rest : List Ptr)
      → s.supply ≡ b ∷ rest
      → b ≢ 0
      → (after : List ℕ)
      → main_bufferread_cb env held bev (client.head_bytes head ++ (body ++ after)) s
        ≡ (call_body env held bev head body >>= λ done. answer bev head done >> pure after)
            (record s { supply = rest })
  packet_lem head len sum bodied real exact held bev s b rest memory b_real after =
      let same : env.head_of (client.head_bytes head) ≡ head = matches.head_read head in
      let sized = matches.key_size text body sealed in
      subst
        (λ h.
          main_bufferread_cb env held bev (client.head_bytes head ++ (body ++ after)) s
          ≡ (call_body env held bev h body >>= λ done. answer bev h done >> pure after)
              (record s { supply = rest }))
        same
        (main_bufferread_cb_body env exact held bev s (client.head_bytes head) b rest
          (matches.head_size head) (rw same bodied) (rw same (ground arith)) memory
          (==_false b 0 b_real) body after (sym len ∙ sym (ap (λ (h : CtlHead). h.dat_len) same))
          (matches.sums body ∙ sym sum ∙ sym (ap (λ (h : CtlHead). h.crc) same)))
