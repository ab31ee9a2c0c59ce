-- ===== src/Examples/Crossing.antt =====
-- The theorems on packets from a client to the server, at a small key.
use sshinner.Base.{
  ℕ, suc, zero, ◌≡◌, refl, Option, some, none, List, [], ◌∷◌, ◌++◌, arith, inl, inr, Option-cases,
  true, length, take, replicate, get_elem?,
}
use sshinner.Run.{ok, Returns}
use sshinner.Protocol.{CtlHead, zero_head, daemon_usr, cmd_ss5}
use sshinner.Server.{TransItem, Env, find_at}
use sshinner.Server.Worker.{named, target_of}
use sshinner.Server.Dispatch.{main_bufferread_cb}
use sshinner.Server.Worker.Requests.{ask_name}
use sshinner.Client.{writes}
use sshinner.Client.Register.{PacketEnv, readable, daemon_ss5_init_srv}
use sshinner.Wire.{Matches}
use sshinner.Wire.Socks.{target_of-daemon_ss5_init_srv}
use sshinner.Examples.Data.{test_env, test_server, activ_20}
use sshinner.Examples.Sessions.{indexed, session}
use sshinner.Examples.Clients.{test_client}

-- A text filled up with zeros, if it is not too long.
unfoldable pub fill : ℕ → List ℕ → Option (List ℕ)
fill zero [] = some []
fill zero (x ∷ xs) = none
fill (suc n) [] = elim (fill n []) [ none ↦ none | some ys ↦ some (0 ∷ ys) ]
fill (suc n) (x ∷ xs) = elim (fill n xs) [ none ↦ none | some ys ↦ some (x ∷ ys) ]

fill_lem :
    (n : ℕ) (xs ys : List ℕ) → fill n xs ≡ some ys → (length ys ≡ n) × (take (length xs) ys ≡ xs)
unfolding fill
fill_lem zero [] ys e = ground (arith, e)
fill_lem zero (x ∷ xs) ys e = ground (arith, e)
fill_lem (suc n) [] ys e = elim (Option-cases (fill n [])) [
  | inl z ↦ ground (arith, e, z)
  | inr (zs, z) ↦ ground (arith, e, z, fill_lem n [] zs z)
]
fill_lem (suc n) (x ∷ xs) ys e = elim (Option-cases (fill n xs)) [
  | inl z ↦ ground (arith, e, z)
  | inr (zs, z) ↦ ground (arith, e, z, fill_lem n xs zs z)
]

-- A cipher that hides nothing, with a key of 40 bytes.
unfoldable pub seal : List ℕ → Option (List ℕ)
seal text = elim (fill 39 text) [ none ↦ none | some bytes ↦ some (length text ∷ bytes) ]

pub open_sealed : List ℕ → Option (List ℕ)
open_sealed [] = none
open_sealed (n ∷ bytes) = some (take n bytes)

abbrev pub head_bytes : CtlHead → List ℕ
head_bytes h =
    h.direct ∷ h.cmd ∷ h.extra_param ∷ h.mach_uuid ∷ h.daemonport ∷ h.usrport ∷ h.crc ∷ h.dat_len
    ∷ []

abbrev head_of : List ℕ → CtlHead
head_of (a ∷ b ∷ c ∷ d ∷ e ∷ f ∷ g ∷ h ∷ rest) = record {
  direct = a;
  cmd = b;
  extra_param = c;
  mach_uuid = d;
  daemonport = e;
  usrport = f;
  crc = g;
  dat_len = h;
}
head_of bytes = zero_head

pub seal_lem :
    (text body : List ℕ)
    → seal text ≡ some body
    → (length body ≡ 40) × (open_sealed body ≡ some text)
unfolding seal open_sealed
seal_lem text body e = elim (Option-cases (fill 39 text)) [
  | inl z ↦ ground (arith, e, z)
  | inr (zs, z) ↦ ground (arith, e, z, fill_lem 39 text zs z)
]

abbrev pub small_client : PacketEnv
small_client = record {
  key_file = readable;
  rsa_size = 40;
  rsa_public_encrypt = seal;
  json_text = λ hostname username userid uuid. username;
  id128_text = λ uuid. uuid ∷ [];
  crc32 = λ bytes. length bytes;
  head_bytes = head_bytes;
}

abbrev pub small_server : Env
small_server = record test_env {
  head_len = 8;
  head_of = head_of;
  crc32 = λ bytes. length bytes;
  rsa_private_decrypt = open_sealed;
}

pub matches : Matches small_client small_server
matches = record {
  head_size = λ h. refl;
  head_read = λ h. refl;
  sums = λ bytes. refl;
  key_size = λ text body e. (seal_lem text body e).0;
  decrypts = λ text body e. (seal_lem text body e).1;
}

abbrev sealed : List ℕ
sealed = 8 ∷ (ask_name (b'a' ∷ []) 1 187 [] ++ replicate 31 0)

sealed_lem : seal (ask_name (b'a' ∷ []) 1 187 []) ≡ some sealed
unfolding seal fill
sealed_lem = refl

abbrev sent_head : CtlHead
sent_head = record zero_head {
  direct = daemon_usr;
  cmd = cmd_ss5;
  extra_param = 8080;
  mach_uuid = 7;
  dat_len = 40;
  crc = 40;
}

-- A request for a host called `a`, at the port 443.
target_of-daemon_ss5_init_srv_example :
    (daemon_ss5_init_srv small_client 9 (ask_name (b'a' ∷ []) 1 187 (0 ∷ 0 ∷ [])) 8080 test_client
      ≡ ok true (record test_client {
        trace = writes 9 (small_client.head_bytes sent_head ++ sealed) ∷ [];
      }))
    × Returns
        (λ left s'.
          (left ≡ 77 ∷ [])
          × (t : TransItem) × (find_at s'.transs 41 ≡ some t)
          × (t.p_activ_item ≡ 20)
          × (t.usr_lport ≡ 8080)
          × (get_elem? s'.queues 0 ≡ some (record { socket = 170; p_trans = 41 } ∷ []))
          × (request : List ℕ) × (t.request ≡ some request)
          × (target_of request ≡ named (b'a' ∷ []) 443))
        (main_bufferread_cb small_server
          (λ key. [])
          70
          (small_client.head_bytes sent_head ++ (sealed ++ 77 ∷ []))
          test_server)
target_of-daemon_ss5_init_srv_example =
    target_of-daemon_ss5_init_srv small_client small_server matches test_client refl (b'a' ∷ []) 1
      187 8080 (0 ∷ 0 ∷ []) (omega arith) (omega arith, tt) (omega arith) sealed sealed_lem
      (λ n bs. refl) (λ key. []) 70 20 41 42 0 40 (43 ∷ []) activ_20 [] test_server indexed refl
      session refl (omega arith) (omega arith) (omega arith) refl refl refl refl 9 (77 ∷ [])
