-- ===== src/Wire.antt =====
-- From a client to the server: the packets of client/source/sshinner_c_utils.c as
-- server/source/sshinner_s_event.c and server/source/sshinner_s_threads.c read them.
pub mod Join
pub mod Packet
pub mod Register
pub mod Socks
pub mod Tunnel
pub mod Exchange
pub mod Opening
use sshinner.Base.{ℕ, ◌≡◌, Option, some, List, length, take, drop}
use sshinner.Protocol.{CtlHead}
use sshinner.Server.{Env}
use sshinner.Client.Register.{PacketEnv}

-- The two programs are built for one machine and have the two halves of a key: they lay out a head and
-- sum bytes alike, what the client encrypts has the length of the key, and the server decrypts it.
pub record Matches (client : PacketEnv) (server : Env) : Type 0 where
  pub head_size : (h : CtlHead) → length (client.head_bytes h) ≡ server.head_len
  pub head_read : (h : CtlHead) → server.head_of (client.head_bytes h) ≡ h
  pub sums : (bytes : List ℕ) → server.crc32 bytes ≡ client.crc32 bytes
  pub key_size :
      (text body : List ℕ)
      → client.rsa_public_encrypt text ≡ some body
      → length body ≡ client.rsa_size
  pub decrypts :
      (text body : List ℕ)
      → client.rsa_public_encrypt text ≡ some body
      → server.rsa_private_decrypt body ≡ some text
