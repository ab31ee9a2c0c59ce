-- ===== src/Client/Register.antt =====
-- The packets that a client registers with (client/source/sshinner_c_utils.c, `sc_daemon_init_srv` to
-- `sc_connect_srv`).
use sshinner.Base.{
  ℕ, ◌+◌, ◌-◌, ◌%◌, ◌^◌, Bool, true, false, not, ◌&&◌, Option, none, some, List, [], ◌∷◌, ◌++◌,
  ◌==◌, ltb, if◌then◌else◌, length, get_elem?, take,
}
use sshinner.Run.{pure, halt, exited, deref, ◌>>=◌, ◌>>◌}
use sshinner.Protocol.{
  CtlHead, zero_head, usr_daemon, daemon_usr, cmd_init, cmd_ss5, cmd_dns, cmd_ok,
}
use sshinner.Crypt.Decimal.{print_nat}
use sshinner.Client.{Clt, writes, sends}
use sshinner.Client.Memory.{get, emit}

-- What `fopen` and `PEM_read_RSA_PUBKEY` say of the public key.
pub data KeyFile : Type 0 where
  missing unreadable readable : KeyFile

-- What the packets need of OpenSSL, json-c, sd-id128, zlib, and the compiler's layout of a head.
pub record PacketEnv : Type 0 where
  pub key_file : KeyFile
  -- `RSA_size` and `RSA_public_encrypt`; `none` if it fails
  pub rsa_size : ℕ
  pub rsa_public_encrypt : List ℕ → Option (List ℕ)
  -- `json_object_to_json_string` of an object with the members `hostname`, `username`, `userid` and, if
  -- given, `r_mach_uuid`
  pub json_text : List ℕ → List ℕ → ℕ → Option (List ℕ) → List ℕ
  pub id128_text : ℕ → List ℕ
  pub crc32 : List ℕ → ℕ
  pub head_bytes : CtlHead → List ℕ

-- The key is loaded. Without the file the process ends; where it cannot be read, the three functions
-- of the DAEMON client end the process and that of the USR client fails.
unfoldable pub load_key : PacketEnv → (is_daemon : Bool) → Clt Bool
load_key env is_daemon = elim env.key_file [
  | missing ↦ halt exited
  | unreadable ↦ if is_daemon then halt exited else pure false
  | readable ↦ pure true
]

-- The end that the four functions share: the body is encrypted, and the packet is written at once.
unfoldable pub write_packet : PacketEnv → (srv_fd : ℕ) → CtlHead → List ℕ → Clt Bool
write_packet env srv_fd head text = elim (env.rsa_public_encrypt text) [
  | none ↦ pure false
  | some body ↦ (do
    emit (
        writes srv_fd
          (env.head_bytes (record head { dat_len = length body; crc = env.crc32 body }) ++ body))
    pure true)
]

-- `strlen(ret_str) + 1 > RSA_size(p_rsa) - 11`: the difference is an `int`, and is compared as a
-- `size_t`.
abbrev pub too_long : PacketEnv → List ℕ → Bool
too_long env text = ltb ((env.rsa_size + 2 ^ 64 - 11) % 2 ^ 64) (length text + 1)

-- What `sc_daemon_init_srv` and `sc_usr_init_srv` do with their text; `reply` is the head that the `read`
-- leaves.
unfoldable pub register :
    PacketEnv
    → (srv_fd : ℕ) → CtlHead
    → (text : List ℕ) → (reply : CtlHead) → (answer : ℕ) → Clt Bool
unfolding write_packet
register env srv_fd head text reply answer = if too_long env text then pure false else do
  sent ← write_packet env srv_fd head (text ++ 0 ∷ [])
  if sent then pure ((reply.direct == answer) && (reply.cmd == cmd_ok)) else pure false

-- `sc_daemon_init_srv`
unfoldable pub daemon_init_srv : PacketEnv → (srv_fd : ℕ) → (reply : CtlHead) → Clt Bool
unfolding load_key register
daemon_init_srv env srv_fd reply = do
  loaded ← load_key env true
  if not loaded then pure false else do
    s ← get
    register env srv_fd
        (record zero_head { direct = daemon_usr; cmd = cmd_init; mach_uuid = s.mach_uuid })
        (env.json_text s.hostname s.username s.userid none) reply usr_daemon

-- `sc_usr_init_srv`
unfoldable pub usr_init_srv : PacketEnv → (srv_fd : ℕ) → (reply : CtlHead) → Clt Bool
unfolding load_key register
usr_init_srv env srv_fd reply = do
  loaded ← load_key env false
  if not loaded then pure false else do
    s ← get
    register env srv_fd
        (record zero_head { direct = usr_daemon; cmd = cmd_init; mach_uuid = s.mach_uuid })
        (env.json_text s.hostname s.username s.userid (some (env.id128_text s.session_uuid))) reply
        daemon_usr

-- The length of a SOCKS5 request, for the packet. A name's length is a `char`, so that 256 is taken off
-- one of 128 or more; `none` stands for a length below 0, with which `RSA_public_encrypt` has no
-- documented behaviour.
unfoldable pub request_len : List ℕ → Option ℕ
request_len request = elim (get_elem? request 3) [
  | none ↦ none
  | some atyp ↦ if atyp == 1 then some 10 else elim (get_elem? request 4) [
    | none ↦ none
    | some n ↦
        if ltb n 128 then some (7 + n) else (if ltb (7 + n) 256 then none else some (7 + n - 256))
  ]
]

-- `sc_daemon_ss5_init_srv`
unfoldable pub daemon_ss5_init_srv :
    PacketEnv → (srv_fd : ℕ) → (request : List ℕ) → (l_port : ℕ) → Clt Bool
unfolding load_key request_len write_packet
daemon_ss5_init_srv env srv_fd request l_port = do
  load_key env true
  s ← get
  dat_len ← deref (request_len request)
  if ltb env.rsa_size (dat_len + 12)
      then pure false
      else write_packet env srv_fd
          (record zero_head {
            direct = daemon_usr;
            cmd = cmd_ss5;
            extra_param = l_port;
            mach_uuid = s.mach_uuid;
          })
          (take dat_len request)

-- `sprintf(salt_buf, "--%luxxx", salt)`; an `unsigned long` has at most 20 digits.
abbrev pub salt_text : ℕ → List ℕ
salt_text salt = b'-' ∷ b'-' ∷ print_nat 20 (salt % 2 ^ 64) ++ (b'x' ∷ b'x' ∷ b'x' ∷ [])

-- `sc_daemon_dns_init_srv`
unfoldable pub daemon_dns_init_srv : PacketEnv → (srv_fd : ℕ) → (l_port salt : ℕ) → Clt Bool
unfolding load_key write_packet print_nat
daemon_dns_init_srv env srv_fd l_port salt = do
  load_key env true
  s ← get
  write_packet env srv_fd
      (record zero_head {
        direct = daemon_usr;
        cmd = cmd_dns;
        extra_param = l_port;
        mach_uuid = s.mach_uuid;
      })
      (salt_text salt ++ 0 ∷ [])

-- `sc_send_head_cmd`
unfoldable pub send_head_cmd : (cmd extra_param usrport daemonport : ℕ) → Clt Bool
send_head_cmd cmd extra_param usrport daemonport = do
  s ← get
  if s.control_bev == 0 then pure false else do
    emit (
        sends s.control_bev (record zero_head {
          direct = if s.is_daemon then daemon_usr else usr_daemon;
          cmd = cmd;
          extra_param = extra_param;
          mach_uuid = s.session_uuid;
          usrport = usrport;
          daemonport = daemonport % 2 ^ 16;
        }))
    pure true
