-- ===== src/Wire/Register.antt =====
-- The registration of a DAEMON client, from its packet to the session of the server.
use sshinner.Base.{
  ℕ, ◌+◌, ◌≤◌, ◌<◌, ◌^◌, ◌≡◌, ◌≢◌, refl, true, some, none, List, [], ◌∷◌, ◌++◌, ◌==◌, arith,
  if◌then◌else◌, length, take, drop, replicate, All,
}
use sshinner.Crypt.{encrypt_init}
use sshinner.Run.{ok, Returns, returns, weaken, bind}
use sshinner.Protocol.{CtlHead, zero_head, daemon_usr, cmd_init}
use sshinner.Server.{
  Ptr, Key, ActivItem, username, userid, Env, Server, find_at, sends, binds, enables, main_cbs,
}
use sshinner.Server.Uuid.{uuid_search}
use sshinner.Server.Uuid.Sequence.{in_order, find_uuid}
use sshinner.Server.Uuid.Update.{IsIndexed, KeepsOrder}
use sshinner.Server.Account.Names.{AllLive, first_acct}
use sshinner.Server.Init.{handle_init}
use sshinner.Server.Init.Opened.{reply_head, with_acct, find_or_add_acct_new, init_daemon-Opened}
use sshinner.Server.Dispatch.{call_body, main_bufferread_cb}
use sshinner.Client.{Client, writes}
use sshinner.Client.Register.{
  PacketEnv, readable, register, write_packet, load_key, daemon_init_srv,
}
use sshinner.Wire.{Matches}
use sshinner.Wire.Packet.{packet_lem, decrypt_lem, too_long_lem, c_string-append, copied}

module _ (client : PacketEnv) (env : Env) (matches : Matches client env) (c : Client)
    (key : client.key_file ≡ readable) (text body : List ℕ)
    (written : client.json_text c.hostname c.username c.userid none ≡ text)
    (real_text : All (λ byte. byte ≢ 0) text) (fits : length text + 12 ≤ client.rsa_size)
    (narrow : client.rsa_size < 2 ^ 32)
    (sealed : client.rsa_public_encrypt (text ++ 0 ∷ []) ≡ some body) where
  abbrev pub head : CtlHead
  head = record zero_head {
    direct = daemon_usr;
    cmd = cmd_init;
    mach_uuid = c.mach_uuid;
    dat_len = length body;
    crc = client.crc32 body;
  }

  -- The client writes one packet, and is content with the server's reply.
  sent :
      (fd : ℕ)
      → daemon_init_srv client fd (reply_head head) c
        ≡ ok true (record c { trace = c.trace ++ writes fd (client.head_bytes head ++ body) ∷ [] })
  unfolding daemon_init_srv load_key write_packet register
  sent fd = rw (key, written, too_long_lem client text fits narrow, sealed) (ground arith)

  module _ (rb : KeepsOrder env)
      (exact : (n : ℕ) (bs : List ℕ) → env.evbuffer_remove n bs ≡ (take n bs, drop n bs))
      (parses : env.json_parses text ≡ true)
      (names : env.json_string text username ≡ some c.username)
      (numbers : env.json_int text userid ≡ c.userid)
      (real_name : All (λ byte. byte ≢ 0) c.username) (some_name : 0 < length c.username)
      (short : length c.username ≤ 128) (held : Key → List ℕ) (bev b g p : ℕ) (rest : List Ptr)
      (s : Server) (indexed : IsIndexed s) (live : AllLive s s.acct_items) (bev_real : bev ≢ 0)
      (b_real : b ≢ 0) (g_real : g ≢ 0) (p_real : p ≢ 0) (memory : s.supply ≡ b ∷ g ∷ p ∷ rest)
      (unused : s.activs p ≡ none) (new : first_acct s c.username c.userid s.acct_items ≡ 0)
      (free : find_uuid s.activs c.mach_uuid (in_order s.uuid_tree) ≡ 0) where
    abbrev entered : Server
    entered = record s { supply = g ∷ p ∷ rest }

    -- The key that both programs derive from the client's machine id; zeros where that fails.
    abbrev pub session_key : List ℕ
    session_key = elim (encrypt_init env.evp (env.id128_text c.mach_uuid)) [
      | none ↦ replicate 16 0
      | some key ↦ key
    ]

    -- What the server makes of the packet.
    abbrev pub Registered : List ℕ → List ℕ → Server → Type 0
    Registered after left s' =
        (left ≡ after)
        × (a : ActivItem) × (find_at s'.activs p ≡ some a)
        × (a.mach_uuid ≡ c.mach_uuid)
        × (a.p_acct ≡ g)
        × (a.bev_daemon ≡ bev)
        × (a.enc_key ≡ session_key)
        × (find_at s'.accts g
            ≡ some (record { username = c.username; userid = c.userid; items = p ∷ [] }))
        × ((v : ℕ)
            → uuid_search v s'.uuid_tree s'
              ≡ ok (if v == c.mach_uuid then p else find_uuid s.activs v (in_order s.uuid_tree)) s')
        × (s'.trace
            ≡ s.trace ++ sends bev (reply_head head) ∷ binds bev main_cbs p ∷ enables bev ∷ [])

    called :
        Returns
          (λ done s'. (done ≡ true) × ((left : List ℕ) → Registered left left s'))
          (call_body env held bev head body entered)
    unfolding call_body handle_init
    called =
        rw
          (
            decrypt_lem client env matches (text ++ 0 ∷ []) body sealed,
            c_string-append text real_text,
            parses,
            names,
            numbers,
            copied (held username) c.username 128 real_name some_name short,
          )
          (weaken
            (init_daemon-Opened env rb bev head c.username c.userid entered
              (with_acct c.username c.userid entered live g (p ∷ rest)) indexed g p rest
              (record { username = c.username; userid = c.userid; items = [] }) bev_real
              (find_or_add_acct_new c.username c.userid entered live g (p ∷ rest) g_real new refl)
              (ground arith) free refl p_real unused)
            λ done s' (done_yes, (here, acct, found, trace)).
              (done_yes, λ left. (refl, _, here, refl, refl, refl, refl, acct, found, trace)))

    -- Let a client and a server match, the client's key be readable and of less than 2^32 bytes, and its
    -- JSON text, without a 0, fit the key. Let `evbuffer_remove` take bytes in their order. Let the
    -- server read the user's name and number from that text, the name being of 1 to 128 bytes without
    -- a 0; have its sessions in order and its accounts in the store, no account that the user goes by,
    -- no session with the client's machine id, and three blocks, the last unused; and let the
    -- red-black tree keep its order. Then the server takes exactly the one packet that
    -- `sc_daemon_init_srv` writes. It makes an account that lists one session, which is found by the
    -- client's machine id while every other search is as before, and has the key that `encrypt_init` makes
    -- of that id; and it sends one head, the reply that `sc_daemon_init_srv` succeeds with.
    pub main_bufferread_cb-daemon_init_srv :
        (fd : ℕ) (after : List ℕ)
        → (daemon_init_srv client fd (reply_head head) c
            ≡ ok true
                (record c { trace = c.trace ++ writes fd (client.head_bytes head ++ body) ∷ [] }))
          × Returns
              (Registered after)
              (main_bufferread_cb env held bev (client.head_bytes head ++ (body ++ after)) s)
    main_bufferread_cb-daemon_init_srv fd after = (
      sent fd,
      rw
          (packet_lem client env matches (text ++ 0 ∷ []) body sealed head refl refl refl
            (omega arith) exact held bev s b (g ∷ p ∷ rest) memory b_real after)
          (bind called λ done s' (done_yes, found). rw done_yes (returns (found after))),
    )
