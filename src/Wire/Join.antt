-- ===== src/Wire/Join.antt =====
-- A USR client joins a session, from its packet to what the server makes of it.
use sshinner.Base.{
  ℕ, ◌+◌, ◌≤◌, ◌<◌, ◌^◌, ◌≡◌, ◌≢◌, refl, ap, ◌∙◌, true, false, some, List, [], ◌∷◌, ◌++◌, ◌==◌,
  arith, length, take, drop, All, ==_false,
}
use mathlib.Core.List.{append_assoc}
use sshinner.Run.{ok}
use sshinner.Protocol.{CtlHead, zero_head, usr_daemon, daemon_usr, cmd_init, cmd_ok}
use sshinner.Server.{
  Ptr, Key, username, userid, r_mach_uuid, ActivItem, Env, Server, find_at, write_at, sends, binds,
  enables, main_cbs,
}
use sshinner.Server.Uuid.{uuid_search}
use sshinner.Server.Uuid.Search.{uuid_search-find}
use sshinner.Server.Uuid.Sequence.{in_order, find_uuid}
use sshinner.Server.Uuid.Rewrite.{Rising-write, find_uuid-write}
use sshinner.Server.Uuid.Update.{IsIndexed}
use sshinner.Server.Account.Names.{AllLive, first_acct, find_acct_item-first}
use sshinner.Server.Init.{send_head_cmd, handle_init, init_usr}
use sshinner.Server.Dispatch.{call_body, main_bufferread_cb}
use sshinner.Client.{Client, writes}
use sshinner.Client.Register.{PacketEnv, readable, register, write_packet, load_key, usr_init_srv}
use sshinner.Wire.{Matches}
use sshinner.Wire.Packet.{packet_lem, decrypt_lem, too_long_lem, c_string-append, copied}

-- The reply that the client waits for.
abbrev pub usr_reply : CtlHead → CtlHead
usr_reply head = record zero_head {
  direct = daemon_usr;
  cmd = cmd_ok;
  extra_param = head.extra_param;
  mach_uuid = head.mach_uuid;
  usrport = head.usrport;
  daemonport = head.daemonport;
}

module _ (client : PacketEnv) (env : Env) (matches : Matches client env) (c : Client)
    (key : client.key_file ≡ readable) (text body : List ℕ)
    (written : client.json_text c.hostname c.username c.userid
        (some (client.id128_text c.session_uuid))
      ≡ text)
    (real_text : All (λ byte. byte ≢ 0) text) (fits : length text + 12 ≤ client.rsa_size)
    (narrow : client.rsa_size < 2 ^ 32)
    (sealed : client.rsa_public_encrypt (text ++ 0 ∷ []) ≡ some body) where
  abbrev pub head : CtlHead
  head = record zero_head {
    direct = usr_daemon;
    cmd = cmd_init;
    mach_uuid = c.mach_uuid;
    dat_len = length body;
    crc = client.crc32 body;
  }

  -- The client writes one packet, and is content with the server's reply.
  sent :
      (fd : ℕ)
      → usr_init_srv client fd (usr_reply head) c
        ≡ ok true (record c { trace = c.trace ++ writes fd (client.head_bytes head ++ body) ∷ [] })
  unfolding usr_init_srv load_key write_packet register
  sent fd = rw (key, written, too_long_lem client text fits narrow, sealed) (ground arith)

  module _ (exact : (n : ℕ) (bs : List ℕ) → env.evbuffer_remove n bs ≡ (take n bs, drop n bs))
      (parses : env.json_parses text ≡ true)
      (names : env.json_string text username ≡ some c.username)
      (numbers : env.json_int text userid ≡ c.userid)
      (names_session : env.json_string text r_mach_uuid ≡ some (client.id128_text c.session_uuid))
      (spells : env.id128_from_string (client.id128_text c.session_uuid) ≡ some c.session_uuid)
      (real_name : All (λ byte. byte ≢ 0) c.username) (some_name : 0 < length c.username)
      (short : length c.username ≤ 128)
      (real_id : All (λ byte. byte ≢ 0) (client.id128_text c.session_uuid))
      (some_id : 0 < length (client.id128_text c.session_uuid))
      (short_id : length (client.id128_text c.session_uuid) ≤ 33) (held : Key → List ℕ)
      (bev b g p : ℕ) (rest : List Ptr) (a : ActivItem) (s : Server) (indexed : IsIndexed s)
      (live : AllLive s s.acct_items) (bev_real : bev ≢ 0) (b_real : b ≢ 0) (g_real : g ≢ 0)
      (memory : s.supply ≡ b ∷ rest) (known : first_acct s c.username c.userid s.acct_items ≡ g)
      (here : find_at s.activs p ≡ some a)
      (opened : find_uuid s.activs c.session_uuid (in_order s.uuid_tree) ≡ p) where
    abbrev entered : Server
    entered = record s { supply = rest }

    abbrev pub joined : Server
    joined = record entered {
      activs = write_at s.activs p (some (record a { bev_usr = bev }));
      trace = s.trace ++ sends bev (usr_reply head) ∷ binds bev main_cbs p ∷ enables bev ∷ [];
    }

    session_real : (p == 0) ≡ false
    session_real = ground (arith, here)

    session_there : s.activs p ≡ some a
    session_there = ground (arith, here)

    found : uuid_search c.session_uuid s.uuid_tree entered ≡ ok p entered
    found =
        uuid_search-find entered c.session_uuid 0 s.uuid_tree indexed
        ∙ ap (λ r. ok r entered) opened

    init_usr_lem :
        init_usr env bev head c.username c.userid (client.id128_text c.session_uuid) entered
        ≡ ok true joined
    unfolding init_usr send_head_cmd
    init_usr_lem =
        rw
          (
            spells,
            init_usr,
            find_acct_item-first entered c.username c.userid live,
            known,
            ==_false g 0 g_real,
            found,
            session_real,
            session_there,
            session_real,
            ==_false bev 0 bev_real,
          )
          (simp append_assoc)

    called : call_body env held bev head body entered ≡ ok true joined
    unfolding call_body handle_init
    called =
        rw
          (
            decrypt_lem client env matches (text ++ 0 ∷ []) body sealed,
            c_string-append text real_text,
            parses,
            names,
            numbers,
            names_session,
            copied (held username) c.username 128 real_name some_name short,
            copied (held r_mach_uuid) (client.id128_text c.session_uuid) 33 real_id some_id
                short_id,
          )
          init_usr_lem

    same_search :
        (v : ℕ)
        → uuid_search v s.uuid_tree joined ≡ ok (find_uuid s.activs v (in_order s.uuid_tree)) joined
    same_search v =
        let b : ActivItem = record a { bev_usr = bev } in
        uuid_search-find joined v 0 s.uuid_tree
          (Rising-write s.activs p a b here refl 0 (in_order s.uuid_tree) indexed)
        ∙ ap (λ q. ok q joined) (find_uuid-write s.activs p a b here refl v (in_order s.uuid_tree))

    -- Let a client and a server match, the client's key be readable and of less than 2^32 bytes, and its
    -- JSON text, without a 0, fit the key. Let `evbuffer_remove` take bytes in their order. Let the
    -- server read from that text the user's name, of 1 to 128 bytes, the number, and the text of the
    -- session's machine id, of 1 to 33 bytes, both without a 0; and let it have its sessions in order
    -- and its accounts in the store, an account that the user goes by, that session, whoever's it is,
    -- and a block. Then the server takes exactly the one packet that `sc_usr_init_srv` writes: it makes
    -- the connection the USR side of the session, sends one head, the reply that `sc_usr_init_srv`
    -- succeeds with, and changes no other object; every search for a session returns what it returned
    -- before.
    pub main_bufferread_cb-usr_init_srv :
        (fd : ℕ) (after : List ℕ)
        → (usr_init_srv client fd (usr_reply head) c
            ≡ ok true
                (record c { trace = c.trace ++ writes fd (client.head_bytes head ++ body) ∷ [] }))
          × (main_bufferread_cb env held bev (client.head_bytes head ++ (body ++ after)) s
              ≡ ok after joined)
          × ((v : ℕ)
              → uuid_search v joined.uuid_tree joined
                ≡ ok (find_uuid s.activs v (in_order s.uuid_tree)) joined)
    main_bufferread_cb-usr_init_srv fd after = (
      sent fd,
      rw
          (
            packet_lem client env matches (text ++ 0 ∷ []) body sealed head refl refl refl
                (omega arith) exact held bev s b rest memory b_real after,
            called,
          )
          refl,
      same_search,
    )
