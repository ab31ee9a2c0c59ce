-- ===== src/Wire/Socks.antt =====
-- A SOCKS5 request, from the packet of a DAEMON client to what a worker of the server reads.
use mathlib.Core.List.{append_assoc}
use sshinner.Base.{
  ℕ, suc, zero, ◌+◌, ◌*◌, ◌-◌, ◌%◌, ◌≤◌, ◌<◌, ◌≡◌, ◌≢◌, refl, sym, ap, ◌∙◌, true, some, none, List,
  [], ◌∷◌, ◌++◌, arith, ==_true, length, length-append, get_elem?, get_elem?-set, take, drop,
  take-append, replicate, All,
}
use sshinner.Run.{ok, Returns, returns}
use sshinner.Protocol.{CtlHead, zero_head, daemon_usr, cmd_ss5}
use sshinner.Server.{Ptr, Key, Env, Server, CItem, TransItem, ActivItem, find_at}
use sshinner.Server.Uuid.Search.{uuid_search-find}
use sshinner.Server.Uuid.Sequence.{in_order, find_uuid}
use sshinner.Server.Uuid.Update.{IsIndexed}
use sshinner.Server.Relay.Steps.{item_of}
use sshinner.Server.Trans.{ushort}
use sshinner.Server.Trans.Ports.{scan, IsSession}
use sshinner.Server.Relay.{decrypted, handle_ss5}
use sshinner.Server.Relay.Proxied.{asked, proxied, handle_proxy_lem}
use sshinner.Server.Worker.{named, target_of}
use sshinner.Server.Worker.Requests.{ask_name, target_of-ask}
use sshinner.Server.Dispatch.{call_body, main_bufferread_cb}
use sshinner.Client.{Client, writes}
use sshinner.Client.Register.{
  PacketEnv, readable, request_len, write_packet, load_key, daemon_ss5_init_srv,
}
use sshinner.Wire.{Matches}
use sshinner.Wire.Packet.{packet_lem, decrypt_lem}

request_len-ask_name :
    (name : List ℕ) (hi lo : ℕ) (more : List ℕ)
    → length name < 128
    → request_len (ask_name name hi lo more) ≡ some (7 + length name)
unfolding request_len
request_len-ask_name name hi lo more short = ground arith

take_beyond : (xs ys : List ℕ) (n m : ℕ) → length xs + m ≡ n → take n (xs ++ ys) ≡ xs ++ take m ys
take_beyond [] ys n m e = let e' : m ≡ n = omega arith in rw e' refl
take_beyond (x ∷ xs) ys zero m e = ground arith
take_beyond (x ∷ xs) ys (suc n) m e = ap (◌∷◌ x) (take_beyond xs ys n m (omega arith))

ask_name-append :
    (name : List ℕ) (hi lo : ℕ) (more : List ℕ)
    → ask_name name hi lo [] ++ more ≡ ask_name name hi lo more
ask_name-append name hi lo more =
    ap (λ bytes. 5 ∷ 1 ∷ 0 ∷ 3 ∷ length name ∷ bytes) (append_assoc name (hi ∷ lo ∷ []) more)

length-ask_name : (name : List ℕ) (hi lo : ℕ) → length (ask_name name hi lo []) ≡ 7 + length name
length-ask_name name hi lo = omega (arith, length-append name (hi ∷ lo ∷ []))

-- The request that the packet carries, without what stands behind it.
take-ask_name :
    (name : List ℕ) (hi lo : ℕ) (more : List ℕ)
    → take (7 + length name) (ask_name name hi lo more) ≡ ask_name name hi lo []
take-ask_name name hi lo more =
    rw (sym (ask_name-append name hi lo more))
      (take-append (7 + length name) (ask_name name hi lo []) more (length-ask_name name hi lo))

-- The request in the block of the server, with what stands behind it there.
decrypted-ask_name :
    (name : List ℕ) (hi lo n : ℕ)
    → 7 + length name ≤ n
    → (more : List ℕ) × (decrypted n (ask_name name hi lo []) ≡ ask_name name hi lo more)
decrypted-ask_name name hi lo n le =
    let zeros : List ℕ = replicate (4096 - length (ask_name name hi lo [])) 0 in
    let m : ℕ = n - (7 + length name) in
    (
      take m zeros,
      take_beyond (ask_name name hi lo []) zeros n m (omega (arith, length-ask_name name hi lo))
          ∙ ask_name-append name hi lo (take m zeros),
    )

module _ (client : PacketEnv) (env : Env) (matches : Matches client env) (c : Client)
    (key : client.key_file ≡ readable) (name : List ℕ) (hi lo port : ℕ) (more : List ℕ)
    (short : length name < 128) (real_text : All (λ byte. byte ≢ 0) name)
    (fits : 19 + length name ≤ client.rsa_size) (body : List ℕ)
    (sealed : client.rsa_public_encrypt (ask_name name hi lo []) ≡ some body) where
  abbrev head : CtlHead
  head = record zero_head {
    direct = daemon_usr;
    cmd = cmd_ss5;
    extra_param = port;
    mach_uuid = c.mach_uuid;
    dat_len = length body;
    crc = client.crc32 body;
  }

  abbrev packet : List ℕ
  packet = client.head_bytes head ++ body

  sent :
      (fd : ℕ)
      → daemon_ss5_init_srv client fd (ask_name name hi lo more) port c
        ≡ ok true (record c { trace = c.trace ++ writes fd packet ∷ [] })
  unfolding daemon_ss5_init_srv load_key write_packet
  sent fd =
      rw (key, request_len-ask_name name hi lo more short, take-ask_name name hi lo more, sealed)
        (ground arith)

  module _ (exact : (n : ℕ) (bs : List ℕ) → env.evbuffer_remove n bs ≡ (take n bs, drop n bs))
      (held : Key → List ℕ) (bev p x d w b : ℕ) (rest : List Ptr) (a : ActivItem) (q : List CItem)
      (s : Server) (indexed : IsIndexed s)
      (registered : find_uuid s.activs c.mach_uuid (in_order s.uuid_tree) ≡ p)
      (session : IsSession s p a) (memory : s.supply ≡ b ∷ x ∷ d ∷ rest) (b_real : b ≢ 0)
      (x_real : x ≢ 0) (d_real : d ≢ 0) (unused : s.transs x ≡ none)
      (free : scan s.transs (ushort port) a.trans ≡ 0) (worker : w ≡ port % length s.queues)
      (at_w : get_elem? s.queues w ≡ some q) where
    abbrev entered : Server
    entered = record s { supply = x ∷ d ∷ rest }

    abbrev heard : Server
    heard = proxied env cmd_ss5 b'S' bev p x d w head body (ask_name name hi lo []) rest a q entered

    called : call_body env held bev head body entered ≡ ok true heard
    unfolding call_body handle_ss5
    called =
        handle_proxy_lem env cmd_ss5 b'S' bev p x d w head body (ask_name name hi lo []) rest a q
          entered refl refl (decrypt_lem client env matches (ask_name name hi lo []) body sealed)
          (uuid_search-find entered c.mach_uuid 0 s.uuid_tree indexed
            ∙ ap (λ r. ok r entered) registered)
          (record { here = session.here; apart = session.apart }) refl x_real d_real unused
          (==_true (scan s.transs (ushort port) a.trans) 0 free) worker at_w

    -- What the server makes of the packet.
    abbrev Heard : List ℕ → List ℕ → Server → Type 0
    Heard after left s' =
        (left ≡ after)
        × (t : TransItem) × (find_at s'.transs x ≡ some t)
        × (t.p_activ_item ≡ p)
        × (t.usr_lport ≡ ushort port)
        × (get_elem? s'.queues w ≡ some (q ++ item_of env bev x ∷ []))
        × (request : List ℕ) × (t.request ≡ some request)
        × (target_of request ≡ named name (hi * 256 + lo))

    -- Let a client and a server match and the client's key be readable, and let a SOCKS5 request name a
    -- host by less than 128 bytes, none of them 0, that fit the key. Let the server have the client's
    -- session, three blocks, and a worker, and let the port be free in the session. Then
    -- `sc_daemon_ss5_init_srv` succeeds and writes one packet. The server reads exactly that packet,
    -- gives the session a transfer with the port, puts the connection at the end of the worker's
    -- queue, and keeps a request that its workers read as that host and port.
    pub target_of-daemon_ss5_init_srv :
        (fd : ℕ) (after : List ℕ)
        → (daemon_ss5_init_srv client fd (ask_name name hi lo more) port c
            ≡ ok true (record c { trace = c.trace ++ writes fd packet ∷ [] }))
          × Returns
              (Heard after)
              (main_bufferread_cb env held bev (client.head_bytes head ++ (body ++ after)) s)
    target_of-daemon_ss5_init_srv fd after =
        let sized = matches.key_size (ask_name name hi lo []) body sealed in
        let (behind, request) = decrypted-ask_name name hi lo (length body) (omega arith) in
        (
          sent fd,
          rw
              (
                packet_lem client env matches (ask_name name hi lo []) body sealed head refl refl
                    refl (omega arith) exact held bev s b (x ∷ d ∷ rest) memory b_real after,
                called,
              )
              (returns (
                refl,
                asked p bev head (ask_name name hi lo []),
                ground arith,
                refl,
                refl,
                get_elem?-set s.queues w q (q ++ item_of env bev x ∷ []) at_w,
                ask_name name hi lo behind,
                ap some request,
                ground (arith, (target_of-ask name 0 0 0 0 hi lo behind real_text).0),
              )),
        )
