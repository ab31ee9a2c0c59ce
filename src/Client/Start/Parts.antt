-- ===== src/Client/Start/Parts.antt =====
-- What each part of the start of a client does where the machine and the server answer well.
use mathlib.Core.List.{append_assoc, append-nil}
use sshinner.Base.{
  ℕ, zero, suc, ◌≡◌, ◌≢◌, refl, ap, ◌∙◌, Bool, true, false, Bool-cases, inl, inr, none, some, List,
  [], ◌∷◌, ◌++◌, ◌==◌, ==_false, arith, if◌then◌else◌, length, replicate,
}
use sshinner.Run.{ok}
use sshinner.Protocol.{CtlHead, zero_head, usr_daemon, daemon_usr, cmd_init, cmd_dns, cmd_ok}
use sshinner.Crypt.{Evp, encrypt_ctx_init, blank_ctx}
use sshinner.Server.{Ptr, write_at}
use sshinner.Server.Trans.{ushort}
use sshinner.Client.{
  PortMap, PortTrans, zero_port_trans, Client, Action, listens, listens_ss5, writes, binds, dns_cbs,
}
use sshinner.Json.{Json}
use sshinner.Client.Settings.Table.{Written, loaded, load_settings_lem}
use sshinner.Client.Register.{
  PacketEnv, readable, load_key, register, write_packet, too_long, salt_text, daemon_init_srv,
  usr_init_srv, daemon_dns_init_srv,
}
use sshinner.Client.Trans.Ports.{AllLive, create_free}
use sshinner.Client.Trans.{create_trans}
use sshinner.Client.Dns.{DnsSockets, start_dns_proxy}
use sshinner.Client.Start.{
  blank_client, parse_options, Machine, listen_maps, create_ss5_worker_threads, configure, sign_on,
  start_ss5_proxy,
}

-- The ports that a USR client comes to listen on, with their entries.
abbrev pub listening : (ℕ → Bool) → ℕ → List PortMap → List Action
listening can_listen i [] = []
listening can_listen i (m ∷ maps) =
    if m.usrport == 0
    then []
    else (if can_listen m.usrport
        then listens m.usrport i ∷ listening can_listen (suc i) maps
        else listening can_listen (suc i) maps)

pub listen_maps_lem :
    (can_listen : ℕ → Bool) (i : ℕ) (maps : List PortMap) (s : Client)
    → listen_maps can_listen i maps s
      ≡ ok tt (record s { trace = s.trace ++ listening can_listen i maps })
unfolding listen_maps
listen_maps_lem can_listen i [] s = rw (append-nil s.trace) refl
listen_maps_lem can_listen i (m ∷ maps) s = elim (Bool-cases (m.usrport == 0)) [
  | inl last ↦ rw (last, append-nil s.trace) refl
  | inr port ↦ elim (Bool-cases (can_listen m.usrport)) [
    | inl can ↦
        rw (port, can)
          (listen_maps_lem can_listen (suc i) maps
              (record s { trace = s.trace ++ listens m.usrport i ∷ [] })
            ∙ ap (λ q. ok tt (record s { trace = q }))
                (append_assoc s.trace (listens m.usrport i ∷ [])
                  (listening can_listen (suc i) maps)))
    | inr cannot ↦ rw (port, cannot) (listen_maps_lem can_listen (suc i) maps s)
  ]
]

create_workers_lem :
    (made : ℕ → Bool)
    → ((i : ℕ) → made i ≡ true)
    → (n i : ℕ) (s : Client)
    → create_ss5_worker_threads made i n s
      ≡ ok tt (record s { queues = s.queues ++ replicate n [] })
unfolding create_ss5_worker_threads
create_workers_lem made all zero i s = rw (append-nil s.queues) refl
create_workers_lem made all (suc n) i s = rw (all i) (
    create_workers_lem made all n (suc i) (record s { queues = s.queues ++ [] ∷ [] })
    ∙ ap (λ q. ok tt (record s { queues = q })) (append_assoc s.queues ([] ∷ []) (replicate n [])))

module _ {J : Type 0} (json : Json J) (env : PacketEnv) (evp : Evp) (m : Machine J) where
  pub start_ss5_lem :
      (s : Client)
      → m.thread_objs ≢ 0
      → ((i : ℕ) → m.thread_made i ≡ true)
      → m.can_listen s.ss5_port ≡ true
      → start_ss5_proxy json env evp m s
        ≡ ok tt (record s {
          queues = s.queues ++ replicate 5 [];
          trace = s.trace ++ listens_ss5 s.ss5_port ∷ [];
        })
  unfolding start_ss5_proxy
  start_ss5_lem s block all can =
      rw (==_false m.thread_objs 0 block, create_workers_lem m.thread_made all 5 0 s, can) refl

  module _ (d : Bool) (obj : J) (w : Written json obj) (supply : List Ptr)
      (opts : parse_options false m.options ≡ some d) (file : m.settings ≡ some obj) where
    abbrev fresh : Client
    fresh = record (blank_client supply) { is_daemon = d }

    abbrev pub configured : Client
    configured = record (loaded json obj w fresh refl) {
      mach_uuid = m.machine_id;
      hostname = m.hostname;
      session_uuid = if d then m.machine_id else w.uuid;
    }

    pub configure_lem : configure json env evp m (blank_client supply) ≡ ok tt configured
    unfolding configure
    configure_lem = elim (Bool-cases d) [
      | inl daemon ↦
          rw (opts, configure, file, load_settings_lem json obj w fresh refl, daemon) refl
      | inr usr ↦ rw (opts, configure, file, load_settings_lem json obj w fresh refl, usr) refl
    ]

-- The text that a client registers with, and the head of its packet.
abbrev pub sign_text : PacketEnv → Client → List ℕ
sign_text env s =
    env.json_text s.hostname s.username s.userid
      (if s.is_daemon then none else some (env.id128_text s.session_uuid))

abbrev pub sign_head : PacketEnv → Client → List ℕ → CtlHead
sign_head env s body = record zero_head {
  direct = if s.is_daemon then daemon_usr else usr_daemon;
  cmd = cmd_init;
  mach_uuid = s.mach_uuid;
  dat_len = length body;
  crc = env.crc32 body;
}

module _ {J : Type 0} (json : Json J) (env : PacketEnv) (evp : Evp) (m : Machine J)
    (key : env.key_file ≡ readable) where
  pub sign_on_lem :
      (s : Client) (body : List ℕ)
      → m.connects_srv ≡ true
      → too_long env (sign_text env s) ≡ false
      → env.rsa_public_encrypt (sign_text env s ++ 0 ∷ []) ≡ some body
      → m.reply.direct ≡ (if s.is_daemon then usr_daemon else daemon_usr)
      → m.reply.cmd ≡ cmd_ok
      → sign_on json env evp m s
        ≡ ok tt (record s {
          trace = s.trace ++ writes m.srv_fd (env.head_bytes (sign_head env s body) ++ body) ∷ [];
        })
  unfolding sign_on daemon_init_srv usr_init_srv load_key register write_packet
  sign_on_lem s body up fits sealed way fine = elim (Bool-cases s.is_daemon) [
    | inl daemon ↦
        rw (up, daemon, key, rw daemon at fits, rw daemon at sealed, rw daemon at way, fine) refl
    | inr usr ↦ rw (up, usr, key, rw usr at fits, rw usr at sealed, rw usr at way, fine) refl
  ]

-- The transfer of the DNS proxy, and the head of its packet.
abbrev pub dns_trans : Evp → DnsSockets → (enc_key : List ℕ) → (port : ℕ) → PortTrans
dns_trans evp net enc_key port = record zero_port_trans {
  is_enc = true;
  l_port = port;
  ctx_enc = (encrypt_ctx_init evp blank_ctx port enc_key true).1;
  ctx_dec = (encrypt_ctx_init evp blank_ctx port enc_key false).1;
  extra_ev = net.extra_ev;
  srv_bev = net.srv_bev;
}

abbrev pub dns_head : PacketEnv → (mach_uuid port : ℕ) → List ℕ → CtlHead
dns_head env mach_uuid port body = record zero_head {
  direct = daemon_usr;
  cmd = cmd_dns;
  extra_param = port;
  mach_uuid = mach_uuid;
  dat_len = length body;
  crc = env.crc32 body;
}

-- What the DNS proxy needs of the machine, and of the client before it.
pub record DnsReady (env : PacketEnv) (net : DnsSockets) (ports body : List ℕ) (supply : List Ptr)
    (p : Ptr) (rest : List Ptr) : Type 0 where
  pub made : net.socket_made ≡ true
  pub bound : net.bound ≡ true
  pub has_table : net.table ≡ some ports
  pub up : net.connects_srv ≡ true
  pub far : net.srv_bev ≢ 0
  pub sealed : env.rsa_public_encrypt (salt_text 12333 ++ 0 ∷ []) ≡ some body
  pub next : supply ≡ p ∷ rest
  pub real : p ≢ 0

module _ (env : PacketEnv) (evp : Evp) (key : env.key_file ≡ readable) (net : DnsSockets)
    (ports body : List ℕ) (port : ℕ) (s : Client) (p : Ptr) (rest : List Ptr) where
  abbrev pub dns_started : Client
  dns_started = record s {
    transid_ports = ports;
    supply = rest;
    transs =
        write_at
          (write_at (write_at s.transs p (some (record zero_port_trans { l_port = ushort port }))) p
            (some (record (dns_trans evp net s.enc_key port) { srv_bev = 0 })))
          p (some (dns_trans evp net s.enc_key port));
    trans = p ∷ [];
    trace =
        (s.trace
          ++ writes net.srv_fd (env.head_bytes (dns_head env s.mach_uuid port body) ++ body) ∷ [])
        ++ binds net.srv_bev dns_cbs p ∷ [];
  }

  module _ (ready : DnsReady env net ports body s.supply p rest) (none_yet : s.trans ≡ [])
      (unused : s.transs p ≡ none) where
    open ready use {made, bound, has_table, up, far, sealed, next, real}

    created :
        create_trans port (record s { transid_ports = ports })
        ≡ ok p (record s {
          transid_ports = ports;
          supply = rest;
          transs = write_at s.transs p (some (record zero_port_trans { l_port = ushort port }));
          trans = p ∷ [];
        })
    created =
        let live : AllLive s.transs s.trans = rw none_yet tt in
        create_free (record s { transid_ports = ports }) port p rest live next real unused
          (rw none_yet refl)
        ∙ ap
            (λ ps. ok p (record s {
              transid_ports = ports;
              supply = rest;
              transs = write_at s.transs p (some (record zero_port_trans { l_port = ushort port }));
              trans = ps ++ p ∷ [];
            }))
            none_yet

    pub start_dns_lem : start_dns_proxy env evp net port s ≡ ok tt dns_started
    unfolding start_dns_proxy daemon_dns_init_srv load_key write_packet
    start_dns_lem = rw (made, bound, has_table, created) (ground (arith, up, key, sealed))
