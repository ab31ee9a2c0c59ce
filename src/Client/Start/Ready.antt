-- ===== src/Client/Start/Ready.antt =====
-- A client that has come to its event loop.
use mathlib.Core.List.{map, append_assoc, append-nil}
use sshinner.Base.{
  ℕ, ◌≡◌, ◌≢◌, refl, ap, Bool, true, false, not, ◌&&◌, none, some, List, [], ◌∷◌, ◌++◌, ◌==◌,
  ==_false, arith, if◌then◌else◌, replicate, length, take, drop,
}
use sshinner.Run.{ok, pure, Returns, returns, bind}
use sshinner.Protocol.{usr_daemon, daemon_usr, cmd_ok}
use sshinner.Crypt.{Evp, encrypt_init}
use sshinner.Server.{Ptr, find_at}
use sshinner.Client.{PortMap, Client, Action, listens_ss5, writes, binds, enables, dns_cbs, srv_cbs}
use sshinner.Json.{Json}
use sshinner.Client.Settings.{max_port_num, port_map}
use sshinner.Client.Settings.Table.{Written}
use sshinner.Client.Register.{PacketEnv, readable, too_long}
use sshinner.Client.Control.{set_eventcb_srv}
use sshinner.Client.Dns.{start_dns_proxy}
use sshinner.Client.Start.{blank_client, parse_options, Machine, listen_maps, start_ss5_proxy, main}
use sshinner.Client.Start.Parts.{
  listening, listen_maps_lem, start_ss5_lem, configured, configure_lem, sign_text, sign_head,
  sign_on_lem, dns_trans, dns_head, start_dns_lem, DnsReady,
}

module _ {J : Type 0} (json : Json J) (env : PacketEnv) (evp : Evp) (m : Machine J)
    (key : env.key_file ≡ readable) (d : Bool) (obj : J) (w : Written json obj) (supply : List Ptr)
    (opts : parse_options false m.options ≡ some d) (file : m.settings ≡ some obj) where
  abbrev pub c : Client
  c = configured json env evp m d obj w supply opts file

  abbrev pub ss5_on : Bool
  ss5_on = d && not (c.ss5_port == 0)

  abbrev pub dns_on : Bool
  dns_on = d && not (c.dns_port == 0)

  listen_part :
      (b : Bool) (s : Client)
      → (if b then pure tt else listen_maps m.can_listen 0 s.maps) s
        ≡ ok tt
            (record s { trace = s.trace ++ (if b then [] else listening m.can_listen 0 s.maps) })
  listen_part true s = rw (append-nil s.trace) refl
  listen_part false s = listen_maps_lem m.can_listen 0 s.maps s

  ss5_part :
      (b : Bool) (s : Client)
      → (b ≡ true
          → (m.thread_objs ≢ 0)
            × ((i : ℕ) → m.thread_made i ≡ true)
            × (m.can_listen s.ss5_port ≡ true))
      → (if b then start_ss5_proxy json env evp m else pure tt) s
        ≡ ok tt (record s {
          queues = s.queues ++ (if b then replicate 5 [] else []);
          trace = s.trace ++ (if b then listens_ss5 s.ss5_port ∷ [] else []);
        })
  ss5_part true s ready =
      let (block, all, can) = ready refl in start_ss5_lem json env evp m s block all can
  ss5_part false s ready = rw (append-nil s.trace, append-nil s.queues) refl

  set_eventcb_lem :
      (bev : Ptr) (s : Client)
      → bev ≢ 0
      → set_eventcb_srv bev s
        ≡ ok tt (record s {
          control_bev = bev;
          trace = (s.trace ++ binds bev srv_cbs 0 ∷ []) ++ enables bev ∷ [];
        })
  unfolding set_eventcb_srv
  set_eventcb_lem bev s real = rw (==_false bev 0 real) refl

  module _ (body ports dns_body : List ℕ) (p : Ptr) (rest : List Ptr) where
    -- What the start of the DNS proxy does to the outside.
    abbrev pub dns_acts : Client → List Action
    dns_acts s =
        writes m.dns.srv_fd
          (env.head_bytes (dns_head env s.mach_uuid s.dns_port dns_body) ++ dns_body)
        ∷ binds m.dns.srv_bev dns_cbs p
        ∷ []

    -- What it leaves in the client, if it is started.
    abbrev DnsPart : Bool → Client → Client → Type 0
    DnsPart b s s' =
        (s'.trans ≡ (if b then p ∷ [] else []))
        × (find_at s'.transs p
            ≡ (if b then some (dns_trans evp m.dns s.enc_key s.dns_port) else none))
        × (s'.transid_ports ≡ (if b then ports else s.transid_ports))
        × (s'.trace ≡ s.trace ++ (if b then dns_acts s else []))
        × (s' ≡ record s {
          trans = s'.trans;
          transs = s'.transs;
          transid_ports = s'.transid_ports;
          supply = s'.supply;
          trace = s'.trace;
        })

    dns_part :
        (b : Bool) (s : Client)
        → s.trans ≡ []
        → s.transs p ≡ none
        → (b ≡ true → DnsReady env m.dns ports dns_body s.supply p rest)
        → Returns
            (λ _ s'. DnsPart b s s')
            ((if b then start_dns_proxy env evp m.dns s.dns_port else pure tt) s)
    dns_part true s empty unused ready =
        let real = (ready refl).real in
        rw
          (start_dns_lem env evp key m.dns ports dns_body s.dns_port s p rest (ready refl) empty
            unused)
          (returns (refl, ground (arith, real), refl, append_assoc s.trace _ _, refl))
    dns_part false s empty unused ready =
        returns (empty, ground (arith, unused), refl, rw (append-nil s.trace) refl, refl)

    module _ (up : m.connects_srv ≡ true) (fits : too_long env (sign_text env c) ≡ false)
        (sealed : env.rsa_public_encrypt (sign_text env c ++ 0 ∷ []) ≡ some body)
        (way : m.reply.direct ≡ (if d then usr_daemon else daemon_usr))
        (fine : m.reply.cmd ≡ cmd_ok) (srv_real : m.srv_bev ≢ 0)
        (ss5_ready : ss5_on ≡ true
          → (m.thread_objs ≢ 0)
            × ((i : ℕ) → m.thread_made i ≡ true)
            × (m.can_listen c.ss5_port ≡ true))
        (dns_ready : dns_on ≡ true → DnsReady env m.dns ports dns_body supply p rest) where
      abbrev pub enc_key : List ℕ
      enc_key = elim (encrypt_init evp (env.id128_text m.machine_id)) [
        | none ↦ replicate 16 0
        | some k ↦ k
      ]

      abbrev pub no_ports : List PortMap
      no_ports = replicate max_port_num (record { usrport = 0; daemonport = 0 })

      -- The client at its event loop.
      abbrev pub Ready : Client → Type 0
      Ready s' =
          (s'.is_daemon ≡ d)
          × (s'.mach_uuid ≡ m.machine_id)
          × (s'.session_uuid ≡ (if d then m.machine_id else w.uuid))
          × (s'.enc_key ≡ enc_key)
          × (s'.maps ≡ (
              if d
              then no_ports
              else map (port_map json) (take max_port_num w.entries)
                ++ drop (length (take max_port_num w.entries)) no_ports))
          × (s'.queues ≡ (if ss5_on then replicate 5 [] else []))
          × (s'.trans ≡ (if dns_on then p ∷ [] else []))
          × (find_at s'.transs p
              ≡ (if dns_on then some (dns_trans evp m.dns enc_key c.dns_port) else none))
          × (s'.transid_ports ≡ (if dns_on then ports else []))
          × (s'.control_bev ≡ m.srv_bev)
          × (s'.trace
              ≡ writes m.srv_fd (env.head_bytes (sign_head env c body) ++ body)
                  ∷ (if d then [] else listening m.can_listen 0 c.maps)
                ++ ((if ss5_on then listens_ss5 c.ss5_port ∷ [] else [])
                    ++ ((if dns_on then dns_acts c else [])
                        ++ binds m.srv_bev srv_cbs 0 ∷ enables m.srv_bev ∷ [])))

      abbrev signed : Client
      signed = record c {
        trace = writes m.srv_fd (env.head_bytes (sign_head env c body) ++ body) ∷ [];
      }

      abbrev listened : Client
      listened = record signed {
        trace = signed.trace ++ (if d then [] else listening m.can_listen 0 c.maps);
      }

      abbrev keyed : Client
      keyed = record listened { enc_key = enc_key }

      abbrev with_ss5 : Client
      with_ss5 = record keyed {
        queues = if ss5_on then replicate 5 [] else [];
        trace = keyed.trace ++ (if ss5_on then listens_ss5 c.ss5_port ∷ [] else []);
      }

      -- The connection to the server is set up behind the proxies.
      finish :
          (s' : Client)
          → DnsPart dns_on with_ss5 s'
          → Ready (record s' {
            control_bev = m.srv_bev;
            trace = (s'.trace ++ binds m.srv_bev srv_cbs 0 ∷ []) ++ enables m.srv_bev ∷ [];
          })
      finish s' (trans, here, table, trace, same) = (
        ap (λ (q : Client). q.is_daemon) same,
        ap (λ (q : Client). q.mach_uuid) same,
        ap (λ (q : Client). q.session_uuid) same,
        ap (λ (q : Client). q.enc_key) same,
        ap (λ (q : Client). q.maps) same,
        ap (λ (q : Client). q.queues) same,
        trans,
        here,
        table,
        refl,
        rw trace (simp append_assoc),
      )

      -- Let the settings file have all its members, the key be readable and the client's text fit it, and
      -- let the server be reached and reply as the client's mode wants. Let the block, the threads and the
      -- port of the SOCKS5 proxy be had if a DAEMON client has a port for it, and so what the DNS proxy
      -- needs. Then `main` comes to its event loop, and until then has written its one registration
      -- packet. A DAEMON client goes by the id of its machine and has no port table; a USR client goes by
      -- the session of the file, has the first ten entries of its table, and listens on those of their
      -- ports that can be had, up to the first that is 0. Just the proxies that are wanted are there: for
      -- SOCKS5 five workers with empty queues, and for DNS one encrypted transfer with its port, its socket
      -- and its connection. The control connection is the last that is set up.
      pub main-Ready : Returns (λ _ s'. Ready s') (main json env evp m (blank_client supply))
      unfolding main
      main-Ready =
          rw
            (
              configure_lem json env evp m d obj w supply opts file,
              sign_on_lem json env evp m key c body up fits sealed way fine,
              listen_part d signed,
              ss5_part ss5_on keyed ss5_ready,
            )
            (bind (dns_part dns_on with_ss5 refl refl dns_ready)
              λ _ s' part. rw (set_eventcb_lem m.srv_bev s' srv_real) (returns (finish s' part)))
