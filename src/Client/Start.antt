-- ===== src/Client/Start.antt =====
-- The start of a client (client/source/client.c, `main` up to its event loop, and
-- `sc_create_ss5_worker_threads` of client/source/sshinner_c_threads.c).
pub mod Parts
pub mod Ready
use sshinner.Base.{
  ℕ, zero, suc, Bool, true, false, not, ◌&&◌, Option, none, some, List, [], ◌∷◌, ◌++◌, ◌==◌,
  if◌then◌else◌, replicate,
}
use sshinner.Run.{pure, halt, exited, require, ◌>>=◌, ◌>>◌}
use sshinner.Protocol.{CtlHead}
use sshinner.Crypt.{Evp, encrypt_init}
use sshinner.Server.{Ptr}
use sshinner.Client.{PortMap, Client, Clt, listens, listens_ss5}
use sshinner.Client.Memory.{get, emit}
use sshinner.Json.{Json}
use sshinner.Client.Settings.{max_port_num, update, load_settings_client}
use sshinner.Client.Register.{PacketEnv, daemon_init_srv, usr_init_srv}
use sshinner.Client.Control.{set_eventcb_srv}
use sshinner.Client.Dns.{DnsSockets, start_dns_proxy}

-- `cltopt` as it is cleared, with the answers of `calloc` to come.
abbrev pub blank_client : List Ptr → Client
blank_client supply = record {
  is_daemon = false;
  hostname = [];
  username = [];
  userid = 0;
  mach_uuid = 0;
  session_uuid = 0;
  srv_addr = 0;
  srv_port = 0;
  ss5_port = 0;
  dns_port = 0;
  enc_key = replicate 16 0;
  transid_ports = [];
  queues = [];
  control_bev = 0;
  maps = replicate max_port_num (record { usrport = 0; daemonport = 0 });
  trans = [];
  transs = λ p. none;
  supply = supply;
  trace = [];
}

-- The loop over the options that `getopt` finds; `none` where the process ends with the usage.
unfoldable pub parse_options : (is_daemon : Bool) → List ℕ → Option Bool
parse_options is_daemon [] = some is_daemon
parse_options is_daemon (opt_g ∷ rest) = if opt_g == b'D' then parse_options true rest else none

-- What the machine and libevent answer: the options of the command line, the settings file, the machine
-- id and the name of the host; the connection to the server, whether `sc_connect_srv` reaches it, and the
-- head that it replies; the ports that can be listened on; the block for the worker threads and, for each
-- of them, whether its pipe, event base, event and thread are made; what the DNS proxy gets; and the
-- bufferevent of the control connection.
pub record Machine (J : Type 0) : Type 0 where
  pub options : List ℕ
  pub settings : Option J
  pub machine_id : ℕ
  pub hostname : List ℕ
  pub srv_fd : ℕ
  pub connects_srv : Bool
  pub reply : CtlHead
  pub can_listen : ℕ → Bool
  pub thread_objs : Ptr
  pub thread_made : ℕ → Bool
  pub dns : DnsSockets
  pub srv_bev : Ptr

-- The loop that listens on the ports of the table, up to the first entry without one. A port that cannot be
-- had is left out.
unfoldable pub listen_maps : (can_listen : ℕ → Bool) → (i : ℕ) → List PortMap → Clt (Unit {0})
listen_maps can_listen i [] = pure tt
listen_maps can_listen i (map ∷ maps) = if map.usrport == 0 then pure tt else do
  if can_listen map.usrport then emit (listens map.usrport i) else pure tt
  listen_maps can_listen (suc i) maps

-- The loop of `sc_create_ss5_worker_threads`. The wait for the threads behind it ends, as `Pool` shows.
unfoldable pub create_ss5_worker_threads : (made : ℕ → Bool) → (i thread_num : ℕ) → Clt (Unit {0})
create_ss5_worker_threads made i zero = pure tt
create_ss5_worker_threads made i (suc thread_num) = do
  require (made i)
  update (λ s. record s { queues = s.queues ++ [] ∷ [] })
  create_ss5_worker_threads made (suc i) thread_num

module _ {J : Type 0} (json : Json J) (env : PacketEnv) (evp : Evp) (m : Machine J) where
  -- The options, the settings, and what the machine is called.
  unfoldable pub configure : Clt (Unit {0})
  unfolding parse_options load_settings_client
  configure = elim (parse_options false m.options) [
    | none ↦ halt exited
    | some is_daemon ↦ (do
      update (λ s. record s { is_daemon = is_daemon })
      loaded ← load_settings_client json m.settings
      if not loaded then halt exited else do
        update (λ s. record s { mach_uuid = m.machine_id; hostname = m.hostname })
        s ← get
        if s.is_daemon then update (λ s. record s { session_uuid = s.mach_uuid }) else pure tt)
  ]

  -- The client connects and registers.
  unfoldable pub sign_on : Clt (Unit {0})
  unfolding daemon_init_srv usr_init_srv
  sign_on = do
    require m.connects_srv
    s ← get
    done ←
        if s.is_daemon
        then daemon_init_srv env m.srv_fd m.reply
        else usr_init_srv env m.srv_fd m.reply
    require done

  -- The SOCKS5 proxy, with its five worker threads.
  unfoldable pub start_ss5_proxy : Clt (Unit {0})
  unfolding create_ss5_worker_threads
  start_ss5_proxy = do
    require (not (m.thread_objs == 0))
    create_ss5_worker_threads m.thread_made 0 5
    s ← get
    if m.can_listen s.ss5_port then emit (listens_ss5 s.ss5_port) else halt exited

  -- `main`, up to `event_base_loop`.
  unfoldable pub main : Clt (Unit {0})
  unfolding configure sign_on start_ss5_proxy listen_maps start_dns_proxy set_eventcb_srv
  main = do
    configure
    sign_on
    s ← get
    if s.is_daemon then pure tt else listen_maps m.can_listen 0 s.maps
    update (λ s. record s {
      enc_key = elim (encrypt_init evp (env.id128_text s.mach_uuid)) [
        | none ↦ s.enc_key
        | some key ↦ key
      ];
    })
    s ← get
    if s.is_daemon && not (s.ss5_port == 0) then start_ss5_proxy else pure tt
    s ← get
    if s.is_daemon && not (s.dns_port == 0)
        then start_dns_proxy env evp m.dns s.dns_port
        else pure tt
    set_eventcb_srv m.srv_bev
