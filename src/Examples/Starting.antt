-- ===== src/Examples/Starting.antt =====
-- The starts of the worker threads and of a client, at small machines.
use sshinner.Base.{ℕ, ◌*◌, ◌≡◌, refl, true, false, some, List, [], ◌∷◌, ◌++◌, arith, replicate}
use sshinner.Run.{Returns}
use sshinner.Protocol.{CtlHead, zero_head, usr_daemon, daemon_usr, cmd_init, cmd_ok}
use sshinner.Server.{find_at}
use sshinner.Client.{writes, binds, enables, listens_ss5, srv_cbs, dns_cbs}
use sshinner.Json.{
  Json, server, client, ipaddr, port, username, userid, ss5_port, dns_port, r_mach_uuid, portmaps,
  usrport, daemonport, thread_num,
}
use sshinner.Client.Settings.Table.{Written}
use sshinner.Client.Register.{salt_text}
use sshinner.Crypt.{encrypt_init}
use sshinner.Crypt.Decimal.{print_nat}
use sshinner.Client.Start.{Machine, blank_client, parse_options, main}
use sshinner.Client.Start.Parts.{DnsReady, dns_trans, dns_head}
use sshinner.Client.Start.Ready.{main-Ready}
use sshinner.Pool.{
  waking, born, Pool, Reach, start, moves, wakes_up, creates, has_created, locks, waits,
}
use sshinner.Pool.Start.{Completes, Reach-Completes}
use sshinner.Examples.Data.{test_evp}
use sshinner.Examples.Crossing.{fill, seal, small_client}

-- The main thread of a start with one worker slept, and was woken without a signal.
abbrev roused : Pool
roused = record { main = waking; workers = born ∷ []; init_count = 0; locked = false }

roused-Reach : Reach 1 roused
roused-Reach =
    wakes_up
      (moves (moves (moves (moves start (creates refl)) (has_created refl)) (locks refl refl))
        (waits refl (omega arith)))
      refl

Reach-Completes_example : Completes 1 roused
Reach-Completes_example = Reach-Completes 1 roused roused-Reach

-- A settings file; each member has a value of its own.
abbrev pub file : Json ℕ
file = record {
  member = λ v name. some (elim name [
    | server ↦ 2
    | client ↦ 3
    | ipaddr ↦ 4
    | port ↦ 5
    | username ↦ 6
    | userid ↦ 7
    | ss5_port ↦ 8
    | dns_port ↦ 9
    | r_mach_uuid ↦ 10
    | portmaps ↦ 11
    | usrport ↦ 12
    | daemonport ↦ 13
    | thread_num ↦ 16
  ]);
  string = λ v. some (b'B' ∷ b'o' ∷ b'b' ∷ []);
  string_len = λ v. 3;
  int = λ v. v * 100;
  int64 = λ v. v * 100;
  elements = λ v. some (14 ∷ 15 ∷ []);
  inet_addr = λ text. 1;
  id128_from_string = λ text. some 7;
}

abbrev written : Written file 1
written = record {
  server_obj = 2;
  has_server = refl;
  addr_value = 4;
  has_addr = refl;
  addr_text = b'B' ∷ b'o' ∷ b'b' ∷ [];
  is_addr = refl;
  port_value = 5;
  has_port = refl;
  client_obj = 3;
  has_client = refl;
  name_value = 6;
  has_name = refl;
  name = b'B' ∷ b'o' ∷ b'b' ∷ [];
  is_name = refl;
  not_empty = refl;
  id_value = 7;
  has_id = refl;
  uuid_value = 10;
  has_uuid = refl;
  uuid_text = b'B' ∷ b'o' ∷ b'b' ∷ [];
  is_uuid_text = refl;
  uuid = 7;
  is_uuid = refl;
  maps_value = 11;
  has_maps = refl;
  entries = 14 ∷ 15 ∷ [];
  is_entries = refl;
}

abbrev pub machine : Machine ℕ
machine = record {
  options = b'D' ∷ [];
  settings = some 1;
  machine_id = 5;
  hostname = b'h' ∷ [];
  srv_fd = 9;
  connects_srv = true;
  reply = record zero_head { direct = usr_daemon; cmd = cmd_ok };
  can_listen = λ port. true;
  thread_objs = 90;
  thread_made = λ i. true;
  dns = record {
    socket_made = true;
    bound = true;
    table = some (0 ∷ 0 ∷ []);
    extra_ev = 91;
    srv_fd = 10;
    connects_srv = true;
    srv_bev = 92;
  };
  srv_bev = 93;
}

abbrev bob : List ℕ
bob = b'B' ∷ b'o' ∷ b'b' ∷ []

abbrev body : List ℕ
body = 4 ∷ b'B' ∷ b'o' ∷ b'b' ∷ replicate 36 0

body_lem : seal (bob ++ 0 ∷ []) ≡ some body
unfolding seal fill
body_lem = refl

abbrev dns_body : List ℕ
dns_body = 11 ∷ (salt_text 12333 ++ replicate 29 0)

dns_body_lem : seal (salt_text 12333 ++ 0 ∷ []) ≡ some dns_body
unfolding seal fill print_nat
dns_body_lem = refl

dns_ready : DnsReady small_client machine.dns (0 ∷ 0 ∷ []) dns_body (41 ∷ 42 ∷ []) 41 (42 ∷ [])
dns_ready = record {
  made = refl;
  bound = refl;
  has_table = refl;
  up = refl;
  far = omega arith;
  sealed = dns_body_lem;
  next = refl;
  real = omega arith;
}

abbrev head : CtlHead
head = record zero_head {
  direct = daemon_usr;
  cmd = cmd_init;
  mach_uuid = 5;
  dat_len = 40;
  crc = 40;
}

main-Ready_example :
    Returns
      (λ _ s'.
        (s'.is_daemon ≡ true)
        × (s'.mach_uuid ≡ 5)
        × (s'.session_uuid ≡ 5)
        × (s'.enc_key ≡ 5 ∷ [])
        × (s'.maps ≡ replicate 10 (record { usrport = 0; daemonport = 0 }))
        × (s'.queues ≡ [] ∷ [] ∷ [] ∷ [] ∷ [] ∷ [])
        × (s'.trans ≡ 41 ∷ [])
        × (find_at s'.transs 41 ≡ some (dns_trans test_evp machine.dns (5 ∷ []) 900))
        × (s'.transid_ports ≡ 0 ∷ 0 ∷ [])
        × (s'.control_bev ≡ 93)
        × (s'.trace
            ≡ writes 9 (small_client.head_bytes head ++ body)
              ∷ listens_ss5 800
              ∷ writes 10
                  (small_client.head_bytes (dns_head small_client 5 900 dns_body) ++ dns_body)
              ∷ binds 92 dns_cbs 41
              ∷ binds 93 srv_cbs 0
              ∷ enables 93
              ∷ []))
      (main file small_client test_evp machine (blank_client (41 ∷ 42 ∷ [])))
unfolding encrypt_init parse_options
main-Ready_example =
    main-Ready file small_client test_evp machine refl true 1 written (41 ∷ 42 ∷ []) refl refl body
      (0 ∷ 0 ∷ []) dns_body 41 (42 ∷ []) refl refl body_lem refl refl (omega arith)
      (λ on. (omega arith, (λ i. refl), refl)) (λ on. dns_ready)
