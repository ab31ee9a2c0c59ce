-- ===== src/Examples/Joining.antt =====
-- The theorems on registration, at a small key.
use sshinner.Base.{
  ℕ, ◌≡◌, refl, some, List, [], ◌∷◌, ◌++◌, arith, ◌==◌, if◌then◌else◌, true, false, replicate,
}
use sshinner.Crypt.{encrypt_init}
use sshinner.Run.{ok, Returns}
use sshinner.Protocol.{CtlHead, zero_head, daemon_usr, usr_daemon, cmd_init}
use sshinner.Server.{
  Server, write_at, username, userid, r_mach_uuid, ActivItem, Env, find_at, sends, binds, enables,
  main_cbs,
}
use sshinner.Server.Uuid.{uuid_search}
use sshinner.Server.Uuid.Sequence.{find_uuid}
use sshinner.Server.Uuid.Update.{KeepsOrder}
use sshinner.Server.Init.Opened.{reply_head}
use sshinner.Server.Dispatch.{main_bufferread_cb}
use sshinner.Client.{Client, writes}
use sshinner.Client.Register.{PacketEnv, daemon_init_srv, usr_init_srv}
use sshinner.Wire.{Matches}
use sshinner.Wire.Join.{usr_reply, main_bufferread_cb-usr_init_srv}
use sshinner.Wire.Register.{main_bufferread_cb-daemon_init_srv}
use sshinner.Examples.Data.{test_server, activ_21, acct_10}
use sshinner.Examples.Sessions.{indexed, test_env-KeepsOrder}
use sshinner.Examples.Clients.{test_client}
use sshinner.Examples.Crossing.{
  fill, seal, seal_lem, head_bytes, small_client, small_server, matches,
}

-- A client whose user has no account.
abbrev new_client : Client
new_client = record test_client { username = b'E' ∷ b'v' ∷ b'e' ∷ []; mach_uuid = 8 }

abbrev registration : List ℕ
registration = 4 ∷ b'E' ∷ b'v' ∷ b'e' ∷ replicate 36 0

registration_lem : seal (b'E' ∷ b'v' ∷ b'e' ∷ 0 ∷ []) ≡ some registration
unfolding seal fill
registration_lem = refl

abbrev registration_head : CtlHead
registration_head = record zero_head {
  direct = daemon_usr;
  cmd = cmd_init;
  mach_uuid = 8;
  dat_len = 40;
  crc = 40;
}

small_server-KeepsOrder : KeepsOrder small_server
small_server-KeepsOrder = record {
  insert_color = test_env-KeepsOrder.insert_color;
  erases = test_env-KeepsOrder.erases;
}

main_bufferread_cb-daemon_init_srv_example :
    (daemon_init_srv small_client 9 (reply_head registration_head) new_client
      ≡ ok true (record new_client {
        trace = writes 9 (small_client.head_bytes registration_head ++ registration) ∷ [];
      }))
    × Returns
        (λ left s'.
          (left ≡ 77 ∷ [])
          × (a : ActivItem) × (find_at s'.activs 42 ≡ some a)
          × (a.mach_uuid ≡ 8)
          × (a.p_acct ≡ 41)
          × (a.bev_daemon ≡ 70)
          × (a.enc_key ≡ 8 ∷ [])
          × (find_at s'.accts 41
              ≡ some (record { username = new_client.username; userid = 3; items = 42 ∷ [] }))
          × ((v : ℕ)
              → uuid_search v s'.uuid_tree s'
                ≡ ok (if v == 8 then 42 else find_uuid test_server.activs v (20 ∷ 21 ∷ [])) s')
          × (s'.trace
              ≡ sends 70 (reply_head registration_head) ∷ binds 70 main_cbs 42 ∷ enables 70 ∷ []))
        (main_bufferread_cb small_server
          (λ key. [])
          70
          (small_client.head_bytes registration_head ++ (registration ++ 77 ∷ []))
          test_server)
unfolding encrypt_init
main_bufferread_cb-daemon_init_srv_example =
    main_bufferread_cb-daemon_init_srv small_client small_server matches new_client refl
      (b'E' ∷ b'v' ∷ b'e' ∷ []) registration refl (omega arith, (omega arith, (omega arith, tt)))
      (omega arith) (omega arith) registration_lem small_server-KeepsOrder (λ n bs. refl) refl refl
      refl (omega arith, (omega arith, (omega arith, tt))) (omega arith) (omega arith) (λ key. [])
      70 40 41 42 (43 ∷ []) test_server indexed ((acct_10, refl), tt) (omega arith) (omega arith)
      (omega arith) (omega arith) refl refl refl refl 9 (77 ∷ [])

-- The text of a user who joins a session has one byte for each member.
abbrev joining_client : PacketEnv
joining_client = record small_client {
  json_text = λ hostname username userid uuid. b'B' ∷ 3 ∷ 9 ∷ [];
}

abbrev joining_server : Env
joining_server = record small_server {
  json_string = λ text key.
      some (elim key [ username ↦ b'B' ∷ b'o' ∷ b'b' ∷ [] | userid ↦ [] | r_mach_uuid ↦ 9 ∷ [] ]);
  id128_from_string = λ text. some 9;
}

joining : Matches joining_client joining_server
joining = record {
  head_size = λ h. refl;
  head_read = λ h. refl;
  sums = λ bytes. refl;
  key_size = λ text body e. (seal_lem text body e).0;
  decrypts = λ text body e. (seal_lem text body e).1;
}

-- Bob, at another machine, for the session with the machine id 9.
abbrev bob : Client
bob = record test_client { is_daemon = false; mach_uuid = 5; session_uuid = 9 }

abbrev join_body : List ℕ
join_body = 4 ∷ b'B' ∷ 3 ∷ 9 ∷ replicate 36 0

join_body_lem : seal (b'B' ∷ 3 ∷ 9 ∷ 0 ∷ []) ≡ some join_body
unfolding seal fill
join_body_lem = refl

abbrev join_head : CtlHead
join_head = record zero_head {
  direct = usr_daemon;
  cmd = cmd_init;
  mach_uuid = 5;
  dat_len = 40;
  crc = 40;
}

abbrev with_bob : Server
with_bob = record test_server {
  supply = 41 ∷ 42 ∷ 43 ∷ [];
  activs = write_at test_server.activs 21 (some (record activ_21 { bev_usr = 70 }));
  trace = sends 70 (usr_reply join_head) ∷ binds 70 main_cbs 21 ∷ enables 70 ∷ [];
}

main_bufferread_cb-usr_init_srv_example :
    (usr_init_srv joining_client 9 (usr_reply join_head) bob
      ≡ ok true (record bob { trace = writes 9 (head_bytes join_head ++ join_body) ∷ [] }))
    × (main_bufferread_cb joining_server
          (λ key. [])
          70
          (head_bytes join_head ++ (join_body ++ 77 ∷ []))
          test_server
        ≡ ok (77 ∷ []) with_bob)
    × ((v : ℕ)
        → uuid_search v with_bob.uuid_tree with_bob
          ≡ ok (find_uuid test_server.activs v (20 ∷ 21 ∷ [])) with_bob)
main_bufferread_cb-usr_init_srv_example =
    main_bufferread_cb-usr_init_srv joining_client joining_server joining bob refl
      (b'B' ∷ 3 ∷ 9 ∷ []) join_body refl (omega arith, (omega arith, (omega arith, tt)))
      (omega arith) (omega arith) join_body_lem (λ n bs. refl) refl refl refl refl refl
      (omega arith, (omega arith, (omega arith, tt))) (omega arith) (omega arith) (omega arith, tt)
      (omega arith) (omega arith) (λ key. []) 70 40 10 21 (41 ∷ 42 ∷ 43 ∷ []) activ_21 test_server
      indexed ((acct_10, refl), tt) (omega arith) (omega arith) (omega arith) refl refl refl refl 9
      (77 ∷ [])
