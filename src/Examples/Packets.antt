-- ===== src/Examples/Packets.antt =====
-- The theorems on packets at small inputs.
use sshinner.Base.{if◌then◌else◌, ℕ, ◌≡◌, refl, some, [], ◌∷◌, arith}
use sshinner.Run.{ok, Returns, pure, ◌>>=◌, ◌>>◌}
use sshinner.Protocol.{CtlHead, zero_head, cmd_init, cmd_conn, usr_daemon, daemon_usr}
use sshinner.Server.{Env}
use sshinner.Server.Dispatch.{read_body, main_bufferread_cb}
use sshinner.Server.Init.{handle_init}
use sshinner.Server.Memory.{send}
use sshinner.Server.Dispatch.Reading.{
  exact-Removes, init, refusal, read_body_lem, main_bufferread_cb_whole, main_bufferread_cb_damaged,
}
use sshinner.Server.Relay.{handle_ctl}
use sshinner.Server.Relay.Handover.{Met, handle_ctl-handle_ctl}
use sshinner.Examples.Data.{test_env, test_server, activ_20}
use sshinner.Examples.Sessions.{indexed, session}

read_body_lem_example : read_body test_env 4 3 (1 ∷ 2 ∷ []) [] ≡ some (1 ∷ 2 ∷ [], [])
read_body_lem_example =
    read_body_lem test_env (exact-Removes test_env (λ n bs. refl)) 3 4 (1 ∷ 2 ∷ []) (omega arith)

-- Libraries that read the head of a registration whose body has three bytes, with a sum.
abbrev init_head : ℕ → CtlHead
init_head crc = record zero_head {
  cmd = cmd_init;
  direct = daemon_usr;
  mach_uuid = 8;
  dat_len = 3;
  crc = crc;
}

abbrev init_env : ℕ → Env
init_env crc = record test_env { head_len = 2; head_of = λ bytes. init_head crc }

main_bufferread_cb_whole_example :
    main_bufferread_cb (init_env 0) (λ key. []) 70 (1 ∷ 2 ∷ 65 ∷ 66 ∷ 67 ∷ 9 ∷ []) test_server
    ≡ (handle_init (init_env 0) (λ key. []) 70 (init_head 0) (some (65 ∷ 66 ∷ 67 ∷ [])) >>= λ done.
          (if done then pure tt else send 70 (refusal (init_head 0))) >> pure (9 ∷ []))
        (record test_server { supply = 41 ∷ 42 ∷ 43 ∷ [] })
main_bufferread_cb_whole_example =
    main_bufferread_cb_whole (init_env 0) (λ n bs. refl) (λ key. []) 70 test_server (1 ∷ 2 ∷ []) 40
      (41 ∷ 42 ∷ 43 ∷ []) refl refl refl refl refl (65 ∷ 66 ∷ 67 ∷ []) (9 ∷ [])
      (handle_init (init_env 0) (λ key. []) 70 (init_head 0) (some (65 ∷ 66 ∷ 67 ∷ []))) init refl
      refl

main_bufferread_cb_damaged_example :
    main_bufferread_cb (init_env 1) (λ key. []) 70 (1 ∷ 2 ∷ 65 ∷ 66 ∷ []) test_server
    ≡ ok [] (record test_server { supply = 41 ∷ 42 ∷ 43 ∷ [] })
main_bufferread_cb_damaged_example =
    main_bufferread_cb_damaged (init_env 1) (λ n bs. refl) (λ key. []) 70 test_server (1 ∷ 2 ∷ [])
      40 (41 ∷ 42 ∷ 43 ∷ []) refl refl refl refl refl (65 ∷ 66 ∷ []) refl

abbrev conn_head : CtlHead
conn_head = record zero_head {
  cmd = cmd_conn;
  direct = usr_daemon;
  mach_uuid = 7;
  extra_param = 8080;
}

handle_ctl-handle_ctl_example :
    Returns (Met test_env test_server 20 activ_20 40 0 [] conn_head 70 71) (
      (handle_ctl test_env 70 conn_head >>= λ done.
      handle_ctl test_env 71 (record conn_head { direct = daemon_usr }))
        test_server)
handle_ctl-handle_ctl_example =
    handle_ctl-handle_ctl test_env test_server indexed conn_head 20 40 41 42 70 71 0 daemon_usr
      (43 ∷ []) activ_20 [] session refl (omega arith) refl refl refl (omega arith) refl refl
      (omega arith) (omega arith) (omega arith) refl refl
