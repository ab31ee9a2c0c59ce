-- ===== src/Examples/Transfers.antt =====
-- The theorems on the workers and on the data of transfers at small inputs.
use mathlib.Core.List.{flatten}
use sshinner.Base.{
  ◌≡◌, refl, leb, ◌+◌, length, true, false, none, some, [], ◌∷◌, arith, ◌==◌, if◌then◌else◌,
}
use sshinner.Run.{ok, Returns, ◌>>=◌}
use sshinner.Crypt.{blank_ctx, encrypt_ctx_init, encrypt, decrypt}
use sshinner.Crypt.Decimal.{print_int}
use sshinner.Crypt.Stream.{pump, frame_of}
use sshinner.Server.{Ptr, TransItem, Server}
use sshinner.Server.Worker.{
  SockAddr, DnsStruct, inet, other_family, ipv4, named, dns_query_cb, thread_process, target_of,
}
use sshinner.Server.Worker.Resolve.{resolved, dns_query_cb-first, dns_query_cb-dead}
use sshinner.Server.Worker.Requests.{target_of-ask}
use sshinner.Server.Worker.Takeover.{Joined, thread_process-thread_process}
use sshinner.Server.Transfer.Streams.{written, reads_at, reads_at-flatten}
use sshinner.Examples.Data.{flip, test_evp, test_env, test_server, activ_20, trans_31}
use sshinner.Examples.Streams.{test_evp-IsRc4}

-- A worker with the two connections of the transfer 31 in its queue.
abbrev waiting : Server
waiting = record test_server {
  queues = (record { socket = 5; p_trans = 31 } ∷ record { socket = 6; p_trans = 31 } ∷ []) ∷ [];
}

thread_process-thread_process_example :
    Returns
      (λ r s'. Joined waiting activ_20 31 trans_31 0 [] 80 81 s')
      ((thread_process test_env (λ addr. true) 0 (some b'U') 80 0 >>= λ r.
          thread_process test_env (λ addr. true) 0 (some b'D') 81 0)
        waiting)
thread_process-thread_process_example =
    thread_process-thread_process test_env (λ addr. true) 31 0 80 81 0 5 6 trans_31 activ_20 []
      waiting refl refl refl (omega arith) (omega arith) (omega arith) (omega arith) (omega arith)
      (omega arith)

-- The transfer 31, encrypted.
abbrev secret : TransItem
secret = record trans_31 {
  is_enc = true;
  ctx_enc = (encrypt_ctx_init test_evp blank_ctx 80 (1 ∷ []) true).1;
}

abbrev carrying : Server
carrying = record test_server { transs = λ p. if p == 31 then some secret else none }

reads_at-flatten_example :
    Returns
      (λ _ s'. written 61 s'.trace ≡ 5 ∷ 250 ∷ 249 ∷ [])
      (reads_at test_env (frame_of []) 62 31 ((250 ∷ []) ∷ (5 ∷ 6 ∷ []) ∷ []) carrying)
unfolding flatten pump encrypt decrypt encrypt_ctx_init print_int
reads_at-flatten_example =
    reads_at-flatten test_env (λ key n. flip) test_evp-IsRc4 (frame_of []) 31 secret blank_ctx
      blank_ctx 80 (1 ∷ []) true ((5 ∷ 250 ∷ []) ∷ (249 ∷ []) ∷ []) ((250 ∷ []) ∷ (5 ∷ 6 ∷ []) ∷ [])
      carrying refl (omega arith) (omega arith) refl (omega arith, (omega arith, tt)) refl

target_of-ask_example :
    (target_of (5 ∷ 1 ∷ 0 ∷ 3 ∷ 2 ∷ b'i' ∷ b'o' ∷ 1 ∷ 187 ∷ []) ≡ named (b'i' ∷ b'o' ∷ []) 443)
    × (target_of (5 ∷ 1 ∷ 0 ∷ 1 ∷ 10 ∷ 0 ∷ 0 ∷ 7 ∷ 1 ∷ 187 ∷ [])
        ≡ ipv4 (record { addr = 10 ∷ 0 ∷ 0 ∷ 7 ∷ []; port = 443 }))
target_of-ask_example =
    target_of-ask (b'i' ∷ b'o' ∷ []) 10 0 0 7 1 187 [] (omega arith, (omega arith, tt))

abbrev asked : DnsStruct
asked = record {
  hostname = b'i' ∷ b'o' ∷ [];
  port = 443;
  item = record { socket = 5; p_trans = 31 };
}

-- The connection to an address has a block that depends on the address.
abbrev dialled : SockAddr → Ptr
dialled sin = 81 + length sin.addr

dns_query_cb-first_example :
    dns_query_cb test_env
      (λ sin. leb 2 (length sin.addr))
      asked
      (some (other_family ∷ inet (8 ∷ []) ∷ inet (9 ∷ 9 ∷ []) ∷ inet (7 ∷ 7 ∷ 7 ∷ []) ∷ []))
      80
      dialled
      waiting
    ≡ ok tt (
        resolved test_env
          (λ sin. leb 2 (length sin.addr))
          asked
          80
          dialled
          waiting
          trans_31
          activ_20
          (9 ∷ 9 ∷ []))
dns_query_cb-first_example =
    dns_query_cb-first test_env (λ sin. leb 2 (length sin.addr)) asked 80 dialled waiting trans_31
      activ_20 (9 ∷ 9 ∷ []) (other_family ∷ inet (8 ∷ []) ∷ []) (inet (7 ∷ 7 ∷ 7 ∷ []) ∷ [])
      (tt, (refl, tt)) refl refl refl (omega arith) (omega arith) (omega arith)

dns_query_cb-dead_example :
    (dns_query_cb test_env (λ sin. false) asked none 80 dialled waiting ≡ ok tt waiting)
    × (dns_query_cb test_env (λ sin. false) asked (some (inet (8 ∷ []) ∷ [])) 80 dialled waiting
        ≡ ok tt waiting)
dns_query_cb-dead_example =
    dns_query_cb-dead test_env (λ sin. false) asked 80 dialled waiting (inet (8 ∷ []) ∷ [])
      (refl, tt)
