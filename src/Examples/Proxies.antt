-- ===== src/Examples/Proxies.antt =====
-- The theorems on the proxies of a client at a small state.
use sshinner.Base.{
  zero, suc, length, ℕ, ◌≡◌, ◌⊎◌, refl, true, false, some, none, List, [], ◌∷◌, ◌++◌, arith, ◌==◌,
  if◌then◌else◌, get_elem?, replicate, take,
}
use sshinner.Run.{Returns, ◌>>◌}
use sshinner.Crypt.{encrypt_ctx_init, decrypt, blank_ctx}
use sshinner.Server.{find_at}
use sshinner.Server.Transfer.{frame_of}
use sshinner.Client.{
  PortTrans, zero_port_trans, Client, Action, answers, writes, notifies, binds, ss5_cbs,
}
use sshinner.Client.Register.{request_len}
use sshinner.Client.Dns.{dns_bufferread_cb_enc}
use sshinner.Client.Dns.Return.{ask_all, dns_bufferread_cb_enc-ask_all}
use sshinner.Client.Proxy.Refusal.{Refused, Queued, ss5_accept_conn_cb-Queued}
use sshinner.Client.Proxy.{is_request, Sockets, buffer, ss5_accept_conn_cb, thread_process}
use sshinner.Client.Proxy.Request.{tunnel, request_head, thread_process-ss5_accept_conn_cb}
use sshinner.Examples.Data.{test_evp}
use sshinner.Examples.Clients.{test_client}
use sshinner.Examples.Crossing.{fill, seal, small_client}

-- The transfer of a DNS proxy.
abbrev dns_trans : PortTrans
dns_trans = record zero_port_trans {
  l_port = 53;
  is_enc = true;
  ctx_enc = (encrypt_ctx_init test_evp blank_ctx 53 (1 ∷ []) true).1;
  ctx_dec = (encrypt_ctx_init test_evp blank_ctx 53 (1 ∷ []) false).1;
  srv_bev = 61;
  extra_ev = 62;
}

length-replicate : (n x : ℕ) → length (replicate n x) ≡ n
length-replicate zero x = refl
length-replicate (suc n) x = omega (arith, length-replicate n x)

abbrev dns_client : Client
dns_client = record test_client {
  transs = λ p. if p == 31 then some dns_trans else none;
  transid_ports = replicate 65535 0;
}

-- Three programs ask with the numbers 261, 5 and 6; the answer has the number 261, and is of three bytes.
dns_bufferread_cb_enc-ask_all_example :
    Returns
      (λ _ s'.
        (before : List Action) × (s'.trace ≡ before ++ answers 62 4000 (1 ∷ 5 ∷ 9 ∷ []) ∷ []))
      ((ask_all test_evp
            (frame_of [])
            (frame_of [])
            31
            ((4000, 1 ∷ 5 ∷ 1 ∷ []) ∷ (4001, 0 ∷ 5 ∷ 1 ∷ []) ∷ (4002, 0 ∷ 254 ∷ 2 ∷ []) ∷ [])
          >> dns_bufferread_cb_enc test_evp (frame_of []) 61 31 (254 ∷ 250 ∷ 246 ∷ []))
        dns_client)
unfolding decrypt encrypt_ctx_init
dns_bufferread_cb_enc-ask_all_example =
    dns_bufferread_cb_enc-ask_all test_evp (frame_of []) (frame_of []) 31 (frame_of []) dns_client
      dns_trans refl (omega arith) refl (omega arith) (length-replicate 65535 0)
      ((4000, 1 ∷ 5 ∷ 1 ∷ []) ∷ (4001, 0 ∷ 5 ∷ 1 ∷ []) ∷ (4002, 0 ∷ 254 ∷ 2 ∷ []) ∷ [])
      (
        (omega arith, omega arith, omega arith),
        ((omega arith, omega arith, omega arith), ((omega arith, omega arith, omega arith), tt)),
      )
      (254 ∷ 250 ∷ 246 ∷ []) (omega arith) (omega arith) (omega arith, omega arith)

abbrev pub sockets : Sockets
sockets = record { srv_fd = 9; connects_srv = true; local_bev = 60; new_bev = 61 }

-- A request for the address 1.2.3.4 and the port 80.
abbrev pub request : List ℕ
request = 5 ∷ 1 ∷ 0 ∷ 1 ∷ 1 ∷ 2 ∷ 3 ∷ 4 ∷ 0 ∷ 80 ∷ []

abbrev pub body : List ℕ
body = 10 ∷ (request ++ replicate 29 0)

pub sized : request_len (buffer request) ≡ some 10
unfolding request_len
sized = refl

pub sealed : small_client.rsa_public_encrypt (take 10 (buffer request)) ≡ some body
unfolding seal fill
sealed = refl

thread_process-ss5_accept_conn_cb_example :
    Returns
      (λ _ s'.
        (s'.trans ≡ 41 ∷ [])
        × (find_at s'.transs 41 ≡ some (tunnel test_evp test_client sockets 8080))
        × (get_elem? s'.queues 0 ≡ some [])
        × (s'.trace
            ≡ writes 8 (5 ∷ 0 ∷ [])
              ∷ notifies 0 b'Q'
              ∷ writes 9 (
                  small_client.head_bytes (request_head small_client test_client 8080 body) ++ body)
              ∷ binds 60 ss5_cbs 41
              ∷ binds 61 ss5_cbs 41
              ∷ []))
      ((ss5_accept_conn_cb 8 8080 (5 ∷ 1 ∷ 0 ∷ []) request
          >> thread_process small_client test_evp sockets 0 (some b'Q'))
        test_client)
thread_process-ss5_accept_conn_cb_example =
    thread_process-ss5_accept_conn_cb small_client test_evp sockets refl refl (omega arith)
      (omega arith) 8 8080 0 41 40 10 (5 ∷ 1 ∷ 0 ∷ []) request body [] test_client refl refl tt refl
      (omega arith) (omega arith) refl refl refl refl sized (omega arith) sealed

-- A request that is not CONNECT.
abbrev bind_request : List ℕ
bind_request = 5 ∷ 2 ∷ 0 ∷ 1 ∷ []

ss5_accept_conn_cb-Queued_example :
    Returns
      (λ _ s'.
        Refused test_client 8 true s'
        ⊎ ((true ≡ true)
            × (is_request (buffer bind_request) ≡ true)
            × Queued test_client 8 8080 bind_request [] s'))
      (ss5_accept_conn_cb 8 8080 (5 ∷ 1 ∷ 0 ∷ []) bind_request test_client)
ss5_accept_conn_cb-Queued_example =
    ss5_accept_conn_cb-Queued 8 8080 (5 ∷ 1 ∷ 0 ∷ []) bind_request [] test_client tt
      (refl, (refl, tt)) refl
