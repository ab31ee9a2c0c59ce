-- ===== src/Examples/Tunnels.antt =====
-- A program of one byte after the other, and its answer, through a client and a server.
use mathlib.Core.List.{flatten}
use sshinner.Base.{
  ℕ, ◌≡◌, refl, ap, true, false, none, some, List, [], ◌∷◌, arith, ◌==◌, if◌then◌else◌,
}
use sshinner.Run.{Returns}
use sshinner.Crypt.{blank_ctx, encrypt_ctx_init, EncryptCtx}
use sshinner.Crypt.Stream.{frame_of}
use sshinner.Crypt.Relay.{each}
use sshinner.Server.{TransItem, Server}
use sshinner.Server.Transfer.{bufferread_cb_enc}
use sshinner.Server.Transfer.Streams.{written}
use sshinner.Client.{PortTrans, Client, zero_port_trans}
use sshinner.Client.Proxy.{ss5_bufferread_cb_enc}
use sshinner.Client.Start.{blank_client}
use sshinner.Wire.Tunnel.{sent}
use sshinner.Server.{zero_trans}
use sshinner.Server.Worker
use sshinner.Server.Worker.{ipv4, target_of}
use sshinner.Client.Proxy.{buffer, thread_process}
use sshinner.Examples.Data.{activ_20}
use sshinner.Examples.Crossing.{small_client}
use sshinner.Examples.Proxies.{request, body, sized, sealed, sockets}
use sshinner.Wire.Opening.{thread_process-Joined}
use sshinner.Wire.Exchange.{Cuts, Joined, bufferread_cb_enc-ss5_bufferread_cb_enc}
use sshinner.Examples.Data.{flip, test_evp, test_env, test_server, trans_31}
use sshinner.Examples.Streams.{test_evp-IsRc4}

-- Each byte arrives alone.
abbrev singles : List ℕ → List (List ℕ)
singles [] = []
singles (b ∷ bs) = (b ∷ []) ∷ singles bs

singles-Cuts : Cuts singles
unfolding flatten
singles-Cuts [] = (refl, tt)
singles-Cuts (b ∷ bs) =
    let (whole, reads) = singles-Cuts bs in (ap (◌∷◌ b) whole, (omega arith, reads))

abbrev new_enc : EncryptCtx
new_enc = (encrypt_ctx_init test_evp blank_ctx 80 (1 ∷ []) true).1

abbrev new_dec : EncryptCtx
new_dec = (encrypt_ctx_init test_evp blank_ctx 80 (1 ∷ []) false).1

abbrev half : PortTrans
half = record zero_port_trans {
  l_port = 80;
  local_bev = 51;
  srv_bev = 52;
  is_enc = true;
  ctx_enc = new_enc;
  ctx_dec = new_dec;
}

abbrev other_half : TransItem
other_half = record trans_31 { is_enc = true; ctx_enc = new_enc; ctx_dec = new_dec }

abbrev open_client : Client
open_client = record (blank_client []) { transs = λ p. if p == 41 then some half else none }

abbrev open_server : Server
open_server = record test_server { transs = λ p. if p == 31 then some other_half else none }

halves-Joined : Joined test_evp 41 31 half other_half open_client open_server
halves-Joined = record {
  port = 80;
  enc_key = 1 ∷ [];
  here = refl;
  there = refl;
  local = omega arith;
  srv = omega arith;
  apart = omega arith;
  outside = omega arith;
  inside = omega arith;
  split = omega arith;
  client_enc = (blank_ctx, refl);
  client_dec = (blank_ctx, refl);
  server_enc = (blank_ctx, refl);
  server_dec = (blank_ctx, refl);
  unsent = refl;
  unwritten = refl;
}

bufferread_cb_enc-ss5_bufferread_cb_enc_example :
    Returns
      (λ _ c1.
        Returns
          (λ _ s1.
            (written 61 s1.trace ≡ 5 ∷ 250 ∷ 249 ∷ [])
            × Returns
                (λ _ s2.
                  Returns
                    (λ _ c2. sent 51 c2.trace ≡ 7 ∷ 8 ∷ [])
                    (each
                      (ss5_bufferread_cb_enc test_evp (frame_of []) 52 41)
                      (singles (written 62 s2.trace))
                      c1))
                (each (bufferread_cb_enc test_env (frame_of []) 61 31) ((7 ∷ 8 ∷ []) ∷ []) s1))
          (each
            (bufferread_cb_enc test_env (frame_of []) 62 31)
            (singles (sent 52 c1.trace))
            open_server))
      (each
        (ss5_bufferread_cb_enc test_evp (frame_of []) 51 41)
        ((5 ∷ 250 ∷ []) ∷ (249 ∷ []) ∷ [])
        open_client)
unfolding flatten
bufferread_cb_enc-ss5_bufferread_cb_enc_example =
    bufferread_cb_enc-ss5_bufferread_cb_enc test_env (λ key n. flip) test_evp-IsRc4 (frame_of [])
      singles singles-Cuts 41 31 half other_half open_client open_server halves-Joined
      ((5 ∷ 250 ∷ []) ∷ (249 ∷ []) ∷ []) ((7 ∷ 8 ∷ []) ∷ []) (omega arith, (omega arith, tt))
      (omega arith, tt)

-- A request for the address 1.2.3.4 and the port 80, in the block of the server.
abbrev asking : TransItem
asking = record zero_trans {
  p_activ_item = 20;
  usr_lport = 80;
  is_enc = true;
  request = some request;
}

abbrev asked_server : Server
asked_server = record test_server {
  queues = (record { socket = 5; p_trans = 31 } ∷ []) ∷ [];
  transs = λ p. if p == 31 then some asking else none;
}

abbrev waiting : PortTrans
waiting = record zero_port_trans { l_port = 80; is_enc = true }

abbrev asking_client : Client
asking_client = record (blank_client []) {
  queues = (record { socket = 8; p_trans = 41; buf = buffer request } ∷ []) ∷ [];
  transs = λ p. if p == 41 then some waiting else none;
}

target : target_of request ≡ ipv4 (record { addr = 1 ∷ 2 ∷ 3 ∷ 4 ∷ []; port = 80 })
unfolding target_of
target = refl

thread_process-Joined_example :
    Returns
      (λ _ clt'.
        Returns
          (λ _ s'.
            (u' : PortTrans) × (t' : TransItem) × Joined test_evp 41 31 u' t' clt' s'
            × (u'.local_bev ≡ 60)
            × (u'.srv_bev ≡ 61)
            × (t'.bev_d ≡ 80)
            × (t'.bev_u ≡ 81))
          (sshinner.Server.Worker.thread_process test_env
            (λ addr. true)
            0
            (some b'S')
            80
            81
            asked_server))
      (thread_process small_client test_evp sockets 0 (some b'Q') asking_client)
thread_process-Joined_example =
    thread_process-Joined test_env (λ addr. true) 80 81 (omega arith) (omega arith) asked_server 0
      (record { socket = 5; p_trans = 31 }) [] asking activ_20 request
      (record { addr = 1 ∷ 2 ∷ 3 ∷ 4 ∷ []; port = 80 }) refl refl refl refl refl (omega arith)
      target refl small_client sockets refl refl (omega arith) (omega arith) (omega arith)
      (omega arith) asking_client 0 10 (record { socket = 8; p_trans = 41; buf = buffer request })
      [] waiting body refl refl refl sized (omega arith) sealed refl refl refl refl
