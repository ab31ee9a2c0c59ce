-- ===== src/Wire/Opening.antt =====
-- The two halves of a SOCKS5 transfer, as the letter `Q` leaves that of the client
-- (client/source/sshinner_c_threads.c) and the letter `S` that of the server
-- (server/source/sshinner_s_threads.c).
use sshinner.Base.{
  ℕ, ◌+◌, ◌≤◌, ◌≡◌, ◌≢◌, refl, Bool, true, false, none, some, List, [], ◌∷◌, ◌++◌, arith, get_elem?,
  set, take,
}
use sshinner.Run.{ok, Returns, returns}
use sshinner.Crypt.{encrypt_ctx_init}
use sshinner.Server.{
  Ptr, Env, Server, CItem, TransItem, ActivItem, relay_enc_cbs, sends, binds, enables, reads_freed,
  find_at, write_at,
}
use sshinner.Protocol.{usr_daemon, cmd_ss5_act}
use sshinner.Server.Worker.{
  SockAddr, ipv4, target_of, act_head, join_ends, fetch_item, start_ctxs, take_ss5, take_over,
  thread_process,
}
use sshinner.Server.Transfer.Streams.{written, written-append}
use sshinner.Client.{PortTrans, Client}
use sshinner.Client.Register.{PacketEnv, readable, request_len}
use sshinner.Client.Proxy.{Sockets}
use sshinner.Client.Proxy.Request
use sshinner.Wire.Tunnel.{sent, sent-append}
use sshinner.Wire.Exchange.{Joined}

module _ (env : Env) (connects : SockAddr → Bool) (new_bev new_ext_bev : Ptr) (near : new_bev ≢ 0)
    (far : new_ext_bev ≢ 0) (s : Server) (w : ℕ) (c : CItem) (q : List CItem) (t : TransItem)
    (a : ActivItem) (request : List ℕ) (sin : SockAddr) (at_w : get_elem? s.queues w ≡ some (c ∷ q))
    (there : find_at s.transs c.p_trans ≡ some t) (enc : t.is_enc ≡ true)
    (asked : t.request ≡ some request) (session : find_at s.activs t.p_activ_item ≡ some a)
    (linked : a.bev_daemon ≢ 0) (target : target_of request ≡ ipv4 sin)
    (reached : connects sin ≡ true) where
  abbrev pub server_half : TransItem
  server_half = record t {
    ctx_enc = (encrypt_ctx_init env.evp t.ctx_enc t.usr_lport a.enc_key true).1;
    ctx_dec = (encrypt_ctx_init env.evp t.ctx_dec t.usr_lport a.enc_key false).1;
    bev_d = new_bev;
    bev_u = new_ext_bev;
  }

  -- The half with its contexts, before it has its ends.
  abbrev keyed_half : TransItem
  keyed_half = record server_half { bev_d = t.bev_d; bev_u = t.bev_u }

  abbrev pub after_letter : Server
  after_letter = record s {
    queues = set s.queues w q;
    transs = write_at (write_at s.transs c.p_trans (some keyed_half)) c.p_trans (some server_half);
    trace =
        (((((s.trace ++ reads_freed ∷ []) ++ binds new_bev relay_enc_cbs c.p_trans ∷ [])
              ++ binds new_ext_bev relay_enc_cbs c.p_trans ∷ [])
            ++ sends a.bev_daemon (act_head usr_daemon cmd_ss5_act t a) ∷ [])
          ++ enables new_bev ∷ [])
        ++ enables new_ext_bev ∷ [];
  }

  pub letter_lem :
      thread_process env connects w (some b'S') new_bev new_ext_bev s ≡ ok none after_letter
  unfolding thread_process take_over take_ss5 fetch_item start_ctxs join_ends
  letter_lem =
      let fetched : fetch_item w s ≡ ok (some c) (record s { queues = set s.queues w q }) =
        rw (fetch_item, at_w) refl in
      rw fetched (ground (arith, there, enc, asked, session, target, reached))

  unwritten_lem : written new_bev s.trace ≡ [] → written new_bev after_letter.trace ≡ []
  unwritten_lem e = simp (written-append new_bev, e)

  module _ (client : PacketEnv) (net : Sockets) (key : client.key_file ≡ readable)
      (up : net.connects_srv ≡ true) (local : net.local_bev ≢ 0) (srv : net.new_bev ≢ 0)
      (apart : net.local_bev ≢ net.new_bev) (split : new_bev ≢ new_ext_bev) (clt : Client) (v n : ℕ)
      (item : sshinner.Client.CItem) (items : List sshinner.Client.CItem) (u : PortTrans)
      (body : List ℕ) (at_v : get_elem? clt.queues v ≡ some (item ∷ items))
      (here : find_at clt.transs item.p_trans ≡ some u) (enc_u : u.is_enc ≡ true)
      (sized : request_len item.buf ≡ some n) (fits : n + 12 ≤ client.rsa_size)
      (sealed : client.rsa_public_encrypt (take n item.buf) ≡ some body)
      (same_port : t.usr_lport ≡ u.l_port) (same_key : a.enc_key ≡ clt.enc_key) where
    abbrev client_half : PortTrans
    client_half = record u {
      ctx_enc = (encrypt_ctx_init env.evp u.ctx_enc u.l_port clt.enc_key true).1;
      ctx_dec = (encrypt_ctx_init env.evp u.ctx_dec u.l_port clt.enc_key false).1;
      local_bev = net.local_bev;
      srv_bev = net.new_bev;
    }

    abbrev client_after : Client
    client_after =
        sshinner.Client.Proxy.Request.after_letter client env.evp net key up local srv clt v item
          items u body

    halves-Joined :
        sent net.new_bev clt.trace ≡ []
        → written new_bev s.trace ≡ []
        → Joined env.evp item.p_trans c.p_trans client_half server_half client_after after_letter
    halves-Joined unsent unwritten = record {
      port = u.l_port;
      enc_key = clt.enc_key;
      here = ground (arith, here);
      there = ground (arith, there);
      local = local;
      srv = srv;
      apart = apart;
      outside = far;
      inside = near;
      split = split;
      client_enc = (u.ctx_enc, refl);
      client_dec = (u.ctx_dec, refl);
      server_enc = (t.ctx_enc, rw (same_port, same_key) refl);
      server_dec = (t.ctx_dec, rw (same_port, same_key) refl);
      unsent = simp (sent-append net.new_bev, unsent);
      unwritten = unwritten_lem unwritten;
    }

    -- Let a client's worker have a connection in its queue whose transfer is encrypted and whose request
    -- fits the key, and let it reach the server; let a worker of the server have a connection in its
    -- queue whose transfer is encrypted, has the same port, and asks for an address that can be reached,
    -- of a session that has a control connection and the client's key; and let nothing have been written
    -- to the new bufferevents. When both workers have run, the two transfers are the two halves of one
    -- encrypted transfer, between the program, the server and the remote host.
    pub thread_process-Joined :
        sent net.new_bev clt.trace ≡ []
        → written new_bev s.trace ≡ []
        → Returns
            (λ _ clt'.
              Returns
                (λ _ s'.
                  (u' : PortTrans) × (t' : TransItem) × Joined env.evp item.p_trans c.p_trans u' t'
                    clt' s'
                  × (u'.local_bev ≡ net.local_bev)
                  × (u'.srv_bev ≡ net.new_bev)
                  × (t'.bev_d ≡ new_bev)
                  × (t'.bev_u ≡ new_ext_bev))
                (thread_process env connects w (some b'S') new_bev new_ext_bev s))
            (sshinner.Client.Proxy.thread_process client env.evp net v (some b'Q') clt)
    thread_process-Joined unsent unwritten =
        rw
          (sshinner.Client.Proxy.Request.letter_lem client env.evp net key up local srv clt v n item
            items u body at_v here enc_u sized fits sealed)
          (returns (
            rw letter_lem (
              returns (
                client_half,
                server_half,
                halves-Joined unsent unwritten,
                refl,
                refl,
                refl,
                refl,
              ))))
