-- ===== src/Client/Proxy/Request.antt =====
-- A SOCKS5 request of a program: from the two reads to the packet for the server.
use mathlib.Core.List.{append_assoc}
use sshinner.Base.{
  ℕ, ◌+◌, ◌%◌, ◌≤◌, ◌≡◌, ◌≢◌, refl, true, false, some, none, List, [], ◌∷◌, ◌++◌, arith, ◌==◌,
  ==_true, length, set, get_elem?, get_elem?-set, ne_zero_of_elem, take,
}
use sshinner.Run.{ok, Returns, returns, ◌>>◌}
use sshinner.Protocol.{CtlHead, zero_head, daemon_usr, cmd_ss5}
use sshinner.Crypt.{Evp, blank_ctx, encrypt_ctx_init}
use sshinner.Server.{Ptr, find_at, write_at}
use sshinner.Server.Trans.{ushort}
use sshinner.Client.{PortTrans, zero_port_trans, CItem, Client, ss5_cbs, binds, writes, notifies}
use sshinner.Client.Memory.{calloc}
use sshinner.Client.Trans.Ports.{AllLive, scan, create_free}
use sshinner.Client.Register.{
  PacketEnv, readable, request_len, write_packet, load_key, daemon_ss5_init_srv,
}
use sshinner.Client.Proxy.{
  buffer, byte_at, is_request, ss5_accept_conn_cb, Sockets, fetch_item, take_ss5, thread_process,
}

-- The head of the packet that a request is sent in.
abbrev pub request_head : PacketEnv → Client → ℕ → List ℕ → CtlHead
request_head env s port body = record zero_head {
  direct = daemon_usr;
  cmd = cmd_ss5;
  extra_param = port;
  mach_uuid = s.mach_uuid;
  dat_len = length body;
  crc = env.crc32 body;
}

module _ (env : PacketEnv) (key : env.key_file ≡ readable) where
  -- A request that fits the key is written in one packet.
  pub daemon_ss5_init_srv_lem :
      (s : Client) (fd port n : ℕ) (request body : List ℕ)
      → request_len request ≡ some n
      → n + 12 ≤ env.rsa_size
      → env.rsa_public_encrypt (take n request) ≡ some body
      → daemon_ss5_init_srv env fd request port s
        ≡ ok true (record s {
          trace = s.trace ++ writes fd (env.head_bytes (request_head env s port body) ++ body) ∷ [];
        })
  unfolding daemon_ss5_init_srv load_key write_packet
  daemon_ss5_init_srv_lem s fd port n request body sized fits sealed =
      rw (key, sized, sealed) (ground arith)

-- The transfer of a request, before and after a worker has taken it.
abbrev waiting : ℕ → PortTrans
waiting sbuf = record zero_port_trans { l_port = ushort sbuf; is_enc = true }

abbrev pub tunnel : Evp → Client → Sockets → ℕ → PortTrans
tunnel evp s net sbuf = record zero_port_trans {
  l_port = ushort sbuf;
  is_enc = true;
  ctx_enc = (encrypt_ctx_init evp blank_ctx (ushort sbuf) s.enc_key true).1;
  ctx_dec = (encrypt_ctx_init evp blank_ctx (ushort sbuf) s.enc_key false).1;
  local_bev = net.local_bev;
  srv_bev = net.new_bev;
}

module _ (fd sbuf w x c : ℕ) (greeting request : List ℕ) (rest : List Ptr) (s : Client)
    (version : (byte_at (buffer greeting) 0 == 5) ≡ true)
    (asks : is_request (buffer request) ≡ true) (live : AllLive s.transs s.trans)
    (memory : s.supply ≡ c ∷ x ∷ rest) (c_real : c ≢ 0) (x_real : x ≢ 0)
    (unused : s.transs x ≡ none) (free : scan s.transs (ushort sbuf) s.trans ≡ 0)
    (worker : w ≡ ushort sbuf % length s.queues) (q : List CItem)
    (at_w : get_elem? s.queues w ≡ some q) where
  abbrev item : CItem
  item = record { socket = fd; p_trans = x; buf = buffer request }

  abbrev queued : Client
  queued = record s {
    supply = rest;
    transs =
        write_at (write_at s.transs x (some (record zero_port_trans { l_port = ushort sbuf }))) x
          (some (waiting sbuf));
    trans = s.trans ++ x ∷ [];
    queues = set s.queues w (q ++ item ∷ []);
    trace = (s.trace ++ writes fd (5 ∷ 0 ∷ []) ∷ []) ++ notifies w b'Q' ∷ [];
  }

  accept_lem : ss5_accept_conn_cb fd sbuf greeting request s ≡ ok tt queued
  unfolding ss5_accept_conn_cb calloc
  accept_lem =
      let s1 : Client = record s {
        supply = x ∷ rest;
        trace = s.trace ++ writes fd (5 ∷ 0 ∷ []) ∷ [];
      } in
      rw (version, asks, memory)
        (ground (
          arith,
          create_free s1 sbuf x rest live refl x_real unused
              (==_true (scan s.transs (ushort sbuf) s.trans) 0 free),
          ne_zero_of_elem s.queues w q at_w,
          at_w,
        ))

module _ (env : PacketEnv) (evp : Evp) (net : Sockets) (key : env.key_file ≡ readable)
    (up : net.connects_srv ≡ true) (local : net.local_bev ≢ 0) (far : net.new_bev ≢ 0) where
  -- The state behind the letter `Q`.
  abbrev pub after_letter : Client → ℕ → CItem → List CItem → PortTrans → List ℕ → Client
  after_letter s w c q t body = record s {
    queues = set s.queues w q;
    transs = write_at s.transs c.p_trans (
        some (record t {
          ctx_enc = (encrypt_ctx_init evp t.ctx_enc t.l_port s.enc_key true).1;
          ctx_dec = (encrypt_ctx_init evp t.ctx_dec t.l_port s.enc_key false).1;
          local_bev = net.local_bev;
          srv_bev = net.new_bev;
        }));
    trace =
        ((s.trace
            ++ writes net.srv_fd (env.head_bytes (request_head env s t.l_port body) ++ body) ∷ [])
          ++ binds net.local_bev ss5_cbs c.p_trans ∷ [])
        ++ binds net.new_bev ss5_cbs c.p_trans ∷ [];
  }

  pub letter_lem :
      (s : Client) (w n : ℕ) (c : CItem) (q : List CItem) (t : PortTrans) (body : List ℕ)
      → get_elem? s.queues w ≡ some (c ∷ q)
      → find_at s.transs c.p_trans ≡ some t
      → t.is_enc ≡ true
      → request_len c.buf ≡ some n
      → n + 12 ≤ env.rsa_size
      → env.rsa_public_encrypt (take n c.buf) ≡ some body
      → thread_process env evp net w (some b'Q') s ≡ ok tt (after_letter s w c q t body)
  unfolding thread_process take_ss5 fetch_item
  letter_lem s w n c q t body at_w here enc sized fits sealed =
      let s1 : Client = record s { queues = set s.queues w q } in
      let fetched : fetch_item w s ≡ ok (some c) s1 = rw (fetch_item, at_w) refl in
      rw fetched (
        ground (
          arith,
          here,
          up,
          daemon_ss5_init_srv_lem env key s1 net.srv_fd t.l_port n c.buf body sized fits sealed,
        ))

module _ (env : PacketEnv) (evp : Evp) (net : Sockets) (key : env.key_file ≡ readable)
    (up : net.connects_srv ≡ true) (local : net.local_bev ≢ 0) (far : net.new_bev ≢ 0)
    (fd sbuf w x c n : ℕ) (greeting request body : List ℕ) (rest : List Ptr) (s : Client)
    (version : (byte_at (buffer greeting) 0 == 5) ≡ true)
    (asks : is_request (buffer request) ≡ true) (live : AllLive s.transs s.trans)
    (memory : s.supply ≡ c ∷ x ∷ rest) (c_real : c ≢ 0) (x_real : x ≢ 0)
    (unused : s.transs x ≡ none) (free : scan s.transs (ushort sbuf) s.trans ≡ 0)
    (worker : w ≡ ushort sbuf % length s.queues) (at_w : get_elem? s.queues w ≡ some [])
    (sized : request_len (buffer request) ≡ some n) (fits : n + 12 ≤ env.rsa_size)
    (sealed : env.rsa_public_encrypt (take n (buffer request)) ≡ some body) where
  -- The transfer with its two ends, and all that was done for it.
  abbrev pub Tunnelled : Client → Type 0
  Tunnelled s' =
      (s'.trans ≡ s.trans ++ x ∷ [])
      × (find_at s'.transs x ≡ some (tunnel evp s net sbuf))
      × (get_elem? s'.queues w ≡ some [])
      × (s'.trace
          ≡ s.trace
            ++ writes fd (5 ∷ 0 ∷ [])
              ∷ notifies w b'Q'
              ∷ writes net.srv_fd (env.head_bytes (request_head env s (ushort sbuf) body) ++ body)
              ∷ binds net.local_bev ss5_cbs x
              ∷ binds net.new_bev ss5_cbs x
              ∷ [])

  abbrev before_letter : Client
  before_letter =
      queued fd sbuf w x c greeting request rest s version asks live memory c_real x_real unused
        free worker [] at_w

  -- Let a program greet and ask as SOCKS5 wants, from a port that no transfer has, and let the client
  -- have a readable key that the request fits, two blocks, an idle worker and a server that it
  -- reaches. When `ss5_accept_conn_cb` and then the worker have run, the program has its answer to the
  -- greeting, the server has one packet with the request, and there is an encrypted transfer with the
  -- port between the two connections; the worker's queue is empty again.
  pub thread_process-ss5_accept_conn_cb :
      Returns
        (λ _ s'. Tunnelled s')
        ((ss5_accept_conn_cb fd sbuf greeting request >> thread_process env evp net w (some b'Q'))
          s)
  thread_process-ss5_accept_conn_cb =
      let it : CItem = record { socket = fd; p_trans = x; buf = buffer request } in
      let put = get_elem?-set s.queues w [] (it ∷ []) at_w in
      let taken =
        letter_lem env evp net key up local far before_letter w n it [] (waiting sbuf) body put
          (ground arith) refl sized fits sealed in
      rw
        (
          accept_lem fd sbuf w x c greeting request rest s version asks live memory c_real x_real
              unused free worker [] at_w,
          taken,
        )
        (returns (
          refl,
          ground arith,
          get_elem?-set (set s.queues w (it ∷ [])) w (it ∷ []) [] put,
          simp append_assoc,
        ))
