-- ===== src/Server/Worker.antt =====
-- The worker threads (server/source/sshinner_s_threads.c): taking over a connection.
pub mod Takeover
pub mod Requests
pub mod Resolve
use sshinner.Base.{
  ℕ, ◌+◌, ◌*◌, Bool, true, false, not, ◌||◌, ◌&&◌, Option, none, some, List, [], ◌∷◌, ◌==◌, ltb,
  if◌then◌else◌, get_elem?, length, set, take, drop, c_string,
}
use sshinner.Run.{ok, pure, halt, aborted, faulted, require, deref, ◌>>=◌, ◌>>◌}
use sshinner.Protocol.{
  CtlHead, zero_head, usr_daemon, daemon_usr, cmd_conn_act, cmd_ss5_act, cmd_dns_act,
}
use sshinner.Crypt.{encrypt_ctx_init}
use sshinner.Server.{
  Ptr, TransItem, ActivItem, CItem, Callbacks, relay_cbs, relay_enc_cbs, relay_dns_cbs, closes,
  binds, enables, writes, reads_freed, Env, Srv,
}
use sshinner.Server.Memory.{load_activ, load_trans, put_trans, emit, calloc, send}

-- `slist_fetch` from a worker's `conn_queue`.
unfoldable pub fetch_item : ℕ → Srv (Option CItem)
fetch_item worker s = elim (get_elem? s.queues worker) [
  | none ↦ ok none s
  | some [] ↦ ok none s
  | some (c ∷ cs) ↦ ok (some c) (record s { queues = set s.queues worker cs })
]

-- `bufferevent_setcb`; there must be a bufferevent.
abbrev pub bind_bev : Ptr → Callbacks → Ptr → Srv (Unit {0})
bind_bev bev cbs p_trans = if bev == 0 then halt faulted else emit (binds bev cbs p_trans)

-- The head that tells an end that a transfer may start.
abbrev pub act_head : ℕ → ℕ → TransItem → ActivItem → CtlHead
act_head direct cmd t activ = record zero_head {
  direct = direct;
  cmd = cmd;
  extra_param = t.usr_lport;
  mach_uuid = activ.mach_uuid;
}

-- The letter `D`: the DAEMON's connection of a transfer whose USR side is there.
unfoldable pub take_daemon : CItem → Ptr → Srv (Unit {0})
take_daemon c new_bev = do
  t ← load_trans c.p_trans
  bind_bev new_bev relay_cbs c.p_trans
  put_trans c.p_trans (some (record t { bev_d = new_bev }))
  require (not ((t.bev_u == 0) || (t.usr_lport == 0) || (t.p_activ_item == 0)))
  activ ← load_activ t.p_activ_item
  send activ.bev_daemon (act_head usr_daemon cmd_conn_act t activ)
  send activ.bev_usr (act_head daemon_usr cmd_conn_act t activ)
  emit (enables new_bev)

-- The letter `U`: the USR's connection of a transfer.
unfoldable pub take_usr : CItem → Ptr → Srv (Unit {0})
take_usr c new_bev = do
  t ← load_trans c.p_trans
  bind_bev new_bev relay_cbs c.p_trans
  emit (enables new_bev)
  put_trans c.p_trans (some (record t { bev_u = new_bev }))

-- `encrypt_ctx_init` of both contexts.
unfoldable pub start_ctxs : Env → Ptr → Srv TransItem
start_ctxs env p_trans = do
  t ← load_trans p_trans
  require t.is_enc
  deref t.request
  activ ← load_activ t.p_activ_item
  let t' : TransItem = record t {
    ctx_enc = (encrypt_ctx_init env.evp t.ctx_enc t.usr_lport activ.enc_key true).1;
    ctx_dec = (encrypt_ctx_init env.evp t.ctx_dec t.usr_lport activ.enc_key false).1;
  }
  put_trans p_trans (some t')
  pure t'

-- A `sockaddr_in`: the four bytes of an address and a port.
pub record SockAddr : Type 0 where
  pub addr : List ℕ
  pub port : ℕ

-- The two bytes of a port, in network order.
abbrev pub port_of : List ℕ → ℕ
port_of (hi ∷ lo ∷ rest) = hi * 256 + lo
port_of bytes = 0

-- What a SOCKS5 request asks for: an address, or a name to be resolved. The bytes of the request are
-- `char`s, so a name of 128 bytes or more has a negative length, and `strncpy` writes out of bounds;
-- that, and a read behind the end of the request, is `overrun`.
pub data Target : Type 0 where
  ipv4 : SockAddr → Target
  named : List ℕ → ℕ → Target
  overrun : Target

unfoldable pub target_of : List ℕ → Target
target_of request = elim (get_elem? request 3) [
  | none ↦ overrun
  | some atyp ↦
      if atyp == 1
      then (if ltb (length request) 10
          then overrun
          else ipv4 (record { addr = take 4 (drop 4 request); port = port_of (drop 8 request) }))
      else elim (get_elem? request 4) [
        | none ↦ overrun
        | some n ↦
            if ltb n 128 && not (ltb (length request) (7 + n))
            then named (c_string (take n (drop 5 request))) (port_of (drop (5 + n) request))
            else overrun
      ]
]

-- A pair of connected ends is given to a transfer, and the client hears by `announce` that it may
-- start.
unfoldable pub join_ends :
    (announce : Ptr → CtlHead → Srv (Unit {0})) → Ptr → (new_bev new_ext_bev : Ptr) → Srv (Unit {0})
join_ends announce p_trans new_bev new_ext_bev = do
  require (not (new_bev == 0))
  bind_bev new_bev relay_enc_cbs p_trans
  require (not (new_ext_bev == 0))
  bind_bev new_ext_bev relay_enc_cbs p_trans
  t ← load_trans p_trans
  put_trans p_trans (some (record t { bev_d = new_bev; bev_u = new_ext_bev }))
  activ ← load_activ t.p_activ_item
  require (not (activ.bev_daemon == 0))
  announce activ.bev_daemon (act_head usr_daemon cmd_ss5_act t activ)
  emit (enables new_bev)
  emit (enables new_ext_bev)

-- A name that a worker has asked evdns for (`DNS_STRUCT`).
pub record DnsStruct : Type 0 where
  pub hostname : List ℕ
  pub port : ℕ
  pub item : CItem

-- The letter `S`: a SOCKS5 request. `connects` says whether `ss_connect_srv` reaches an address; what
-- is returned is the name to be resolved, if any. The item is read once more behind its `free`.
unfoldable pub take_ss5 :
    Env → (SockAddr → Bool) → CItem → (new_bev new_ext_bev : Ptr) → Srv (Option DnsStruct)
unfolding start_ctxs join_ends
take_ss5 env connects c new_bev new_ext_bev = do
  t ← start_ctxs env c.p_trans
  request ← deref t.request
  elim (target_of request) [
    | overrun ↦ halt faulted
    | ipv4 sin ↦
        if not (connects sin)
        then (do emit (closes c.socket); pure none)
        else (do emit reads_freed; join_ends send c.p_trans new_bev new_ext_bev; pure none)
    | named name port ↦ (do
      p_dns ← calloc
      if p_dns == 0
          then (do emit (closes c.socket); pure none)
          else pure (some (record { hostname = name; port = port; item = c })))
  ]

-- The letter `N`: the connection of a DNS proxy.
unfoldable pub take_dns : Env → CItem → (new_bev : Ptr) → Srv (Unit {0})
unfolding start_ctxs
take_dns env c new_bev = do
  t ← start_ctxs env c.p_trans
  emit reads_freed
  require (not (new_bev == 0))
  bind_bev new_bev relay_dns_cbs c.p_trans
  put_trans c.p_trans (some (record t { bev_d = new_bev; bev_u = 0 }))
  emit (enables new_bev)
  activ ← load_activ t.p_activ_item
  require (not (activ.bev_daemon == 0))
  send activ.bev_daemon (act_head usr_daemon cmd_dns_act t activ)

-- What follows a letter, for the connection at the head of the queue.
unfoldable pub take_over :
    Env
    → (SockAddr → Bool)
    → (letter : ℕ) → CItem
    → (new_bev new_ext_bev : Ptr) → Srv (Option DnsStruct)
take_over env connects letter c new_bev new_ext_bev =
    if letter == b'D'
    then (do take_daemon c new_bev; pure none)
    else if letter == b'U'
    then (do take_usr c new_bev; pure none)
    else if letter == b'S'
    then take_ss5 env connects c new_bev new_ext_bev
    else (do take_dns env c new_bev; pure none)

-- `thread_process`: `letter` is the byte that is read from the pipe, if there is one, and the two
-- bufferevents are those that libevent makes.
unfoldable pub thread_process :
    Env
    → (SockAddr → Bool)
    → (worker : ℕ) → Option ℕ
    → (new_bev new_ext_bev : Ptr) → Srv (Option DnsStruct)
thread_process env connects worker none new_bev new_ext_bev = pure none
thread_process env connects worker (some letter) new_bev new_ext_bev =
    if not ((letter == b'D') || (letter == b'U') || (letter == b'S') || (letter == b'N'))
    then halt aborted
    else (do
      item ← fetch_item worker
      elim item [ none ↦ pure none | some c ↦ take_over env connects letter c new_bev new_ext_bev ])

-- An answer of the resolver: an IPv4 address, or one of another family.
pub data AddrInfo : Type 0 where
  inet : List ℕ → AddrInfo
  other_family : AddrInfo

-- `dns_query_cb` writes its head to the descriptor of the control connection.
abbrev pub write_head : Env → Ptr → CtlHead → Srv (Unit {0})
write_head env bev head = emit (writes (env.getfd bev) head)

-- The loop of `dns_query_cb`: the first address that can be reached is taken. `new_ext_bev` is the
-- bufferevent that libevent makes for the connection to an address.
unfoldable pub try_addrs :
    Env
    → (SockAddr → Bool)
    → DnsStruct
    → List AddrInfo
    → (new_bev : Ptr) → (new_ext_bev : SockAddr → Ptr) → Srv (Unit {0})
unfolding join_ends
try_addrs env connects dns [] new_bev new_ext_bev = pure tt
try_addrs env connects dns (other_family ∷ rest) new_bev new_ext_bev =
    try_addrs env connects dns rest new_bev new_ext_bev
try_addrs env connects dns (inet addr ∷ rest) new_bev new_ext_bev =
    let sin : SockAddr = record { addr = addr; port = dns.port } in
    if connects sin
    then join_ends (write_head env) dns.item.p_trans new_bev (new_ext_bev sin)
    else try_addrs env connects dns rest new_bev new_ext_bev

-- `dns_query_cb`; `none` stands for an error code.
unfoldable pub dns_query_cb :
    Env
    → (SockAddr → Bool)
    → DnsStruct
    → Option (List AddrInfo)
    → (new_bev : Ptr) → (new_ext_bev : SockAddr → Ptr) → Srv (Unit {0})
unfolding try_addrs
dns_query_cb env connects dns none new_bev new_ext_bev = pure tt
dns_query_cb env connects dns (some addrs) new_bev new_ext_bev =
    try_addrs env connects dns addrs new_bev new_ext_bev
