-- ===== src/Server/Worker/Resolve.antt =====
-- What becomes of a SOCKS5 name once the resolver has answered.
use mathlib.Core.List.{append-nil, append_assoc}
use sshinner.Base.{
  ℕ, ◌≡◌, ◌≢◌, arith, ◌==◌, refl, ap, sym, ◌∙◌, Bool, true, false, none, some, List, [], ◌∷◌, ◌++◌,
  All,
}
use sshinner.Run.{ok}
use sshinner.Protocol.{usr_daemon, cmd_ss5_act}
use sshinner.Server.{
  Ptr, Env, Server, TransItem, ActivItem, relay_enc_cbs, binds, writes, enables, find_at, write_at,
}
use sshinner.Server.Worker.{
  SockAddr, DnsStruct, AddrInfo, act_head, inet, other_family, write_head, join_ends, try_addrs,
  dns_query_cb,
}

-- An answer that leads nowhere: not IPv4, or not to be reached.
abbrev pub IsDead : (SockAddr → Bool) → ℕ → AddrInfo → Type 0
IsDead connects port (inet addr) = connects (record { addr = addr; port = port }) ≡ false
IsDead connects port other_family = Unit {0}

module _ (env : Env) (connects : SockAddr → Bool) (dns : DnsStruct) (b : Ptr) (b' : SockAddr → Ptr)
    (s : Server) where
  try_addrs-skip :
      (dead rest : List AddrInfo)
      → All (IsDead connects dns.port) dead
      → try_addrs env connects dns (dead ++ rest) b b' s ≡ try_addrs env connects dns rest b b' s
  unfolding try_addrs
  try_addrs-skip [] rest d = refl
  try_addrs-skip (inet addr ∷ dead) rest (e, d) = rw e (try_addrs-skip dead rest d)
  try_addrs-skip (other_family ∷ dead) rest (e, d) = try_addrs-skip dead rest d

  module _ (t : TransItem) (activ : ActivItem) (addr : List ℕ) where
    -- What is reached: an address, with the port of the request.
    abbrev pub reached : SockAddr
    reached = record { addr = addr; port = dns.port }

    -- The transfer has the client's connection on the one end and the connection to the address on the
    -- other, and the client has been told.
    abbrev pub resolved : Server
    resolved = record s {
      transs =
          write_at s.transs dns.item.p_trans (some (record t { bev_d = b; bev_u = b' reached }));
      trace =
          s.trace
          ++ binds b relay_enc_cbs dns.item.p_trans
            ∷ binds (b' reached) relay_enc_cbs dns.item.p_trans
            ∷ writes (env.getfd activ.bev_daemon) (act_head usr_daemon cmd_ss5_act t activ)
            ∷ enables b
            ∷ enables (b' reached)
            ∷ [];
    }

    join_ends-resolved :
        find_at s.transs dns.item.p_trans ≡ some t
        → find_at s.activs t.p_activ_item ≡ some activ
        → activ.bev_daemon ≢ 0
        → b ≢ 0
        → b' reached ≢ 0
        → join_ends (write_head env) dns.item.p_trans b (b' reached) s ≡ ok tt resolved
    unfolding join_ends
    join_ends-resolved here session told near far =
        let near_null : (b == 0) ≡ false = ground arith in
        let far_null : (b' reached == 0) ≡ false = ground arith in
        let told_null : (activ.bev_daemon == 0) ≡ false = ground arith in
        rw (near_null, far_null, here, session, told_null) (simp append_assoc)

    -- Let a waiting transfer have its session, and that a client, and let libevent make both
    -- bufferevents. Of the answers of the resolver the first
    -- that is IPv4 and can be reached, whatever dead ones stand before it and whatever stands behind it,
    -- is the one that is connected to: the connection to it, with the port of the request, becomes the far
    -- end of the transfer, the other connection the near end, both relay for the transfer and are enabled,
    -- the client is told by a packet that names the transfer's port, and nothing else is changed.
    pub dns_query_cb-first :
        (dead rest : List AddrInfo)
        → All (IsDead connects dns.port) dead
        → connects reached ≡ true
        → find_at s.transs dns.item.p_trans ≡ some t
        → find_at s.activs t.p_activ_item ≡ some activ
        → activ.bev_daemon ≢ 0
        → b ≢ 0
        → b' reached ≢ 0
        → dns_query_cb env connects dns (some (dead ++ inet addr ∷ rest)) b b' s ≡ ok tt resolved
    unfolding dns_query_cb try_addrs
    dns_query_cb-first dead rest d up here session told near far =
        try_addrs-skip dead (inet addr ∷ rest) d
        ∙ rw up (join_ends-resolved here session told near far)

  -- If the resolver fails, or all its answers are dead, then nothing is done: no connection is
  -- closed, and the client is not told.
  pub dns_query_cb-dead :
      (dead : List AddrInfo)
      → All (IsDead connects dns.port) dead
      → (dns_query_cb env connects dns none b b' s ≡ ok tt s)
        × (dns_query_cb env connects dns (some dead) b b' s ≡ ok tt s)
  unfolding dns_query_cb try_addrs
  dns_query_cb-dead dead d = (
    refl,
    ap (λ as'. try_addrs env connects dns as' b b' s) (sym (append-nil dead))
        ∙ try_addrs-skip dead [] d,
  )
