-- ===== src/Client/Consistent/Reach.antt =====
-- The states that a client can reach: from the end of its start, one step for each callback that runs to
-- its end, in any order (client/source/sshinner_c_event.c, sshinner_c_sockets.c, sshinner_c_threads.c and
-- sshinner_c_dns.c).
use sshinner.Base.{ℕ, ◌≡◌, ap, ◌∙◌, arith, Option, some, List, ◌∈◌}
use sshinner.Protocol.{CtlHead}
use sshinner.Run.{ok}
use sshinner.Run.Ensures.{ends}
use sshinner.Crypt.{Evp, EncFrame}
use sshinner.Server.{Ptr, Env, find_at}
use sshinner.Server.Dispatch.{Events}
use sshinner.Json.{Json}
use sshinner.Client.{PortMap, PortTrans, Client}
use sshinner.Client.Trans.{find_trans}
use sshinner.Client.Trans.Ports.{scan}
use sshinner.Client.Trans.Apart.{IsLive, mem-IsLive, scan_self}
use sshinner.Client.Control.{
  Net, srv_bufferread_cb, srv_bufferevent_cb, bufferread_cb, bufferevent_cb, accept_conn_cb,
}
use sshinner.Client.Register.{PacketEnv}
use sshinner.Client.Proxy.{
  Sockets, ss5_accept_conn_cb, ss5_bufferread_cb_enc, ss5_bufferevent_cb, thread_process,
}
use sshinner.Client.Dns.{client_to_proxy_cb, dns_bufferread_cb_enc, dns_bufferevent_cb}
use sshinner.Client.Start.{Machine, blank_client, main}
use sshinner.Client.Consistent.{Fresh, IsLinked}
use sshinner.Client.Consistent.Lists.{find_trans-scan}
use sshinner.Client.Consistent.Controlling.{
  srv_bufferread_cb-Kept, srv_bufferevent_cb-Kept, bufferread_cb-Kept, bufferevent_cb-Kept,
  accept_conn_cb-Kept,
}
use sshinner.Client.Consistent.Proxies.{
  ss5_accept_conn_cb-Kept, ss5_bufferread_cb_enc-Kept, ss5_bufferevent_cb-Kept, thread_process-Kept,
  client_to_proxy_cb-Kept, dns_bufferread_cb_enc-Kept, dns_bufferevent_cb-Kept,
}
use sshinner.Client.Consistent.Starting.{started-Kept}

module _ (env : Env) (penv : PacketEnv) (evp : Evp) where
  -- From one state to the next. A callback that stops the process leads nowhere. The answers of `calloc` to
  -- come may change between two callbacks, so that a block that was freed may be returned again.
  pub data Step (s : Client) : Client → Type 0 where
    allocates : (supply : List Ptr) → Fresh s.transs supply → Step s (record s { supply = supply })
    reads_packet :
        (net : Net) (input : List ℕ) {rest : List ℕ} {s' : Client}
        → srv_bufferread_cb env net input s ≡ ok rest s'
        → Step s s'
    srv_event :
        (net : Net) (srv_fd : ℕ) (reply : CtlHead) (bev : Ptr) (events : Events) {s' : Client}
        → srv_bufferevent_cb penv net srv_fd reply bev events s ≡ ok tt s'
        → Step s s'
    accepts :
        (net : Net) (map : PortMap) (sbuf : ℕ) {s' : Client}
        → accept_conn_cb net map sbuf s ≡ ok tt s'
        → Step s s'
    relays :
        (bev p : Ptr) (input : List ℕ) {s' : Client}
        → bufferread_cb bev p input s ≡ ok tt s'
        → Step s s'
    trans_event :
        (events : Events) (p : Ptr) {s' : Client} → bufferevent_cb events p s ≡ ok tt s' → Step s s'
    accepts_ss5 :
        (fd sbuf : ℕ) (greeting request : List ℕ) {s' : Client}
        → ss5_accept_conn_cb fd sbuf greeting request s ≡ ok tt s'
        → Step s s'
    worker_letter :
        (net : Sockets) (worker : ℕ) (letter : Option ℕ) {s' : Client}
        → thread_process penv evp net worker letter s ≡ ok tt s'
        → Step s s'
    relays_ss5 :
        (held : EncFrame) (bev p : Ptr) (input : List ℕ) {s' : Client}
        → ss5_bufferread_cb_enc evp held bev p input s ≡ ok tt s'
        → Step s s'
    ss5_event :
        (events : Events) (p : Ptr) {s' : Client}
        → ss5_bufferevent_cb events p s ≡ ok tt s'
        → Step s s'
    asks_dns :
        (held stored : EncFrame) (p : Ptr) (sin_port : ℕ) (input : List ℕ) {s' : Client}
        → client_to_proxy_cb evp held stored p sin_port input s ≡ ok tt s'
        → Step s s'
    answers_dns :
        (stored : EncFrame) (bev p : Ptr) (input : List ℕ) {s' : Client}
        → dns_bufferread_cb_enc evp stored bev p input s ≡ ok tt s'
        → Step s s'
    dns_event :
        (events : Events) (p : Ptr) {s' : Client}
        → dns_bufferevent_cb events p s ≡ ok tt s'
        → Step s s'

  -- The states that are reached from the end of `main`'s start.
  pub data Reach {J : Type 0} (json : Json J) (m : Machine J) : Client → Type 0 where
    start :
        (supply : List Ptr) {s : Client}
        → Fresh (blank_client supply).transs supply
        → main json penv evp m (blank_client supply) ≡ ok tt s
        → Reach json m s
    step : {s s' : Client} → Reach json m s → Step s s' → Reach json m s'

  -- Where the transfers of the client's list exist and have different ports, each transfer is in the list
  -- and has an `unsigned short` for its port, and the answers of `calloc` to come are unused blocks, the
  -- same holds after any callback of a client that runs to its end, and after a change of the answers to
  -- come that keeps them unused.
  pub Step-IsLinked : (s s' : Client) → IsLinked s → Step s s' → IsLinked s'
  Step-IsLinked s s' sound (allocates supply fresh) = record {
    apart = sound.apart;
    listed = sound.listed;
    short = sound.short;
    fresh = fresh;
  }
  Step-IsLinked s s' sound (reads_packet net input e) =
      ends (srv_bufferread_cb-Kept env net input s sound) e
  Step-IsLinked s s' sound (srv_event net srv_fd reply bev events e) =
      ends (srv_bufferevent_cb-Kept penv net srv_fd reply bev events s sound) e
  Step-IsLinked s s' sound (accepts net map sbuf e) =
      ends (accept_conn_cb-Kept net map sbuf s sound) e
  Step-IsLinked s s' sound (relays bev p input e) = ends (bufferread_cb-Kept bev p input s sound) e
  Step-IsLinked s s' sound (trans_event events p e) = ends (bufferevent_cb-Kept events p s sound) e
  Step-IsLinked s s' sound (accepts_ss5 fd sbuf greeting request e) =
      ends (ss5_accept_conn_cb-Kept fd sbuf greeting request s sound) e
  Step-IsLinked s s' sound (worker_letter net worker letter e) =
      ends (thread_process-Kept penv evp net worker letter s sound) e
  Step-IsLinked s s' sound (relays_ss5 held bev p input e) =
      ends (ss5_bufferread_cb_enc-Kept evp held bev p input s sound) e
  Step-IsLinked s s' sound (ss5_event events p e) =
      ends (ss5_bufferevent_cb-Kept events p s sound) e
  Step-IsLinked s s' sound (asks_dns held stored p sin_port input e) =
      ends (client_to_proxy_cb-Kept evp held stored p sin_port input s sound) e
  Step-IsLinked s s' sound (answers_dns stored bev p input e) =
      ends (dns_bufferread_cb_enc-Kept evp stored bev p input s sound) e
  Step-IsLinked s s' sound (dns_event events p e) =
      ends (dns_bufferevent_cb-Kept events p s sound) e

  module _ {J : Type 0} (json : Json J) (m : Machine J) where
    Reach-IsLinked : (s : Client) → Reach json m s → IsLinked s
    Reach-IsLinked s (start supply fresh e) = ends (started-Kept json penv evp m supply fresh) e
    Reach-IsLinked s (step {s = s0} r e) = Step-IsLinked s0 s (Reach-IsLinked s0 r) e

    -- In every state that a client reaches from the end of the start in `main`, by callbacks that run to
    -- their end, in any order: a transfer that exists is in the client's list, `sc_find_trans` with its
    -- port returns it, no other transfer has its port, and all the transfers of the list exist.
    pub find_trans-Reach :
        (s : Client)
        → Reach json m s
        → (q : Ptr) (t : PortTrans) → find_at s.transs q ≡ some t
        → (q ∈ s.trans)
          × (find_trans t.l_port s ≡ ok q s)
          × ((p : Ptr) (u : PortTrans) → find_at s.transs p ≡ some u → u.l_port ≡ t.l_port → p ≡ q)
          × ((p : Ptr) → p ∈ s.trans → IsLive s.transs p)
    find_trans-Reach s r q t there =
        let sound = Reach-IsLinked s r in
        let first : (p : Ptr) (u : PortTrans)
            → find_at s.transs p ≡ some u
            → scan s.transs u.l_port s.trans ≡ p =
          λ p u e.
            ground (arith, e, scan_self s.transs p s.trans sound.apart (sound.listed p u e)) in
        (
          sound.listed q t there,
          find_trans-scan s t.l_port sound
              ∙ ap (λ x. ok x s) (ground (arith, sound.short q t there, first q t there)),
          λ p u e same. ground (arith, first p u e, first q t there, same),
          λ p member. mem-IsLive s.transs p s.trans sound.apart member,
        )
