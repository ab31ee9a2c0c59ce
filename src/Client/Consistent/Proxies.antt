-- ===== src/Client/Consistent/Proxies.antt =====
-- The callbacks of the SOCKS5 proxy and of the DNS proxy keep the client's transfers together.
use sshinner.Base.{
  ℕ, ◌≡◌, refl, inl, inr, true, Bool-cases, not, ◌||◌, ◌&&◌, Option, none, some, List, [], ◌∷◌,
  ◌++◌, ◌==◌, ltb, length, get_elem?, set, drop,
}
use sshinner.Run.Ensures.{ended, stopped, after, branch, option, after_read, require-Reads}
use sshinner.Crypt.{Evp, EncFrame, decrypt}
use sshinner.Server.{Ptr, find_at, write_at}
use sshinner.Server.Dispatch.{Events}
use sshinner.Server.Trans.{ushort}
use sshinner.Server.Transfer.{frame_of}
use sshinner.Client.{PortTrans, CItem, Client, ss5_cbs, binds}
use sshinner.Client.Register.{PacketEnv}
use sshinner.Client.Proxy.{
  Sockets, ss5_bufferread_cb_enc, ss5_bufferevent_cb, buffer, byte_at, is_request, get_threadobj,
  fetch_item, ss5_accept_conn_cb, take_ss5, thread_process,
}
use sshinner.Client.Dns.{
  transid, record_port, recorded_port, client_to_proxy_cb, dns_bufferread_cb_enc,
  dns_bufferevent_cb,
}
use sshinner.Client.Consistent.{IsLinked, Kept}
use sshinner.Client.Consistent.Writes.{Sound-write}
use sshinner.Client.Consistent.Quietly.{beside, Quiet, quiet, no_end, after-Quiet, trans-Reads}
use sshinner.Client.Consistent.Lists.{calloc-Kept, Made-port, create_trans-Made, free_trans-Kept}
use sshinner.Client.Consistent.Packets.{daemon_ss5_init_srv-Quiet}

-- The state with a transfer written again.
abbrev rewritten-Kept :
    (s : Client)
    → IsLinked s
    → (p : Ptr) (t t' : PortTrans) → find_at s.transs p ≡ some t
    → t'.l_port ≡ t.l_port
    → IsLinked (record s { transs = write_at s.transs p (some t') })
rewritten-Kept s = Sound-write s.transs s.trans s.supply

pub ss5_bufferread_cb_enc-Kept :
    (evp : Evp) (held : EncFrame) (bev p : Ptr) (input : List ℕ) (s : Client)
    → IsLinked s
    → Kept (ss5_bufferread_cb_enc evp held bev p input s)
unfolding ss5_bufferread_cb_enc
ss5_bufferread_cb_enc-Kept evp held bev p input s sound = after_read _ (trans-Reads p s) λ t there.
    branch ((bev == t.local_bev) && not (t.srv_bev == 0)) _ _ s
      (λ _.
        branch (ltb 0 (length input)) _ _ s (λ _. ended (rewritten-Kept s sound p t _ there refl))
          λ _. ended sound)
      λ _.
        branch ((bev == t.srv_bev) && not (t.local_bev == 0)) _ _ s
          (λ _.
            branch (ltb 0 (length input)) _ _ s
              (λ _. ended (rewritten-Kept s sound p t _ there refl)) λ _. ended sound)
          λ _. stopped

pub ss5_bufferevent_cb-Kept :
    (events : Events) (p : Ptr) (s : Client) → IsLinked s → Kept (ss5_bufferevent_cb events p s)
unfolding ss5_bufferevent_cb
ss5_bufferevent_cb-Kept events p s sound =
    branch (events.connected || not (events.error || events.eof || events.timeout)) _ _ s
      (λ _. ended sound)
      λ _.
        after_read _ (trans-Reads p s)
          λ t _. after (free_trans-Kept p s sound) λ _ _ still. ended still

get_threadobj-Quiet : (salt : ℕ) (s : Client) → Quiet s (get_threadobj salt s)
get_threadobj-Quiet salt s = elim (Bool-cases (length s.queues == 0)) [
  | inl e ↦ rw e no_end
  | inr e ↦ rw e (quiet s)
]

pub ss5_accept_conn_cb-Kept :
    (fd sbuf : ℕ) (greeting request : List ℕ) (s : Client)
    → IsLinked s
    → Kept (ss5_accept_conn_cb fd sbuf greeting request s)
unfolding ss5_accept_conn_cb
ss5_accept_conn_cb-Kept fd sbuf greeting request s sound =
    branch (not (byte_at (buffer greeting) 0 == 5)) _ _ s (λ _. ended sound)
      λ _.
        branch (not (is_request (buffer request))) _ _ _ (λ _. ended sound)
          λ _. after (calloc-Kept _ sound) λ p_c s1 sound1.
            branch (p_c == 0) _ _ s1 (λ _. ended sound1)
              λ _. after (create_trans-Made sbuf s1 sound1) λ p s2 made.
                branch (p == 0) _ _ s2 (λ _. ended made.0)
                  λ _. after_read _ (trans-Reads p s2) λ t there.
                    let s3 : Client = record s2 {
                      transs =
                          write_at s2.transs p
                            (some (record t { is_enc = true; l_port = ushort sbuf }));
                    } in
                    after-Quiet _ (get_threadobj-Quiet (ushort sbuf) s3) λ worker s4. ended (
                      rewritten-Kept s2 made.0 p t
                        (record t { is_enc = true; l_port = ushort sbuf }) there
                        (Made-port sbuf p s2 t made there))

fetch_item-Quiet : (worker : ℕ) (s : Client) → Quiet s (fetch_item worker s)
unfolding fetch_item
fetch_item-Quiet worker s = by_queue (get_elem? s.queues worker) refl
  where
    by_queue :
        (q : Option (List CItem)) → get_elem? s.queues worker ≡ q → Quiet s (fetch_item worker s)
    by_queue none e = rw (e, fetch_item) (quiet s)
    by_queue (some []) e = rw (e, fetch_item) (quiet s)
    by_queue (some (c ∷ cs)) e =
        rw (e, fetch_item) (quiet (record s { queues = set s.queues worker cs }))

module _ (env : PacketEnv) (evp : Evp) where
  take_ss5-Kept :
      (net : Sockets) (c : CItem) (s : Client) → IsLinked s → Kept (take_ss5 env evp net c s)
  unfolding take_ss5
  take_ss5-Kept net c s sound =
      branch (not net.connects_srv) _ _ s
        (λ _. after (free_trans-Kept c.p_trans s sound) λ _ _ still. ended still)
        λ _. after_read _ (trans-Reads c.p_trans s) λ t there.
          after-Quiet _ (daemon_ss5_init_srv-Quiet env net.srv_fd c.buf t.l_port s) λ sent s1.
            branch (not sent) _ _ (beside s s1)
              (λ _. after (free_trans-Kept c.p_trans _ sound) λ _ _ still. ended still)
              λ _.
                let s2 : Client = beside s s1 in
                after_read _ (require-Reads (not (net.local_bev == 0)) s2) λ _ _.
                  let s3 : Client = record s2 {
                    trace = s2.trace ++ binds net.local_bev ss5_cbs c.p_trans ∷ [];
                  } in
                  after_read _ (require-Reads (not (net.new_bev == 0)) s3) λ _ _.
                    let s4 : Client = record s3 {
                      trace = s3.trace ++ binds net.new_bev ss5_cbs c.p_trans ∷ [];
                    } in
                    after_read _ (require-Reads t.is_enc s4)
                      λ _ _. ended (rewritten-Kept s sound c.p_trans t _ there refl)

  pub thread_process-Kept :
      (net : Sockets) (worker : ℕ) (letter : Option ℕ) (s : Client)
      → IsLinked s
      → Kept (thread_process env evp net worker letter s)
  unfolding thread_process
  thread_process-Kept net worker none s sound = ended sound
  thread_process-Kept net worker (some letter) s sound =
      branch (not (letter == b'Q')) _ _ s (λ _. stopped)
        λ _. after-Quiet _ (fetch_item-Quiet worker s) λ item s1.
          option item _ _ (beside s s1) (ended sound) λ c. take_ss5-Kept net c (beside s s1) sound

record_port-Quiet : (id port : ℕ) (s : Client) → Quiet s (record_port id port s)
record_port-Quiet id port s = elim (Bool-cases (ltb id (length s.transid_ports))) [
  | inl e ↦ rw e (quiet (record s { transid_ports = set s.transid_ports id port }))
  | inr e ↦ rw e no_end
]

recorded_port-Quiet : (id : ℕ) (s : Client) → Quiet s (recorded_port id s)
recorded_port-Quiet id s = elim (Bool-cases (ltb id (length s.transid_ports))) [
  | inl e ↦ rw e (quiet s)
  | inr e ↦ rw e no_end
]

pub client_to_proxy_cb-Kept :
    (evp : Evp) (held stored : EncFrame) (p : Ptr) (sin_port : ℕ) (input : List ℕ) (s : Client)
    → IsLinked s
    → Kept (client_to_proxy_cb evp held stored p sin_port input s)
unfolding client_to_proxy_cb
client_to_proxy_cb-Kept evp held stored p sin_port input s sound =
    branch (not (ltb 0 (length input))) _ _ s (λ _. ended sound)
      λ _.
        after-Quiet _
          (record_port-Quiet (transid (input ++ drop (length input) held.dat)) sin_port s)
          λ _ s1. after_read _ (trans-Reads p (beside s s1)) λ t there.
            branch (t.srv_bev == 0) _ _ _ (λ _. stopped)
              λ _. ended (rewritten-Kept s sound p t _ there refl)

pub dns_bufferread_cb_enc-Kept :
    (evp : Evp) (stored : EncFrame) (bev p : Ptr) (input : List ℕ) (s : Client)
    → IsLinked s
    → Kept (dns_bufferread_cb_enc evp stored bev p input s)
unfolding dns_bufferread_cb_enc
dns_bufferread_cb_enc-Kept evp stored bev p input s sound =
    after_read _ (trans-Reads p s) λ t there.
      branch (not ((bev == t.srv_bev) && (t.local_bev == 0))) _ _ s (λ _. stopped)
        λ _.
          branch (not (ltb 0 (length input))) _ _ s (λ _. ended sound)
            λ _.
              let made = decrypt evp t.ctx_dec (frame_of input) stored in
              let s1 : Client = record s {
                transs = write_at s.transs p (some (record t { ctx_dec = made.1 }));
              } in
              let sound1 = rewritten-Kept s sound p t (record t { ctx_dec = made.1 }) there refl in
              branch (not (ltb 0 (made.2).len)) _ _ s1 (λ _. ended sound1)
                λ _. after-Quiet _ (recorded_port-Quiet (transid (made.2).dat) s1) λ port s2.
                  branch (t.extra_ev == 0) _ _ (beside s1 s2) (λ _. stopped) λ _. ended sound1

pub dns_bufferevent_cb-Kept :
    (events : Events) (p : Ptr) (s : Client) → IsLinked s → Kept (dns_bufferevent_cb events p s)
unfolding dns_bufferevent_cb
dns_bufferevent_cb-Kept events p s sound =
    branch (events.connected || not (events.error || events.eof || events.timeout)) _ _ s
      (λ _. ended sound)
      λ _.
        after_read _ (trans-Reads p s)
          λ t _. after (free_trans-Kept p s sound) λ _ _ still. ended still
