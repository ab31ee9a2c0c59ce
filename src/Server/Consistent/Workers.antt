-- ===== src/Server/Consistent/Workers.antt =====
-- The worker threads keep the server's objects together.
use sshinner.Base.{
  ℕ, ◌≡◌, refl, Bool, Option, none, some, List, [], ◌∷◌, ◌==◌, not, ◌||◌, ◌⊎◌, inl, inr, arith,
  Option-cases, get_elem?, ◌++◌,
}
use sshinner.Run.Ensures.{
  Ensures, ended, stopped, after, branch, after_read, deref-Reads, require-Reads,
}
use sshinner.Protocol.{CtlHead}
use sshinner.Server.{
  Ptr, TransItem, Env, Server, CItem, Srv, find_at, relay_cbs, relay_enc_cbs, relay_dns_cbs,
  reads_freed, enables,
}
use sshinner.Server.Memory.{send}
use sshinner.Server.Worker.{
  fetch_item, take_daemon, take_usr, start_ctxs, join_ends, take_ss5, take_dns, take_over,
  thread_process, try_addrs, dns_query_cb, write_head, SockAddr, DnsStruct, AddrInfo, inet,
  other_family, target_of, Target, ipv4, named, overrun,
}
use sshinner.Server.Consistent.{IsConsistent, Kept}
use sshinner.Server.Consistent.Quietly.{
  beside, Quiet, quiet, after-Quiet, end-Quiet, Any, send-Quiet, bind_bev-Quiet, trans-Reads,
  activ-Reads,
}
use sshinner.Server.Consistent.Rules.{rewritten, rewritten-IsConsistent, calloc-Kept}

take_daemon-Kept :
    (c : CItem) (new_bev : Ptr) (s : Server) → IsConsistent s → Kept (take_daemon c new_bev s)
unfolding take_daemon
take_daemon-Kept c new_bev s sound = after_read _ (trans-Reads c.p_trans s) λ t there.
    after-Quiet _ (bind_bev-Quiet new_bev relay_cbs c.p_trans s) λ _ r _.
      let s1 = rewritten s r c.p_trans (record t { bev_d = new_bev }) in
      after_read _
        (require-Reads (not ((t.bev_u == 0) || (t.usr_lport == 0) || (t.p_activ_item == 0))) s1)
        λ _ _. after_read _ (activ-Reads t.p_activ_item s1) λ activ here.
          after-Quiet _ (send-Quiet activ.bev_daemon _ s1) λ _ r' _.
            after-Quiet _ (send-Quiet activ.bev_usr _ (beside s1 r')) λ _ r'' _. ended (
              rewritten-IsConsistent s sound c.p_trans t (record t { bev_d = new_bev }) there refl
                refl)

take_usr-Kept :
    (c : CItem) (new_bev : Ptr) (s : Server) → IsConsistent s → Kept (take_usr c new_bev s)
unfolding take_usr
take_usr-Kept c new_bev s sound = after_read _ (trans-Reads c.p_trans s) λ t there.
    after-Quiet _ (bind_bev-Quiet new_bev relay_cbs c.p_trans s) λ _ r _.
      ended
        (rewritten-IsConsistent s sound c.p_trans t (record t { bev_u = new_bev }) there refl refl)

start_ctxs-Kept :
    (env : Env) (p : Ptr) (s : Server)
    → IsConsistent s
    → Ensures (λ t s'. IsConsistent s' × (find_at s'.transs p ≡ some t)) (start_ctxs env p s)
unfolding start_ctxs
start_ctxs-Kept env p s sound = after_read _ (trans-Reads p s) λ t there.
    after_read _ (require-Reads t.is_enc s) λ _ _. after_read _ (deref-Reads t.request s) λ _ _.
      after_read _ (activ-Reads t.p_activ_item s) λ activ _.
        ended (rewritten-IsConsistent s sound p t _ there refl refl, ground (arith, there))

join_ends-Kept :
    (announce : Ptr → CtlHead → Srv (Unit {0}))
    → ((bev : Ptr) (head : CtlHead) (s : Server) → Quiet Any s (announce bev head s))
    → (p new_bev new_ext_bev : Ptr) (s : Server) → IsConsistent s
    → Kept (join_ends announce p new_bev new_ext_bev s)
unfolding join_ends
join_ends-Kept announce quietly p new_bev new_ext_bev s sound =
    after_read _ (require-Reads (not (new_bev == 0)) s) λ _ _.
      after-Quiet _ (bind_bev-Quiet new_bev relay_enc_cbs p s) λ _ r _.
        after_read _ (require-Reads (not (new_ext_bev == 0)) (beside s r)) λ _ _.
          after-Quiet _ (bind_bev-Quiet new_ext_bev relay_enc_cbs p (beside s r)) λ _ r' _.
            after_read _ (trans-Reads p (beside s r')) λ t there.
              let t' : TransItem = record t { bev_d = new_bev; bev_u = new_ext_bev } in
              let s1 = rewritten s r' p t' in
              after_read _ (activ-Reads t.p_activ_item s1) λ activ _.
                after_read _ (require-Reads (not (activ.bev_daemon == 0)) s1) λ _ _.
                  after-Quiet _ (quietly activ.bev_daemon _ s1)
                    λ _ _ _. ended (rewritten-IsConsistent s sound p t t' there refl refl)

Target-cases :
    (t : Target)
    → (t ≡ overrun)
      ⊎ ((sin : SockAddr) × (t ≡ ipv4 sin))
      ⊎ ((name : List ℕ) × (port : ℕ) × (t ≡ named name port))
Target-cases overrun = inl refl
Target-cases (ipv4 sin) = inr (inl (sin, refl))
Target-cases (named name port) = inr (inr (name, port, refl))

take_ss5-Kept :
    (env : Env) (connects : SockAddr → Bool) (c : CItem) (new_bev new_ext_bev : Ptr) (s : Server)
    → IsConsistent s
    → Kept (take_ss5 env connects c new_bev new_ext_bev s)
unfolding take_ss5
take_ss5-Kept env connects c new_bev new_ext_bev s sound =
    after (start_ctxs-Kept env c.p_trans s sound) λ t s1 (sound1, there).
      after_read _ (deref-Reads t.request s1) λ request _. elim (Target-cases (target_of request)) [
        | inl e ↦ rw e stopped
        | inr (inl (sin, e)) ↦ rw e (
            branch (not (connects sin)) _ _ s1 (λ _. ended sound1)
              λ _.
                after (join_ends-Kept send send-Quiet c.p_trans new_bev new_ext_bev _ sound1)
                  λ _ _ still. ended still)
        | inr (inr (name, port, e)) ↦ rw e (
            after (calloc-Kept s1 sound1)
              λ p_dns s2 sound2. branch (p_dns == 0) _ _ s2 (λ _. ended sound2) (λ _. ended sound2))
      ]

take_dns-Kept :
    (env : Env) (c : CItem) (new_bev : Ptr) (s : Server)
    → IsConsistent s
    → Kept (take_dns env c new_bev s)
unfolding take_dns
take_dns-Kept env c new_bev s sound =
    after (start_ctxs-Kept env c.p_trans s sound) λ t s1 (sound1, there).
      let s2 : Server = record s1 { trace = s1.trace ++ reads_freed ∷ [] } in
      after_read _ (require-Reads (not (new_bev == 0)) s2) λ _ _.
        after-Quiet _ (bind_bev-Quiet new_bev relay_dns_cbs c.p_trans s2) λ _ r _.
          let t' : TransItem = record t { bev_d = new_bev; bev_u = 0 } in
          let s3 : Server = record (rewritten s1 r c.p_trans t') {
            trace = r.trace ++ enables new_bev ∷ [];
          } in
          after_read _ (activ-Reads t.p_activ_item s3) λ activ _.
            after_read _ (require-Reads (not (activ.bev_daemon == 0)) s3) λ _ _.
              end-Quiet (send-Quiet activ.bev_daemon _ s3)
                λ _ _ _. rewritten-IsConsistent s1 sound1 c.p_trans t t' there refl refl

fetch_item-Quiet : (worker : ℕ) (s : Server) → Quiet Any s (fetch_item worker s)
unfolding fetch_item
fetch_item-Quiet worker s = at_head (get_elem? s.queues worker) refl
  where
    at_head :
        (q : Option (List CItem))
        → get_elem? s.queues worker ≡ q
        → Quiet Any s (fetch_item worker s)
    at_head none e = rw (e, fetch_item) (quiet tt)
    at_head (some []) e = rw (e, fetch_item) (quiet tt)
    at_head (some (c ∷ cs)) e = rw (e, fetch_item) (quiet tt)

take_over-Kept :
    (env : Env) (connects : SockAddr → Bool) (letter : ℕ) (c : CItem) (new_bev new_ext_bev : Ptr)
    (s : Server)
    → IsConsistent s
    → Kept (take_over env connects letter c new_bev new_ext_bev s)
unfolding take_over
take_over-Kept env connects letter c new_bev new_ext_bev s sound =
    branch (letter == b'D') _ _ s
      (λ _. after (take_daemon-Kept c new_bev s sound) λ _ _ still. ended still)
      λ _.
        branch (letter == b'U') _ _ s
          (λ _. after (take_usr-Kept c new_bev s sound) λ _ _ still. ended still)
          λ _.
            branch (letter == b'S') _ _ s
              (λ _. take_ss5-Kept env connects c new_bev new_ext_bev s sound)
              λ _. after (take_dns-Kept env c new_bev s sound) λ _ _ still. ended still

pub thread_process-Kept :
    (env : Env) (connects : SockAddr → Bool) (worker : ℕ) (letter : Option ℕ)
    (new_bev new_ext_bev : Ptr) (s : Server)
    → IsConsistent s
    → Kept (thread_process env connects worker letter new_bev new_ext_bev s)
unfolding thread_process
thread_process-Kept env connects worker none new_bev new_ext_bev s sound = ended sound
thread_process-Kept env connects worker (some letter) new_bev new_ext_bev s sound =
    branch (not ((letter == b'D') || (letter == b'U') || (letter == b'S') || (letter == b'N'))) _ _
      s (λ _. stopped)
      λ _. after-Quiet _ (fetch_item-Quiet worker s) λ item r _. elim (Option-cases item) [
        | inl e ↦ rw e (ended sound)
        | inr (c, e) ↦
            rw e (take_over-Kept env connects letter c new_bev new_ext_bev (beside s r) sound)
      ]

try_addrs-Kept :
    (env : Env) (connects : SockAddr → Bool) (dns : DnsStruct) (addrs : List AddrInfo)
    (new_bev : Ptr) (new_ext_bev : SockAddr → Ptr) (s : Server)
    → IsConsistent s
    → Kept (try_addrs env connects dns addrs new_bev new_ext_bev s)
unfolding try_addrs
try_addrs-Kept env connects dns [] new_bev new_ext_bev s sound = ended sound
try_addrs-Kept env connects dns (other_family ∷ rest) new_bev new_ext_bev s sound =
    try_addrs-Kept env connects dns rest new_bev new_ext_bev s sound
try_addrs-Kept env connects dns (inet addr ∷ rest) new_bev new_ext_bev s sound =
    branch (connects (record { addr = addr; port = dns.port })) _ _ s
      (λ _.
        join_ends-Kept (write_head env) (λ bev head s'. quiet tt) dns.item.p_trans new_bev
          (new_ext_bev (record { addr = addr; port = dns.port })) s sound)
      λ _. try_addrs-Kept env connects dns rest new_bev new_ext_bev s sound

pub dns_query_cb-Kept :
    (env : Env) (connects : SockAddr → Bool) (dns : DnsStruct) (answer : Option (List AddrInfo))
    (new_bev : Ptr) (new_ext_bev : SockAddr → Ptr) (s : Server)
    → IsConsistent s
    → Kept (dns_query_cb env connects dns answer new_bev new_ext_bev s)
unfolding dns_query_cb
dns_query_cb-Kept env connects dns none new_bev new_ext_bev s sound = ended sound
dns_query_cb-Kept env connects dns (some addrs) new_bev new_ext_bev s sound =
    try_addrs-Kept env connects dns addrs new_bev new_ext_bev s sound
