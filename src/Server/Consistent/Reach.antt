-- ===== src/Server/Consistent/Reach.antt =====
-- The states that the server can reach: one step for each callback that runs to its end, in any
-- order (server/source/sshinner_s_event.c and sshinner_s_threads.c).
use sshinner.Base.{ℕ, ◌≡◌, sym, ap, ◌∙◌, arith, Bool, Option, none, some, List, [], ◌∈◌}
use sshinner.Run.{ok}
use sshinner.Run.Ensures.{ends}
use sshinner.Crypt.{EncFrame}
use sshinner.Server.{Ptr, TransItem, ActivItem, CItem, Key, zero_activ, leaf, Env, Server, find_at}
use sshinner.Server.Trans.{find_trans}
use sshinner.Server.Trans.Ports.{IsSession, find_trans-scan, scan_self}
use sshinner.Server.Dispatch.{Events, main_bufferread_cb, main_bufferevent_cb, accept_conn_cb}
use sshinner.Server.Worker.{SockAddr, DnsStruct, AddrInfo, thread_process, dns_query_cb}
use sshinner.Server.Transfer.{
  bufferread_cb, bufferread_cb_enc, bufferread_cb_dns_enc, dns_remote_cb, bufferevent_cb, cmd_end,
}
use sshinner.Server.Uuid.Update.{KeepsOrder}
use sshinner.Server.Consistent.{Fresh, IsConsistent}
use sshinner.Server.Consistent.Workers.{thread_process-Kept, dns_query_cb-Kept}
use sshinner.Server.Consistent.Streaming.{
  bufferread_cb-Kept, bufferread_cb_enc-Kept, bufferread_cb_dns_enc-Kept, dns_remote_cb-Kept,
  bufferevent_cb-Kept, cmd_end-Kept,
}
use sshinner.Server.Consistent.Removal.{main_bufferevent_cb-Kept}
use sshinner.Server.Consistent.Dispatching.{main_bufferread_cb-Kept, accept_conn_cb-Kept}

-- The server as it starts, with its workers' queues.
abbrev pub started : List (List CItem) → Server
started queues = record {
  acct_items = [];
  uuid_tree = leaf;
  queues = queues;
  accts = λ p. none;
  activs = λ p. none;
  transs = λ p. none;
  supply = [];
  trace = [];
}

-- From one state to the next. A callback that stops the process leads nowhere. The answers of `malloc`
-- to come may change between two callbacks, so that a block that was freed may be returned again.
pub data Step (env : Env) (s : Server) : Server → Type 0 where
  allocates :
      (supply : List Ptr)
      → Fresh s.activs s.transs supply
      → Step env s (record s { supply = supply })
  accepts : (bev : Ptr) {s' : Server} → accept_conn_cb bev s ≡ ok tt s' → Step env s s'
  reads_packet :
      (held : Key → List ℕ) (bev : Ptr) (input : List ℕ) {rest : List ℕ} {s' : Server}
      → main_bufferread_cb env held bev input s ≡ ok rest s'
      → Step env s s'
  main_event :
      (bev : Ptr) (events : Events) (p : Ptr) {s' : Server}
      → main_bufferevent_cb env bev events p s ≡ ok tt s'
      → Step env s s'
  worker_letter :
      (connects : SockAddr → Bool) (worker : ℕ) (letter : Option ℕ) (new_bev new_ext_bev : Ptr)
      {dns : Option DnsStruct} {s' : Server}
      → thread_process env connects worker letter new_bev new_ext_bev s ≡ ok dns s'
      → Step env s s'
  resolves :
      (connects : SockAddr → Bool) (dns : DnsStruct) (answer : Option (List AddrInfo))
      (new_bev : Ptr) (new_ext_bev : SockAddr → Ptr) {s' : Server}
      → dns_query_cb env connects dns answer new_bev new_ext_bev s ≡ ok tt s'
      → Step env s s'
  relays :
      (bev p : Ptr) (input : List ℕ) {s' : Server}
      → bufferread_cb bev p input s ≡ ok tt s'
      → Step env s s'
  relays_enc :
      (held : EncFrame) (bev p : Ptr) (input : List ℕ) {s' : Server}
      → bufferread_cb_enc env held bev p input s ≡ ok tt s'
      → Step env s s'
  asks_dns :
      (held : EncFrame) (new_ev bev p : Ptr) (input : List ℕ) {s' : Server}
      → bufferread_cb_dns_enc env held new_ev bev p input s ≡ ok tt s'
      → Step env s s'
  answers_dns :
      (held : EncFrame) (p : Ptr) (input : List ℕ) {s' : Server}
      → dns_remote_cb env held p input s ≡ ok tt s'
      → Step env s s'
  trans_event :
      (events : Events) (p : Ptr) {s' : Server}
      → bufferevent_cb events p s ≡ ok tt s'
      → Step env s s'
  ends_trans : (p : Ptr) {s' : Server} → cmd_end p s ≡ ok tt s' → Step env s s'

-- The states that are reached from the start.
pub data Reach (env : Env) (queues : List (List CItem)) : Server → Type 0 where
  start : Reach env queues (started queues)
  step : {s s' : Server} → Reach env queues s → Step env s s' → Reach env queues s'

started-IsConsistent : (queues : List (List CItem)) → IsConsistent (started queues)
started-IsConsistent queues = record {
  indexed = tt;
  apart = λ p a e. ground (arith, e);
  owner = λ p q a t e l i. ground (arith, e);
  listed = λ q t l. (zero_activ, ground (arith, l), ground (arith, l));
  short = λ q t l. ground (arith, l);
  fresh = tt;
}

module _ (env : Env) (rb : KeepsOrder env) where
  -- Let the red-black tree keep the order of its nodes. Where the machine ids of the tree rise in
  -- order, the transfers of each session exist, have different ports and point back to it, each
  -- transfer is listed by the session that it points to and has an `unsigned short` for its port, and
  -- the answers of `malloc` to come are unused blocks, the same holds after any callback that runs to
  -- its end, and after a change of the answers to come that keeps them unused.
  pub Step-IsConsistent : (s s' : Server) → IsConsistent s → Step env s s' → IsConsistent s'
  Step-IsConsistent s s' sound (allocates supply fresh) = record {
    indexed = sound.indexed;
    apart = sound.apart;
    owner = sound.owner;
    listed = sound.listed;
    short = sound.short;
    fresh = fresh;
  }
  Step-IsConsistent s s' sound (accepts bev e) = ends (accept_conn_cb-Kept bev s sound) e
  Step-IsConsistent s s' sound (reads_packet held bev input e) =
      ends (main_bufferread_cb-Kept env rb held bev input s sound) e
  Step-IsConsistent s s' sound (main_event bev events p e) =
      ends (main_bufferevent_cb-Kept env rb bev events p s sound) e
  Step-IsConsistent s s' sound (worker_letter connects worker letter new_bev new_ext_bev e) =
      ends (thread_process-Kept env connects worker letter new_bev new_ext_bev s sound) e
  Step-IsConsistent s s' sound (resolves connects dns answer new_bev new_ext_bev e) =
      ends (dns_query_cb-Kept env connects dns answer new_bev new_ext_bev s sound) e
  Step-IsConsistent s s' sound (relays bev p input e) =
      ends (bufferread_cb-Kept bev p input s sound) e
  Step-IsConsistent s s' sound (relays_enc held bev p input e) =
      ends (bufferread_cb_enc-Kept env held input bev p s sound) e
  Step-IsConsistent s s' sound (asks_dns held new_ev bev p input e) =
      ends (bufferread_cb_dns_enc-Kept env held input new_ev bev p s sound) e
  Step-IsConsistent s s' sound (answers_dns held p input e) =
      ends (dns_remote_cb-Kept env held input p s sound) e
  Step-IsConsistent s s' sound (trans_event events p e) =
      ends (bufferevent_cb-Kept events p s sound) e
  Step-IsConsistent s s' sound (ends_trans p e) = ends (cmd_end-Kept p s sound) e

  pub Reach-IsConsistent :
      (queues : List (List CItem)) (s : Server) → Reach env queues s → IsConsistent s
  Reach-IsConsistent queues s start = started-IsConsistent queues
  Reach-IsConsistent queues s (step {s = s0} r e) =
      Step-IsConsistent s0 s (Reach-IsConsistent queues s0 r) e

  -- Let the red-black tree keep the order of its nodes. Then in every state that the server reaches
  -- from its start, by callbacks that run to their end, in any order, each transfer points to a
  -- session that exists and lists it, no other session lists it, and `ss_find_trans` of that session
  -- with the transfer's port returns the transfer.
  pub Reach-find_trans :
      (queues : List (List CItem)) (s : Server)
      → Reach env queues s
      → (q : Ptr) (t : TransItem) → find_at s.transs q ≡ some t
      → (a : ActivItem) × (find_at s.activs t.p_activ_item ≡ some a)
        × (q ∈ a.trans)
        × ((p : Ptr) (b : ActivItem)
            → find_at s.activs p ≡ some b
            → q ∈ b.trans
            → p ≡ t.p_activ_item)
        × (find_trans t.p_activ_item t.usr_lport s ≡ ok q s)
  Reach-find_trans queues s r q t there =
      let sound = Reach-IsConsistent queues s r in
      let (a, here, member) = sound.listed q t there in
      let session : IsSession s t.p_activ_item a = record {
        here = here;
        apart = sound.apart t.p_activ_item a here;
      } in
      (
        a,
        here,
        member,
        λ p b e i. sym (sound.owner p q b t e there i),
        find_trans-scan s t.p_activ_item t.usr_lport a session
            ∙ ap (λ x. ok x s)
                (ground (
                  arith,
                  there,
                  sound.short q t there,
                  scan_self s.transs q a.trans session.apart member,
                )),
      )
