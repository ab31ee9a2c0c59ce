-- ===== src/Server/Consistent/Ending.antt =====
-- The end of a control connection: what is left of its session.
mod Steps
use mathlib.Core.Path.{fun_ext}
use sshinner.Base.{
  ℕ, suc, ◌≡◌, refl, ap, ◌∙◌, ◌⊎◌, inl, inr, Bool, ◌++◌, true, false, not, Bool-cases, Option, none,
  some, List, [], ◌∷◌, arith, ◌==◌, if◌then◌else◌, has, erase, ◌∈◌, ◌∉◌,
}
use sshinner.Run.{
  pure, ◌>>◌, stop, faulted, Run, halt, aborted, ok, and_then, Returns, returns, bind,
}
use sshinner.Run.Ensures.{both}
use sshinner.Server.{Ptr, ActivItem, AcctItem, Env, Server, Effect, Srv, find_at, write_at}
use sshinner.Server.Account.{acct_remove_in, acct_remove, activ_item_remove}
use sshinner.Server.Trans.{is_empty}
use sshinner.Server.Trans.Ports.{IsSession}
use sshinner.Server.Trans.Release.{freed}
use sshinner.Server.Trans.Live.{
  all_live, with_bev, bevs, free_live-live, free_live-dead, all_live-closes,
}
use sshinner.Server.Trans.Drain.{Drained, free_all_trans-live, free_all_trans-dead}
use sshinner.Server.Uuid.{uuid_search}
use sshinner.Server.Uuid.Search.{uuid_search-find}
use sshinner.Server.Uuid.Sequence.{Activs, Rising, in_order, key, find_uuid}
use sshinner.Server.Uuid.Update.{KeepsOrder, key_above, find_uuid-erase}
use sshinner.Server.Dispatch.{Events, close_peer, main_bufferevent_cb}
use sshinner.Server.Consistent.{IsConsistent}
use sshinner.Server.Consistent.Quietly.{Aside, beside}
use sshinner.Server.Consistent.Sessions.{Rising-drop}
use sshinner.Server.Consistent.Removal.{Frame, free_all_trans-Frame, uuid_erase_lem}
use sshinner.Server.Consistent.Ending.Steps.{
  find_uuid_self, find_uuid-write_absent, absent_erase, Beside, ends_beside, after-Beside,
  acct_remove-Beside, Outside, outside, at_once, close_peer-Outside,
}

-- What is left of the session `a` at `p`: no search finds it and none of its transfers is there; other
-- sessions and transfers are as they were.
abbrev pub Gone : Server → Ptr → ActivItem → Server → Type 0
Gone s p a s' =
    ((v : ℕ)
      → uuid_search v s'.uuid_tree s'
        ≡ ok (if v == a.mach_uuid then 0 else find_uuid s.activs v (in_order s.uuid_tree)) s')
    × ((q : Ptr) → s'.activs q ≡ (if q == p then none else s.activs q))
    × ((x : Ptr) → s'.transs x ≡ (if has x a.trans then none else s.transs x))

module _ (env : Env) (rb : KeepsOrder env) (s : Server) (sound : IsConsistent s) (p : Ptr)
    (a : ActivItem) (here : find_at s.activs p ≡ some a) (listed : p ∈ in_order s.uuid_tree)
    (acct : AcctItem) (owned : find_at s.accts a.p_acct ≡ some acct) where
  p_real : (p == 0) ≡ false
  p_real = ground (arith, here)

  found : uuid_search a.mach_uuid s.uuid_tree s ≡ ok p s
  found =
      uuid_search-find s a.mach_uuid 0 s.uuid_tree sound.indexed
      ∙ ap (λ q. ok q s)
          (ground
            (arith, here, find_uuid_self s.activs p 0 (in_order s.uuid_tree) sound.indexed listed))

  dropped-Gone :
      (s1 s' : Server)
      → Drained s p a a.trans s1
      → Frame s s1
      → s'.uuid_tree ≡ env.rb_erase p s1.uuid_tree
      → s'.activs ≡ write_at s1.activs p none
      → s'.transs ≡ s1.transs
      → Gone s p a s'
  dropped-Gone s1 s' (emptied, others, cells, trace) (tree, supply, accts) new_tree activs transs =
      let ps : List Ptr = in_order s.uuid_tree in
      let agree : s'.activs ≡ write_at s.activs p none =
        activs ∙ fun_ext λ q. ground (arith, others q) in
      let order : in_order s'.uuid_tree ≡ erase p ps =
        ap in_order new_tree ∙ rb.erases p s1.uuid_tree ∙ ap (λ t. erase p (in_order t)) tree in
      let indexed : Rising s'.activs 0 (in_order s'.uuid_tree) =
        rw (agree, order) (Rising-drop s.activs p none 0 ps sound.indexed) in
      (
        λ v.
            uuid_search-find s' v 0 s'.uuid_tree indexed
            ∙ ap (λ q. ok q s')
                (rw (agree, order)
                  (find_uuid-write_absent s.activs p v none (erase p ps)
                      (absent_erase s.activs p 0 ps sound.indexed)
                    ∙ ground
                        (arith, here, find_uuid-erase s.activs v 0 p ps sound.indexed listed))),
        λ q. ground (arith, agree),
        λ x. rw transs (cells x),
      )

  session : IsSession s p a
  session = record { here = here; apart = sound.apart p a here }

  activ_item_remove-faulted :
      all_live s.trace (bevs s.transs a.trans) ≡ false → activ_item_remove env p s ≡ stop faulted
  unfolding activ_item_remove
  activ_item_remove-faulted dead =
      rw (here, found, p_real, here, owned, free_all_trans-dead s p a session dead) refl

  activ_item_remove-Gone :
      all_live s.trace (bevs s.transs a.trans) ≡ true
      → Returns (λ _ s'. Gone s p a s') (activ_item_remove env p s)
  unfolding activ_item_remove
  activ_item_remove-Gone live =
      rw (here, found, p_real, here, owned)
        (bind (both (free_all_trans-live s p a session live) (free_all_trans-Frame p s))
          λ _ s1 ((_, drained), frame).
            let owned1 : find_at s1.accts a.p_acct ≡ some acct = rw frame.2 owned in
            rw (uuid_erase_lem env p s1 p_real, owned1)
              (let left : AcctItem = record acct { items = erase p acct.items } in
                let s3 : Server = record s1 {
                  uuid_tree = env.rb_erase p s1.uuid_tree;
                  accts = write_at s1.accts a.p_acct (some left);
                  activs = write_at s1.activs p none;
                } in
                let owned3 : find_at s3.accts a.p_acct ≡ some left = ground (arith, owned1) in
                rw owned3 (elim (Bool-cases (is_empty left.items)) [
                  | inl e ↦ rw e (
                      after-Beside _ (acct_remove-Beside a.p_acct left s3 owned3)
                        λ _ r. returns (dropped-Gone s1 (beside s3 r) drained frame refl refl refl))
                  | inr e ↦ rw e (returns (dropped-Gone s1 s3 drained frame refl refl refl))
                ])))

module _ (env : Env) (rb : KeepsOrder env) (s : Server) (sound : IsConsistent s) (p : Ptr)
    (a : ActivItem) (here : find_at s.activs p ≡ some a) (listed : p ∈ in_order s.uuid_tree)
    (acct : AcctItem) (owned : find_at s.accts a.p_acct ≡ some acct) where
  -- What follows the end of the other connection.
  after_peer :
      (run : Run Server (Unit {0})) (live : Bool)
      → Outside (bevs s.transs a.trans) live s run
      → ((live ≡ true)
          × Returns (λ _ s'. Gone s p a s') (and_then run λ _. activ_item_remove env p >> pure tt))
        ⊎ ((live ≡ false) × (and_then run (λ _. activ_item_remove env p >> pure tt) ≡ stop faulted))
  after_peer run live (at_once dead) = inr (dead, refl)
  after_peer run live (outside {trace} e) = elim (Bool-cases live) [
    | inl is_live ↦ inl (
      is_live,
      bind
          (activ_item_remove-Gone env rb (record s { trace = trace }) sound p a here listed acct
            owned (e ∙ is_live))
          λ _ s' gone. returns gone,
    )
    | inr is_dead ↦ inr (
      is_dead,
      rw
          (activ_item_remove-faulted env rb (record s { trace = trace }) sound p a here listed acct
            owned (e ∙ is_dead))
          refl,
    )
  ]

-- The other client's connection of a session.
abbrev pub other_side : ActivItem → Ptr → Ptr
other_side a bev = if a.bev_daemon == bev then a.bev_usr else a.bev_daemon

-- What is freed with a session whose connection `bev` ends, in order: the other connection, and those of the
-- transfers.
abbrev pub freed_with : Server → ActivItem → Ptr → List Ptr
freed_with s a bev = with_bev (other_side a bev) (bevs s.transs a.trans)

-- The session goes, or one of the bufferevents that are freed with it has been freed before.
abbrev pub Outcome : Server → Ptr → ActivItem → Ptr → Run Server (Unit {0}) → Type 0
Outcome s p a bev run =
    ((all_live s.trace (freed_with s a bev) ≡ true) × Returns (λ _ s'. Gone s p a s') run)
    ⊎ ((all_live s.trace (freed_with s a bev) ≡ false) × (run ≡ stop faulted))

-- Let the server's objects hang together, the red-black tree keep the order of its nodes, and a session
-- of the tree have an account. Let the control connection of either client of the session be closed by
-- its peer. Where none of the other connection and the bufferevents of the session's transfers has been
-- freed before, and none is there twice, `main_bufferevent_cb` ends without a stop. Then
-- `ss_uuid_search` no longer finds the machine id of the session, the session and all its transfers are
-- gone from the store, and every other search, session and transfer is as it was. Otherwise
-- `main_bufferevent_cb` frees a bufferevent for a second time, which stops the process.
pub main_bufferevent_cb-Gone :
    (env : Env)
    → KeepsOrder env
    → (s : Server) → IsConsistent s
    → (p bev : Ptr) (a : ActivItem) (acct : AcctItem) (events : Events)
    → find_at s.activs p ≡ some a
    → p ∈ in_order s.uuid_tree
    → find_at s.accts a.p_acct ≡ some acct
    → events.connected ≡ false
    → events.error ≡ false
    → events.eof ≡ true
    → (a.bev_daemon ≡ bev) ⊎ (a.bev_usr ≡ bev)
    → Outcome s p a bev (main_bufferevent_cb env bev events p s)
unfolding main_bufferevent_cb
main_bufferevent_cb-Gone env rb s sound p bev a acct events here listed owned up fine closed side =
    let real : (p == 0) ≡ false = ground (arith, here) in
    rw (up, fine, closed, real, here)
      (after_peer env rb s sound p a here listed acct owned _ _ peer)
  where
    peer : Outside (bevs s.transs a.trans) (all_live s.trace (freed_with s a bev)) s (
        (if a.bev_daemon == bev
            then close_peer env a.bev_usr
            else (if a.bev_usr == bev then close_peer env a.bev_daemon else halt aborted))
          s)
    peer = elim (Bool-cases (a.bev_daemon == bev)) [
      | inl e ↦ rw e (close_peer-Outside env a.bev_usr (bevs s.transs a.trans) _ s refl)
      | inr e ↦
          let e' : (a.bev_usr == bev) ≡ true = ground (arith, side, e) in
          rw (e, e') (close_peer-Outside env a.bev_daemon (bevs s.transs a.trans) _ s refl)
    ]
