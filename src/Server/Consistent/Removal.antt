-- ===== src/Server/Consistent/Removal.antt =====
-- The end of a session keeps the server's objects together.
use mathlib.Core.Path.{fun_ext}
use sshinner.Base.{
  ◌++◌, ◌≡◌, refl, ap, ◌∙◌, inl, inr, true, false, not, ◌||◌, Option-cases, none, some, List, [],
  ◌∷◌, ◌==◌, if◌then◌else◌, arith, erase,
}
use sshinner.Run.{ok, halt, aborted}
use sshinner.Run.Ensures.{
  Ensures, ended, stopped, after, branch, after_read, deref-Reads, both, Returns-Ensures,
}
use sshinner.Server.{Ptr, ActivItem, Env, Server, find_at, write_at}
use sshinner.Server.Account.{acct_remove_in, acct_remove, activ_item_remove}
use sshinner.Server.Trans.{is_empty, free_each, free_all_trans, free_ctxs}
use sshinner.Server.Trans.Ports.{IsSession}
use sshinner.Server.Trans.Live.{free_live-cases}
use sshinner.Server.Trans.Release.{freed}
use sshinner.Server.Trans.Drain.{Drained, free_all_trans-Drained}
use sshinner.Server.Uuid.{uuid_erase}
use sshinner.Server.Uuid.Sequence.{Rising, in_order}
use sshinner.Server.Uuid.Update.{KeepsOrder}
use sshinner.Server.Dispatch.{Events, main_bufferevent_cb, close_peer}
use sshinner.Server.Consistent.{Sound, IsConsistent, Kept}
use sshinner.Server.Consistent.Quietly.{
  beside, Quiet, quiet, no_end, Any, after-Quiet, branch-Quiet, trans-Reads, activ-Reads,
}
use sshinner.Server.Consistent.Rules.{uuid_search-Reads}
use sshinner.Server.Consistent.Sessions.{Rising-drop, Sound-drop}

-- What the end of a session's transfers leaves alone.
abbrev pub Frame : Server → Server → Type 0
Frame s s' = (s'.uuid_tree ≡ s.uuid_tree) × (s'.supply ≡ s.supply) × (s'.accts ≡ s.accts)

free_each-Frame :
    (p : Ptr) (ps : List Ptr) (s : Server) → Ensures (λ _ s'. Frame s s') (free_each p ps s)
unfolding free_each
free_each-Frame p [] s = ended (refl, refl, refl)
free_each-Frame p (x ∷ ps) s = after_read _ (trans-Reads x s) λ t _.
    let s1 : Server = record s { transs = write_at s.transs x (some (free_ctxs t)) } in
    let s2 : Server = record s1 { trace = s1.trace ++ freed t.bev_d } in
    let s3 : Server = record s2 { trace = s2.trace ++ freed t.bev_u } in
    elim (free_live-cases t.bev_d s1) [
      | inl e ↦ rw e stopped
      | inr e ↦ elim (free_live-cases t.bev_u s2) [
        | inl e' ↦ rw (e, e') stopped
        | inr e' ↦ rw (e, e') (after_read _ (activ-Reads p s3) λ a _. free_each-Frame p ps _)
      ]
    ]

pub free_all_trans-Frame :
    (p : Ptr) (s : Server) → Ensures (λ _ s'. Frame s s') (free_all_trans p s)
unfolding free_all_trans
free_all_trans-Frame p s = after_read _ (activ-Reads p s) λ a _.
    branch (is_empty a.trans) _ _ s (λ _. ended (refl, refl, refl))
      λ _. after (free_each-Frame p a.trans s) λ _ _ kept. ended kept

-- Where the end of a session's transfers does not stop.
free_all_trans-Ensures :
    (s : Server) (p : Ptr) (a : ActivItem)
    → IsSession s p a
    → Ensures (λ r s'. ((r ≡ true) × Drained s p a a.trans s') × Frame s s') (free_all_trans p s)
free_all_trans-Ensures s p a session = elim (free_all_trans-Drained s p a session) [
  | inl (live, drained) ↦ Returns-Ensures (both drained (free_all_trans-Frame p s))
  | inr (dead, stops) ↦ rw stops stopped
]

acct_remove_in-Quiet : (p : Ptr) (ps : List Ptr) (s : Server) → Quiet Any s (acct_remove_in p ps s)
unfolding acct_remove_in
acct_remove_in-Quiet p [] s = quiet tt
acct_remove_in-Quiet p (q ∷ qs) s =
    branch-Quiet (q == p) _ _ s (λ _. quiet tt) λ _. acct_remove_in-Quiet p qs s

acct_remove-Quiet : (p : Ptr) (s : Server) → Quiet Any s (acct_remove p s)
unfolding acct_remove
acct_remove-Quiet p s = elim (Option-cases (find_at s.accts p)) [
  | inl e ↦ rw e no_end
  | inr (acct, e) ↦ rw e (
      branch-Quiet (not (is_empty acct.items)) _ _ s (λ _. quiet tt)
        λ _. acct_remove_in-Quiet p s.acct_items s)
]

pub uuid_erase_lem :
    (env : Env) (p : Ptr) (s : Server)
    → (p == 0) ≡ false
    → uuid_erase env p s ≡ ok tt (record s { uuid_tree = env.rb_erase p s.uuid_tree })
unfolding uuid_erase
uuid_erase_lem env p s real = ground arith

-- What is left when a session without transfers is taken out of the tree and freed.
dropped-IsConsistent :
    (env : Env)
    → KeepsOrder env
    → (p : Ptr) (a : ActivItem) (s s' : Server) → IsConsistent s
    → find_at s.activs p ≡ some a
    → Drained s p a a.trans s'
    → Frame s s'
    → Sound (env.rb_erase p s'.uuid_tree) (write_at s'.activs p none) s'.transs s'.supply
dropped-IsConsistent env rb p a s s' sound here (emptied, others, cells, trace)
      (tree, supply, accts) =
    rw supply (
      Sound-drop s.uuid_tree (env.rb_erase p s'.uuid_tree) s.activs (write_at s'.activs p none)
        s.transs s'.transs s.supply sound p a here (ground arith)
        (λ q n. ground (arith, others q n)) cells indexed)
  where
    indexed : Rising (write_at s'.activs p none) 0 (in_order (env.rb_erase p s'.uuid_tree))
    indexed =
        let agree : write_at s'.activs p none ≡ write_at s.activs p none =
          fun_ext λ q. ground (arith, others q) in
        let order : in_order (env.rb_erase p s'.uuid_tree) ≡ erase p (in_order s.uuid_tree) =
          rb.erases p s'.uuid_tree ∙ ap (λ t. erase p (in_order t)) tree in
        rw (agree, order) (Rising-drop s.activs p none 0 (in_order s.uuid_tree) sound.indexed)

pub activ_item_remove-Kept :
    (env : Env)
    → KeepsOrder env
    → (p_item : Ptr) (s : Server) → IsConsistent s
    → Kept (activ_item_remove env p_item s)
unfolding activ_item_remove
activ_item_remove-Kept env rb p_item s sound = after_read _ (activ-Reads p_item s) λ item _.
    after_read _ (uuid_search-Reads item.mach_uuid s sound) λ p found.
      branch (p == 0) _ _ s (λ _. stopped)
        λ real. elim found [
          | inl null ↦ ground (arith, null, real)
          | inr (a, here) ↦ after_read _ (activ-Reads p s) λ activ _.
              after_read _ (deref-Reads (find_at s.accts activ.p_acct) s) λ _ _.
                after
                  (free_all_trans-Ensures s p a
                    (record { here = here; apart = sound.apart p a here }))
                  λ _ s1 ((_, drained), frame). rw (uuid_erase_lem env p s1 real) (
                    let s2 : Server = record s1 { uuid_tree = env.rb_erase p s1.uuid_tree } in
                    let still = dropped-IsConsistent env rb p a s s1 sound here drained frame in
                    after_read _ (deref-Reads (find_at s2.accts activ.p_acct) s2) λ acct _.
                      let s3 : Server = record s2 {
                        accts =
                            write_at s2.accts activ.p_acct
                              (some (record acct { items = erase p acct.items }));
                        activs = write_at s2.activs p none;
                      } in
                      after_read _ (deref-Reads (find_at s3.accts activ.p_acct) s3) λ left _.
                        branch (is_empty left.items) _ _ s3
                          (λ _.
                            after-Quiet _ (acct_remove-Quiet activ.p_acct s3) λ _ _ _. ended still)
                          λ _. ended still)
        ]

close_peer-Quiet : (env : Env) (peer : Ptr) (s : Server) → Quiet Any s (close_peer env peer s)
unfolding close_peer
close_peer-Quiet env peer s =
    branch-Quiet (peer == 0) _ _ s (λ _. quiet tt)
      λ _. elim (free_live-cases peer s) [ inl e ↦ rw e no_end | inr e ↦ rw e (quiet tt) ]

pub main_bufferevent_cb-Kept :
    (env : Env)
    → KeepsOrder env
    → (bev : Ptr) (events : Events) (p : Ptr) (s : Server) → IsConsistent s
    → Kept (main_bufferevent_cb env bev events p s)
unfolding main_bufferevent_cb
main_bufferevent_cb-Kept env rb bev events p s sound =
    branch (events.connected || events.error || not events.eof || (p == 0)) _ _ s (λ _. ended sound)
      λ _. after_read _ (activ-Reads p s) λ item _.
        after-Quiet _ (peer item) λ _ r _.
          after (activ_item_remove-Kept env rb p (beside s r) sound) λ _ _ still. ended still
  where
    peer :
        (item : ActivItem)
        → Quiet Any s (
            (if item.bev_daemon == bev
                then close_peer env item.bev_usr
                else (if item.bev_usr == bev then close_peer env item.bev_daemon else halt aborted))
              s)
    peer item =
        branch-Quiet (item.bev_daemon == bev) _ _ s (λ _. close_peer-Quiet env item.bev_usr s)
          λ _.
            branch-Quiet (item.bev_usr == bev) _ _ s (λ _. close_peer-Quiet env item.bev_daemon s)
              λ _. no_end
