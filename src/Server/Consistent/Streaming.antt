-- ===== src/Server/Consistent/Streaming.antt =====
-- The transfer of data keeps the server's objects together.
use sshinner.Base.{
  ℕ, ◌≡◌, ◌≢◌, refl, true, false, some, List, [], ◌∷◌, ◌==◌, not, ◌||◌, ◌&&◌, ltb, length, arith,
  inl, inr, Bool-cases, ◌∈◌,
}
use sshinner.Run.{ok, stop, aborted}
use sshinner.Run.Ensures.{ended, stopped, after, branch, after_read}
use sshinner.Crypt.{EncFrame, decrypt}
use sshinner.Server.{Ptr, TransItem, ActivItem, Env, Server, find_at, write_at}
use sshinner.Server.Dispatch.{Events}
use sshinner.Server.Trans.{free_trans, is_empty}
use sshinner.Server.Trans.Ports.{IsSession}
use sshinner.Server.Trans.Release.{free_trans_lem}
use sshinner.Server.Transfer.{
  bufferread_cb, bufferread_cb_enc, bufferread_cb_dns_enc, dns_remote_cb, bufferevent_cb, cmd_end,
  frame_of,
}
use sshinner.Server.Consistent.{IsConsistent, Kept}
use sshinner.Server.Consistent.Quietly.{end-Quiet, send-Quiet, trans-Reads, activ-Reads}
use sshinner.Server.Consistent.Transfers.{Sound-free}
use sshinner.Server.Consistent.Rules.{rewritten-IsConsistent}

pub bufferread_cb-Kept :
    (bev p : Ptr) (input : List ℕ) (s : Server)
    → IsConsistent s
    → Kept (bufferread_cb bev p input s)
unfolding bufferread_cb
bufferread_cb-Kept bev p input s sound = after_read _ (trans-Reads p s) λ t _.
    branch ((bev == t.bev_u) && not (t.bev_d == 0)) _ _ s (λ _. ended sound)
      λ _. branch ((bev == t.bev_d) && not (t.bev_u == 0)) _ _ s (λ _. ended sound) λ _. stopped

module _ (env : Env) (held : EncFrame) (input : List ℕ) where
  pub bufferread_cb_enc-Kept :
      (bev p : Ptr) (s : Server) → IsConsistent s → Kept (bufferread_cb_enc env held bev p input s)
  unfolding bufferread_cb_enc
  bufferread_cb_enc-Kept bev p s sound = after_read _ (trans-Reads p s) λ t there.
      branch ((bev == t.bev_u) && not (t.bev_d == 0)) _ _ s
        (λ _.
          branch (ltb 0 (length input)) _ _ s
            (λ _. ended (rewritten-IsConsistent s sound p t _ there refl refl)) λ _. ended sound)
        λ _.
          branch ((bev == t.bev_d) && not (t.bev_u == 0)) _ _ s
            (λ _.
              branch (ltb 0 (length input)) _ _ s
                (λ _. ended (rewritten-IsConsistent s sound p t _ there refl refl))
                λ _. ended sound)
            λ _. stopped

  pub bufferread_cb_dns_enc-Kept :
      (new_ev bev p : Ptr) (s : Server)
      → IsConsistent s
      → Kept (bufferread_cb_dns_enc env held new_ev bev p input s)
  unfolding bufferread_cb_dns_enc
  bufferread_cb_dns_enc-Kept new_ev bev p s sound = after_read _ (trans-Reads p s) λ t there.
      branch ((bev == t.bev_d) && (t.bev_u == 0) && ltb 0 (length input)) _ _ s
        (λ _.
          let t1 = record t { ctx_dec = (decrypt env.evp t.ctx_dec (frame_of input) held).1 } in
          let s1 : Server = record s { transs = write_at s.transs p (some t1) } in
          let sound1 = rewritten-IsConsistent s sound p t t1 there refl refl in
          after_read _ (trans-Reads p s1) λ t' there'.
            branch (not (t'.extra_ev == 0)) _ _ s1 (λ _. ended sound1)
              λ _.
                branch (new_ev == 0) _ _ s1 (λ _. ended sound1)
                  λ _. ended (rewritten-IsConsistent s1 sound1 p t' _ there' refl refl))
        λ _. ended sound

  pub dns_remote_cb-Kept :
      (p : Ptr) (s : Server) → IsConsistent s → Kept (dns_remote_cb env held p input s)
  unfolding dns_remote_cb
  dns_remote_cb-Kept p s sound =
      branch (not (ltb 0 (length input))) _ _ s (λ _. ended sound)
        λ _.
          after_read _ (trans-Reads p s)
            λ t there. ended (rewritten-IsConsistent s sound p t _ there refl refl)

is_empty_of_mem : (q : Ptr) (ps : List Ptr) → q ∈ ps → is_empty ps ≡ false
is_empty_of_mem q [] i = cc
is_empty_of_mem q (p ∷ ps) i = refl

module _ (q : Ptr) (t : TransItem) (s : Server) (a : ActivItem)
    (here : find_at s.activs t.p_activ_item ≡ some a) (there : find_at s.transs q ≡ some t) where
  free_trans_unnamed : (t.usr_lport == 0) ≡ true → free_trans t.p_activ_item q s ≡ ok false s
  unfolding free_trans
  free_trans_unnamed e = ground (arith, here, there)

  free_trans_unlinked :
      q ∈ a.trans
      → (t.usr_lport == 0) ≡ false
      → (a.bev_daemon == 0) ≡ true
      → free_trans t.p_activ_item q s ≡ stop aborted
  unfolding free_trans
  free_trans_unlinked member named e = ground (arith, here, there, is_empty_of_mem q a.trans member)

-- `ss_free_trans` on a transfer and the session that it points to.
free_own-Kept :
    (q : Ptr) (t : TransItem) (s : Server)
    → IsConsistent s
    → find_at s.transs q ≡ some t
    → Kept (free_trans t.p_activ_item q s)
free_own-Kept q t s sound there = elim (Bool-cases (t.usr_lport == 0)) [
  | inl unnamed ↦ rw (free_trans_unnamed q t s a here there unnamed) (ended sound)
  | inr named ↦ elim (Bool-cases (a.bev_daemon == 0)) [
    | inl unlinked ↦ rw (free_trans_unlinked q t s a here there member named unlinked) stopped
    | inr linked ↦
        rw (free_trans_lem s p q a t session member there (ne_of named) refl (ne_of linked)) (
          ended (Sound-free s.uuid_tree s.activs s.transs s.supply sound p q a t here there member))
  ]
]
  where
    p : Ptr
    p = t.p_activ_item

    owner : (a : ActivItem) × (find_at s.activs p ≡ some a) × (q ∈ a.trans)
    owner = sound.listed q t there

    a : ActivItem
    a = owner.0

    here : find_at s.activs p ≡ some a
    here = owner.1

    member : q ∈ a.trans
    member = owner.2

    session : IsSession s p a
    session = record { here = here; apart = sound.apart p a here }

    ne_of : {n : ℕ} → (n == 0) ≡ false → n ≢ 0
    ne_of e h = ground arith

pub bufferevent_cb-Kept :
    (events : Events) (p : Ptr) (s : Server) → IsConsistent s → Kept (bufferevent_cb events p s)
unfolding bufferevent_cb
bufferevent_cb-Kept events p s sound =
    branch (events.connected || not (events.error || events.eof || events.timeout)) _ _ s
      (λ _. ended sound)
      λ _.
        after_read _ (trans-Reads p s)
          λ t there. after (free_own-Kept p t s sound there) λ _ _ still. ended still

pub cmd_end-Kept : (p : Ptr) (s : Server) → IsConsistent s → Kept (cmd_end p s)
unfolding cmd_end
cmd_end-Kept p s sound =
    branch (p == 0) _ _ s (λ _. stopped)
      λ _. after_read _ (trans-Reads p s) λ t _.
        branch (t.p_activ_item == 0) _ _ s (λ _. stopped)
          λ _. after_read _ (activ-Reads t.p_activ_item s) λ activ _.
            branch (activ.bev_daemon == 0) _ _ s (λ _. stopped)
              λ _. end-Quiet (send-Quiet activ.bev_daemon _ s) λ _ _ _. sound
