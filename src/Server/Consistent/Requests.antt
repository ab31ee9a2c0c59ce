-- ===== src/Server/Consistent/Requests.antt =====
-- The packets that start a transfer keep the server's objects together.
use sshinner.Base.{
  ℕ, ◌≡◌, refl, inl, inr, true, false, not, ◌||◌, Bool-cases, Option, Option-cases, none, some,
  List, [], ◌∷◌, ◌++◌, ◌==◌, length, arith, take,
}
use sshinner.Run.Ensures.{ended, after, branch, after_read, require-Reads}
use sshinner.Protocol.{CtlHead, usr_daemon, cmd_conn}
use sshinner.Server.{Ptr, TransItem, ActivItem, Env, Server, find_at, write_at, frees, reads_freed}
use sshinner.Server.Memory.{get_threadobj}
use sshinner.Server.Trans.{ushort}
use sshinner.Server.Trans.Ports.{find_trans-scan}
use sshinner.Server.Relay.{hand_over, conn_trans, handle_ctl, handle_proxy, decrypted}
use sshinner.Server.Consistent.{IsConsistent, Kept}
use sshinner.Server.Consistent.Quietly.{
  Aside, beside, Quiet, quiet, no_end, Any, after-Quiet, also-Quiet, end-Quiet, send-Quiet,
  trans-Reads, activ-Reads,
}
use sshinner.Server.Consistent.Rules.{calloc-Kept, uuid_search-Reads}
use sshinner.Server.Consistent.Opening.{session, create_trans-Ensures}

get_threadobj-Quiet :
    (salt : ℕ) (s : Server) (r : Aside) → Quiet Any s (get_threadobj salt (beside s r))
get_threadobj-Quiet salt s r = elim (Bool-cases (length r.queues == 0)) [
  | inl e ↦ rw e no_end
  | inr e ↦ rw e (quiet tt)
]

hand_over-Quiet :
    (env : Env) (bev : Ptr) (head : CtlHead) (p letter : ℕ) (s : Server)
    → Quiet Any s (hand_over env bev head p letter s)
unfolding hand_over
hand_over-Quiet env bev head p letter s =
    let r : Aside = record {
      items = s.acct_items;
      accts = s.accts;
      queues = s.queues;
      trace = s.trace ++ reads_freed ∷ [];
    } in
    also-Quiet _ (get_threadobj-Quiet head.extra_param s r) λ _ _ _. quiet tt

conn_trans-Kept :
    (p : Ptr) (head : CtlHead) (a : ActivItem) (s : Server)
    → IsConsistent s
    → find_at s.activs p ≡ some a
    → Kept (conn_trans p head s)
unfolding conn_trans
conn_trans-Kept p head a s sound here =
    branch (head.direct == usr_daemon) _ _ s
      (λ _. after (create_trans-Ensures p head.extra_param a s sound here) λ x s1 got.
        branch (x == 0) _ _ s1
          (λ null. elim got [
            | inl (_, still) ↦ ended still
            | inr (real, _) ↦ ground (arith, null, real)
          ])
          λ real. elim got [
            | inl (null, _) ↦ ground (arith, null, real)
            | inr (_, (there, still)) ↦ after_read _ (trans-Reads x s1) λ t e.
                let t' : TransItem = record t {
                  is_enc = false;
                  p_activ_item = p;
                  usr_lport = ushort head.extra_param;
                } in
                let s2 : Server = record s1 { transs = write_at s1.transs x (some t') } in
                after_read _ (activ-Reads p s2) λ activ _.
                  after-Quiet _ (send-Quiet activ.bev_daemon head s2)
                    λ _ _ _. ended (still t' refl refl)
          ])
      λ _.
        rw (find_trans-scan s p head.extra_param a (session p head.extra_param a s sound here))
          (ended sound)

pub handle_ctl-Kept :
    (env : Env) (bev : Ptr) (head : CtlHead) (s : Server)
    → IsConsistent s
    → Kept (handle_ctl env bev head s)
unfolding handle_ctl
handle_ctl-Kept env bev head s sound =
    after_read _ (uuid_search-Reads head.mach_uuid s sound) λ p found.
      after_read _ (require-Reads (head.cmd == cmd_conn) s) λ _ _.
        branch (p == 0) _ _ s (λ _. ended sound)
          λ real. elim found [
            | inl null ↦ ground (arith, null, real)
            | inr (a, here) ↦
                let s1 : Server = record s { trace = s.trace ++ frees bev ∷ [] } in
                after (conn_trans-Kept p head a s1 sound here) λ x s2 sound2.
                  branch (x == 0) _ _ s2 (λ _. ended sound2)
                    λ _. after (calloc-Kept s2 sound2) λ c s3 sound3.
                      branch (c == 0) _ _ s3 (λ _. ended sound3)
                        λ _. end-Quiet (hand_over-Quiet env bev head x _ s3) λ _ _ _. sound3
          ]

pub handle_proxy-Kept :
    (env : Env) (cmd letter : ℕ) (bev : Ptr) (head : CtlHead) (packet : Option (List ℕ))
    (s : Server)
    → IsConsistent s
    → Kept (handle_proxy env cmd letter bev head packet s)
unfolding handle_proxy
handle_proxy-Kept env cmd letter bev head none s sound = ended sound
handle_proxy-Kept env cmd letter bev head (some packet) s sound =
    branch (not (head.cmd == cmd) || (head.direct == usr_daemon)) _ _ s (λ _. ended sound)
      λ _. elim (Option-cases (env.rsa_private_decrypt (take head.dat_len packet))) [
        | inl e ↦ rw e (ended sound)
        | inr (out, e) ↦ rw e (
            after_read _ (uuid_search-Reads head.mach_uuid s sound) λ p found.
              branch (p == 0) _ _ s (λ _. ended sound)
                λ real. elim found [
                  | inl null ↦ ground (arith, null, real)
                  | inr (a, here) ↦
                      after (create_trans-Ensures p head.extra_param a s sound here) λ x s1 got.
                        branch (x == 0) _ _ s1
                          (λ null. elim got [
                            | inl (_, still) ↦ ended still
                            | inr (real', _) ↦ ground (arith, null, real')
                          ])
                          λ real'. elim got [
                            | inl (null, _) ↦ ground (arith, null, real')
                            | inr (_, (there, still)) ↦ after_read _ (trans-Reads x s1) λ t e'.
                                let t' : TransItem = record t {
                                  is_enc = true;
                                  p_activ_item = p;
                                  usr_lport = ushort head.extra_param;
                                  bev_d = bev;
                                  bev_u = 0;
                                  request = some (decrypted head.dat_len out);
                                } in
                                let s2 : Server = record s1 {
                                  transs = write_at s1.transs x (some t');
                                } in
                                after (calloc-Kept s2 (still t' refl refl)) λ c s3 sound3.
                                  branch (c == 0) _ _ s3 (λ _. ended sound3)
                                    λ _.
                                      end-Quiet
                                        (hand_over-Quiet env bev head x letter
                                          (record s3 { trace = s3.trace ++ frees bev ∷ [] }))
                                        λ _ _ _. sound3
                          ]
                ])
      ]
