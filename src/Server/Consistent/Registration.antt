-- ===== src/Server/Consistent/Registration.antt =====
-- The initialisation packet keeps the server's objects together.
use mathlib.Core.Path.{subst}
use sshinner.Base.{
  ℕ, ◌≡◌, refl, sym, ap, inl, inr, Bool, not, ◌&&◌, Option, Option-cases, none, some, List, [], ◌∷◌,
  ◌++◌, ◌==◌, length, arith, take, c_string,
}
use sshinner.Run.{Run}
use sshinner.Run.Ensures.{
  Ensures, ended, stopped, after, branch, after_read, Reads, reads, also_read, branch_read,
  deref-Reads, Returns-Ensures,
}
use sshinner.Protocol.{CtlHead, usr_daemon, daemon_usr, cmd_init, cmd_ok}
use sshinner.Crypt.{encrypt_init}
use sshinner.Server.{Ptr, Key, ActivItem, Tree, Env, Server, zero_activ, find_at, write_at}
use sshinner.Server.Account.{strncasecmp_eq, find_acct_in, find_acct_item}
use sshinner.Server.Trans.{is_empty}
use sshinner.Server.Trans.Ports.{Transs}
use sshinner.Server.Uuid.{uuid_insert}
use sshinner.Server.Uuid.Sequence.{Activs, Rising, in_order}
use sshinner.Server.Uuid.Update.{KeepsOrder, Inserted, uuid_search-insert}
use sshinner.Server.Init.{send_head_cmd, init_usr, find_or_add_acct, init_daemon, handle_init}
use sshinner.Server.Consistent.{Sound, IsConsistent, Kept}
use sshinner.Server.Consistent.Quietly.{
  Quiet, quiet, Any, after-Quiet, branch-Quiet, also-Quiet, send-Quiet, activ-Reads,
}
use sshinner.Server.Consistent.Writes.{Sound-activ}
use sshinner.Server.Consistent.Sessions.{Sound-new, Sound-skip}
use sshinner.Server.Consistent.Rules.{calloc-cases, calloc-Kept, uuid_search-Reads}

find_acct_in-Reads :
    (name : List ℕ) (number : ℕ) (ps : List Ptr) (s : Server)
    → Reads Any s (find_acct_in name number ps s)
unfolding find_acct_in
find_acct_in-Reads name number [] s = reads tt
find_acct_in-Reads name number (p ∷ ps) s =
    also_read _ (deref-Reads (find_at s.accts p) s) λ acct _.
      branch_read
        (strncasecmp_eq name acct.username (length acct.username) && (number == acct.userid)) _ _
        (λ _. reads tt) λ _. find_acct_in-Reads name number ps s

find_acct_item-Reads :
    (name : List ℕ) (number : ℕ) (s : Server) → Reads Any s (find_acct_item name number s)
unfolding find_acct_item
find_acct_item-Reads name number s =
    branch_read (is_empty s.acct_items) _ _ (λ _. reads tt)
      λ _. find_acct_in-Reads name number s.acct_items s

send_head_cmd-Quiet :
    (bev : Ptr) (head : CtlHead) (cmd direct extra_param : ℕ) (s : Server)
    → Quiet Any s (send_head_cmd bev head cmd direct extra_param s)
unfolding send_head_cmd
send_head_cmd-Quiet bev head cmd direct extra_param s =
    branch-Quiet (bev == 0) _ _ s (λ _. quiet tt)
      λ _. also-Quiet _ (send-Quiet bev _ s) λ _ _ _. quiet tt

init_usr-Kept :
    (env : Env) (bev : Ptr) (head : CtlHead) (name : List ℕ) (number : ℕ) (uuid_s : List ℕ)
    (s : Server)
    → IsConsistent s
    → Kept (init_usr env bev head name number uuid_s s)
unfolding init_usr
init_usr-Kept env bev head name number uuid_s s sound =
    elim (Option-cases (env.id128_from_string uuid_s)) [
      | inl e ↦ rw (e, init_usr) (ended sound)
      | inr (mach_uuid, e) ↦
          rw (e, init_usr)
            (after_read _ (find_acct_item-Reads name number s) λ p_acct _.
              branch (p_acct == 0) _ _ s (λ _. ended sound)
                λ _. after_read _ (uuid_search-Reads mach_uuid s sound) λ p _.
                  branch (p == 0) _ _ s (λ _. ended sound)
                    λ _. after_read _ (activ-Reads p s) λ a here.
                      let b : ActivItem = record a { bev_usr = bev } in
                      let s1 : Server = record s { activs = write_at s.activs p (some b) } in
                      after-Quiet _
                        (send_head_cmd-Quiet bev head cmd_ok daemon_usr head.extra_param s1)
                        λ _ _ _. ended (
                          Sound-activ s.uuid_tree s.activs s.transs s.supply sound p a b here refl
                            refl))
    ]

find_or_add_acct-Kept :
    (name : List ℕ) (number : ℕ) (s : Server)
    → IsConsistent s
    → Kept (find_or_add_acct name number s)
unfolding find_or_add_acct
find_or_add_acct-Kept name number s sound =
    after_read _ (find_acct_item-Reads name number s) λ found _.
      branch (not (found == 0)) _ _ s (λ _. ended sound)
        λ _.
          after (calloc-Kept s sound)
            λ p s1 sound1. branch (p == 0) _ _ s1 (λ _. ended sound1) λ _. ended sound1

retree :
    (tree tree' : Tree) (f : Activs) (g : Transs) (m : List Ptr)
    → Sound tree f g m
    → Rising f 0 (in_order tree')
    → Sound tree' f g m
retree tree tree' f g m sound indexed = record {
  indexed = indexed;
  apart = sound.apart;
  owner = sound.owner;
  listed = sound.listed;
  short = sound.short;
  fresh = sound.fresh;
}

-- A session that is in the store is put into the tree.
uuid_insert-Ensures :
    (env : Env)
    → KeepsOrder env
    → (x : Ptr) (a : ActivItem) (s : Server) → IsConsistent s
    → find_at s.activs x ≡ some a
    → Ensures (λ _ s'. IsConsistent s' × (find_at s'.activs x ≡ some a)) (uuid_insert env x s)
uuid_insert-Ensures env rb x a s sound here =
    after' (Returns-Ensures (uuid_search-insert env rb s x sound.indexed (a, here)))
  where
    after' :
        {r : Run Server Bool}
        → Ensures (Inserted s x) r
        → Ensures (λ _ s'. IsConsistent s' × (find_at s'.activs x ≡ some a)) r
    after' (ended {s = s'} (indexed, _, _, same)) = ended (
      subst IsConsistent (sym same) (
          retree s.uuid_tree s'.uuid_tree s.activs s.transs s.supply sound (
            subst (λ f. Rising f 0 (in_order s'.uuid_tree)) (ap (λ (q : Server). q.activs) same)
              indexed)),
      subst (λ (q : Server). find_at q.activs x ≡ some a) (sym same) here,
    )
    after' stopped = stopped

init_daemon-Kept :
    (env : Env)
    → KeepsOrder env
    → (bev : Ptr) (head : CtlHead) (name : List ℕ) (number : ℕ) (s : Server) → IsConsistent s
    → Kept (init_daemon env bev head name number s)
unfolding init_daemon
init_daemon-Kept env rb bev head name number s sound =
    after (find_or_add_acct-Kept name number s sound) λ p_acct s1 sound1.
      branch (p_acct == 0) _ _ s1 (λ _. ended sound1)
        λ _. after_read _ (uuid_search-Reads head.mach_uuid s1 sound1) λ taken _.
          branch (not (taken == 0)) _ _ s1 (λ _. ended sound1)
            λ _. elim (calloc-cases s1) [
              | inl e ↦ rw e (ended sound1)
              | inr (x, rest, e, run) ↦ rw run (
                  let skipped : Sound s1.uuid_tree s1.activs s1.transs (x ∷ rest) =
                    rw e at sound1 in
                  branch (x == 0) _ _ (record s1 { supply = rest })
                    (λ _. ended (Sound-skip s1.uuid_tree s1.activs s1.transs x rest skipped))
                    λ real.
                      let key = encrypt_init env.evp (env.id128_text head.mach_uuid) in
                      let activ : ActivItem = record zero_activ {
                        p_acct = p_acct;
                        mach_uuid = head.mach_uuid;
                        enc_key = elim key [ none ↦ zero_activ.enc_key | some k ↦ k ];
                      } in
                      let s2 : Server = record s1 {
                        supply = rest;
                        activs = write_at s1.activs x (some activ);
                      } in
                      let sound2 =
                        Sound-new s1.uuid_tree s1.activs s1.transs x rest skipped real activ refl in
                      after_read _ (deref-Reads (find_at s2.accts p_acct) s2) λ acct _.
                        let s3 : Server = record s2 {
                          accts =
                              write_at s2.accts p_acct
                                (some (record acct { items = acct.items ++ x ∷ [] }));
                        } in
                        after (uuid_insert-Ensures env rb x activ s3 sound2 (ground (arith, real)))
                          λ _ s4 (sound4, here).
                            let activ' : ActivItem = record activ { bev_daemon = bev } in
                            let s5 : Server = record s4 {
                              activs = write_at s4.activs x (some activ');
                            } in
                            after-Quiet _
                              (send_head_cmd-Quiet bev head cmd_ok usr_daemon head.extra_param s5)
                              λ _ _ _. ended (
                                Sound-activ s4.uuid_tree s4.activs s4.transs s4.supply sound4 x
                                  activ activ' here refl refl))
            ]

module _ (env : Env) (rb : KeepsOrder env) (held : Key → List ℕ) (bev : Ptr) (head : CtlHead) where
  pub handle_init-Kept :
      (packet : Option (List ℕ)) (s : Server)
      → IsConsistent s
      → Kept (handle_init env held bev head packet s)
  unfolding handle_init
  handle_init-Kept none s sound = ended sound
  handle_init-Kept (some packet) s sound =
      branch (not (head.cmd == cmd_init)) _ _ s (λ _. ended sound)
        λ _. elim (Option-cases (env.rsa_private_decrypt (take head.dat_len packet))) [
          | inl e ↦ rw e (ended sound)
          | inr (out, e) ↦ rw e (
              branch (not (env.json_parses (c_string out))) _ _ s (λ _. ended sound)
                λ _.
                  branch (head.direct == usr_daemon) _ _ s
                    (λ _. init_usr-Kept env bev head _ _ _ s sound)
                    λ _.
                      branch (head.direct == daemon_usr) _ _ s
                        (λ _. init_daemon-Kept env rb bev head _ _ s sound) λ _. ended sound)
        ]
