-- ===== src/Server/Init/Opened.antt =====
-- The session that the initialisation packet of a DAEMON client opens.
use mathlib.Core.List.{append_assoc}
use mathlib.Core.Path.{subst}
use sshinner.Base.{
  ℕ, suc, ◌≡◌, ◌≢◌, refl, sym, ap, ◌∙◌, Bool, true, false, ◌&&◌, Option, none, some, List, [], ◌∷◌,
  ◌++◌, arith, ◌==◌, if◌then◌else◌, ==_false,
}
use sshinner.Run.{Run, pure, ok, and_then, ◌>>◌, stop, Returns, returns, bind}
use sshinner.Protocol.{CtlHead, zero_head, usr_daemon, cmd_ok}
use sshinner.Crypt.{encrypt_init}
use sshinner.Server.{
  Ptr, ActivItem, AcctItem, Tree, Srv, Env, Server, zero_activ, find_at, write_at, sends, binds,
  enables, main_cbs,
}
use sshinner.Server.Memory.{calloc, put_activ, emit}
use sshinner.Server.Account.Names.{AllLive, first_acct, find_acct_item-first}
use sshinner.Server.Uuid.{uuid_search, uuid_insert}
use sshinner.Server.Uuid.Search.{uuid_search-find}
use sshinner.Server.Uuid.Sequence.{Activs, Rising, in_order, key, find_uuid}
use sshinner.Server.Uuid.Rewrite.{Rising-write, find_uuid-write}
use sshinner.Server.Uuid.Update.{IsIndexed, KeepsOrder, Inserted, uuid_search-insert}
use sshinner.Server.Consistent.Sessions.{Rising-write_new}
use sshinner.Server.Init.{send_head_cmd, find_or_add_acct, init_daemon}

find_uuid-write_new :
    (f : Activs) (x v : ℕ) (c : Option ActivItem) (low : ℕ) (ps : List Ptr)
    → f x ≡ none
    → Rising f low ps
    → find_uuid (write_at f x c) v ps ≡ find_uuid f v ps
find_uuid-write_new f x v c low [] e r = refl
find_uuid-write_new f x v c low (p ∷ ps) e (live, at_least, rest) =
    ground (arith, live, find_uuid-write_new f x v c (suc (key f p)) ps e rest)

-- The reply that the client waits for.
abbrev pub reply_head : CtlHead → CtlHead
reply_head head = record zero_head {
  direct = usr_daemon;
  cmd = cmd_ok;
  extra_param = head.extra_param;
  mach_uuid = head.mach_uuid;
  usrport = head.usrport;
  daemonport = head.daemonport;
}

abbrev found_of : Run Server Ptr → Ptr
found_of (ok p s) = p
found_of (stop w) = 0

module _ (name : List ℕ) (number : ℕ) (s : Server) (live : AllLive s s.acct_items) where
  -- An account that the user goes by is taken.
  pub find_or_add_acct_known :
      (g : Ptr)
      → g ≢ 0
      → first_acct s name number s.acct_items ≡ g
      → find_or_add_acct name number s ≡ ok g s
  unfolding find_or_add_acct
  find_or_add_acct_known g real e = ground (arith, e, find_acct_item-first s name number live)

  abbrev pub with_acct : Ptr → List Ptr → Server
  with_acct g rest = record s {
    supply = rest;
    accts = write_at s.accts g (some (record { username = name; userid = number; items = [] }));
    acct_items = s.acct_items ++ g ∷ [];
  }

  -- A user who goes by no account is given one.
  pub find_or_add_acct_new :
      (g : Ptr) (rest : List Ptr)
      → g ≢ 0
      → first_acct s name number s.acct_items ≡ 0
      → s.supply ≡ g ∷ rest
      → find_or_add_acct name number s ≡ ok g (with_acct g rest)
  unfolding find_or_add_acct calloc
  find_or_add_acct_new g rest real e memory =
      rw (find_acct_item-first s name number live, e, memory) (ground arith)

module _ (env : Env) (rb : KeepsOrder env) (bev : Ptr) (head : CtlHead) (name : List ℕ) (number : ℕ)
    (s0 s : Server) (indexed : IsIndexed s) (g p : Ptr) (rest : List Ptr) (acct : AcctItem)
    (bev_real : bev ≢ 0) (owner : find_or_add_acct name number s0 ≡ ok g s)
    (here : find_at s.accts g ≡ some acct)
    (free : find_uuid s.activs head.mach_uuid (in_order s.uuid_tree) ≡ 0)
    (memory : s.supply ≡ p ∷ rest) (p_real : p ≢ 0) (unused : s.activs p ≡ none) where
  abbrev fresh : ActivItem
  fresh = record zero_activ {
    p_acct = g;
    mach_uuid = head.mach_uuid;
    enc_key = elim (encrypt_init env.evp (env.id128_text head.mach_uuid)) [
      | none ↦ zero_activ.enc_key
      | some k ↦ k
    ];
  }

  -- The session is found by its machine id, and every other one as before; the account lists it, and
  -- the client has its reply.
  abbrev pub Opened : Server → Type 0
  Opened s' =
      (find_at s'.activs p ≡ some (record fresh { bev_daemon = bev }))
      × (find_at s'.accts g ≡ some (record acct { items = acct.items ++ p ∷ [] }))
      × ((v : ℕ)
          → uuid_search v s'.uuid_tree s'
            ≡ ok (if v == head.mach_uuid then p else find_uuid s.activs v (in_order s.uuid_tree))
                s')
      × (s'.trace
          ≡ s.trace ++ sends bev (reply_head head) ∷ binds bev main_cbs p ∷ enables bev ∷ [])

  abbrev stored : Server
  stored = record s {
    supply = rest;
    activs = write_at s.activs p (some fresh);
    accts = write_at s.accts g (some (record acct { items = acct.items ++ p ∷ [] }));
  }

  stored-IsIndexed : IsIndexed stored
  stored-IsIndexed =
      Rising-write_new s.activs p (some fresh) 0 (in_order s.uuid_tree) unused indexed

  inserted : Returns (Inserted stored p) (uuid_insert env p stored)
  inserted = uuid_search-insert env rb stored p stored-IsIndexed (fresh, ground arith)

  found_lem : uuid_search head.mach_uuid s.uuid_tree s ≡ ok 0 s
  found_lem = uuid_search-find s head.mach_uuid 0 s.uuid_tree indexed ∙ ap (λ r. ok r s) free

  acct_real : (g == 0) ≡ false
  acct_real = ground (arith, here)

  acct_there : s.accts g ≡ some acct
  acct_there = ground (arith, here)

  -- What is done behind the insertion.
  abbrev finish : Srv Bool
  finish = do
    put_activ p (some (record fresh { bev_daemon = bev }))
    send_head_cmd bev head cmd_ok usr_daemon head.extra_param
    emit (binds bev main_cbs p)
    emit (enables bev)
    pure true

  init_daemon_lem :
      init_daemon env bev head name number s0 ≡ and_then (uuid_insert env p stored) (λ _. finish)
  unfolding init_daemon calloc
  init_daemon_lem =
      rw (owner, acct_real, found_lem, memory, ==_false p 0 p_real, acct_real, acct_there) refl

  abbrev end : Tree → Server
  end t = record stored {
    uuid_tree = t;
    activs = write_at stored.activs p (some (record fresh { bev_daemon = bev }));
    trace =
        ((s.trace ++ sends bev (reply_head head) ∷ []) ++ binds bev main_cbs p ∷ [])
        ++ enables bev ∷ [];
  }

  finish_lem : (t : Tree) → finish (record stored { uuid_tree = t }) ≡ ok true (end t)
  unfolding send_head_cmd
  finish_lem t = rw (==_false bev 0 bev_real) refl

  place :
      (v : ℕ)
      → find_uuid stored.activs v (in_order s.uuid_tree)
        ≡ find_uuid s.activs v (in_order s.uuid_tree)
  place v = find_uuid-write_new s.activs p v (some fresh) 0 (in_order s.uuid_tree) unused indexed

  key_lem : key stored.activs p ≡ head.mach_uuid
  key_lem = ground (arith, p_real)

  stored_there : find_at stored.activs p ≡ some fresh
  stored_there = ground (arith, p_real)

  search_lem :
      (done : Bool) (t : Tree)
      → Inserted stored p done (record stored { uuid_tree = t })
      → (v : ℕ)
      → uuid_search v t (end t)
        ≡ ok
            (if v == head.mach_uuid then p else find_uuid s.activs v (in_order s.uuid_tree))
            (end t)
  search_lem done t after v =
      let (still, was, found, same) = after in
      let fresh' : ActivItem = record fresh { bev_daemon = bev } in
      let still' =
        Rising-write stored.activs p fresh fresh' stored_there refl 0 (in_order t) still in
      let in_stored : find_uuid stored.activs v (in_order t) ≡ (
          if done && (v == key stored.activs p)
          then p
          else find_uuid stored.activs v (in_order s.uuid_tree)) =
        ap found_of
          (sym (uuid_search-find (record stored { uuid_tree = t }) v 0 t still) ∙ found v) in
      let was' : done ≡ true =
        was
        ∙ ap (λ k. find_uuid stored.activs k (in_order s.uuid_tree) == 0) key_lem
        ∙ ap (λ n. n == 0) (place head.mach_uuid ∙ free) in
      uuid_search-find (end t) v 0 t still'
      ∙ ap (λ q. ok q (end t))
          (find_uuid-write stored.activs p fresh fresh' stored_there refl v (in_order t)
            ∙ in_stored
            ∙ rw (was', key_lem, place v) refl)

  end-Opened :
      (done : Bool) (t : Tree)
      → Inserted stored p done (record stored { uuid_tree = t })
      → Opened (end t)
  end-Opened done t after = (
    ground (arith, p_real),
    ground (arith, acct_real),
    search_lem done t after,
    simp append_assoc,
  )

  pub init_daemon-Opened :
      Returns (λ done s'. (done ≡ true) × Opened s') (init_daemon env bev head name number s0)
  init_daemon-Opened = rw init_daemon_lem (
      bind inserted λ done s' after.
        let same : s' ≡ record stored { uuid_tree = s'.uuid_tree } = after.3 in
        subst (λ q. Returns (λ done s'. (done ≡ true) × Opened s') (finish q)) (sym same)
          (rw (finish_lem s'.uuid_tree) (
            returns
              (refl, end-Opened done s'.uuid_tree (subst (Inserted stored p done) same after)))))
