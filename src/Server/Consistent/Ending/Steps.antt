-- ===== src/Server/Consistent/Ending/Steps.antt =====
-- The steps of the end of a session: its node of the tree, its account, and the other connection
-- (`activ_item_remove` in server/source/sshinner_s_data.c, `main_bufferevent_cb` in
-- server/source/sshinner_s_event.c).
use sshinner.Base.{
  ℕ, suc, ◌≡◌, refl, ◌∙◌, inl, inr, Bool, ◌++◌, true, false, not, Bool-cases, Option, some, List,
  [], ◌∷◌, arith, ◌==◌, has, erase, ◌∈◌, ◌∉◌,
}
use sshinner.Run.{stop, faulted, Run, ok, and_then, Returns}
use sshinner.Server.{Ptr, ActivItem, AcctItem, Env, Server, Effect, Srv, find_at, write_at}
use sshinner.Server.Account.{acct_remove_in, acct_remove}
use sshinner.Server.Trans.{is_empty}
use sshinner.Server.Trans.Release.{freed}
use sshinner.Server.Trans.Live.{all_live, with_bev, free_live-live, free_live-dead, all_live-closes}
use sshinner.Server.Uuid.Sequence.{Activs, Rising, key, find_uuid}
use sshinner.Server.Uuid.Update.{key_above}
use sshinner.Server.Dispatch.{close_peer}
use sshinner.Server.Consistent.Quietly.{Aside, beside}

module _ (f : Activs) where
  -- A session of the sequence is found by its machine id.
  pub find_uuid_self :
      (p low : ℕ) (ps : List Ptr) → Rising f low ps → p ∈ ps → find_uuid f (key f p) ps ≡ p
  find_uuid_self p low [] r i = cc
  find_uuid_self p low (q ∷ qs) (live, at_least, rest) i =
      ground (
        arith,
        live,
        key_above f (suc (key f q)) p qs rest,
        find_uuid_self p (suc (key f q)) qs rest,
      )

  pub find_uuid-write_absent :
      (p v : ℕ) (c : Option ActivItem) (ps : List Ptr)
      → p ∉ ps
      → find_uuid (write_at f p c) v ps ≡ find_uuid f v ps
  find_uuid-write_absent p v c [] o = refl
  find_uuid-write_absent p v c (q ∷ qs) o = ground (arith, find_uuid-write_absent p v c qs)

  pub absent_erase : (p low : ℕ) (ps : List Ptr) → Rising f low ps → p ∉ erase p ps
  absent_erase p low [] r = refl
  absent_erase p low (q ∷ qs) (live, at_least, rest) = elim (Bool-cases (has p qs)) [
    | inl i ↦
        ground
          (arith, key_above f (suc (key f q)) p qs rest i, absent_erase p (suc (key f q)) qs rest)
    | inr o ↦ ground (arith, absent_erase p (suc (key f q)) qs rest)
  ]

-- A run that ends beside the state that it began in.
pub data Beside {A : Type 0} (s : Server) : Run Server A → Type 0 where
  ends_beside : {a : A} {r : Aside} → Beside s (ok a (beside s r))

pub after-Beside :
    {A B : Type 0} {Q : B → Server → Type 0} {s : Server} {r : Run Server A} (k : A → Srv B)
    → Beside s r
    → ((a : A) (aside : Aside) → Returns Q (k a (beside s aside)))
    → Returns Q (and_then r k)
after-Beside k (ends_beside {a} {r}) rest = rest a r

acct_remove_in-Beside : (p : Ptr) (ps : List Ptr) (s : Server) → Beside s (acct_remove_in p ps s)
unfolding acct_remove_in
acct_remove_in-Beside p [] s = ends_beside
acct_remove_in-Beside p (q ∷ qs) s = elim (Bool-cases (q == p)) [
  | inl e ↦ rw e ends_beside
  | inr e ↦ rw e (acct_remove_in-Beside p qs s)
]

pub acct_remove-Beside :
    (p : Ptr) (acct : AcctItem) (s : Server)
    → find_at s.accts p ≡ some acct
    → Beside s (acct_remove p s)
unfolding acct_remove
acct_remove-Beside p acct s here = rw here (elim (Bool-cases (not (is_empty acct.items))) [
  | inl e ↦ rw e ends_beside
  | inr e ↦ rw e (acct_remove_in-Beside p s.acct_items s)
])

-- A run that ends, has only done something outside, and behind which some bufferevents are all live or not;
-- or one that stops because of them.
pub data Outside (bs : List Ptr) (live : Bool) (s : Server) : Run Server (Unit {0}) → Type 0 where
  outside :
      {trace : List Effect}
      → all_live trace bs ≡ live
      → Outside bs live s (ok tt (record s { trace = trace }))
  at_once : live ≡ false → Outside bs live s (stop faulted)

pub close_peer-Outside :
    (env : Env) (peer : Ptr) (bs : List Ptr) (live : Bool) (s : Server)
    → all_live s.trace (with_bev peer bs) ≡ live
    → Outside bs live s (close_peer env peer s)
unfolding close_peer
close_peer-Outside env peer bs true s e = elim (Bool-cases (peer == 0)) [
  | inl null ↦ let e' : all_live s.trace bs ≡ true = ground (arith, e, null) in rw null (outside e')
  | inr real ↦
      let (one, left) = free_live-live peer bs s e in
      rw (real, one) (outside (all_live-closes (env.getfd peer) (s.trace ++ freed peer) bs ∙ left))
]
close_peer-Outside env peer bs false s e = elim (Bool-cases (peer == 0)) [
  | inl null ↦
      let e' : all_live s.trace bs ≡ false = ground (arith, e, null) in rw null (outside e')
  | inr real ↦ elim (free_live-dead peer bs s e) [
    | inl stops ↦ rw (real, stops) (at_once refl)
    | inr (one, left) ↦
        rw (real, one)
          (outside (all_live-closes (env.getfd peer) (s.trace ++ freed peer) bs ∙ left))
  ]
]
