-- ===== src/Server/Trans/Drain.antt =====
-- `ss_free_all_trans`: a session without transfers is left.
use mathlib.Core.List.{append-nil, append_assoc}
use sshinner.Base.{
  ◌≡◌, refl, sym, ap, ◌∙◌, ◌⊎◌, inl, inr, Bool, Bool-cases, true, false, Option, none, some, List,
  [], ◌∷◌, ◌++◌, arith, ◌==◌, if◌then◌else◌, erase, has, ◌∉◌,
}
use sshinner.Run.{Run, ok, stop, faulted, Returns, returns, weaken, bind}
use sshinner.Server.{Ptr, TransItem, ActivItem, Server, Effect, find_at, write_at}
use sshinner.Server.Trans.{is_empty, free_each, free_all_trans, free_ctxs, free_live}
use sshinner.Server.Trans.Live.{
  all_live, with_bev, bevs, bevs-write, free_live-live, free_live-dead,
}
use sshinner.Server.Trans.Ports.{Transs, port, Apart, Apart-write, port_ne, IsSession}
use sshinner.Server.Trans.Release.{freed}

-- The bufferevents of the transfers of a list, in the order in which they are freed.
abbrev pub freed_all : Transs → List Ptr → List Effect
freed_all f [] = []
freed_all f (p ∷ ps) =
    (elim (find_at f p) [ none ↦ [] | some t ↦ freed t.bev_d ++ freed t.bev_u ]) ++ freed_all f ps

freed_all-write :
    (f : Transs) (x : Ptr) (c : Option TransItem) (ps : List Ptr)
    → x ∉ ps
    → freed_all (write_at f x c) ps ≡ freed_all f ps
freed_all-write f x c [] o = refl
freed_all-write f x c (p ∷ ps) o = ground (arith, freed_all-write f x c ps)

-- What is left of the session `a` at `p` when the transfers `ps` have been freed.
abbrev pub Drained : Server → Ptr → ActivItem → List Ptr → Server → Type 0
Drained s p a ps s' =
    (find_at s'.activs p ≡ some (record a { trans = [] }))
    × ((q : Ptr) → (q == p) ≡ false → s'.activs q ≡ s.activs q)
    × ((x : Ptr) → s'.transs x ≡ (if has x ps then none else s.transs x))
    × (s'.trace ≡ s.trace ++ freed_all s.transs ps)

-- The state behind one round of the loop.
abbrev after_round : Server → Ptr → ActivItem → Ptr → TransItem → List Ptr → Server
after_round s p a x t xs = record s {
  activs = write_at s.activs p (some (record a { trans = xs }));
  transs = write_at (write_at s.transs x (some (free_ctxs t))) x none;
  trace = (s.trace ++ freed t.bev_d) ++ freed t.bev_u;
}

module _ (p : Ptr) where
  -- The state before the second bufferevent of a round is freed.
  abbrev mid_round : Server → Ptr → TransItem → Server
  mid_round s x t = record s {
    transs = write_at s.transs x (some (free_ctxs t));
    trace = s.trace ++ freed t.bev_d;
  }

  module _ (x : Ptr) (xs : List Ptr) (s : Server) (a : ActivItem) (t : TransItem)
      (here : find_at s.activs p ≡ some a) (all : a.trans ≡ x ∷ xs)
      (e : find_at s.transs x ≡ some t) where
    abbrev begun : Server
    begun = record s { transs = write_at s.transs x (some (free_ctxs t)) }

    free_each_round :
        free_live t.bev_d begun ≡ ok tt (mid_round s x t)
        → free_live t.bev_u (mid_round s x t)
          ≡ ok tt (record (mid_round s x t) { trace = (s.trace ++ freed t.bev_d) ++ freed t.bev_u })
        → free_each p (x ∷ xs) s ≡ free_each p xs (after_round s p a x t xs)
    unfolding free_each
    free_each_round one two =
        let rest : erase x a.trans ≡ xs = ground (arith, all) in rw (e, one, two, here, rest) refl

    free_each_first : free_live t.bev_d begun ≡ stop faulted → free_each p (x ∷ xs) s ≡ stop faulted
    unfolding free_each
    free_each_first one = rw (e, one) refl

    free_each_second :
        free_live t.bev_d begun ≡ ok tt (mid_round s x t)
        → free_live t.bev_u (mid_round s x t) ≡ stop faulted
        → free_each p (x ∷ xs) s ≡ stop faulted
    unfolding free_each
    free_each_second one two = rw (e, one, two) refl

  free_each_end : (s : Server) → free_each p [] s ≡ ok tt s
  unfolding free_each
  free_each_end s = refl

  Drained-cons :
      (x : Ptr) (xs : List Ptr) (s : Server) (a : ActivItem) (t : TransItem) (s' : Server)
      → find_at s.transs x ≡ some t
      → x ∉ xs
      → Drained (after_round s p a x t xs) p (record a { trans = xs }) xs s'
      → Drained s p a (x ∷ xs) s'
  Drained-cons x xs s a t s' e o (emptied, others, cells, trace) = (
    emptied,
    λ q n. ground (arith, others q n),
    λ y. ground (arith, cells y),
    trace
        ∙ ap (◌++◌ ((s.trace ++ freed t.bev_d) ++ freed t.bev_u)) unseen
        ∙ rw (e, append_assoc s.trace (freed t.bev_d) (freed t.bev_u))
            (append_assoc s.trace (freed t.bev_d ++ freed t.bev_u) (freed_all s.transs xs)),
  )
    where
      unseen :
          freed_all (write_at (write_at s.transs x (some (free_ctxs t))) x none) xs
          ≡ freed_all s.transs xs
      unseen =
          freed_all-write (write_at s.transs x (some (free_ctxs t))) x none xs o
          ∙ freed_all-write s.transs x (some (free_ctxs t)) xs o

  -- The others of a list are seen as before a round.
  unseen_round :
      (x : Ptr) (xs : List Ptr) (s : Server) (t : TransItem)
      → x ∉ xs
      → bevs (write_at (write_at s.transs x (some (free_ctxs t))) x none) xs ≡ bevs s.transs xs
  unseen_round x xs s t o =
      bevs-write (write_at s.transs x (some (free_ctxs t))) x none xs o
      ∙ bevs-write s.transs x (some (free_ctxs t)) xs o

  Apart-round :
      (x : Ptr) (xs : List Ptr) (s : Server) (t : TransItem)
      → x ∉ xs
      → Apart s.transs xs
      → Apart (write_at (write_at s.transs x (some (free_ctxs t))) x none) xs
  Apart-round x xs s t o rest =
      Apart-write (write_at s.transs x (some (free_ctxs t))) x none xs o
        (Apart-write s.transs x (some (free_ctxs t)) xs o rest)

  free_each_lem :
      (ps : List Ptr) (s : Server) (a : ActivItem)
      → find_at s.activs p ≡ some a
      → a.trans ≡ ps
      → Apart s.transs ps
      → all_live s.trace (bevs s.transs ps) ≡ true
      → Returns (λ _ s'. Drained s p a ps s') (free_each p ps s)
  free_each_lem [] s a here all r live =
      rw (free_each_end s)
        (returns (ground arith, λ q n. refl, λ x. refl, sym (append-nil s.trace)))
  free_each_lem (x ∷ xs) s a here all ((t, e), alone, rest) live =
      let o : x ∉ xs = ground (arith, e, port_ne s.transs x (port s.transs x) xs rest) in
      let live' : all_live s.trace (with_bev t.bev_d (with_bev t.bev_u (bevs s.transs xs))) ≡ true =
        ground (arith, e, live) in
      let (one, live1) =
        free_live-live t.bev_d (with_bev t.bev_u (bevs s.transs xs)) (begun x xs s a t here all e)
          live' in
      let (two, live2) = free_live-live t.bev_u (bevs s.transs xs) (mid_round s x t) live1 in
      rw (free_each_round x xs s a t here all e one two) (
        weaken
          (free_each_lem xs (after_round s p a x t xs) (record a { trans = xs })
            (ground (arith, here)) refl (Apart-round x xs s t o rest)
            (rw (unseen_round x xs s t o) live2))
          λ _ s' d. Drained-cons x xs s a t s' e o d)

  free_each-dead :
      (ps : List Ptr) (s : Server) (a : ActivItem)
      → find_at s.activs p ≡ some a
      → a.trans ≡ ps
      → Apart s.transs ps
      → all_live s.trace (bevs s.transs ps) ≡ false
      → free_each p ps s ≡ stop faulted
  free_each-dead [] s a here all r dead = ground (arith, dead)
  free_each-dead (x ∷ xs) s a here all ((t, e), alone, rest) dead =
      let o : x ∉ xs = ground (arith, e, port_ne s.transs x (port s.transs x) xs rest) in
      let dead' : all_live s.trace (with_bev t.bev_d (with_bev t.bev_u (bevs s.transs xs)))
          ≡ false =
        ground (arith, e, dead) in
      elim (free_live-dead t.bev_d (with_bev t.bev_u (bevs s.transs xs))
        (begun x xs s a t here all e) dead') [
          | inl first ↦ free_each_first x xs s a t here all e first
          | inr (one, dead1) ↦
              elim (free_live-dead t.bev_u (bevs s.transs xs) (mid_round s x t) dead1) [
                | inl second ↦ free_each_second x xs s a t here all e one second
                | inr (two, dead2) ↦
                    free_each_round x xs s a t here all e one two
                    ∙ free_each-dead xs (after_round s p a x t xs) (record a { trans = xs })
                        (ground (arith, here)) refl (Apart-round x xs s t o rest)
                        (rw (unseen_round x xs s t o) dead2)
              ]
        ]

is_empty-cases : (ps : List Ptr) → (ps ≡ []) ⊎ (is_empty ps ≡ false)
is_empty-cases [] = inl refl
is_empty-cases (p ∷ ps) = inr refl

-- The bufferevents of the session's transfers are freed, or one of them has been freed before.
abbrev pub Outcome : Server → Ptr → ActivItem → Run Server Bool → Type 0
Outcome s p a run =
    ((all_live s.trace (bevs s.transs a.trans) ≡ true)
      × Returns (λ r s'. (r ≡ true) × Drained s p a a.trans s') run)
    ⊎ ((all_live s.trace (bevs s.transs a.trans) ≡ false) × (run ≡ stop faulted))

-- Let a session have transfers with different ports. Where none of the transfers' bufferevents has been
-- freed before, and none is there twice, `ss_free_all_trans` returns with success and leaves the session
-- with no transfer. Its transfers, and no others, are gone from the store, and their bufferevents have
-- been freed in order, once each; no other session has changed. Otherwise it frees a bufferevent for a
-- second time, which stops the process.
pub free_all_trans-Drained :
    (s : Server) (p : Ptr) (a : ActivItem) → IsSession s p a → Outcome s p a (free_all_trans p s)
unfolding free_all_trans
free_all_trans-Drained s p a session = elim (is_empty-cases a.trans) [
  | inl e ↦
      let idle : free_all_trans p s ≡ ok true s = ground (arith, session.here) in
      rw idle (
        inl (
          ground arith,
          returns (
            refl,
            (
              ground (arith, session.here),
              λ q n. refl,
              λ x. ground arith,
              ground (arith, append-nil s.trace),
            ),
          ),
        ))
  | inr n ↦
      rw (session.here, n)
        (elim (Bool-cases (all_live s.trace (bevs s.transs a.trans))) [
          | inl live ↦ inl (
            live,
            bind (free_each_lem p a.trans s a session.here refl session.apart live)
                λ _ s' d. returns (refl, d),
          )
          | inr dead ↦
              inr
                (dead, rw (free_each-dead p a.trans s a session.here refl session.apart dead) refl)
        ])
]

-- Without one that has been freed before it returns.
pub free_all_trans-live :
    (s : Server) (p : Ptr) (a : ActivItem)
    → IsSession s p a
    → all_live s.trace (bevs s.transs a.trans) ≡ true
    → Returns (λ r s'. (r ≡ true) × Drained s p a a.trans s') (free_all_trans p s)
free_all_trans-live s p a session live = elim (free_all_trans-Drained s p a session) [
  | inl (same, drained) ↦ drained
  | inr (dead, stops) ↦ ground (arith, live, dead)
]

-- With one it stops.
pub free_all_trans-dead :
    (s : Server) (p : Ptr) (a : ActivItem)
    → IsSession s p a
    → all_live s.trace (bevs s.transs a.trans) ≡ false
    → free_all_trans p s ≡ stop faulted
free_all_trans-dead s p a session dead = elim (free_all_trans-Drained s p a session) [
  | inl (live, drained) ↦ ground (arith, live, dead)
  | inr (same, stops) ↦ stops
]
