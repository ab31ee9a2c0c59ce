-- ===== src/Server/Trans/Live.antt =====
-- Bufferevents that are freed one after the other (`bufferevent_free` in
-- server/source/sshinner_s_data.c).
use mathlib.Core.List.{append-nil}
use sshinner.Base.{
  ℕ, ◌≡◌, refl, ◌⊎◌, inl, inr, Bool, Bool-cases, true, false, not, ◌&&◌, none, some, List, [], ◌∷◌,
  ◌++◌, arith, ◌==◌, if◌then◌else◌, has, Option, ◌∉◌,
}
use sshinner.Run.{ok, stop, faulted}
use sshinner.Server.{Ptr, TransItem, Server, Effect, frees, closes, find_at, write_at}
use sshinner.Server.Trans.{freed_by, freed_after, is_freed, free_live}
use sshinner.Server.Trans.Ports.{Transs}
use sshinner.Server.Trans.Release.{freed}

-- None of some bufferevents is freed, and none is there twice.
abbrev pub all_live : List Effect → List Ptr → Bool
all_live trace [] = true
all_live trace (b ∷ bs) = not (is_freed b trace) && not (has b bs) && all_live trace bs

-- A bufferevent, where it is there, before others.
abbrev pub with_bev : Ptr → List Ptr → List Ptr
with_bev bev bs = if bev == 0 then bs else bev ∷ bs

-- The bufferevents of the transfers of a list.
abbrev pub bevs : Transs → List Ptr → List Ptr
bevs f [] = []
bevs f (p ∷ ps) = elim (find_at f p) [
  | none ↦ bevs f ps
  | some t ↦ with_bev t.bev_d (with_bev t.bev_u (bevs f ps))
]

pub bevs-write :
    (f : Transs) (x : Ptr) (c : Option TransItem) (ps : List Ptr)
    → x ∉ ps
    → bevs (write_at f x c) ps ≡ bevs f ps
bevs-write f x c [] o = refl
bevs-write f x c (p ∷ ps) o = ground (arith, bevs-write f x c ps)

freed_after-append :
    (b : Ptr) (was : Bool) (es : List Effect) (e : Effect)
    → freed_after b was (es ++ e ∷ []) ≡ freed_by b e (freed_after b was es)
unfolding freed_after
freed_after-append b was [] e = refl
freed_after-append b was (x ∷ es) e = freed_after-append b (freed_by b x was) es e

-- Others stay as they were when one is freed.
all_live-frees :
    (b : Ptr) (trace : List Effect) (bs : List Ptr)
    → all_live (trace ++ frees b ∷ []) bs ≡ (not (has b bs) && all_live trace bs)
all_live-frees b trace [] = refl
all_live-frees b trace (x ∷ bs) =
    rw (freed_after-append x false trace (frees b), all_live-frees b trace bs)
      (elim (Bool-cases (b == x)) [ inl e ↦ ground (arith, e) | inr n ↦ ground (arith, n) ])

pub all_live-closes :
    (fd : ℕ) (trace : List Effect) (bs : List Ptr)
    → all_live (trace ++ closes fd ∷ []) bs ≡ all_live trace bs
all_live-closes fd trace [] = refl
all_live-closes fd trace (x ∷ bs) =
    rw (freed_after-append x false trace (closes fd), all_live-closes fd trace bs) refl

module _ (bev : Ptr) (bs : List Ptr) (s : Server) where
  -- Where all are live, the first is freed, and the others are still live.
  pub free_live-live :
      all_live s.trace (with_bev bev bs) ≡ true
      → (free_live bev s ≡ ok tt (record s { trace = s.trace ++ freed bev }))
        × (all_live (s.trace ++ freed bev) bs ≡ true)
  unfolding free_live
  free_live-live live = elim (Bool-cases (bev == 0)) [
    | inl null ↦ rw (null, append-nil s.trace) (refl, ground (arith, null, live))
    | inr real ↦
        let fresh : is_freed bev s.trace ≡ false = ground (arith, real, live) in
        rw (real, fresh, all_live-frees bev s.trace bs) (refl, ground (arith, real, live))
  ]

  -- Where one is not, the first is not freed, or one of the others is then not live.
  pub free_live-dead :
      all_live s.trace (with_bev bev bs) ≡ false
      → (free_live bev s ≡ stop faulted)
        ⊎ ((free_live bev s ≡ ok tt (record s { trace = s.trace ++ freed bev }))
            × (all_live (s.trace ++ freed bev) bs ≡ false))
  unfolding free_live
  free_live-dead dead = elim (Bool-cases (bev == 0)) [
    | inl null ↦ rw (null, append-nil s.trace) (inr (refl, ground (arith, null, dead)))
    | inr real ↦ elim (Bool-cases (is_freed bev s.trace)) [
      | inl gone ↦ rw (real, gone) (inl refl)
      | inr fresh ↦
          rw (real, fresh, all_live-frees bev s.trace bs)
            (inr (refl, ground (arith, real, fresh, dead)))
    ]
  ]

-- What it may do at all.
pub free_live-cases :
    (bev : Ptr) (s : Server)
    → (free_live bev s ≡ stop faulted)
      ⊎ (free_live bev s ≡ ok tt (record s { trace = s.trace ++ freed bev }))
free_live-cases bev s = elim (Bool-cases (all_live s.trace (with_bev bev []))) [
  | inl live ↦ inr (free_live-live bev [] s live).0
  | inr dead ↦ elim (free_live-dead bev [] s dead) [
    | inl stops ↦ inl stops
    | inr (frees_it, left) ↦ inr frees_it
  ]
]
