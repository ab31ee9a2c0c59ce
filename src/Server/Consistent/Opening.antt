-- ===== src/Server/Consistent/Opening.antt =====
-- A transfer that `ss_create_trans` makes, before it is given its session.
use mathlib.Core.Path.{subst}
use sshinner.Base.{
  ℕ, ◌≡◌, ◌≢◌, refl, sym, ◌⊎◌, inl, inr, true, false, Bool-cases, none, some, List, [], ◌∷◌, ◌==◌,
  arith,
}
use sshinner.Run.{ok}
use sshinner.Run.Ensures.{Ensures, ended}
use sshinner.Server.{Ptr, TransItem, ActivItem, Server, zero_trans, find_at, write_at}
use sshinner.Server.Trans.{ushort, create_trans}
use sshinner.Server.Trans.Ports.{scan, IsSession, find_trans-scan, create_free, after_create}
use sshinner.Server.Trans.Release.{write-write}
use sshinner.Server.Consistent.{Sound, IsConsistent}
use sshinner.Server.Consistent.Transfers.{Sound-open}
use sshinner.Server.Consistent.Sessions.{Sound-skip}

-- A transfer that has a port, and is to be given its session.
abbrev pub Awaits : Ptr → ℕ → Ptr → Server → Type 0
Awaits p l x s =
    (find_at s.transs x ≡ some (record zero_trans { usr_lport = ushort l }))
    × ((t : TransItem)
        → t.p_activ_item ≡ p
        → t.usr_lport ≡ ushort l
        → Sound s.uuid_tree s.activs (write_at s.transs x (some t)) s.supply)

supply_cases : (xs : List Ptr) → (xs ≡ []) ⊎ ((x : Ptr) × (rest : List Ptr) × (xs ≡ x ∷ rest))
supply_cases [] = inl refl
supply_cases (x ∷ xs) = inr (x, xs, refl)

module _ (p l : ℕ) (a : ActivItem) (s : Server) (sound : IsConsistent s)
    (here : find_at s.activs p ≡ some a) where
  pub session : IsSession s p a
  session = record { here = here; apart = sound.apart p a here }

  create_used : (scan s.transs (ushort l) a.trans == 0) ≡ false → create_trans p l s ≡ ok 0 s
  unfolding create_trans
  create_used used = ground (arith, here, find_trans-scan s p l a session)

  create_empty : s.supply ≡ [] → create_trans p l s ≡ ok 0 s
  unfolding create_trans
  create_empty e = ground (arith, here, find_trans-scan s p l a session)

  create_null :
      (x : Ptr) (rest : List Ptr)
      → s.supply ≡ x ∷ rest
      → (x == 0) ≡ true
      → (scan s.transs (ushort l) a.trans == 0) ≡ true
      → create_trans p l s ≡ ok 0 (record s { supply = rest })
  unfolding create_trans
  create_null x rest e null free = ground (arith, here, find_trans-scan s p l a session)

  module _ (x : Ptr) (rest : List Ptr) (e : s.supply ≡ x ∷ rest) (real : (x == 0) ≡ false)
      (free : (scan s.transs (ushort l) a.trans == 0) ≡ true) where
    skipped : Sound s.uuid_tree s.activs s.transs (x ∷ rest)
    skipped = rw e at sound

    x_real : x ≢ 0
    x_real h = ground arith

    x_unused : s.transs x ≡ none
    x_unused = ground (arith, skipped.fresh.0)

    abbrev made : Server
    made = after_create s p l x rest a session e x_real x_unused

    made-Awaits : Awaits p l x made
    made-Awaits = (
      ground arith,
      λ t owner port.
          subst (λ g. Sound s.uuid_tree made.activs g rest)
            (sym (write-write s.transs x _ (some t)))
            (Sound-open s.uuid_tree s.activs s.transs p x rest skipped real a t here owner
              (ground (arith, port)) (ground (arith, port, free))),
    )

    create_made :
        Ensures
          (λ x s'. (((x == 0) ≡ true) × IsConsistent s') ⊎ (((x == 0) ≡ false) × Awaits p l x s'))
          (create_trans p l s)
    create_made =
        rw (create_free s p l x rest a session e x_real x_unused free)
          (ended (inr (real, made-Awaits)))

  pub create_trans-Ensures :
      Ensures
        (λ x s'. (((x == 0) ≡ true) × IsConsistent s') ⊎ (((x == 0) ≡ false) × Awaits p l x s'))
        (create_trans p l s)
  create_trans-Ensures = elim (Bool-cases (scan s.transs (ushort l) a.trans == 0)) [
    | inr used ↦ rw (create_used used) (ended (inl (refl, sound)))
    | inl free ↦ elim (supply_cases s.supply) [
      | inl e ↦ rw (create_empty e) (ended (inl (refl, sound)))
      | inr (x, rest, e) ↦ elim (Bool-cases (x == 0)) [
        | inl null ↦
            rw (create_null x rest e null free)
              (ended (inl (refl, Sound-skip s.uuid_tree s.activs s.transs x rest (rw e at sound))))
        | inr real ↦ create_made x rest e real free
      ]
    ]
  ]
