-- ===== src/Server/Uuid/Rewrite.antt =====
-- The order of the sessions where one is written again with its machine id.
use sshinner.Base.{ℕ, suc, ◌≡◌, refl, inl, inr, Bool-cases, some, List, [], ◌∷◌, arith, ◌==◌}
use sshinner.Server.{Ptr, ActivItem, find_at, write_at}
use sshinner.Server.Uuid.Sequence.{Activs, IsLive, key, Rising, find_uuid}

module _ (f : Activs) (p : ℕ) (a b : ActivItem) (here : find_at f p ≡ some a)
    (same : b.mach_uuid ≡ a.mach_uuid) where
  pub key-write : (q : Ptr) → key (write_at f p (some b)) q ≡ key f q
  key-write q = ground (arith, here)

  pub IsLive-write : (q : Ptr) → IsLive f q → IsLive (write_at f p (some b)) q
  IsLive-write q (c, there) = elim (Bool-cases (q == p)) [
    | inl at_p ↦ (b, ground (arith, here))
    | inr other ↦ (c, ground (arith, there))
  ]

  -- The sessions keep their order where one is written again with its machine id.
  pub Rising-write :
      (low : ℕ) (ps : List Ptr) → Rising f low ps → Rising (write_at f p (some b)) low ps
  Rising-write low [] r = tt
  Rising-write low (q ∷ qs) (live, le, rest) = (
    IsLive-write q live,
    rw (key-write q) le,
    rw (key-write q) (Rising-write (suc (key f q)) qs rest),
  )

  pub find_uuid-write :
      (u : ℕ) (ps : List Ptr) → find_uuid (write_at f p (some b)) u ps ≡ find_uuid f u ps
  find_uuid-write u [] = refl
  find_uuid-write u (q ∷ qs) = rw (key-write q, find_uuid-write u qs)
