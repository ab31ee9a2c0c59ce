-- ===== src/Server/Consistent/Rules.antt =====
-- Steps that many of the server's functions share.
use sshinner.Base.{
  ℕ, suc, Bool-cases, ◌≡◌, refl, ◌⊎◌, inl, inr, some, List, [], ◌∷◌, arith, true, ◌==◌,
}
use sshinner.Run.{ok}
use sshinner.Run.Ensures.{ended, Reads, reads}
use sshinner.Server.{Ptr, TransItem, Server, find_at, write_at}
use sshinner.Server.Memory.{calloc}
use sshinner.Server.Consistent.{Sound, IsConsistent, Kept}
use sshinner.Server.Consistent.Quietly.{Aside, beside}
use sshinner.Server.Consistent.Writes.{Sound-trans}
use sshinner.Server.Consistent.Sessions.{Sound-skip}
use sshinner.Server.Uuid.{uuid_search}
use sshinner.Server.Uuid.Sequence.{Activs, IsLive, key, Rising, in_order, find_uuid}
use sshinner.Server.Uuid.Search.{uuid_search-find}

-- The state where a transfer is written again.
abbrev pub rewritten : Server → Aside → Ptr → TransItem → Server
rewritten s r p t = record (beside s r) { transs = write_at s.transs p (some t) }

pub rewritten-IsConsistent :
    (s : Server)
    → IsConsistent s
    → (p : Ptr) (t t' : TransItem) → find_at s.transs p ≡ some t
    → t'.usr_lport ≡ t.usr_lport
    → t'.p_activ_item ≡ t.p_activ_item
    → Sound s.uuid_tree s.activs (write_at s.transs p (some t')) s.supply
rewritten-IsConsistent s = Sound-trans s.uuid_tree s.activs s.transs s.supply

pub calloc-cases :
    (s : Server)
    → (calloc s ≡ ok 0 s)
      ⊎ ((x : Ptr) × (rest : List Ptr) × (s.supply ≡ x ∷ rest)
          × (calloc s ≡ ok x (record s { supply = rest })))
unfolding calloc
calloc-cases s = elim (supply_cases s.supply) [
  | inl e ↦ inl (ground (arith, e))
  | inr (x, rest, e) ↦ inr (x, rest, e, ground (arith, e))
]
  where
    supply_cases : (xs : List Ptr) → (xs ≡ []) ⊎ ((x : Ptr) × (rest : List Ptr) × (xs ≡ x ∷ rest))
    supply_cases [] = inl refl
    supply_cases (x ∷ xs) = inr (x, xs, refl)

pub calloc-Kept : (s : Server) → IsConsistent s → Kept (calloc s)
calloc-Kept s sound = elim (calloc-cases s) [
  | inl e ↦ rw e (ended sound)
  | inr (x, rest, e, run) ↦
      rw run (ended (Sound-skip s.uuid_tree s.activs s.transs x rest (rw e at sound)))
]

find_uuid-IsLive :
    (f : Activs) (u low : ℕ) (ps : List Ptr)
    → Rising f low ps
    → ((find_uuid f u ps == 0) ≡ true) ⊎ IsLive f (find_uuid f u ps)
find_uuid-IsLive f u low [] r = inl refl
find_uuid-IsLive f u low (p ∷ ps) (live, at_least, rest) = elim (Bool-cases (u == key f p)) [
  | inl e ↦ rw e (inr live)
  | inr e ↦ rw e (find_uuid-IsLive f u (suc (key f p)) ps rest)
]

-- What a search for a session gives.
pub uuid_search-Reads :
    (u : ℕ) (s : Server)
    → IsConsistent s
    → Reads (λ p. ((p == 0) ≡ true) ⊎ IsLive s.activs p) s (uuid_search u s.uuid_tree s)
uuid_search-Reads u s sound =
    rw (uuid_search-find s u 0 s.uuid_tree sound.indexed)
      (reads (find_uuid-IsLive s.activs u 0 (in_order s.uuid_tree) sound.indexed))
