-- ===== src/Server/Uuid/Sequence.antt =====
-- What the search tree stands for: the sessions in the order of their machine ids.
use sshinner.Base.{
  ℕ, suc, ◌≤◌, ◌<◌, ◌≡◌, refl, Option, none, some, List, [], ◌∷◌, ◌++◌, arith, ltb, ◌==◌,
  if◌then◌else◌,
}
use sshinner.Server.{Ptr, ActivItem, Tree, leaf, node, find_at}

abbrev pub in_order : Tree → List Ptr
in_order leaf = []
in_order (node colour left p right) = in_order left ++ p ∷ in_order right

abbrev pub Activs : Type 0
Activs = Ptr → Option ActivItem

abbrev pub IsLive : Activs → Ptr → Type 0
IsLive f p = (a : ActivItem) × (find_at f p ≡ some a)

-- The machine id of the session at an address.
abbrev pub key : Activs → Ptr → ℕ
key f p = elim (find_at f p) [ none ↦ 0 | some a ↦ a.mach_uuid ]

-- The sessions `ps` exist, and their machine ids rise strictly from `low` on.
abbrev pub Rising : Activs → ℕ → List Ptr → Type 0
Rising f low [] = Unit {0}
Rising f low (p ∷ ps) = IsLive f p × (low ≤ key f p) × Rising f (suc (key f p)) ps

-- The session with a machine id, by a scan.
abbrev pub find_uuid : Activs → ℕ → List Ptr → Ptr
find_uuid f u [] = 0
find_uuid f u (p ∷ ps) = if u == key f p then p else find_uuid f u ps

-- The sequence with a session put at its place.
abbrev pub put_in : Activs → Ptr → List Ptr → List Ptr
put_in f x [] = x ∷ []
put_in f x (p ∷ ps) = if ltb (key f x) (key f p) then x ∷ p ∷ ps else p ∷ put_in f x ps

module _ (f : Activs) where
  pub find_uuid_below :
      (u low : ℕ) (ps : List Ptr) → Rising f low ps → u < low → find_uuid f u ps ≡ 0
  find_uuid_below u low [] r h = refl
  find_uuid_below u low (p ∷ ps) (live, at_least, rest) h =
      ground (arith, find_uuid_below u (suc (key f p)) ps rest)

  pub Rising-left : (low : ℕ) (xs ys : List Ptr) → Rising f low (xs ++ ys) → Rising f low xs
  Rising-left low [] ys r = tt
  Rising-left low (x ∷ xs) ys (live, at_least, rest) =
      (live, at_least, Rising-left (suc (key f x)) xs ys rest)

  pub Rising-right :
      (low : ℕ) (xs : List Ptr) (p : Ptr) (ys : List Ptr)
      → Rising f low (xs ++ p ∷ ys)
      → IsLive f p × (low ≤ key f p) × Rising f (suc (key f p)) ys
  Rising-right low [] p ys r = r
  Rising-right low (x ∷ xs) p ys (live, at_least, rest) =
      let (l, a, r) = Rising-right (suc (key f x)) xs p ys rest in (l, omega arith, r)

  -- Where a machine id is found in a sequence, seen from one of its sessions.
  pub find_uuid_at :
      (low : ℕ) (xs : List Ptr) (p : Ptr) (ys : List Ptr)
      → Rising f low (xs ++ p ∷ ys)
      → find_uuid f (key f p) (xs ++ p ∷ ys) ≡ p
  find_uuid_at low [] p ys r = ground arith
  find_uuid_at low (x ∷ xs) p ys (live, at_least, rest) =
      ground (
        arith,
        Rising-right (suc (key f x)) xs p ys rest,
        find_uuid_at (suc (key f x)) xs p ys rest,
      )

  pub find_uuid_left :
      (u low : ℕ) (xs : List Ptr) (p : Ptr) (ys : List Ptr)
      → Rising f low (xs ++ p ∷ ys)
      → u < key f p
      → find_uuid f u (xs ++ p ∷ ys) ≡ find_uuid f u xs
  find_uuid_left u low [] p ys (live, at_least, rest) h =
      ground (arith, find_uuid_below u (suc (key f p)) ys rest)
  find_uuid_left u low (x ∷ xs) p ys (live, at_least, rest) h =
      ground (arith, find_uuid_left u (suc (key f x)) xs p ys rest h)

  pub find_uuid_right :
      (u low : ℕ) (xs : List Ptr) (p : Ptr) (ys : List Ptr)
      → Rising f low (xs ++ p ∷ ys)
      → key f p < u
      → find_uuid f u (xs ++ p ∷ ys) ≡ find_uuid f u ys
  find_uuid_right u low [] p ys r h = ground arith
  find_uuid_right u low (x ∷ xs) p ys (live, at_least, rest) h = ground (
    arith,
    Rising-right (suc (key f x)) xs p ys rest,
    find_uuid_right u (suc (key f x)) xs p ys rest h,
  )
