-- ===== src/Server/Trans/Ports.antt =====
-- The transfers of a session by port: what a search finds, and what `ss_create_trans` adds.
use sshinner.Base.{
  ℕ, ◌≡◌, ◌≢◌, refl, ap, inl, inr, Bool-cases, true, false, not, ◌&&◌, Option, none, some, List, [],
  ◌∷◌, ◌++◌, arith, ◌∙◌, ◌==◌, if◌then◌else◌, erase, ◌∈◌, ◌∉◌,
}
use sshinner.Run.{ok, Returns, returns}
use sshinner.Server.{Ptr, TransItem, ActivItem, Server, find_at, write_at, zero_trans}
use sshinner.Server.Trans.{ushort, find_in, find_trans, create_trans}

abbrev pub Transs : Type 0
Transs = Ptr → Option TransItem

abbrev pub IsLive : Transs → Ptr → Type 0
IsLive f p = (t : TransItem) × (find_at f p ≡ some t)

-- The port of the transfer at an address.
abbrev pub port : Transs → Ptr → ℕ
port f p = elim (find_at f p) [ none ↦ 0 | some t ↦ t.usr_lport ]

-- The first transfer with a port.
abbrev pub scan : Transs → ℕ → List Ptr → Ptr
scan f l [] = 0
scan f l (p ∷ ps) = if port f p == l then p else scan f l ps

-- All the transfers exist, and no two have the same port.
abbrev pub Apart : Transs → List Ptr → Type 0
Apart f [] = Unit {0}
Apart f (p ∷ ps) = IsLive f p × (scan f (port f p) ps ≡ 0) × Apart f ps

-- A session at an address, with its transfers apart.
pub record IsSession (s : Server) (p : Ptr) (a : ActivItem) : Type 0 where
  pub here : find_at s.activs p ≡ some a
  pub apart : Apart s.transs a.trans

module _ (f : Transs) where
  pub not-mem_of_none : (x : Ptr) (ps : List Ptr) → Apart f ps → f x ≡ none → x ∉ ps
  not-mem_of_none x [] r e = refl
  not-mem_of_none x (p ∷ ps) (live, alone, rest) e =
      ground (arith, live, not-mem_of_none x ps rest e)

  pub scan-write :
      (x : Ptr) (c : Option TransItem) (l : ℕ) (ps : List Ptr)
      → x ∉ ps
      → scan (write_at f x c) l ps ≡ scan f l ps
  scan-write x c l [] o = refl
  scan-write x c l (p ∷ ps) o = ground (arith, scan-write x c l ps)

  pub Apart-write :
      (x : Ptr) (c : Option TransItem) (ps : List Ptr)
      → x ∉ ps
      → Apart f ps
      → Apart (write_at f x c) ps
  Apart-write x c [] o r = tt
  Apart-write x c (p ∷ ps) o (live, alone, rest) =
      ground (arith, live, scan-write x c (port f p) ps, Apart-write x c ps)

  pub scan-snoc :
      (x : Ptr) (l : ℕ) (ps : List Ptr)
      → Apart f ps
      → scan f l (ps ++ x ∷ [])
        ≡ (if scan f l ps == 0 then (if port f x == l then x else 0) else scan f l ps)
  scan-snoc x l [] r = refl
  scan-snoc x l (p ∷ ps) (live, alone, rest) = ground (arith, live, scan-snoc x l ps rest)

  pub Apart-snoc :
      (x : Ptr) (ps : List Ptr)
      → IsLive f x
      → scan f (port f x) ps ≡ 0
      → Apart f ps
      → Apart f (ps ++ x ∷ [])
  Apart-snoc x [] live e r = (live, refl, tt)
  Apart-snoc x (p ∷ ps) live e (there, alone, rest) =
      ground (arith, there, Apart-snoc x ps live, scan-snoc x (port f p) ps rest)

  scan-erase_none :
      (x l : ℕ) (ps : List Ptr) → Apart f ps → scan f l ps ≡ 0 → scan f l (erase x ps) ≡ 0
  scan-erase_none x l [] r e = refl
  scan-erase_none x l (p ∷ ps) (live, alone, rest) e =
      ground (arith, live, scan-erase_none x l ps rest)

  pub port_ne :
      (x l : ℕ) (ps : List Ptr) → Apart f ps → x ∈ ps → scan f l ps ≡ 0 → (port f x == l) ≡ false
  port_ne x l [] r i e = cc
  port_ne x l (p ∷ ps) (live, alone, rest) i e = ground (arith, live, port_ne x l ps rest)

  -- A transfer is the first with its port.
  pub scan_self : (x : Ptr) (ps : List Ptr) → Apart f ps → x ∈ ps → scan f (port f x) ps ≡ x
  scan_self x [] r i = cc
  scan_self x (p ∷ ps) (live, alone, rest) i =
      ground (arith, live, scan_self x ps rest, port_ne x (port f p) ps rest)

  pub Apart-erase : (x : Ptr) (ps : List Ptr) → Apart f ps → Apart f (erase x ps)
  Apart-erase x [] r = tt
  Apart-erase x (p ∷ ps) (live, alone, rest) =
      ground (arith, Apart-erase x ps rest, scan-erase_none x (port f p) ps rest)

  pub scan-erase :
      (x : Ptr) (l : ℕ) (ps : List Ptr)
      → Apart f ps
      → x ∈ ps
      → scan f l (erase x ps) ≡ (if port f x == l then 0 else scan f l ps)
  scan-erase x l [] r i = cc
  scan-erase x l (p ∷ ps) (live, alone, rest) i =
      ground (arith, live, scan-erase x l ps rest, port_ne x (port f p) ps rest)

-- A search in a list of existing transfers.
pub find_in-scan :
    (s : Server) (l : ℕ) (ps : List Ptr)
    → Apart s.transs ps
    → find_in l ps s ≡ ok (scan s.transs l ps) s
unfolding find_in
find_in-scan s l [] r = refl
find_in-scan s l (p ∷ ps) ((t, e), alone, rest) = rw e (ground (arith, find_in-scan s l ps rest))

-- `ss_find_trans` on a session whose transfers are apart returns the one with the port, as an
-- `unsigned short`, or `NULL` where none has it, and changes nothing.
pub find_trans-scan :
    (s : Server) (p l : ℕ) (a : ActivItem)
    → IsSession s p a
    → find_trans p l s ≡ ok (scan s.transs (ushort l) a.trans) s
unfolding find_trans
find_trans-scan s p l a session =
    ground (arith, session.here, find_in-scan s (ushort l) a.trans session.apart)

-- What `ss_create_trans` makes of a session, where the block `x` is the next that `calloc` returns.
abbrev pub Created : Server → Ptr → ActivItem → ℕ → Ptr → Ptr → Server → Type 0
Created s p a l x r s' =
    (r ≡ (if scan s.transs (ushort l) a.trans == 0 then x else 0))
    × (b : ActivItem) × IsSession s' p b
    × (b.trans ≡ (if r == 0 then a.trans else a.trans ++ x ∷ []))
    × ((m : ℕ)
        → find_trans p m s'
          ≡ ok
              (if not (r == 0) && (ushort m == ushort l)
                then x
                else scan s.transs (ushort m) a.trans)
              s')

module _ (s : Server) (p l x : ℕ) (rest : List Ptr) (a : ActivItem) (session : IsSession s p a)
    (next : s.supply ≡ x ∷ rest) (real : x ≢ 0) (unused : s.transs x ≡ none) where
  -- The new transfer, the session with it, and the state with both.
  abbrev pub new_trans : TransItem
  new_trans = record zero_trans { usr_lport = ushort l }

  abbrev pub grown : ActivItem
  grown = record a { trans = a.trans ++ x ∷ [] }

  abbrev pub after_create : Server
  after_create = record s {
    supply = rest;
    transs = write_at s.transs x (some new_trans);
    activs = write_at s.activs p (some grown);
  }

  pub create_in_use : (scan s.transs (ushort l) a.trans == 0) ≡ false → create_trans p l s ≡ ok 0 s
  unfolding create_trans
  create_in_use used = ground (arith, session.here, find_trans-scan s p l a session)

  pub create_free :
      (scan s.transs (ushort l) a.trans == 0) ≡ true → create_trans p l s ≡ ok x after_create
  unfolding create_trans
  create_free free = ground (arith, session.here, find_trans-scan s p l a session)

  out : x ∉ a.trans
  out = not-mem_of_none s.transs x a.trans session.apart unused

  scan_after :
      (m : ℕ)
      → scan s.transs (ushort l) a.trans ≡ 0
      → scan after_create.transs m grown.trans
        ≡ (if m == ushort l then x else scan s.transs m a.trans)
  scan_after m free = ground (
    arith,
    scan-snoc after_create.transs x m a.trans
        (Apart-write s.transs x (some new_trans) a.trans out session.apart),
    scan-write s.transs x (some new_trans) m a.trans out,
  )

  pub grown-IsSession :
      (scan s.transs (ushort l) a.trans == 0) ≡ true → IsSession after_create p grown
  grown-IsSession free = record {
    here = ground (arith, session.here);
    apart =
        Apart-snoc after_create.transs x a.trans (new_trans, ground arith)
          (ground (arith, scan-write s.transs x (some new_trans) (ushort l) a.trans out))
          (Apart-write s.transs x (some new_trans) a.trans out session.apart);
  }

  -- Let a session have existing transfers with different ports, and let `calloc` return an unused
  -- block. `ss_create_trans` returns `NULL` when a transfer has the port, as an `unsigned short`, and
  -- otherwise the block, which is added behind the session's transfers. They exist and have different
  -- ports again. A search for that port then returns the new transfer, and any other search what it
  -- returned before.
  pub find_trans-create : Returns (Created s p a l x) (create_trans p l s)
  find_trans-create = elim (Bool-cases (scan s.transs (ushort l) a.trans == 0)) [
    | inl free ↦ rw (create_free free) (
        returns (
          ground arith,
          grown,
          grown-IsSession free,
          ground arith,
          λ m.
              find_trans-scan after_create p m grown (grown-IsSession free)
              ∙ ap (λ q. ok q after_create) (ground (arith, scan_after (ushort m))),
        ))
    | inr used ↦
        rw (create_in_use used)
          (returns (ground arith, a, session, refl, λ m. find_trans-scan s p m a session))
  ]
