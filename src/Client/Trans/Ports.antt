-- ===== src/Client/Trans/Ports.antt =====
-- The client's transfers by port: what `sc_create_trans` adds.
use sshinner.Base.{
  ℕ, ◌≡◌, ◌≢◌, ◌∉◌, refl, ap, ◌∙◌, inl, inr, Bool-cases, true, false, not, ◌&&◌, Option, none, some,
  List, [], ◌∷◌, ◌++◌, arith, ◌==◌, if◌then◌else◌,
}
use sshinner.Run.{ok, Returns, returns}
use sshinner.Server.{Ptr, find_at, write_at}
use sshinner.Server.Trans.{ushort}
use sshinner.Client.{PortTrans, Client, zero_port_trans}
use sshinner.Client.Memory.{calloc}
use sshinner.Client.Trans.{find_in, find_trans, create_trans}

abbrev pub Store : Type 0
Store = Ptr → Option PortTrans

-- All the transfers exist.
abbrev pub AllLive : Store → List Ptr → Type 0
AllLive f [] = Unit {0}
AllLive f (p ∷ ps) = ((t : PortTrans) × (find_at f p ≡ some t)) × AllLive f ps

-- The first transfer with a port.
abbrev pub scan : Store → ℕ → List Ptr → Ptr
scan f l [] = 0
scan f l (p ∷ ps) = elim (find_at f p) [
  | none ↦ 0
  | some t ↦ if t.l_port == l then p else scan f l ps
]

module _ (f : Store) where
  pub not-mem_of_none : (x : Ptr) (ps : List Ptr) → AllLive f ps → f x ≡ none → x ∉ ps
  not-mem_of_none x [] r e = refl
  not-mem_of_none x (p ∷ ps) (live, rest) e = ground (arith, live, not-mem_of_none x ps rest e)

  pub scan-write :
      (x : Ptr) (c : Option PortTrans) (l : ℕ) (ps : List Ptr)
      → x ∉ ps
      → scan (write_at f x c) l ps ≡ scan f l ps
  scan-write x c l [] o = refl
  scan-write x c l (p ∷ ps) o = ground (arith, scan-write x c l ps)

  AllLive-write :
      (x : Ptr) (c : Option PortTrans) (ps : List Ptr)
      → x ∉ ps
      → AllLive f ps
      → AllLive (write_at f x c) ps
  AllLive-write x c [] o r = tt
  AllLive-write x c (p ∷ ps) o (live, rest) = ground (arith, live, AllLive-write x c ps)

  AllLive-snoc :
      (x : Ptr) (t : PortTrans) (ps : List Ptr)
      → AllLive f ps
      → find_at f x ≡ some t
      → AllLive f (ps ++ x ∷ [])
  AllLive-snoc x t [] r here = ((t, here), tt)
  AllLive-snoc x t (p ∷ ps) (live, rest) here = (live, AllLive-snoc x t ps rest here)

  scan-snoc :
      (x : Ptr) (t : PortTrans) (l : ℕ) (ps : List Ptr)
      → AllLive f ps
      → find_at f x ≡ some t
      → scan f l (ps ++ x ∷ [])
        ≡ (if scan f l ps == 0 then (if t.l_port == l then x else 0) else scan f l ps)
  scan-snoc x t l [] r here = ground (arith, here)
  scan-snoc x t l (p ∷ ps) ((u, there), rest) here =
      ground (arith, here, there, scan-snoc x t l ps rest here)

find_in-scan :
    (s : Client) (l : ℕ) (ps : List Ptr)
    → AllLive s.transs ps
    → find_in l ps s ≡ ok (scan s.transs l ps) s
unfolding find_in
find_in-scan s l [] r = refl
find_in-scan s l (p ∷ ps) ((t, e), rest) = rw e (ground (arith, find_in-scan s l ps rest))

pub find_trans_lem :
    (s : Client) (l : ℕ)
    → AllLive s.transs s.trans
    → find_trans l s ≡ ok (scan s.transs (ushort l) s.trans) s
unfolding find_trans
find_trans_lem s l r = find_in-scan s (ushort l) s.trans r

pub create_in_use :
    (s : Client) (l : ℕ)
    → AllLive s.transs s.trans
    → (scan s.transs (ushort l) s.trans == 0) ≡ false
    → create_trans l s ≡ ok 0 s
unfolding create_trans
create_in_use s l live used = ground (arith, find_trans_lem s l live)

pub create_empty :
    (s : Client) (l : ℕ) → AllLive s.transs s.trans → s.supply ≡ [] → create_trans l s ≡ ok 0 s
unfolding create_trans calloc
create_empty s l live e = ground (arith, e, find_trans_lem s l live)

pub create_null :
    (s : Client) (l : ℕ)
    → AllLive s.transs s.trans
    → (x : Ptr) (rest : List Ptr) → s.supply ≡ x ∷ rest
    → (x == 0) ≡ true
    → (scan s.transs (ushort l) s.trans == 0) ≡ true
    → create_trans l s ≡ ok 0 (record s { supply = rest })
unfolding create_trans calloc
create_null s l live x rest e null free = ground (arith, e, find_trans_lem s l live)

module _ (s : Client) (l x : ℕ) (rest : List Ptr) (live : AllLive s.transs s.trans)
    (next : s.supply ≡ x ∷ rest) (real : x ≢ 0) (unused : s.transs x ≡ none) where
  abbrev pub fresh : PortTrans
  fresh = record zero_port_trans { l_port = ushort l }

  abbrev pub after_create : Client
  after_create = record s {
    supply = rest;
    transs = write_at s.transs x (some fresh);
    trans = s.trans ++ x ∷ [];
  }

  pub create_free :
      (scan s.transs (ushort l) s.trans == 0) ≡ true → create_trans l s ≡ ok x after_create
  unfolding create_trans calloc
  create_free free = rw (find_trans_lem s l live, free, next) (ground arith)

  out : x ∉ s.trans
  out = not-mem_of_none s.transs x s.trans live unused

  pub after-AllLive : AllLive after_create.transs after_create.trans
  after-AllLive =
      AllLive-snoc after_create.transs x fresh s.trans
        (AllLive-write s.transs x (some fresh) s.trans out live) (ground arith)

  pub scan_after :
      (m : ℕ)
      → scan s.transs (ushort l) s.trans ≡ 0
      → scan after_create.transs m after_create.trans
        ≡ (if m == ushort l then x else scan s.transs m s.trans)
  scan_after m free =
      scan-snoc after_create.transs x fresh m s.trans
        (AllLive-write s.transs x (some fresh) s.trans out live) (ground arith)
      ∙ rw (scan-write s.transs x (some fresh) m s.trans out) (ground (arith, free))

  -- Let the client's transfers exist, and let `calloc` return an unused block. `sc_create_trans`
  -- returns `NULL` when a transfer has the port, as an `unsigned short`, and otherwise the block. All
  -- transfers exist again. A search for that port then returns the new transfer, and any other
  -- search what it returned before.
  pub create_trans-find_trans :
      Returns
        (λ r s'.
          (r ≡ (if scan s.transs (ushort l) s.trans == 0 then x else 0))
          × AllLive s'.transs s'.trans
          × ((m : ℕ)
              → find_trans m s'
                ≡ ok
                    (if not (r == 0) && (ushort m == ushort l)
                      then x
                      else scan s.transs (ushort m) s.trans)
                    s'))
        (create_trans l s)
  create_trans-find_trans = elim (Bool-cases (scan s.transs (ushort l) s.trans == 0)) [
    | inl free ↦ rw (create_free free) (
        returns (
          ground arith,
          after-AllLive,
          λ m.
              find_trans_lem after_create m after-AllLive
              ∙ ap (λ q. ok q after_create) (ground (arith, scan_after (ushort m))),
        ))
    | inr used ↦
        rw (create_in_use s l live used)
          (returns (ground arith, live, λ m. find_trans_lem s m live))
  ]
