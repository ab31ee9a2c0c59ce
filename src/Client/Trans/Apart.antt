-- ===== src/Client/Trans/Apart.antt =====
-- Lists of the client's transfers of which no two have the same port.
use sshinner.Base.{
  ℕ, ◌≡◌, refl, inl, inr, Bool-cases, false, Option, none, some, List, [], ◌∷◌, ◌++◌, arith, ◌==◌,
  if◌then◌else◌, erase, ◌∈◌, ◌∉◌,
}
use sshinner.Server.{Ptr, find_at, write_at}
use sshinner.Client.{PortTrans}
use sshinner.Client.Trans.Ports.{Store, AllLive, scan, scan-write}

abbrev pub IsLive : Store → Ptr → Type 0
IsLive f p = (t : PortTrans) × (find_at f p ≡ some t)

-- The port of the transfer at an address.
abbrev pub port : Store → Ptr → ℕ
port f p = elim (find_at f p) [ none ↦ 0 | some t ↦ t.l_port ]

-- All the transfers exist, and no two have the same port.
abbrev pub Apart : Store → List Ptr → Type 0
Apart f [] = Unit {0}
Apart f (p ∷ ps) = IsLive f p × (scan f (port f p) ps ≡ 0) × Apart f ps

module _ (f : Store) where
  pub Apart-AllLive : (ps : List Ptr) → Apart f ps → AllLive f ps
  Apart-AllLive [] r = tt
  Apart-AllLive (p ∷ ps) (live, alone, rest) = (live, Apart-AllLive ps rest)

  pub mem-IsLive : (q : Ptr) (ps : List Ptr) → Apart f ps → q ∈ ps → IsLive f q
  mem-IsLive q [] r i = cc
  mem-IsLive q (p ∷ ps) ((t, at_p), alone, rest) i = elim (Bool-cases (q == p)) [
    | inl here ↦ (t, ground (arith, at_p))
    | inr other ↦ mem-IsLive q ps rest (ground (arith, i))
  ]

  pub Apart-write :
      (x : Ptr) (c : Option PortTrans) (ps : List Ptr)
      → x ∉ ps
      → Apart f ps
      → Apart (write_at f x c) ps
  Apart-write x c [] o r = tt
  Apart-write x c (p ∷ ps) o (live, alone, rest) =
      ground (arith, live, scan-write f x c (port f p) ps, Apart-write x c ps)

  scan_end :
      (x l : ℕ) (ps : List Ptr)
      → IsLive f x
      → Apart f ps
      → scan f l (ps ++ x ∷ [])
        ≡ (if scan f l ps == 0 then (if port f x == l then x else 0) else scan f l ps)
  scan_end x l [] (t, e) r = ground (arith, e)
  scan_end x l (p ∷ ps) here ((t, e), alone, rest) = ground (arith, e, scan_end x l ps here rest)

  pub Apart-snoc :
      (x : Ptr) (ps : List Ptr)
      → IsLive f x
      → scan f (port f x) ps ≡ 0
      → Apart f ps
      → Apart f (ps ++ x ∷ [])
  Apart-snoc x [] live e r = (live, refl, tt)
  Apart-snoc x (p ∷ ps) live e ((t, at_p), alone, rest) =
      ground (arith, at_p, Apart-snoc x ps live, scan_end x (port f p) ps live rest)

  scan-erase_none :
      (x l : ℕ) (ps : List Ptr) → Apart f ps → scan f l ps ≡ 0 → scan f l (erase x ps) ≡ 0
  scan-erase_none x l [] r e = refl
  scan-erase_none x l (p ∷ ps) ((t, at_p), alone, rest) e =
      ground (arith, at_p, scan-erase_none x l ps rest)

  pub port_ne :
      (x l : ℕ) (ps : List Ptr) → Apart f ps → x ∈ ps → scan f l ps ≡ 0 → (port f x == l) ≡ false
  port_ne x l [] r i e = cc
  port_ne x l (p ∷ ps) ((t, at_p), alone, rest) i e = ground (arith, at_p, port_ne x l ps rest)

  -- A transfer is the first with its port.
  pub scan_self : (x : Ptr) (ps : List Ptr) → Apart f ps → x ∈ ps → scan f (port f x) ps ≡ x
  scan_self x [] r i = cc
  scan_self x (p ∷ ps) ((t, at_p), alone, rest) i =
      ground (arith, at_p, scan_self x ps rest, port_ne x (port f p) ps rest)

  pub Apart-erase : (x : Ptr) (ps : List Ptr) → Apart f ps → Apart f (erase x ps)
  Apart-erase x [] r = tt
  Apart-erase x (p ∷ ps) (live, alone, rest) =
      ground (arith, Apart-erase x ps rest, scan-erase_none x (port f p) ps rest)

  pub not-mem-erase : (x : Ptr) (ps : List Ptr) → Apart f ps → x ∉ erase x ps
  not-mem-erase x [] r = refl
  not-mem-erase x (p ∷ ps) (live, alone, rest) =
      ground (arith, live, port_ne x (port f p) ps rest, not-mem-erase x ps rest)

module _ (g : Store) (q : Ptr) (t t' : PortTrans) (here : find_at g q ≡ some t)
    (same : t'.l_port ≡ t.l_port) where
  port-write : (x : Ptr) → port (write_at g q (some t')) x ≡ port g x
  port-write x = ground (arith, here)

  IsLive-write : (x : Ptr) → IsLive g x → IsLive (write_at g q (some t')) x
  IsLive-write x (c, there) = elim (Bool-cases (x == q)) [
    | inl at_q ↦ (t', ground (arith, here))
    | inr other ↦ (c, ground (arith, there))
  ]

  scan-rewrite : (l : Ptr) (xs : List Ptr) → scan (write_at g q (some t')) l xs ≡ scan g l xs
  scan-rewrite l [] = refl
  scan-rewrite l (x ∷ xs) = ground (arith, here, scan-rewrite l xs)

  -- A transfer may be written again with its port.
  pub Apart-rewrite : (xs : List Ptr) → Apart g xs → Apart (write_at g q (some t')) xs
  Apart-rewrite [] r = tt
  Apart-rewrite (x ∷ xs) (live, alone, rest) = (
    IsLive-write x live,
    rw (port-write x, scan-rewrite (port g x) xs) alone,
    Apart-rewrite xs rest,
  )
