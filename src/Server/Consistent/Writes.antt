-- ===== src/Server/Consistent/Writes.antt =====
-- Writes of one object that keep the server's objects together.
use sshinner.Base.{
  ◌≡◌, refl, inl, inr, Bool-cases, Option, some, List, [], ◌∷◌, arith, ◌==◌, ◌∈◌, ◌∉◌,
}
use sshinner.Server.{Ptr, TransItem, ActivItem, Tree, find_at, write_at}
use sshinner.Server.Uuid.Sequence.{Activs}
use sshinner.Server.Uuid.Rewrite.{Rising-write}
use sshinner.Server.Trans.Ports.{Transs, IsLive, port, scan, Apart}
use sshinner.Server.Consistent.{Fresh, Sound}

module _ (f : Activs) (g : Transs) where
  -- The objects that exist at fresh addresses.
  pub not-mem-Fresh_activ :
      (p : Ptr) (a : ActivItem) (xs : List Ptr) → Fresh f g xs → find_at f p ≡ some a → p ∉ xs
  not-mem-Fresh_activ p a [] h e = refl
  not-mem-Fresh_activ p a (x ∷ xs) (here, rest) e =
      ground (arith, not-mem-Fresh_activ p a xs rest e)

  pub not-mem-Fresh_trans :
      (q : Ptr) (t : TransItem) (xs : List Ptr) → Fresh f g xs → find_at g q ≡ some t → q ∉ xs
  not-mem-Fresh_trans q t [] h e = refl
  not-mem-Fresh_trans q t (x ∷ xs) (here, rest) e =
      ground (arith, not-mem-Fresh_trans q t xs rest e)

  pub Fresh-activ :
      (p : Ptr) (c : Option ActivItem) (xs : List Ptr)
      → p ∉ xs
      → Fresh f g xs
      → Fresh (write_at f p c) g xs
  Fresh-activ p c [] o h = tt
  Fresh-activ p c (x ∷ xs) o (here, rest) = ground (arith, Fresh-activ p c xs)

  pub Fresh-trans :
      (q : Ptr) (c : Option TransItem) (xs : List Ptr)
      → q ∉ xs
      → Fresh f g xs
      → Fresh f (write_at g q c) xs
  Fresh-trans q c [] o h = tt
  Fresh-trans q c (x ∷ xs) o (here, rest) = ground (arith, Fresh-trans q c xs)

module _ (g : Transs) (q : Ptr) (t t' : TransItem) (here : find_at g q ≡ some t)
    (same : t'.usr_lport ≡ t.usr_lport) where
  port-write : (x : Ptr) → port (write_at g q (some t')) x ≡ port g x
  port-write x = ground (arith, here)

  IsLive-write : (x : Ptr) → IsLive g x → IsLive (write_at g q (some t')) x
  IsLive-write x (c, there) = elim (Bool-cases (x == q)) [
    | inl at_q ↦ (t', ground (arith, here))
    | inr other ↦ (c, ground (arith, there))
  ]

  scan-rewrite : (l : Ptr) (xs : List Ptr) → scan (write_at g q (some t')) l xs ≡ scan g l xs
  scan-rewrite l [] = refl
  scan-rewrite l (x ∷ xs) = rw (port-write x, scan-rewrite l xs)

  Apart-rewrite : (xs : List Ptr) → Apart g xs → Apart (write_at g q (some t')) xs
  Apart-rewrite [] r = tt
  Apart-rewrite (x ∷ xs) (live, alone, rest) = (
    IsLive-write x live,
    rw (port-write x, scan-rewrite (port g x) xs) alone,
    Apart-rewrite xs rest,
  )

module _ (tree : Tree) (f : Activs) (g : Transs) (m : List Ptr) (sound : Sound tree f g m) where
  -- A transfer may be written again with its port and its session.
  pub Sound-trans :
      (q : Ptr) (t t' : TransItem)
      → find_at g q ≡ some t
      → t'.usr_lport ≡ t.usr_lport
      → t'.p_activ_item ≡ t.p_activ_item
      → Sound tree f (write_at g q (some t')) m
  Sound-trans q t t' here port owner = record {
    indexed = sound.indexed;
    apart = λ p a e. Apart-rewrite g q t t' here port a.trans (sound.apart p a e);
    owner =
        λ p x a u e l i. ground (arith, here, sound.owner p x a u e, sound.owner p q a t e here);
    listed = λ x u e. ground (arith, here, sound.listed x u, sound.listed q t here);
    short = λ x u e. ground (arith, here, sound.short x u, sound.short q t here);
    fresh =
        Fresh-trans f g q (some t') m (not-mem-Fresh_trans f g q t m sound.fresh here) sound.fresh;
  }

  -- A session may be written again with its machine id and its transfers.
  pub Sound-activ :
      (p : Ptr) (a b : ActivItem)
      → find_at f p ≡ some a
      → b.mach_uuid ≡ a.mach_uuid
      → b.trans ≡ a.trans
      → Sound tree (write_at f p (some b)) g m
  Sound-activ p a b here id all = record {
    indexed = Rising-write f p a b here id 0 _ sound.indexed;
    apart = λ p' a' e. ground (arith, here, sound.apart p' a', sound.apart p a here);
    owner =
        λ p' x a' u e l i. ground (arith, here, sound.owner p' x a' u, sound.owner p x a u here);
    listed = λ x u e. relisted x u (sound.listed x u e);
    short = sound.short;
    fresh =
        Fresh-activ f g p (some b) m (not-mem-Fresh_activ f g p a m sound.fresh here) sound.fresh;
  }
    where
      relisted :
          (x : Ptr) (u : TransItem)
          → (c : ActivItem) × (find_at f u.p_activ_item ≡ some c) × (x ∈ c.trans)
          → (c : ActivItem) × (find_at (write_at f p (some b)) u.p_activ_item ≡ some c)
            × (x ∈ c.trans)
      relisted x u (c, there, in_c) = elim (Bool-cases (u.p_activ_item == p)) [
        | inl at_p ↦ (b, ground (arith, here), ground (arith, here))
        | inr other ↦ (c, ground (arith, there), in_c)
      ]
