-- ===== src/Server/Consistent/Transfers.antt =====
-- A transfer that is made, and one that is freed.
use sshinner.Base.{
  ◌≡◌, refl, inl, inr, Bool-cases, false, none, some, List, [], ◌∷◌, ◌++◌, arith, ◌==◌, ◌∈◌, ◌∉◌,
  has-append, erase, mem-erase_ne,
}
use sshinner.Server.{Ptr, TransItem, ActivItem, Tree, find_at, write_at}
use sshinner.Server.Uuid.Sequence.{Activs}
use sshinner.Server.Uuid.Rewrite.{Rising-write}
use sshinner.Server.Trans.{ushort}
use sshinner.Server.Trans.Ports.{
  Transs, scan, Apart, Apart-write, Apart-erase, Apart-snoc, scan-write, not-mem_of_none,
}
use sshinner.Server.Trans.Release.{not-mem-erase_apart}
use sshinner.Server.Consistent.{Sound}
use sshinner.Server.Consistent.Writes.{
  not-mem-Fresh_activ, not-mem-Fresh_trans, Fresh-activ, Fresh-trans,
}

module _ (tree : Tree) (f : Activs) (g : Transs) (p x : Ptr) (rest : List Ptr)
    (sound : Sound tree f g (x ∷ rest)) (real : (x == 0) ≡ false) where
  unused : (f x ≡ none) × (g x ≡ none) × (x ∉ rest)
  unused = ground (arith, sound.fresh.0)

  out : (q : Ptr) (b : ActivItem) → find_at f q ≡ some b → x ∉ b.trans
  out q b e = not-mem_of_none g x b.trans (sound.apart q b e) unused.1

  module _ (a : ActivItem) (t : TransItem) (here : find_at f p ≡ some a)
      (owner : t.p_activ_item ≡ p) (short : ushort t.usr_lport ≡ t.usr_lport)
      (free : scan g t.usr_lport a.trans ≡ 0) where
    abbrev grown : ActivItem
    grown = record a { trans = a.trans ++ x ∷ [] }

    abbrev activs : Activs
    activs = write_at f p (some grown)

    abbrev transs : Transs
    transs = write_at g x (some t)

    grown-Apart : Apart transs grown.trans
    grown-Apart =
        Apart-snoc transs x a.trans (t, ground arith)
          (ground (arith, scan-write g x (some t) t.usr_lport a.trans, out p a here))
          (Apart-write g x (some t) a.trans (out p a here) (sound.apart p a here))

    rest-Apart : (q : Ptr) (b : ActivItem) → find_at f q ≡ some b → Apart transs b.trans
    rest-Apart q b e = Apart-write g x (some t) b.trans (out q b e) (sound.apart q b e)

    listed :
        (q : Ptr) (u : TransItem)
        → (q == x) ≡ false
        → (c : ActivItem) × (find_at f u.p_activ_item ≡ some c) × (q ∈ c.trans)
        → (c : ActivItem) × (find_at activs u.p_activ_item ≡ some c) × (q ∈ c.trans)
    listed q u other (c, there, in_c) = elim (Bool-cases (u.p_activ_item == p)) [
      | inl at_p ↦
          (grown, ground (arith, here), ground (arith, here, has-append q a.trans (x ∷ [])))
      | inr apart_p ↦ (c, ground (arith, there), in_c)
    ]

    -- A session is given a new transfer with a port that none of its transfers has.
    pub Sound-open : Sound tree activs transs rest
    Sound-open = record {
      indexed = Rising-write f p a grown here refl 0 _ sound.indexed;
      apart = λ q b e. ground (arith, here, grown-Apart, rest-Apart q b);
      owner = λ q y b u e l i. ground (
        arith,
        here,
        out q b,
        has-append y a.trans (x ∷ []),
        sound.owner q y b u,
        sound.owner p y a u here,
      );
      listed = λ y u l. elim (Bool-cases (y == x)) [
        | inl new ↦
            (grown, ground (arith, here), ground (arith, here, has-append x a.trans (x ∷ [])))
        | inr other ↦ listed y u other (sound.listed y u (ground (arith, l)))
      ];
      short = λ y u l. ground (arith, sound.short y u);
      fresh = Fresh-trans activs g x (some t) rest (unused.2) (
          Fresh-activ f g p (some grown) rest
            (not-mem-Fresh_activ f g p a rest (sound.fresh.1) here) (sound.fresh.1));
    }

module _ (tree : Tree) (f : Activs) (g : Transs) (m : List Ptr) (sound : Sound tree f g m)
    (p q : Ptr) (a : ActivItem) (t : TransItem) (here : find_at f p ≡ some a)
    (there : find_at g q ≡ some t) (member : q ∈ a.trans) where
  abbrev shrunk : ActivItem
  shrunk = record a { trans = erase q a.trans }

  left : q ∉ erase q a.trans
  left = not-mem-erase_apart g q a.trans (sound.apart p a here)

  shrunk-Apart : Apart (write_at g q none) (erase q a.trans)
  shrunk-Apart =
      Apart-write g q none (erase q a.trans) left (Apart-erase g q a.trans (sound.apart p a here))

  not_in : (p' : Ptr) (b : ActivItem) → find_at f p' ≡ some b → (p' == p) ≡ false → q ∉ b.trans
  not_in p' b e other =
      ground (arith, sound.owner p' q b t e there, sound.owner p q a t here there member)

  others-Apart :
      (p' : Ptr) (b : ActivItem)
      → find_at f p' ≡ some b
      → (p' == p) ≡ false
      → Apart (write_at g q none) b.trans
  others-Apart p' b e other =
      Apart-write g q none b.trans (not_in p' b e other) (sound.apart p' b e)

  relisted :
      (x : Ptr) (u : TransItem)
      → (x == q) ≡ false
      → (c : ActivItem) × (find_at f u.p_activ_item ≡ some c) × (x ∈ c.trans)
      → (c : ActivItem) × (find_at (write_at f p (some shrunk)) u.p_activ_item ≡ some c)
        × (x ∈ c.trans)
  relisted x u other (c, at_c, in_c) = elim (Bool-cases (u.p_activ_item == p)) [
    | inl at_p ↦
        (shrunk, ground (arith, here), ground (arith, here, mem-erase_ne x q a.trans other))
    | inr apart_p ↦ (c, ground (arith, at_c), in_c)
  ]

  -- A transfer is taken out of its session and out of the store.
  pub Sound-free : Sound tree (write_at f p (some shrunk)) (write_at g q none) m
  Sound-free = record {
    indexed = Rising-write f p a shrunk here refl 0 _ sound.indexed;
    apart = λ p' b e. ground (arith, here, shrunk-Apart, others-Apart p' b);
    owner = λ p' x b u e l i. ground (
      arith,
      here,
      left,
      mem-erase_ne x q a.trans,
      sound.owner p' x b u,
      sound.owner p x a u here,
    );
    listed = λ x u l. relisted x u (ground arith) (sound.listed x u (ground (arith, l)));
    short = λ x u l. ground (arith, sound.short x u);
    fresh =
        Fresh-trans (write_at f p (some shrunk)) g q none m
          (not-mem-Fresh_trans f g q t m sound.fresh there)
          (Fresh-activ f g p (some shrunk) m (not-mem-Fresh_activ f g p a m sound.fresh here)
            sound.fresh);
  }
