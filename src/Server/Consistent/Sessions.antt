-- ===== src/Server/Consistent/Sessions.antt =====
-- A session that is made, and one that is dropped with its transfers.
use sshinner.Base.{
  ℕ, suc, ◌≤◌, ◌<◌, ◌≡◌, refl, inl, inr, Bool-cases, false, Option, none, some, List, [], ◌∷◌,
  arith, ◌==◌, if◌then◌else◌, ◌∈◌, ◌∉◌, has, erase,
}
use sshinner.Server.{Ptr, ActivItem, Tree, find_at, write_at}
use sshinner.Server.Uuid.Sequence.{Activs, key, Rising, in_order}
use sshinner.Server.Trans.Ports.{IsLive, Transs, scan, port, Apart}
use sshinner.Server.Consistent.{Fresh, Sound}
use sshinner.Server.Consistent.Writes.{Fresh-activ}

pub Rising-write_new :
    (f : Activs) (x : Ptr) (c : Option ActivItem) (low : ℕ) (ps : List Ptr)
    → f x ≡ none
    → Rising f low ps
    → Rising (write_at f x c) low ps
Rising-write_new f x c low [] e r = tt
Rising-write_new f x c low (p ∷ ps) e (live, at_least, rest) =
    ground (arith, live, Rising-write_new f x c (suc (key f p)) ps e rest)

module _ (tree : Tree) (f : Activs) (g : Transs) (x : Ptr) (rest : List Ptr)
    (sound : Sound tree f g (x ∷ rest)) where
  -- A block that is not used after all.
  pub Sound-skip : Sound tree f g rest
  Sound-skip = record {
    indexed = sound.indexed;
    apart = sound.apart;
    owner = sound.owner;
    listed = sound.listed;
    short = sound.short;
    fresh = sound.fresh.1;
  }

  module _ (real : (x == 0) ≡ false) (b : ActivItem) (idle : b.trans ≡ []) where
    unused : (f x ≡ none) × (g x ≡ none) × (x ∉ rest)
    unused = ground (arith, sound.fresh.0)

    -- A session without transfers is made.
    pub Sound-new : Sound tree (write_at f x (some b)) g rest
    Sound-new = record {
      indexed = Rising-write_new f x (some b) 0 _ unused.0 sound.indexed;
      apart = λ p c e. ground (arith, idle, sound.apart p c);
      owner = λ p q c t e l i. ground (arith, idle, sound.owner p q c t);
      listed = λ q t l.
          let (c, there, in_c) = sound.listed q t l in (c, ground (arith, there, unused), in_c);
      short = sound.short;
      fresh = Fresh-activ f g x (some b) rest unused.2 (sound.fresh.1);
    }

module _ (f : Activs) (x : Ptr) (c : Option ActivItem) where
  above : (low : ℕ) (ps : List Ptr) → Rising f low ps → key f x < low → x ∉ ps
  above low [] r h = refl
  above low (p ∷ ps) (live, at_least, rest) h = ground (arith, above (suc (key f p)) ps rest)

  Rising-write_absent :
      (low : ℕ) (ps : List Ptr) → x ∉ ps → Rising f low ps → Rising (write_at f x c) low ps
  Rising-write_absent low [] o r = tt
  Rising-write_absent low (p ∷ ps) o (live, at_least, rest) =
      ground (arith, live, Rising-write_absent (suc (key f p)) ps)

  Rising-lower : (low high : ℕ) (ps : List Ptr) → low ≤ high → Rising f high ps → Rising f low ps
  Rising-lower low high [] h r = tt
  Rising-lower low high (p ∷ ps) h (live, at_least, rest) = (live, omega arith, rest)

  -- The sequence of sessions without one that is gone from the store.
  pub Rising-drop :
      (low : ℕ) (ps : List Ptr) → Rising f low ps → Rising (write_at f x c) low (erase x ps)
  Rising-drop low [] r = tt
  Rising-drop low (p ∷ ps) (live, at_least, rest) = elim (Bool-cases (x == p)) [
    | inl at_p ↦ ground (
      arith,
      Rising-write_absent low ps (ground (arith, above (suc (key f p)) ps rest))
          (Rising-lower low (suc (key f p)) ps (omega arith) rest),
    )
    | inr other ↦ ground (arith, live, Rising-drop (suc (key f p)) ps rest)
  ]

pub IsLive-mem : (g : Transs) (x : Ptr) (ps : List Ptr) → Apart g ps → x ∈ ps → IsLive g x
IsLive-mem g x [] r i = cc
IsLive-mem g x (p ∷ ps) (live, alone, rest) i = elim (Bool-cases (x == p)) [
  | inl at_p ↦ (live.0, ground (arith, live.1))
  | inr other ↦ IsLive-mem g x ps rest (ground arith)
]

module _ (g g' : Transs) where
  scan-agree :
      (l : ℕ) (ps : List Ptr) → ((x : Ptr) → x ∈ ps → g' x ≡ g x) → scan g' l ps ≡ scan g l ps
  scan-agree l [] same = refl
  scan-agree l (p ∷ ps) same = ground (arith, same p, scan-agree l ps λ x i. same x (ground arith))

  Apart-agree : (ps : List Ptr) → ((x : Ptr) → x ∈ ps → g' x ≡ g x) → Apart g ps → Apart g' ps
  Apart-agree [] same r = tt
  Apart-agree (p ∷ ps) same (live, alone, rest) = ground (
    arith,
    live,
    same p,
    scan-agree (port g p) ps (λ x i. same x (ground arith)),
    Apart-agree ps (λ x i. same x (ground arith)) rest,
  )

module _ (tree tree' : Tree) (f f' : Activs) (g g' : Transs) (m : List Ptr)
    (sound : Sound tree f g m) (p : Ptr) (a : ActivItem) (here : find_at f p ≡ some a)
    (dropped : f' p ≡ none) (others : (q : Ptr) → (q == p) ≡ false → f' q ≡ f q)
    (cells : (x : Ptr) → g' x ≡ (if has x a.trans then none else g x))
    (indexed : Rising f' 0 (in_order tree')) where
  kept : (q : Ptr) (b : ActivItem) → find_at f' q ≡ some b → find_at f q ≡ some b
  kept q b e = ground (arith, dropped, others q)

  foreign : (q : Ptr) (b : ActivItem) (x : Ptr) → find_at f' q ≡ some b → x ∈ b.trans → g' x ≡ g x
  foreign q b x e i = elim (Bool-cases (has x a.trans)) [
    | inl in_a ↦
        let (t, l) = IsLive-mem g x a.trans (sound.apart p a here) in_a in
        ground
          (arith, dropped, sound.owner p x a t here l in_a, sound.owner q x b t (kept q b e) l i)
    | inr out ↦ ground (arith, cells x)
  ]

  Fresh-less : (xs : List Ptr) → Fresh f g xs → Fresh f' g' xs
  Fresh-less [] h = tt
  Fresh-less (x ∷ xs) (used, rest) = ground (arith, cells x, dropped, others x, Fresh-less xs rest)

  -- A session is gone from the tree and from the store, and its transfers with it.
  pub Sound-drop : Sound tree' f' g' m
  Sound-drop = record {
    indexed = indexed;
    apart =
        λ q b e. Apart-agree g g' b.trans (λ x i. foreign q b x e i) (sound.apart q b (kept q b e));
    owner = λ q x b t e l i. ground (arith, cells x, kept q b e, sound.owner q x b t);
    listed = λ x t l.
        let (c, there, in_c) = sound.listed x t (ground (arith, l, cells x)) in
        (c, ground (arith, there, here, in_c, l, cells x, others t.p_activ_item), in_c);
    short = λ x t l. ground (arith, cells x, sound.short x t);
    fresh = Fresh-less m sound.fresh;
  }
