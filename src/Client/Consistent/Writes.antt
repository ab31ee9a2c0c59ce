-- ===== src/Client/Consistent/Writes.antt =====
-- Changes of one transfer that keep the client's transfers together.
use sshinner.Base.{
  ◌≡◌, refl, false, none, Option, some, List, [], ◌∷◌, ◌++◌, arith, ◌==◌, ◌∉◌, has-append, erase,
  mem-erase_ne,
}
use sshinner.Server.{Ptr, find_at, write_at}
use sshinner.Server.Trans.{ushort}
use sshinner.Client.{PortTrans}
use sshinner.Client.Trans.Ports.{Store, scan, scan-write, not-mem_of_none}
use sshinner.Client.Trans.Apart.{
  Apart-AllLive, Apart-write, Apart-snoc, Apart-erase, Apart-rewrite, not-mem-erase,
}
use sshinner.Client.Consistent.{Fresh, Sound}

module _ (f : Store) where
  not-mem-Fresh :
      (q : Ptr) (t : PortTrans) (xs : List Ptr) → Fresh f xs → find_at f q ≡ some t → q ∉ xs
  not-mem-Fresh q t [] h e = refl
  not-mem-Fresh q t (x ∷ xs) (here, rest) e = ground (arith, not-mem-Fresh q t xs rest e)

  Fresh-write :
      (q : Ptr) (c : Option PortTrans) (xs : List Ptr)
      → q ∉ xs
      → Fresh f xs
      → Fresh (write_at f q c) xs
  Fresh-write q c [] o h = tt
  Fresh-write q c (x ∷ xs) o (here, rest) = ground (arith, Fresh-write q c xs)

module _ (f : Store) (trans supply : List Ptr) (sound : Sound f trans supply) where
  pub Sound-write :
      (q : Ptr) (t t' : PortTrans)
      → find_at f q ≡ some t
      → t'.l_port ≡ t.l_port
      → Sound (write_at f q (some t')) trans supply
  Sound-write q t t' here same = record {
    apart = Apart-rewrite f q t t' here same trans sound.apart;
    listed = λ x u e. ground (arith, here, sound.listed x u, sound.listed q t here);
    short = λ x u e. ground (arith, here, sound.short x u, sound.short q t here);
    fresh =
        Fresh-write f q (some t') supply (not-mem-Fresh f q t supply sound.fresh here) sound.fresh;
  }

  -- A transfer is taken out of the list and out of the store.
  pub Sound-free :
      (q : Ptr) (t : PortTrans)
      → find_at f q ≡ some t
      → Sound (write_at f q none) (erase q trans) supply
  Sound-free q t here =
      let left = not-mem-erase f q trans sound.apart in
      record {
        apart = Apart-write f q none (erase q trans) left (Apart-erase f q trans sound.apart);
        listed = λ x u e. ground (arith, sound.listed x u, mem-erase_ne x q trans);
        short = λ x u e. ground (arith, sound.short x u);
        fresh =
            Fresh-write f q none supply (not-mem-Fresh f q t supply sound.fresh here) sound.fresh;
      }

module _ (f : Store) (trans : List Ptr) (x : Ptr) (rest : List Ptr)
    (sound : Sound f trans (x ∷ rest)) where
  -- A block that is left unused.
  pub Sound-skip : Sound f trans rest
  Sound-skip = record {
    apart = sound.apart;
    listed = sound.listed;
    short = sound.short;
    fresh = sound.fresh.1;
  }

  -- A new transfer, with a port that no transfer has.
  pub Sound-open :
      (x == 0) ≡ false
      → (t : PortTrans) → ushort t.l_port ≡ t.l_port
      → scan f t.l_port trans ≡ 0
      → Sound (write_at f x (some t)) (trans ++ x ∷ []) rest
  Sound-open real t short free =
      let unused : (f x ≡ none) × (x ∉ rest) = ground (arith, sound.fresh.0) in
      let out = not-mem_of_none f x trans (Apart-AllLive f trans sound.apart) unused.0 in
      record {
        apart =
            Apart-snoc (write_at f x (some t)) x trans (t, ground arith)
              (ground (arith, scan-write f x (some t) t.l_port trans out))
              (Apart-write f x (some t) trans out sound.apart);
        listed = λ y u e. ground (arith, sound.listed y u, has-append y trans (x ∷ []));
        short = λ y u e. ground (arith, sound.short y u);
        fresh = Fresh-write f x (some t) rest (unused.1) (sound.fresh.1);
      }
