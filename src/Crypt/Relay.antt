-- ===== src/Crypt/Relay.antt =====
-- The callback of one end of an encrypted transfer, for each of the reads that arrive there.
use mathlib.Core.List.{append-nil, append_assoc}
use sshinner.Base.{ℕ, ◌≡◌, ◌<◌, refl, sym, ap, ◌∙◌, Bool, List, [], ◌∷◌, ◌++◌, length, All}
use sshinner.Run.{Cmd, pure, Returns, returns, bind, weaken, ◌>>◌}
use sshinner.Crypt.{Evp, EncryptCtx}
use sshinner.Crypt.Stream.{pump, step, payload, frame_of}

unfoldable pub each : {S : Type 0} → (List ℕ → Cmd S (Unit {0})) → List (List ℕ) → Cmd S (Unit {0})
each callback [] = pure tt
each callback (bytes ∷ reads) = do callback bytes; each callback reads

-- What is left: the transfer holds the context `c`, bytes were written to the far end, and none to the
-- near one.
abbrev pub Moved :
    {S : Type 0} (holds : EncryptCtx → S → Type 0) (far near : S → List ℕ)
    → S
    → EncryptCtx
    → List ℕ
    → S
    → Type 0
Moved holds far near s c bytes s' = holds c s' × (far s' ≡ far s ++ bytes) × (near s' ≡ near s)

module _ {S : Type 0} (evp : Evp) (enc : Bool) (holds : EncryptCtx → S → Type 0)
    (far near : S → List ℕ) (callback : List ℕ → Cmd S (Unit {0}))
    (once : (c : EncryptCtx) (bytes : List ℕ) (s : S)
      → holds c s
      → 0 < length bytes
      → let (done, c', out) = step evp enc c (frame_of bytes) (frame_of []) in
        Returns (λ _ s'. Moved holds far near s c' (payload out) s') (callback bytes s)) where
  -- One call moves what `step` makes of a read; the calls together move what `pump` does.
  pub each-pump :
      (reads : List (List ℕ)) (c : EncryptCtx) (s : S)
      → holds c s
      → All (λ bytes. 0 < length bytes) reads
      → Returns
          (λ _ s'. (c' : EncryptCtx) × Moved holds far near s c' (pump (step evp enc) c reads) s')
          (each callback reads s)
  unfolding each pump
  each-pump [] c s held more = returns (c, (held, sym (append-nil (far s)), refl))
  each-pump (bytes ∷ reads) c s held (some', more) =
      let (done, c', out) = step evp enc c (frame_of bytes) (frame_of []) in
      bind (once c bytes s held some') λ _ s1 (held1, far1, near1).
        weaken (each-pump reads c' s1 held1 more) λ _ s2 (c2, (held2, far2, near2)). (
          c2,
          (
            held2,
            far2
                ∙ ap (λ q. q ++ pump (step evp enc) c' reads) far1
                ∙ append_assoc (far s) (payload out) (pump (step evp enc) c' reads),
            near2 ∙ near1,
          ),
        )
