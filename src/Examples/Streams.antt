-- ===== src/Examples/Streams.antt =====
-- A cipher that is its own inverse, and a stream that is cut otherwise on its way.
use sshinner.Base.{ℕ, ◌≡◌, refl, true, false, [], ◌∷◌, arith}
use sshinner.Crypt.{blank_ctx, encrypt_ctx_init, encrypt, decrypt}
use sshinner.Crypt.Decimal.{print_int}
use sshinner.Crypt.Stream.{IsRc4, pump, pump-pump, step}
use sshinner.Examples.Data.{flip, test_evp}
use mathlib.Core.List.{flatten}

flip-flip : (b : ℕ) → flip (flip b) ≡ b
flip-flip b = ground arith

pub test_evp-IsRc4 : IsRc4 test_evp (λ key n. flip)
test_evp-IsRc4 = record {
  involutive = λ key n. flip-flip;
  starts = λ enc. refl;
  sizes = refl;
  keys = λ enc key. refl;
  updates = λ enc key n bs. refl;
}

pump-pump_example :
    pump
      (step test_evp false)
      (encrypt_ctx_init test_evp blank_ctx 80 (1 ∷ []) false).1
      ((250 ∷ []) ∷ (5 ∷ 6 ∷ []) ∷ [])
    ≡ 5 ∷ 250 ∷ 249 ∷ []
unfolding pump encrypt decrypt encrypt_ctx_init print_int flatten
pump-pump_example =
    pump-pump test_evp (λ key n. flip) test_evp-IsRc4 blank_ctx blank_ctx 80 (1 ∷ []) true false
      ((5 ∷ 250 ∷ []) ∷ (249 ∷ []) ∷ []) ((250 ∷ []) ∷ (5 ∷ 6 ∷ []) ∷ []) refl
