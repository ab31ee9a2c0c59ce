-- ===== src/Server/Dispatch/Reading/Bytes.antt =====
-- Taking bytes off the front of an input piece by piece (`evbuffer_remove` in
-- server/source/sshinner_s_event.c, `main_bufferread_cb`).
use sshinner.Base.{
  ℕ, zero, suc, ◌+◌, ◌-◌, ◌≤◌, ◌≡◌, refl, ap, ◌⊎◌, inl, inr, List, [], ◌∷◌, ◌++◌, arith, length,
  take, drop,
}

pub length-take : (n : ℕ) (bs : List ℕ) → n ≤ length bs → length (take n bs) ≡ n
length-take zero bs le = refl
length-take (suc n) [] le = omega (arith, le)
length-take (suc n) (b ∷ bs) le = omega (arith, length-take n bs)

length-drop : (n : ℕ) (bs : List ℕ) → length (drop n bs) ≡ length bs - n
length-drop zero bs = omega arith
length-drop (suc n) [] = omega arith
length-drop (suc n) (b ∷ bs) = omega (arith, length-drop n bs)

pub take-take : (k m n : ℕ) (bs : List ℕ) → k + m ≡ n → take k bs ++ take m (drop k bs) ≡ take n bs
take-take zero m n bs e = let e' : m ≡ n = omega arith in rw e'
take-take (suc k) m zero bs e = ground arith
take-take (suc k) zero (suc n) [] e = refl
take-take (suc k) (suc m) (suc n) [] e = refl
take-take (suc k) m (suc n) (b ∷ bs) e = ap (◌∷◌ b) (take-take k m n bs (omega arith))

pub drop-drop : (k m n : ℕ) (bs : List ℕ) → k + m ≡ n → drop m (drop k bs) ≡ drop n bs
drop-drop zero m n bs e = let e' : m ≡ n = omega arith in rw e'
drop-drop (suc k) m zero bs e = ground arith
drop-drop (suc k) zero (suc n) [] e = refl
drop-drop (suc k) (suc m) (suc n) [] e = refl
drop-drop (suc k) m (suc n) (b ∷ bs) e = drop-drop k m n bs (omega arith)

pub nothing_left :
    (m : ℕ) (bs : List ℕ) → (m ≡ 0) ⊎ (length bs ≡ 0) → (take m bs ≡ []) × (drop m bs ≡ bs)
nothing_left zero bs e = (refl, refl)
nothing_left (suc m) [] e = (refl, refl)
nothing_left (suc m) (b ∷ bs) (inl e) = ground arith
nothing_left (suc m) (b ∷ bs) (inr e) = ground arith

pub measure_take :
    (n : ℕ) (bs : List ℕ)
    → (length (take n bs) ≤ n)
      × (length (take n bs) ≤ length bs)
      × (take (length (take n bs)) bs ≡ take n bs)
      × (drop (length (take n bs)) bs ≡ drop n bs)
      × ((length (take n bs) ≡ 0) → (n ≡ 0) ⊎ (length bs ≡ 0))
measure_take zero bs = (omega arith, omega arith, refl, refl, λ e. inl refl)
measure_take (suc n) [] = (omega arith, omega arith, refl, refl, λ e. inr refl)
measure_take (suc n) (b ∷ bs) =
    let (a, b', c, d, e) = measure_take n bs in
    (omega arith, omega arith, ap (◌∷◌ b) c, d, λ z. ground arith)
