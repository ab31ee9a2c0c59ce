-- ===== src/Base/Lists.antt =====
-- Lists measured and indexed by native numbers, and lists of addresses.
use Prim.Native.Nat.{ℕ, zero, suc, ◌+◌}
use mathlib.Core.Path.{◌≡◌, refl, ap}
use mathlib.Core.Bool.{Bool, true, false, ◌||◌}
use mathlib.Core.List.{List, [], ◌∷◌, ◌++◌}
use mathlib.Core.Option.{Option, none, some}
use native.Mathlib.Omega.{arith}
use sshinner.Base.Tests.{◌==◌, if◌then◌else◌}

module _ {ℓ} {A : Type ℓ} where
  abbrev pub length : List A → ℕ
  length [] = 0
  length (x ∷ xs) = suc (length xs)

  abbrev pub get_elem? : List A → ℕ → Option A
  get_elem? [] i = none
  get_elem? (x ∷ xs) zero = some x
  get_elem? (x ∷ xs) (suc i) = get_elem? xs i

  -- A write out of bounds changes nothing.
  abbrev pub set : List A → ℕ → A → List A
  set [] i v = []
  set (x ∷ xs) zero v = v ∷ xs
  set (x ∷ xs) (suc i) v = x ∷ set xs i v

  abbrev pub take : ℕ → List A → List A
  take zero xs = []
  take (suc n) [] = []
  take (suc n) (x ∷ xs) = x ∷ take n xs

  abbrev pub drop : ℕ → List A → List A
  drop zero xs = xs
  drop (suc n) [] = []
  drop (suc n) (x ∷ xs) = drop n xs

  abbrev pub replicate : ℕ → A → List A
  replicate zero a = []
  replicate (suc n) a = a ∷ replicate n a

  abbrev pub All {κ} : (A → Type κ) → List A → Type κ
  All P [] = Unit
  All P (x ∷ xs) = P x × All P xs

  pub length-append : (xs ys : List A) → length (xs ++ ys) ≡ length xs + length ys
  length-append [] ys = omega arith
  length-append (x ∷ xs) ys = omega (arith, length-append xs ys)

  pub get_elem?-set :
      (xs : List A) (i : ℕ) (x y : A) → get_elem? xs i ≡ some x → get_elem? (set xs i y) i ≡ some y
  get_elem?-set [] i x y e = ground (arith, e)
  get_elem?-set (z ∷ xs) zero x y e = refl
  get_elem?-set (z ∷ xs) (suc i) x y e = get_elem?-set xs i x y e

  pub length-set : (xs : List A) (i : ℕ) (y : A) → length (set xs i y) ≡ length xs
  length-set [] i y = refl
  length-set (z ∷ xs) zero y = refl
  length-set (z ∷ xs) (suc i) y = omega (arith, length-set xs i y)

  pub ne_zero_of_elem :
      (xs : List A) (i : ℕ) (x : A) → get_elem? xs i ≡ some x → (length xs == 0) ≡ false
  ne_zero_of_elem [] i x e = ground (arith, e)
  ne_zero_of_elem (z ∷ xs) i x e = ground arith

  pub take-append : (n : ℕ) (xs ys : List A) → length xs ≡ n → take n (xs ++ ys) ≡ xs
  take-append zero [] ys e = refl
  take-append zero (x ∷ xs) ys e = ground arith
  take-append (suc n) [] ys e = ground arith
  take-append (suc n) (x ∷ xs) ys e = ap (◌∷◌ x) (take-append n xs ys (omega arith))

  pub drop-append : (n : ℕ) (xs ys : List A) → length xs ≡ n → drop n (xs ++ ys) ≡ ys
  drop-append zero [] ys e = refl
  drop-append zero (x ∷ xs) ys e = ground arith
  drop-append (suc n) [] ys e = ground arith
  drop-append (suc n) (x ∷ xs) ys e = drop-append n xs ys (omega arith)

-- A text up to its first 0.
abbrev pub c_string : List ℕ → List ℕ
c_string [] = []
c_string (c ∷ cs) = if c == 0 then [] else c ∷ c_string cs

-- Whether an address is among `xs`.
abbrev pub has : ℕ → List ℕ → Bool
has a [] = false
has a (x ∷ xs) = (a == x) || has a xs

infix 40 ◌∈◌ ◌∉◌
abbrev pub ◌∈◌ : ℕ → List ℕ → Type 0
a ∈ xs = has a xs ≡ true

abbrev pub ◌∉◌ : ℕ → List ℕ → Type 0
a ∉ xs = has a xs ≡ false

-- `xs` without its first `a`.
abbrev pub erase : ℕ → List ℕ → List ℕ
erase a [] = []
erase a (x ∷ xs) = if a == x then xs else x ∷ erase a xs

abbrev pub IsNodup : List ℕ → Type 0
IsNodup [] = Unit
IsNodup (x ∷ xs) = (x ∉ xs) × IsNodup xs

pub has-append : (a : ℕ) (xs ys : List ℕ) → has a (xs ++ ys) ≡ (has a xs || has a ys)
has-append a [] ys = refl
has-append a (x ∷ xs) ys = ground (arith, has-append a xs ys)

pub not-mem-erase : (a b : ℕ) (xs : List ℕ) → a ∉ xs → a ∉ erase b xs
not-mem-erase a b [] h = refl
not-mem-erase a b (x ∷ xs) h = ground (arith, not-mem-erase a b xs)

-- In a list without repetition nothing of `a` is left.
pub not-mem-erase_self : (a : ℕ) (xs : List ℕ) → IsNodup xs → a ∉ erase a xs
not-mem-erase_self a [] h = refl
not-mem-erase_self a (x ∷ xs) h = ground (arith, not-mem-erase_self a xs h.1)

pub mem-erase_ne : (a b : ℕ) (xs : List ℕ) → (a == b) ≡ false → has a (erase b xs) ≡ has a xs
mem-erase_ne a b [] h = refl
mem-erase_ne a b (x ∷ xs) h = ground (arith, mem-erase_ne a b xs h)

pub erase_absent : (a : ℕ) (xs : List ℕ) → a ∉ xs → erase a xs ≡ xs
erase_absent a [] h = refl
erase_absent a (x ∷ xs) h = ground (arith, erase_absent a xs)

pub erase-IsNodup : (a : ℕ) (xs : List ℕ) → IsNodup xs → IsNodup (erase a xs)
erase-IsNodup a [] h = tt
erase-IsNodup a (x ∷ xs) h = ground (arith, erase-IsNodup a xs h.1, not-mem-erase x a xs h.0)
