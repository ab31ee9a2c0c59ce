-- ===== src/Crypt/Decimal.antt =====
-- `sprintf` with `%d`: the low 32 bits of the argument, read as an `int`, in decimal.
use sshinner.Base.{ℕ, zero, suc, ◌+◌, ◌-◌, ◌/◌, ◌%◌, ◌^◌, List, [], ◌∷◌, ◌++◌, ltb, if◌then◌else◌}

-- The decimal digits of a number below 10 ^ fuel.
unfoldable pub print_nat : ℕ → ℕ → List ℕ
print_nat zero n = []
print_nat (suc fuel) n =
    let rest = print_nat fuel (n / 10) in
    if ltb n 10 then (b'0' + n) ∷ [] else rest ++ (b'0' + n % 10) ∷ []

-- A 32-bit number has at most ten digits.
unfoldable pub print_int : ℕ → List ℕ
unfolding print_nat
print_int n =
    let word : ℕ = n % 2 ^ 32 in
    if ltb word (2 ^ 31) then print_nat 10 word else b'-' ∷ print_nat 10 (2 ^ 32 - word)
