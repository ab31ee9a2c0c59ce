-- ===== src/Slist/Queue.antt =====
-- `slist_count`, `slist_fetch` and `slist_last`: the length, the front and the back of a list.
use sshinner.Base.{
  ℕ, zero, suc, ◌+◌, ◌%◌, ◌^◌, ◌<◌, ◌≡◌, ◌≢◌, refl, ap, some, List, [], ◌∷◌, ◌++◌, arith, length,
  ==_false, suc-pred,
}
use sshinner.Run.{ok, Returns, returns}
use sshinner.Slist.{Ptr, Links, write, count_loop, count, fetch, last_loop, last}
use sshinner.Slist.Chain.{
  Chain, nil, cons, SameOutside, head_ne_null, next-ok, set_next-ok, frame-write,
}

count_loop_lem :
    (h : Links) (fuel n : ℕ) {p : Ptr} {xs : List Ptr}
    → Chain h p xs
    → length xs + 1 < fuel
    → count_loop fuel n p h ≡ ok (n + 1 + length xs) h
unfolding count_loop
count_loop_lem h zero n c more = absurd (omega arith)
count_loop_lem h (suc fuel) n (nil {p} r e) more =
    let (k, f) = suc-pred fuel (omega arith) in
    rw (f, ==_false p 0 r, next-ok r e) (ap (λ m. ok m h) (omega arith))
count_loop_lem h (suc fuel) n (cons {p} {q} {xs} r e o c) more =
    rw (==_false p 0 r, next-ok r e, count_loop_lem h fuel (n + 1) c (omega arith))
      (ap (λ m. ok m h) (omega arith))

-- `slist_count` returns the number of nodes of a list, as an `unsigned int`, and changes nothing: with
-- enough fuel it returns.
pub count_lem :
    (h : Links) (fuel : ℕ) {head : Ptr} {xs : List Ptr}
    → Chain h head xs
    → length xs < fuel
    → count fuel head h ≡ ok (length xs % 2 ^ 32) h
unfolding count count_loop
count_lem h fuel (nil {p} r e) more =
    let (k, f) = suc-pred fuel (omega arith) in rw (==_false p 0 r, next-ok r e, f)
count_lem h fuel (cons {p} {q} {xs} r e o c) more =
    rw (==_false p 0 r, next-ok r e, count_loop_lem h fuel 0 c (omega arith))
      (ap (λ m. ok (m % 2 ^ 32) h) (omega arith))

-- The outcome of taking the first node off the chain of `p`.
abbrev pub Fetched : Links → Ptr → List Ptr → Ptr → Links → Type 0
Fetched h p [] r g = (r ≡ 0) × (g ≡ h)
Fetched h p (x ∷ xs) r g = (r ≡ x) × Chain g p xs × SameOutside (p ∷ []) h g

-- `slist_fetch` unlinks the first node of a list and returns it; no other node than the
-- head is written. On an empty list it returns `NULL`
-- and changes nothing.
pub fetch_lem :
    (h : Links) {head : Ptr} {xs : List Ptr}
    → Chain h head xs
    → Returns (Fetched h head xs) (fetch head h)
unfolding fetch write
fetch_lem h (nil {p} n e) = rw (==_false p 0 n, next-ok n e) (returns (refl, refl))
fetch_lem h (cons {p} {q} n e o (nil m f)) =
    rw (==_false p 0 n, next-ok n e, ==_false q 0 m, next-ok m f, set_next-ok h 0 n e)
      (returns (refl, nil n (ground arith), λ a i. ground arith))
fetch_lem h (cons {p} {q} n e o (cons {q = r} m f i c)) =
    rw (==_false p 0 n, next-ok n e, ==_false q 0 m, next-ok m f, set_next-ok h r n e)
      (returns (
        refl,
        cons n (ground arith) (ground arith) (frame-write p r c (ground arith)),
        λ a k. ground arith,
      ))

first_of_snoc :
    (h : Links) (x : Ptr) (xs : List Ptr) {p : Ptr}
    → Chain h p (xs ++ x ∷ [])
    → (q : Ptr) × (h p ≡ some q) × (q ≢ 0)
first_of_snoc h x [] (cons {q} n e o c) = (q, e, head_ne_null c)
first_of_snoc h x (y ∷ xs) (cons {q} n e o c) = (q, e, head_ne_null c)

last_loop_lem :
    (h : Links) (fuel : ℕ) (x : Ptr) (xs : List Ptr) {p : Ptr}
    → Chain h p (xs ++ x ∷ [])
    → length xs < fuel
    → last_loop fuel p h ≡ ok x h
unfolding last_loop
last_loop_lem h zero x xs c more = absurd (omega arith)
last_loop_lem h (suc fuel) x [] (cons n e o (nil m f)) more = rw (next-ok n e, next-ok m f)
last_loop_lem h (suc fuel) x (y ∷ xs) (cons n e o c) more =
    let (q, f, m) = first_of_snoc h x xs c in
    rw (next-ok n e, next-ok (head_ne_null c) f, ==_false q 0 m)
      (last_loop_lem h fuel x xs c (omega arith))

-- `slist_last` returns the last node of a list that has one, and changes nothing: with enough fuel it
-- returns.
pub last_lem :
    (h : Links) (fuel : ℕ) (x : Ptr) (xs : List Ptr) {head : Ptr}
    → Chain h head (xs ++ x ∷ [])
    → length xs < fuel
    → last fuel head h ≡ ok x h
unfolding last
last_lem h fuel x [] (cons {p} n e o c) more =
    rw (==_false p 0 n, next-ok n e, ==_false x 0 (head_ne_null c))
      (last_loop_lem h fuel x [] (cons n e o c) more)
last_lem h fuel x (y ∷ xs) (cons {p} n e o c) more =
    rw (==_false p 0 n, next-ok n e, ==_false y 0 (head_ne_null c))
      (last_loop_lem h fuel x (y ∷ xs) (cons n e o c) more)
