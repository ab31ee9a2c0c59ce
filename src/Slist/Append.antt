-- ===== src/Slist/Append.antt =====
-- `slist_add` appends.
use sshinner.Base.{
  ℕ, zero, suc, ◌<◌, ◌≡◌, ◌≢◌, some, List, [], ◌∷◌, ◌++◌, arith, length, ◌∉◌, has-append, ==_false,
}
use sshinner.Run.{Returns, returns, weaken}
use sshinner.Slist.{Ptr, Links, write, add_loop, add}
use sshinner.Slist.Chain.{Chain, nil, cons, SameOutside, head_ne_null, next-ok, set_next-ok}

-- The outcome of appending `x` behind the chain `xs` of `p`.
abbrev pub Appended : Links → Ptr → List Ptr → Ptr → Unit {0} → Links → Type 0
Appended h p xs x _ g = Chain g p (xs ++ x ∷ []) × SameOutside (x ∷ p ∷ xs) h g

module _ {h : Links} (x : Ptr) {old : Ptr} (real : x ≢ 0) (cell : h x ≡ some old) where
  add_loop_lem :
      (fuel : ℕ) {p : Ptr} {xs : List Ptr}
      → Chain h p xs
      → x ∉ p ∷ xs
      → length xs < fuel
      → Returns (Appended h p xs x) (add_loop fuel x p h)
  unfolding add_loop write
  add_loop_lem zero c out more = absurd (omega arith)
  add_loop_lem (suc fuel) (nil {p} n e) out more =
      rw
        (
          next-ok n e,
          set_next-ok h x n e,
          set_next-ok (write h p x) {q = old} 0 real (ground arith),
        )
        (returns
          (cons n (ground arith) (ground arith) (nil real (ground arith)), λ a o. ground arith))
  add_loop_lem (suc fuel) (cons {p} {q} {xs} n e o c) out more =
      rw (next-ok n e, ==_false q 0 (head_ne_null c))
        (weaken (add_loop_lem fuel c (ground arith) (omega arith)) λ _ g (chain, same). (
          cons n (ground (arith, same p)) (ground (arith, has-append p xs (x ∷ []))) chain,
          λ a i. same a (ground arith),
        ))

-- For a node that is in no list, `slist_add` puts it behind all the nodes of the list, and writes to
-- no other node than it and those of the list: with enough fuel it returns.
pub add_lem :
    (h : Links) (fuel x : ℕ) {old head : Ptr} {xs : List Ptr}
    → x ≢ 0
    → h x ≡ some old
    → Chain h head xs
    → x ∉ head ∷ xs
    → length xs < fuel
    → Returns (Appended h head xs x) (add fuel x head h)
unfolding add
add_lem h fuel x real cell c out more = add_loop_lem x real cell fuel c out more
