-- ===== src/Slist/Chain.antt =====
-- When the `next` fields from `head` lead through given nodes, and what a read or a write does there.
use sshinner.Base.{◌≡◌, ◌≢◌, some, List, [], ◌∷◌, arith, ◌∈◌, ◌∉◌, ==_false}
use sshinner.Run.{ok}
use sshinner.Slist.{Ptr, Links, write, next, set_next}

-- From `p` the fields lead through the distinct nodes `xs` to `NULL`.
pub data Chain (h : Links) : Ptr → List Ptr → Type 0 where
  nil : {p : Ptr} → p ≢ 0 → h p ≡ some 0 → Chain h p []
  cons :
      {p q : Ptr} {xs : List Ptr}
      → p ≢ 0
      → h p ≡ some q
      → p ∉ q ∷ xs
      → Chain h q xs
      → Chain h p (q ∷ xs)

-- `g` differs from `h` at most at the addresses of `xs`.
abbrev pub SameOutside : List Ptr → Links → Links → Type 0
SameOutside xs h g = (a : Ptr) → a ∉ xs → g a ≡ h a

pub next-ok : {h : Links} {p q : Ptr} → p ≢ 0 → h p ≡ some q → next p h ≡ ok q h
unfolding next
next-ok {p} n e = rw (==_false p 0 n, e)

pub set_next-ok :
    (h : Links) {p q : Ptr} (r : Ptr) → p ≢ 0 → h p ≡ some q → set_next p r h ≡ ok tt (write h p r)
unfolding set_next
set_next-ok h r n e = rw (next-ok n e)

module _ {h : Links} where
  pub head_ne_null : {p : Ptr} {xs : List Ptr} → Chain h p xs → p ≢ 0
  head_ne_null (nil n e) = n
  head_ne_null (cons n e out c) = n

  -- A chain survives any change that spares its own addresses.
  pub frame :
      {g : Links} {p : Ptr} {xs : List Ptr}
      → Chain h p xs
      → ((a : Ptr) → a ∈ p ∷ xs → g a ≡ h a)
      → Chain g p xs
  frame (nil {p} n e) same = nil n (ground (arith, same p))
  frame (cons {p} n e out c) same =
      cons n (ground (arith, same p)) out (frame c λ a i. same a (ground arith))

  pub frame-write :
      {p : Ptr} {xs : List Ptr} (a q : Ptr) → Chain h p xs → a ∉ p ∷ xs → Chain (write h a q) p xs
  unfolding write
  frame-write a q c out = frame c (λ b i. ground arith)
