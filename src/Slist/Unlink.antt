-- ===== src/Slist/Unlink.antt =====
-- `slist_remove` takes a node out.
use sshinner.Base.{
  ℕ, zero, suc, ◌+◌, ◌<◌, ◌≡◌, ◌≢◌, refl, sym, inl, inr, false, some, List, [], ◌∷◌, arith, ◌==◌,
  length, ◌∉◌, erase, not-mem-erase, ==_false, ==_true, eq_of_==, suc-pred, ne_of_==, Bool-cases,
  if◌then◌else◌,
}
use sshinner.Run.{Cmd, Returns, returns, weaken, ◌>>=◌}
use sshinner.Slist.{Ptr, Links, write, next, set_next, remove_loop, remove}
use sshinner.Slist.Chain.{
  Chain, nil, cons, SameOutside, head_ne_null, next-ok, set_next-ok, frame-write,
}

-- The outcome of taking `d` out of the chain `xs` of `p`; `d` keeps its own `next` field.
abbrev pub Removed : Links → Ptr → List Ptr → Ptr → Unit {0} → Links → Type 0
Removed h p xs d _ g = Chain g p (erase d xs) × SameOutside (p ∷ xs) h g × (g d ≡ h d)

-- `pos->next = pos->next->next`
bypass :
    {h : Links} {p d : Ptr} {xs : List Ptr}
    → p ≢ 0
    → h p ≡ some d
    → p ∉ d ∷ xs
    → Chain h d xs
    → Returns
        (λ _ g. Chain g p xs × SameOutside (p ∷ []) h g)
        ((next d >>= λ behind. set_next p behind) h)
unfolding write
bypass {h} {p} n e o (nil {p = d} m f) =
    rw (next-ok m f, set_next-ok h 0 n e) (returns (nil n (ground arith), λ a i. ground arith))
bypass {h} {p} n e o (cons {p = d} {q} {xs} m f i c) =
    rw (next-ok m f, set_next-ok h q n e)
      (returns (
        cons n (ground arith) (ground arith) (frame-write p q c (ground arith)),
        λ a k. ground arith,
      ))

module _ {h : Links} (d : Ptr) (real : d ≢ 0) where
  -- One node of the walk: it is taken out, or the walk goes on at `q` by `k`.
  at_node :
      (k : Cmd Links (Unit {0})) {p q : Ptr} {xs : List Ptr}
      → p ≢ 0
      → h p ≡ some q
      → p ∉ q ∷ xs
      → Chain h q xs
      → ((d == q) ≡ false → Returns (Removed h q xs d) (k h))
      → Returns
          (Removed h p (q ∷ xs) d)
          ((if q == d then (do behind ← next q; set_next p behind) else k) h)
  at_node k {p} {q} {xs} n e o c go_on = elim (Bool-cases (d == q)) [
    | inl hit ↦ rw (==_true q d (sym (eq_of_== d q hit))) (
        weaken (bypass n e o c)
          λ _ g (chain, same). (ground arith, λ a i. same a (ground arith), same d (ground arith)))
    | inr miss ↦ rw (==_false q d (λ z. ne_of_== d q miss (sym z))) (
        weaken (go_on miss) λ _ g (chain, same, kept). (
          (let chained : Chain g p (q ∷ erase d xs) =
                cons n (ground (arith, same p)) (ground (arith, not-mem-erase p d xs)) chain in
              ground (arith, chained)),
          λ a i. same a (ground arith),
          kept,
        ))
  ]

  remove_loop_lem :
      (fuel : ℕ) {p : Ptr} {xs : List Ptr}
      → Chain h p xs
      → length xs + 1 < fuel
      → Returns (Removed h p xs d) (remove_loop fuel d p h)
  unfolding remove_loop
  remove_loop_lem zero c more = absurd (omega arith)
  remove_loop_lem (suc fuel) (nil {p} n e) more =
      let (k, f) = suc-pred fuel (omega arith) in
      rw (f, ==_false p 0 n, next-ok n e, ==_false 0 d (λ z. real (sym z)))
        (returns (nil n e, λ a o. refl, refl))
  remove_loop_lem (suc fuel) (cons {p} {q} n e o c) more =
      rw (==_false p 0 n, next-ok n e)
        (at_node _ n e o c λ miss. remove_loop_lem fuel c (omega arith))

-- `slist_remove` takes the first occurrence of a node out of a list, or changes nothing where the
-- node is not in it. It writes to no node outside the list, nor to the node that it takes out: with
-- enough fuel it returns.
pub remove_lem :
    (h : Links) (fuel d : ℕ) {head : Ptr} {xs : List Ptr}
    → d ≢ 0
    → Chain h head xs
    → length xs < fuel
    → Returns (Removed h head xs d) (remove fuel d head h)
unfolding remove
remove_lem h fuel d real (nil {p} n e) more =
    rw (==_false p 0 n, ==_false d 0 real, next-ok n e) (returns (nil n e, λ a o. refl, refl))
remove_lem h fuel d real (cons {p} {q} n e o c) more =
    rw (==_false p 0 n, ==_false d 0 real, next-ok n e, ==_false q 0 (head_ne_null c))
      (at_node d real _ n e o c λ miss. remove_loop_lem d real fuel c (omega arith))
