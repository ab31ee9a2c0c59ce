-- ===== src/Slist/Sequence.antt =====
-- Any sequence of operations on a list of include/st_slist.h, against a list of nodes.
use sshinner.Base.{
  ℕ, suc, ◌+◌, ◌%◌, ◌^◌, ◌<◌, ◌≤◌, ◌≡◌, ◌≢◌, refl, ◌∙◌, inl, inr, Bool-cases, some, List, [], ◌∷◌,
  ◌++◌, arith, ◌==◌, length, length-append, has, has-append, ◌∈◌, ◌∉◌, erase, mem-erase_ne,
}
use sshinner.Run.{Cmd, pure, Returns, returns, bind, weaken, ◌>>=◌, ◌>>◌}
use sshinner.Slist.{Ptr, Links, add, remove, fetch, count}
use sshinner.Slist.Chain.{Chain, nil, cons}
use sshinner.Slist.Append.{add_lem}
use sshinner.Slist.Unlink.{remove_lem}
use sshinner.Slist.Queue.{fetch_lem, count_lem}

-- A call of `slist_add`, `slist_remove`, `slist_fetch` or `slist_count`.
pub data Op : Type 0 where
  adds removes : Ptr → Op
  fetches counts : Op

abbrev pub HasCell : Links → Ptr → Type 0
HasCell h a = (v : Ptr) × (h a ≡ some v)

chain_cell :
    {h : Links} {p : Ptr} {xs : List Ptr} → Chain h p xs → (a : Ptr) → a ∈ p ∷ xs → HasCell h a
chain_cell (nil {p} n e) a i = (0, ground (arith, e))
chain_cell (cons {p} {q} n e out c) a i = elim (Bool-cases (a == p)) [
  | inl here ↦ (q, ground (arith, e))
  | inr other ↦ chain_cell c a (ground (arith, i))
]

-- What an operation answers, 0 where it returns nothing, and the list that it leaves.
abbrev pub answer : Op → List Ptr → ℕ
answer (adds x) xs = 0
answer (removes d) xs = 0
answer fetches [] = 0
answer fetches (x ∷ xs) = x
answer counts xs = length xs % 2 ^ 32

abbrev pub after_op : Op → List Ptr → List Ptr
after_op (adds x) xs = xs ++ x ∷ []
after_op (removes d) xs = erase d xs
after_op fetches [] = []
after_op fetches (x ∷ xs) = xs
after_op counts xs = xs

abbrev pub answers : List Op → List Ptr → List ℕ
answers [] xs = []
answers (op ∷ ops) xs = answer op xs ∷ answers ops (after_op op xs)

abbrev pub after_ops : List Op → List Ptr → List Ptr
after_ops [] xs = xs
after_ops (op ∷ ops) xs = after_ops ops (after_op op xs)

length-erase : (d : Ptr) (xs : List Ptr) → length (erase d xs) ≤ length xs
length-erase d [] = omega arith
length-erase d (x ∷ xs) = ground (arith, length-erase d xs)

length-after_op : (op : Op) (xs : List Ptr) → length (after_op op xs) ≤ suc (length xs)
length-after_op (adds x) xs = omega (arith, length-append xs (x ∷ []))
length-after_op (removes d) xs = omega (arith, length-erase d xs)
length-after_op fetches [] = omega arith
length-after_op fetches (x ∷ xs) = omega arith
length-after_op counts xs = omega arith

module _ (nodes : List Ptr) (fuel head : ℕ) where
  abbrev pub perform : Op → Cmd Links ℕ
  perform (adds x) = do add fuel x head; pure 0
  perform (removes d) = do remove fuel d head; pure 0
  perform fetches = fetch head
  perform counts = count fuel head

  abbrev pub perform_all : List Op → Cmd Links (List ℕ)
  perform_all [] = pure []
  perform_all (op ∷ ops) = do r ← perform op; rs ← perform_all ops; pure (r ∷ rs)

  -- A node is added only if it is a node and not in the list; `NULL` is not removed.
  abbrev pub IsReady : Op → List Ptr → Type 0
  IsReady (adds x) xs = (x ≢ 0) × (x ∈ nodes) × (x ∉ head ∷ xs)
  IsReady (removes d) xs = d ≢ 0
  IsReady fetches xs = Unit {0}
  IsReady counts xs = Unit {0}

  abbrev pub AllReady : List Op → List Ptr → Type 0
  AllReady [] xs = Unit {0}
  AllReady (op ∷ ops) xs = IsReady op xs × AllReady ops (after_op op xs)

  -- The nodes have cells, and the list leads through `xs`.
  abbrev pub Holds : List Ptr → Links → Type 0
  Holds xs h = Chain h head xs × ((a : Ptr) → a ∈ nodes → HasCell h a)

  perform-Holds :
      (op : Op) (xs : List Ptr) (h : Links)
      → Holds xs h
      → IsReady op xs
      → length xs < fuel
      → Returns (λ r g. (r ≡ answer op xs) × Holds (after_op op xs) g) (perform op h)
  perform-Holds (adds x) xs h (chain, cells) (real, node, out) more =
      let (v, cell) = cells x node in
      bind (add_lem h fuel x real cell chain out more) λ _ g (chain', same). returns (
        refl,
        (
          chain',
          λ a i. elim (Bool-cases (has a (head ∷ (xs ++ x ∷ [])))) [
            | inl inside ↦ chain_cell chain' a inside
            | inr outside ↦
                let (u, e) = cells a i in
                (u, same a (ground (arith, outside, has-append a xs (x ∷ []))) ∙ e)
          ],
        ),
      )
  perform-Holds (removes d) xs h (chain, cells) real more =
      bind (remove_lem h fuel d real chain more) λ _ g (chain', same, kept). returns (
        refl,
        (
          chain',
          λ a i. elim (Bool-cases (has a (head ∷ erase d xs))) [
            | inl inside ↦ chain_cell chain' a inside
            | inr outside ↦
                let (u, e) = cells a i in
                elim (Bool-cases (a == d)) [
                  | inl at_d ↦ (u, ground (arith, kept, e))
                  | inr other ↦ (u, same a (ground (arith, mem-erase_ne a d xs)) ∙ e)
                ]
          ],
        ),
      )
  perform-Holds fetches [] h (chain, cells) ready more =
      weaken (fetch_lem h chain) λ r g (null, same). (null, rw same (chain, cells))
  perform-Holds fetches (x ∷ xs) h (chain, cells) ready more =
      weaken (fetch_lem h chain) λ r g (first, chain', same). (
        first,
        (
          chain',
          λ a i. elim (Bool-cases (a == head)) [
            | inl here ↦ chain_cell chain' a (ground arith)
            | inr other ↦ let (u, e) = cells a i in (u, same a (ground arith) ∙ e)
          ],
        ),
      )
  perform-Holds counts xs h (chain, cells) ready more =
      rw (count_lem h fuel chain more) (returns (refl, (chain, cells)))

  -- Let a list lead from its head through some nodes, and let calls of `slist_add`, `slist_remove`,
  -- `slist_fetch` and `slist_count` follow one another in any order, where what is added is a node that
  -- has a cell and is not in the list then, and `NULL` is never removed. With fuel for more nodes than there
  -- are nodes and calls together, the calls return what appending, erasing the first occurrence,
  -- taking the head, and the length as a 32-bit number give for the list of the nodes; and the list then
  -- leads through what those leave.
  pub perform_all-Holds :
      (ops : List Op) (xs : List Ptr) (h : Links)
      → Holds xs h
      → AllReady ops xs
      → length xs + length ops < fuel
      → Returns (λ rs g. (rs ≡ answers ops xs) × Holds (after_ops ops xs) g) (perform_all ops h)
  perform_all-Holds [] xs h holds ready more = returns (refl, holds)
  perform_all-Holds (op ∷ ops) xs h holds (ready, later) more =
      bind (perform-Holds op xs h holds ready (omega arith)) λ r g (first, holds1).
        bind
          (perform_all-Holds ops (after_op op xs) g holds1 later
            (omega (arith, length-after_op op xs)))
          λ rs g2 (others, holds2). returns (rw (first, others) refl, holds2)
