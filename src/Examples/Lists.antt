-- ===== src/Examples/Lists.antt =====
-- Lists of include/st_slist.h: a head at 1, with the nodes 5 and 9, and a free node 7.
use sshinner.Base.{
  ◌≡◌, refl, none, some, List, [], ◌∷◌, ◌∈◌, Bool-cases, inl, inr, arith, ◌==◌, if◌then◌else◌,
}
use sshinner.Run.{ok, Returns}
use sshinner.Slist.{Ptr, Links, remove, count, fetch}
use sshinner.Slist.Chain.{Chain, nil, cons}
use sshinner.Slist.Unlink.{Removed, remove_lem}
use sshinner.Slist.Queue.{Fetched, count_lem, fetch_lem}
use sshinner.Slist.Sequence.{
  Op, adds, removes, fetches, counts, HasCell, Holds, perform_all, perform_all-Holds,
}

abbrev links : Links
links p =
    if p == 1
    then some 5
    else if p == 5
    then some 9
    else if p == 9
    then some 0
    else if p == 7
    then some 3
    else none

chain : Chain links 1 (5 ∷ 9 ∷ [])
chain = cons (omega arith) refl refl (cons (omega arith) refl refl (nil (omega arith) refl))

remove_lem_example : Returns (Removed links 1 (5 ∷ 9 ∷ []) 9) (remove 3 9 1 links)
remove_lem_example = remove_lem links 3 9 (omega arith) chain (omega arith)

count_lem_example : count 3 1 links ≡ ok 2 links
count_lem_example = count_lem links 3 chain (omega arith)

fetch_lem_example : Returns (Fetched links 1 (5 ∷ 9 ∷ [])) (fetch 1 links)
fetch_lem_example = fetch_lem links chain

cells : (a : Ptr) → a ∈ 7 ∷ 5 ∷ [] → HasCell links a
cells a i = elim (Bool-cases (a == 7)) [
  | inl here ↦ (3, ground arith)
  | inr other ↦ (9, ground arith)
]

abbrev calls : List Op
calls = adds 7 ∷ fetches ∷ adds 5 ∷ removes 9 ∷ counts ∷ []

perform_all-Holds_example :
    Returns
      (λ rs g. (rs ≡ 0 ∷ 5 ∷ 0 ∷ 0 ∷ 2 ∷ []) × Holds (7 ∷ 5 ∷ []) 8 1 (7 ∷ 5 ∷ []) g)
      (perform_all (7 ∷ 5 ∷ []) 8 1 calls links)
perform_all-Holds_example =
    perform_all-Holds (7 ∷ 5 ∷ []) 8 1 calls (5 ∷ 9 ∷ []) links (chain, cells)
      ((omega arith, refl, refl), (tt, ((omega arith, refl, refl), (omega arith, (tt, tt)))))
      (omega arith)
