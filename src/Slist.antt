-- ===== src/Slist.antt =====
-- The singly linked lists of include/st_slist.h, on a heap of `next` fields. Each loop runs on fuel;
-- one round more than the list has nodes is enough.
pub mod Chain
pub mod Append
pub mod Unlink
pub mod Queue
pub mod Sequence
use sshinner.Base.{
  ℕ, zero, suc, ◌+◌, ◌%◌, ◌^◌, ◌-◌, Bool, true, false, ◌||◌, Option, none, some, ◌==◌,
  if◌then◌else◌,
}
use sshinner.Run.{Cmd, ok, stop, faulted, spun, pure, halt, deref, ◌>>=◌, ◌>>◌}

-- An address; 0 is `NULL`.
abbrev pub Ptr : Type 0
Ptr = ℕ

-- What the `next` field at an address holds; `none` where there is no list node.
abbrev pub Links : Type 0
Links = Ptr → Option Ptr

unfoldable pub write : Links → Ptr → Ptr → Links
write h p q a = if a == p then some q else h a

-- `p->next`
unfoldable pub next : Ptr → Cmd Links Ptr
next p h = if p == 0 then stop faulted else deref (h p) h

-- `p->next = q`
unfoldable pub set_next : Ptr → Ptr → Cmd Links (Unit {0})
unfolding next
set_next p q = do next p; (λ h. ok tt (write h p q))

-- `slist_init`
unfoldable pub init : Ptr → Cmd Links (Unit {0})
init head = set_next head 0

-- `slist_empty`
unfoldable pub is_empty : Ptr → Cmd Links Bool
is_empty head = do first ← next head; pure (first == 0)

-- `slist_add`: the walk to the last node, and the two writes behind it.
unfoldable pub add_loop : ℕ → (new_item ptr : Ptr) → Cmd Links (Unit {0})
add_loop zero new_item ptr = halt spun
add_loop (suc fuel) new_item ptr = do
  after ← next ptr
  if after == 0
      then (do set_next ptr new_item; set_next new_item 0)
      else add_loop fuel new_item after

unfoldable pub add : ℕ → (new_item head : Ptr) → Cmd Links (Unit {0})
add fuel new_item head = add_loop fuel new_item head

-- `slist_for_each` of `slist_remove`
unfoldable pub remove_loop : ℕ → (del_item pos : Ptr) → Cmd Links (Unit {0})
remove_loop zero del_item pos = halt spun
remove_loop (suc fuel) del_item pos = if pos == 0 then pure tt else do
  after ← next pos
  if after == del_item
      then (do behind ← next after; set_next pos behind)
      else remove_loop fuel del_item after

-- `slist_remove`
unfoldable pub remove : ℕ → (del_item head : Ptr) → Cmd Links (Unit {0})
remove fuel del_item head = if (head == 0) || (del_item == 0) then pure tt else do
  first ← next head
  if first == 0
      then pure tt
      else (if first == del_item
          then (do behind ← next first; set_next head behind)
          else remove_loop fuel del_item first)

unfoldable pub count_loop : ℕ → ℕ → Ptr → Cmd Links ℕ
count_loop zero count pos = halt spun
count_loop (suc fuel) count pos =
    if pos == 0 then pure count else do after ← next pos; count_loop fuel (count + 1) after

-- `slist_count`, as the `unsigned int` that it returns.
unfoldable pub count : ℕ → Ptr → Cmd Links ℕ
count fuel head =
    if head == 0
    then pure (2 ^ 32 - 1)
    else do first ← next head; total ← count_loop fuel 0 first; pure (total % 2 ^ 32)

-- `slist_fetch`: the first node is unlinked and returned.
unfoldable pub fetch : Ptr → Cmd Links Ptr
fetch head = if head == 0 then pure 0 else do
  first ← next head
  if first == 0 then pure 0 else (do behind ← next first; set_next head behind; pure first)

-- `slist_last`: `ret->next->next != NULL` walks on.
unfoldable pub last_loop : ℕ → Ptr → Cmd Links Ptr
last_loop zero ret = halt spun
last_loop (suc fuel) ret = do
  after ← next ret
  behind ← next after
  if behind == 0 then pure after else last_loop fuel after

unfoldable pub last : ℕ → Ptr → Cmd Links Ptr
last fuel head =
    if head == 0
    then pure 0
    else do first ← next head; if first == 0 then pure 0 else last_loop fuel head
