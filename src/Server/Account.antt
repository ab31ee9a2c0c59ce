-- ===== src/Server/Account.antt =====
-- The accounts and their sessions (server/source/sshinner_s_data.c, `ss_find_acct_item`,
-- `ss_activ_item_remove` and `ss_acct_remove`).
pub mod Names
use sshinner.Base.{
  ℕ, zero, suc, ◌+◌, Bool, true, false, not, ◌&&◌, some, none, List, [], ◌∷◌, ◌==◌, leb,
  if◌then◌else◌, length, erase,
}
use sshinner.Run.{pure, halt, faulted, ◌>>=◌, ◌>>◌}
use sshinner.Server.{Ptr, Env, Srv}
use sshinner.Server.Memory.{load_acct, load_activ, put_acct, put_activ, set_acct_items, get}
use sshinner.Server.Uuid.{uuid_search, uuid_erase}
use sshinner.Server.Trans.{is_empty, free_all_trans}

-- `tolower` in the C locale.
abbrev pub to_lower : ℕ → ℕ
to_lower c = if leb b'A' c && leb c b'Z' then c + 32 else c

-- `strncasecmp(a, b, n) == 0`, on texts without their closing 0.
unfoldable pub strncasecmp_eq : List ℕ → List ℕ → ℕ → Bool
strncasecmp_eq a b zero = true
strncasecmp_eq [] [] (suc n) = true
strncasecmp_eq [] (b ∷ bs) (suc n) = false
strncasecmp_eq (a ∷ as') [] (suc n) = false
strncasecmp_eq (a ∷ as') (b ∷ bs) (suc n) = (to_lower a == to_lower b) && strncasecmp_eq as' bs n

-- The loop of `ss_find_acct_item`.
unfoldable pub find_acct_in : List ℕ → ℕ → List Ptr → Srv Ptr
unfolding strncasecmp_eq
find_acct_in username userid [] = pure 0
find_acct_in username userid (p ∷ ps) = do
  acct ← load_acct p
  if strncasecmp_eq username acct.username (length acct.username) && (userid == acct.userid)
      then pure p
      else find_acct_in username userid ps

-- `ss_find_acct_item`, for a user name that is not `NULL`.
unfoldable pub find_acct_item : List ℕ → ℕ → Srv Ptr
unfolding find_acct_in
find_acct_item username userid = do
  s ← get
  if is_empty s.acct_items then pure 0 else find_acct_in username userid s.acct_items

-- The loop of `ss_acct_remove`.
unfoldable pub acct_remove_in : Ptr → List Ptr → Srv Bool
acct_remove_in p_item [] = pure false
acct_remove_in p_item (p ∷ ps) =
    if p == p_item
    then (do s ← get; set_acct_items (erase p_item s.acct_items); put_acct p none; pure true)
    else acct_remove_in p_item ps

-- `ss_acct_remove`
unfoldable pub acct_remove : Ptr → Srv Bool
unfolding acct_remove_in
acct_remove p_item = do
  acct ← load_acct p_item
  if not (is_empty acct.items) then pure false else do s ← get; acct_remove_in p_item s.acct_items

-- `ss_activ_item_remove`. Where the session is not found, its error message reads the machine id
-- through the `NULL` that the search returned.
unfoldable pub activ_item_remove : Env → Ptr → Srv Bool
activ_item_remove env p_item = do
  item ← load_activ p_item
  s ← get
  p_activ_item ← uuid_search item.mach_uuid s.uuid_tree
  if p_activ_item == 0 then halt faulted else do
    activ ← load_activ p_activ_item
    load_acct activ.p_acct
    free_all_trans p_activ_item
    uuid_erase env p_activ_item
    acct ← load_acct activ.p_acct
    put_acct activ.p_acct (some (record acct { items = erase p_activ_item acct.items }))
    put_activ p_activ_item none
    left ← load_acct activ.p_acct
    if is_empty left.items then (do acct_remove activ.p_acct; pure true) else pure true
