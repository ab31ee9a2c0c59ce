-- ===== src/Server/Account/Names.antt =====
-- Whom `ss_find_acct_item` finds: the comparison is as long as the stored name.
use sshinner.Base.{
  ℕ, ◌≡◌, refl, Bool, true, false, ◌&&◌, none, some, List, [], ◌∷◌, ◌++◌, arith, ◌==◌,
  if◌then◌else◌, length,
}
use mathlib.Core.List.{map}
use sshinner.Run.{ok}
use sshinner.Server.{Ptr, AcctItem, Server, find_at}
use sshinner.Server.Account.{to_lower, strncasecmp_eq, find_acct_in, find_acct_item}

-- Whether a text begins with another.
abbrev pub begins_with : List ℕ → List ℕ → Bool
begins_with text [] = true
begins_with [] (c ∷ cs) = false
begins_with (d ∷ text) (c ∷ cs) = (d == c) && begins_with text cs

strncasecmp_eq-begins_with :
    (name stored : List ℕ)
    → strncasecmp_eq name stored (length stored)
      ≡ begins_with (map to_lower name) (map to_lower stored)
unfolding strncasecmp_eq
strncasecmp_eq-begins_with name [] = refl
strncasecmp_eq-begins_with [] (c ∷ cs) = refl
strncasecmp_eq-begins_with (d ∷ name) (c ∷ cs) = ground (arith, strncasecmp_eq-begins_with name cs)

-- Whether a user goes by an account: the lower-case stored name begins the lower-case given one.
abbrev pub goes_by : List ℕ → ℕ → AcctItem → Bool
goes_by name userid acct =
    begins_with (map to_lower name) (map to_lower acct.username) && (userid == acct.userid)

-- The accounts of a list exist.
abbrev pub AllLive : Server → List Ptr → Type 0
AllLive s [] = Unit {0}
AllLive s (p ∷ ps) = ((acct : AcctItem) × (find_at s.accts p ≡ some acct)) × AllLive s ps

-- The first account of a list that a user goes by.
abbrev pub first_acct : Server → List ℕ → ℕ → List Ptr → Ptr
first_acct s name userid [] = 0
first_acct s name userid (p ∷ ps) =
    if (elim (find_at s.accts p) [ none ↦ false | some acct ↦ goes_by name userid acct ])
    then p
    else first_acct s name userid ps

find_acct_in-first :
    (s : Server) (name : List ℕ) (userid : ℕ) (ps : List Ptr)
    → AllLive s ps
    → find_acct_in name userid ps s ≡ ok (first_acct s name userid ps) s
unfolding find_acct_in
find_acct_in-first s name userid [] live = refl
find_acct_in-first s name userid (p ∷ ps) ((acct, e), rest) = ground (
  arith,
  e,
  strncasecmp_eq-begins_with name acct.username,
  find_acct_in-first s name userid ps rest,
)

-- Where the accounts of the list exist, `ss_find_acct_item` returns the first one that has the user's
-- number and whose name, upper or lower case aside, begins the given name; it returns `NULL` where
-- there is none, and changes nothing.
pub find_acct_item-first :
    (s : Server) (name : List ℕ) (userid : ℕ)
    → AllLive s s.acct_items
    → find_acct_item name userid s ≡ ok (first_acct s name userid s.acct_items) s
unfolding find_acct_item
find_acct_item-first s name userid live =
    ground (arith, find_acct_in-first s name userid s.acct_items live)

begins_with-append :
    (stored more : List ℕ)
    → begins_with (map to_lower (stored ++ more)) (map to_lower stored) ≡ true
begins_with-append [] more = refl
begins_with-append (c ∷ stored) more = ground (arith, begins_with-append stored more)

-- A user who gives the number of the first account and a name that only begins with that account's
-- name is taken for its owner.
pub find_acct_item_longer :
    (s : Server) (p : Ptr) (ps : List Ptr) (acct : AcctItem) (more : List ℕ)
    → s.acct_items ≡ p ∷ ps
    → find_at s.accts p ≡ some acct
    → find_acct_item (acct.username ++ more) acct.userid s ≡ ok p s
unfolding find_acct_item find_acct_in
find_acct_item_longer s p ps acct more e here = ground (
  arith,
  strncasecmp_eq-begins_with (acct.username ++ more) acct.username,
  begins_with-append acct.username more,
)
