-- ===== src/Server/Consistent.antt =====
-- How the server's objects hang together: the tree, the sessions, their transfers, and the blocks
-- that `calloc` may return (server/include/sshinner_s.h).
pub mod Ending
pub mod Quietly
pub mod Opening
pub mod Dispatching
pub mod Reach
pub mod Registration
pub mod Removal
pub mod Requests
pub mod Rules
pub mod Streaming
pub mod Writes
pub mod Workers
pub mod Transfers
pub mod Sessions
use sshinner.Base.{◌≡◌, ◌⊎◌, true, none, some, List, [], ◌∷◌, ◌==◌, ◌∈◌, ◌∉◌}
use sshinner.Run.{Run}
use sshinner.Run.Ensures.{Ensures}
use sshinner.Server.{Ptr, TransItem, ActivItem, Tree, Server, find_at}
use sshinner.Server.Uuid.Sequence.{Activs, Rising, in_order}
use sshinner.Server.Trans.{ushort}
use sshinner.Server.Trans.Ports.{Transs, Apart}

-- The blocks are unused, and none is returned twice, `NULL` aside.
abbrev pub Fresh : Activs → Transs → List Ptr → Type 0
Fresh f g [] = Unit {0}
Fresh f g (x ∷ xs) = (((x == 0) ≡ true) ⊎ ((f x ≡ none) × (g x ≡ none) × (x ∉ xs))) × Fresh f g xs

-- The tree orders sessions that exist; the transfers of a session exist, have different ports, and
-- point back to it; each transfer has an `unsigned short` for its port, and points to a session
-- that exists and lists it.
pub record Sound (tree : Tree) (f : Activs) (g : Transs) (supply : List Ptr) : Type 0 where
  pub indexed : Rising f 0 (in_order tree)
  pub apart : (p : Ptr) (a : ActivItem) → find_at f p ≡ some a → Apart g a.trans
  pub owner :
      (p q : Ptr) (a : ActivItem) (t : TransItem)
      → find_at f p ≡ some a
      → find_at g q ≡ some t
      → q ∈ a.trans
      → t.p_activ_item ≡ p
  pub listed :
      (q : Ptr) (t : TransItem)
      → find_at g q ≡ some t
      → (a : ActivItem) × (find_at f t.p_activ_item ≡ some a) × (q ∈ a.trans)
  pub short : (q : Ptr) (t : TransItem) → find_at g q ≡ some t → ushort t.usr_lport ≡ t.usr_lport
  pub fresh : Fresh f g supply

abbrev pub IsConsistent : Server → Type 0
IsConsistent s = Sound s.uuid_tree s.activs s.transs s.supply

-- A run that keeps the objects together, where it does not stop.
abbrev pub Kept : {A : Type 0} → Run Server A → Type 0
Kept = Ensures λ _ s. IsConsistent s
