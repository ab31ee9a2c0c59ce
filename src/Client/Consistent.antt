-- ===== src/Client/Consistent.antt =====
-- How the client's transfers hang together: the list of the client, the transfers, and the blocks that
-- `calloc` may return (client/include/sshinner_c.h).
pub mod Writes
pub mod Quietly
pub mod Lists
pub mod Controlling
pub mod Packets
pub mod Proxies
pub mod Configuring
pub mod Starting
pub mod Reach
use sshinner.Base.{◌≡◌, ◌⊎◌, true, none, some, List, [], ◌∷◌, ◌==◌, ◌∈◌, ◌∉◌}
use sshinner.Run.{Run}
use sshinner.Run.Ensures.{Ensures}
use sshinner.Server.{Ptr, find_at}
use sshinner.Server.Trans.{ushort}
use sshinner.Client.{PortTrans, Client}
use sshinner.Client.Trans.Ports.{Store}
use sshinner.Client.Trans.Apart.{Apart}

-- The blocks are unused, and none is returned twice, `NULL` aside.
abbrev pub Fresh : Store → List Ptr → Type 0
Fresh f [] = Unit {0}
Fresh f (x ∷ xs) = (((x == 0) ≡ true) ⊎ ((f x ≡ none) × (x ∉ xs))) × Fresh f xs

-- The transfers of the list exist and have different ports; each transfer is in the list, and has an
-- `unsigned short` for its port.
pub record Sound (f : Store) (trans supply : List Ptr) : Type 0 where
  pub apart : Apart f trans
  pub listed : (q : Ptr) (t : PortTrans) → find_at f q ≡ some t → q ∈ trans
  pub short : (q : Ptr) (t : PortTrans) → find_at f q ≡ some t → ushort t.l_port ≡ t.l_port
  pub fresh : Fresh f supply

abbrev pub IsLinked : Client → Type 0
IsLinked s = Sound s.transs s.trans s.supply

-- A run that keeps the transfers together, where it does not stop.
abbrev pub Kept : {A : Type 0} → Run Client A → Type 0
Kept = Ensures λ _ s. IsLinked s
