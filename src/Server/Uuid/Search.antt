-- ===== src/Server/Uuid/Search.antt =====
-- The search by machine id finds what a scan of all sessions finds.
use sshinner.Base.{ℕ, suc, ◌≡◌, refl, ◌∷◌, arith}
use sshinner.Run.{ok}
use sshinner.Server.{Tree, leaf, node, Server}
use sshinner.Server.Uuid.{uuid_search}
use sshinner.Server.Uuid.Sequence.{
  in_order, key, Rising, Rising-left, Rising-right, find_uuid, find_uuid_at, find_uuid_left,
  find_uuid_right,
}

module _ (s : Server) where
  -- `ss_uuid_search` in a tree whose machine ids rise in order returns the session that has the machine
  -- id, or `NULL` where none has, and changes nothing.
  pub uuid_search-find :
      (u low : ℕ) (t : Tree)
      → Rising s.activs low (in_order t)
      → uuid_search u t s ≡ ok (find_uuid s.activs u (in_order t)) s
  unfolding uuid_search
  uuid_search-find u low leaf r = refl
  uuid_search-find u low (node colour left p right) r =
      let (live, at_least, rest) = Rising-right s.activs low (in_order left) p (in_order right) r in
      ground (
        arith,
        live,
        uuid_search-find u low left
            (Rising-left s.activs low (in_order left) (p ∷ in_order right) r),
        uuid_search-find u (suc (key s.activs p)) right rest,
        find_uuid_at s.activs low (in_order left) p (in_order right) r,
        find_uuid_left s.activs u low (in_order left) p (in_order right) r,
        find_uuid_right s.activs u low (in_order left) p (in_order right) r,
      )
