-- ===== src/Server/Uuid.antt =====
-- The sessions by machine id (server/source/sshinner_s_data.c, `ss_uuid_search` to `ss_uuid_erase`).
-- A machine id is the number that its 16 bytes spell, so `memcmp` compares numbers.
pub mod Sequence
pub mod Search
pub mod Update
pub mod Rewrite
use Prim.Native.Nat.{compare, Ordering}
use sshinner.Base.{ℕ, Bool, true, false, Option, none, some, ◌==◌, if◌then◌else◌}
use sshinner.Run.{pure, ◌>>=◌, ◌>>◌}
use sshinner.Server.{Ptr, Tree, leaf, node, Env, Srv}
use sshinner.Server.Memory.{load_activ, set_tree, get}

-- `ss_uuid_search`
unfoldable pub uuid_search : ℕ → Tree → Srv Ptr
uuid_search uuid leaf = pure 0
uuid_search uuid (node colour left p right) = do
  active ← load_activ p
  elim (compare uuid active.mach_uuid) [
    | Ordering.lt ↦ uuid_search uuid left
    | Ordering.gt ↦ uuid_search uuid right
    | Ordering.eq ↦ pure p
  ]

-- The descent of `ss_uuid_insert`, and `rb_link_node` where it ends: the tree with a new red node, or
-- `none` where the machine id is taken.
link_node : Ptr → Tree → Srv (Option Tree)
link_node item leaf = pure (some (node true leaf item leaf))
link_node item (node colour left p right) = do
  data' ← load_activ item
  this ← load_activ p
  elim (compare data'.mach_uuid this.mach_uuid) [
    | Ordering.lt ↦ (do
      grown ← link_node item left
      pure (elim grown [ none ↦ none | some t ↦ some (node colour t p right) ]))
    | Ordering.gt ↦ (do
      grown ← link_node item right
      pure (elim grown [ none ↦ none | some t ↦ some (node colour left p t) ]))
    | Ordering.eq ↦ pure none
  ]

-- `ss_uuid_insert`
unfoldable pub uuid_insert : Env → Ptr → Srv Bool
unfolding link_node
uuid_insert env item = do
  s ← get
  linked ← link_node item s.uuid_tree
  elim linked [ none ↦ pure false | some t ↦ (do set_tree (env.rb_insert_color item t); pure true) ]

-- `ss_uuid_erase`
unfoldable pub uuid_erase : Env → Ptr → Srv (Unit {0})
uuid_erase env item =
    if item == 0 then pure tt else do s ← get; set_tree (env.rb_erase item s.uuid_tree)
