-- ===== src/Client/Portmap.antt =====
-- The table of exposed ports (client/source/sshinner_c_utils.c, `sc_find_daemon_portmap`).
pub mod Table
use sshinner.Base.{
  ℕ, suc, Bool, Option, none, some, List, [], ◌∷◌, ◌==◌, if◌then◌else◌, get_elem?, set,
}
use sshinner.Run.{pure, ◌>>=◌, ◌>>◌}
use sshinner.Client.{PortMap, Clt}
use sshinner.Client.Memory.{get, set_maps}

-- The index of the first entry with a port.
unfoldable pub index_of : ℕ → List PortMap → Option ℕ
index_of port [] = none
index_of port (m ∷ ms) =
    let rest = index_of port ms in
    if m.daemonport == port then some 0 else elim rest [ none ↦ none | some i ↦ some (suc i) ]

-- The table with its first free entry taken by a port.
unfoldable pub claim : ℕ → List PortMap → List PortMap
claim port [] = []
claim port (m ∷ ms) =
    let rest = claim port ms in
    if m.daemonport == 0 then record m { daemonport = port } ∷ ms else m ∷ rest

-- `sc_find_daemon_portmap`: the index of the entry, or `none` for `NULL`.
unfoldable pub find_daemon_portmap : ℕ → Bool → Clt (Option ℕ)
find_daemon_portmap port createit = do
  s ← get
  elim (index_of port s.maps) [
    | some i ↦ pure (some i)
    | none ↦
        if createit
        then elim (index_of 0 s.maps) [
          | none ↦ pure none
          | some i ↦ (do set_maps (claim port s.maps); pure (some i))
        ]
        else pure none
  ]
