-- ===== src/Client/Settings.antt =====
-- The settings of a client (client/source/sshinner_c_utils.c, `load_settings_client`).
pub mod Table
use sshinner.Base.{
  ℕ, suc, ◌+◌, ◌%◌, ◌^◌, Bool, true, false, Option, none, some, List, [], ◌∷◌, ◌==◌, if◌then◌else◌,
  set, take, c_string,
}
use sshinner.Run.{pure, halt, ok, aborted, deref, ◌>>=◌, ◌>>◌}
use sshinner.Server.Trans.{ushort}
use sshinner.Json.{
  Member, Json, server, client, ipaddr, port, username, userid, ss5_port, dns_port, r_mach_uuid,
  portmaps, usrport, daemonport,
}
use sshinner.Client.{PortMap, Client, Clt}
use sshinner.Client.Memory.{get, set_trans, set_maps}

abbrev pub max_port_num : ℕ
max_port_num = 10

abbrev pub update : (Client → Client) → Clt (Unit {0})
update f s = ok tt (f s)

module _ {J : Type 0} (json : Json J) where
  -- `json_fetch_and_copy`: the member, cut to the buffer, or what the buffer held.
  abbrev pub fetch_and_copy : J → Member → (held : List ℕ) → ℕ → List ℕ
  fetch_and_copy obj name held max_len = elim (json.member obj name) [
    | none ↦ held
    | some v ↦
        if json.string_len v == 0
        then held
        else elim (json.string v) [ none ↦ held | some text ↦ c_string (take max_len text) ]
  ]

  -- A member that is a port, or 0.
  abbrev pub port_of : J → Member → ℕ
  port_of obj name = elim (json.member obj name) [ none ↦ 0 | some v ↦ ushort (json.int64 v) ]

  -- An entry of the port table; a member that is missing is `NULL`, which `json_object_get_int` takes for 0.
  abbrev pub port_map : J → PortMap
  port_map v = record {
    usrport = elim (json.member v usrport) [ none ↦ 0 | some n ↦ ushort (json.int n) ];
    daemonport = elim (json.member v daemonport) [ none ↦ 0 | some n ↦ ushort (json.int n) ];
  }

  -- The loop that fills the port table.
  unfoldable pub fill_maps : (i : ℕ) → List J → List PortMap → List PortMap
  fill_maps i [] maps = maps
  fill_maps i (v ∷ vs) maps = fill_maps (suc i) vs (set maps i (port_map v))

  -- The object `server`.
  unfoldable pub load_server : J → Clt (Unit {0})
  load_server obj = do
    elim (json.member obj ipaddr) [
      | none ↦ pure tt
      | some v ↦ (do
        text ← deref (json.string v)
        update (λ s. record s { srv_addr = json.inet_addr text }))
    ]
    elim (json.member obj port) [
      | none ↦ pure tt
      | some v ↦ update (λ s. record s { srv_port = ushort (json.int v) })
    ]

  -- The session and the port table of a USR client.
  unfoldable pub load_usr : J → Clt (Unit {0})
  unfolding fill_maps
  load_usr obj = do
    elim (json.member obj r_mach_uuid) [
      | none ↦ pure tt
      | some v ↦ elim (json.string v) [
        | none ↦ pure tt
        | some text ↦ elim (json.id128_from_string text) [
          | none ↦ pure tt
          | some uuid ↦ update (λ s. record s { session_uuid = uuid })
        ]
      ]
    ]
    elim (json.member obj portmaps) [
      | none ↦ pure tt
      | some v ↦ elim (json.elements v) [
        | none ↦ halt aborted
        | some vs ↦ update (λ s. record s { maps = fill_maps 0 (take max_port_num vs) s.maps })
      ]
    ]

  -- The object `client`.
  unfoldable pub load_client : J → Clt (Unit {0})
  unfolding load_usr
  load_client obj = do
    update (λ s. record s { username = fetch_and_copy obj username s.username 128 })
    elim (json.member obj userid) [
      | none ↦ pure tt
      | some v ↦ update (λ s. record s { userid = json.int64 v })
    ]
    update (λ s. record s { ss5_port = port_of obj ss5_port; dns_port = port_of obj dns_port })
    s ← get
    if s.is_daemon then update (λ s. record s { session_uuid = s.mach_uuid }) else load_usr obj

  -- `load_settings_client`, for what `json_object_from_file` makes of the file.
  unfoldable pub load_settings_client : Option J → Clt Bool
  unfolding load_server load_client
  load_settings_client none = pure false
  load_settings_client (some obj) = do
    set_trans []
    elim (json.member obj server) [ none ↦ pure tt | some v ↦ load_server v ]
    elim (json.member obj client) [ none ↦ pure tt | some v ↦ load_client v ]
    pure true
