-- ===== src/Client/Settings/Table.antt =====
-- What a settings file that has all its members leaves in the client.
use mathlib.Core.List.{map, append_assoc}
use sshinner.Base.{
  ℕ, zero, suc, ◌≤◌, ◌≡◌, refl, sym, ap, ◌∙◌, Bool-cases, inl, inr, true, false, some, List, [],
  ◌∷◌, ◌++◌, ◌==◌, arith, if◌then◌else◌, length, length-append, set, take, drop, c_string,
}
use sshinner.Run.{ok}
use sshinner.Server.Trans.{ushort}
use sshinner.Client.{PortMap, Client}
use sshinner.Json.{
  Json, server, client, ipaddr, port, username, userid, ss5_port, dns_port, r_mach_uuid, portmaps,
}
use sshinner.Client.Settings.{
  max_port_num, port_of, port_map, fetch_and_copy, fill_maps, load_server, load_client, load_usr,
  load_settings_client,
}

length-take_le : {A : Type 0} (n : ℕ) (xs : List A) → length (take n xs) ≤ n
length-take_le zero xs = omega arith
length-take_le (suc n) [] = omega arith
length-take_le (suc n) (x ∷ xs) = omega (arith, length-take_le n xs)

set-append :
    (before : List PortMap) (m v : PortMap) (after : List PortMap)
    → set (before ++ m ∷ after) (length before) v ≡ before ++ v ∷ after
set-append [] m v after = refl
set-append (b ∷ before) m v after = ap (◌∷◌ b) (set-append before m v after)

module _ {J : Type 0} (json : Json J) where
  -- The loop writes the entries over the first ones of the table.
  fill_maps-append :
      (before : List PortMap) (vs : List J) (after : List PortMap)
      → length vs ≤ length after
      → fill_maps json (length before) vs (before ++ after)
        ≡ before ++ (map (port_map json) vs ++ drop (length vs) after)
  unfolding fill_maps
  fill_maps-append before [] after le = refl
  fill_maps-append before (v ∷ vs) [] le = ground arith
  fill_maps-append before (v ∷ vs) (m ∷ after) le =
      let longer : length (before ++ port_map json v ∷ []) ≡ suc (length before) =
        omega (arith, length-append before (port_map json v ∷ [])) in
      ap (fill_maps json (suc (length before)) vs) (
        set-append before m (port_map json v) after
        ∙ sym (append_assoc before (port_map json v ∷ []) after))
      ∙ ap (λ n. fill_maps json n vs ((before ++ port_map json v ∷ []) ++ after)) (sym longer)
      ∙ fill_maps-append (before ++ port_map json v ∷ []) vs after (omega (arith, le))
      ∙ append_assoc before (port_map json v ∷ [])
          (map (port_map json) vs ++ drop (length vs) after)

  -- A settings file with all its members.
  pub record Written (obj : J) : Type 0 where
    pub server_obj : J
    pub has_server : json.member obj server ≡ some server_obj
    pub addr_value : J
    pub has_addr : json.member server_obj ipaddr ≡ some addr_value
    pub addr_text : List ℕ
    pub is_addr : json.string addr_value ≡ some addr_text
    pub port_value : J
    pub has_port : json.member server_obj port ≡ some port_value
    pub client_obj : J
    pub has_client : json.member obj client ≡ some client_obj
    pub name_value : J
    pub has_name : json.member client_obj username ≡ some name_value
    pub name : List ℕ
    pub is_name : json.string name_value ≡ some name
    pub not_empty : (json.string_len name_value == 0) ≡ false
    pub id_value : J
    pub has_id : json.member client_obj userid ≡ some id_value
    pub uuid_value : J
    pub has_uuid : json.member client_obj r_mach_uuid ≡ some uuid_value
    pub uuid_text : List ℕ
    pub is_uuid_text : json.string uuid_value ≡ some uuid_text
    pub uuid : ℕ
    pub is_uuid : json.id128_from_string uuid_text ≡ some uuid
    pub maps_value : J
    pub has_maps : json.member client_obj portmaps ≡ some maps_value
    pub entries : List J
    pub is_entries : json.elements maps_value ≡ some entries

  module _ (obj : J) (w : Written obj) (s : Client) (room : length s.maps ≡ max_port_num) where
    -- The port table of a USR client: at most so many entries as it has room for, and the old ones behind.
    abbrev pub table : List PortMap
    table =
        map (port_map json) (take max_port_num w.entries)
        ++ drop (length (take max_port_num w.entries)) s.maps

    abbrev pub loaded : Client
    loaded = record s {
      trans = [];
      srv_addr = json.inet_addr w.addr_text;
      srv_port = ushort (json.int w.port_value);
      username = c_string (take 128 w.name);
      userid = json.int64 w.id_value;
      ss5_port = port_of json w.client_obj ss5_port;
      dns_port = port_of json w.client_obj dns_port;
      session_uuid = if s.is_daemon then s.mach_uuid else w.uuid;
      maps = if s.is_daemon then s.maps else table;
    }

    filled : fill_maps json 0 (take max_port_num w.entries) s.maps ≡ table
    filled =
        fill_maps-append [] (take max_port_num w.entries) s.maps
          (omega (arith, room, length-take_le max_port_num w.entries))

    load_usr_lem :
        (c : Client)
        → c.maps ≡ s.maps
        → load_usr json w.client_obj c ≡ ok tt (record c { session_uuid = w.uuid; maps = table })
    unfolding load_usr
    load_usr_lem c same =
        rw (w.has_uuid, w.is_uuid_text, w.is_uuid, w.has_maps, w.is_entries, same, filled) refl

    name_lem :
        (held : List ℕ)
        → fetch_and_copy json w.client_obj username held 128 ≡ c_string (take 128 w.name)
    name_lem held = rw (w.has_name, fetch_and_copy, w.not_empty, w.is_name) refl

    client_lem :
        (c : Client)
        → c.maps ≡ s.maps
        → load_client json w.client_obj c
          ≡ ok tt (record c {
            username = c_string (take 128 w.name);
            userid = json.int64 w.id_value;
            ss5_port = port_of json w.client_obj ss5_port;
            dns_port = port_of json w.client_obj dns_port;
            session_uuid = if c.is_daemon then c.mach_uuid else w.uuid;
            maps = if c.is_daemon then s.maps else table;
          })
    unfolding load_client
    client_lem c same = elim (Bool-cases c.is_daemon) [
      | inl daemon ↦ rw (w.has_id, name_lem c.username, daemon, same) refl
      | inr usr ↦
          rw (w.has_id, name_lem c.username, usr)
            (load_usr_lem
              (record c {
                is_daemon = false;
                username = c_string (take 128 w.name);
                userid = json.int64 w.id_value;
                ss5_port = port_of json w.client_obj ss5_port;
                dns_port = port_of json w.client_obj dns_port;
              })
              same)
    ]

    pub load_settings_lem : load_settings_client json (some obj) s ≡ ok true loaded
    unfolding load_settings_client load_server
    load_settings_lem =
        rw
          (
            w.has_server,
            w.has_addr,
            w.is_addr,
            w.has_port,
            w.has_client,
            client_lem
                (record s {
                  trans = [];
                  srv_addr = json.inet_addr w.addr_text;
                  srv_port = ushort (json.int w.port_value);
                })
                refl,
          )
          refl
