-- ===== src/Client/Consistent/Configuring.antt =====
-- The settings of a client leave its transfers together (client/source/sshinner_c_utils.c,
-- `load_settings_client`).
use sshinner.Base.{◌≡◌, refl, inl, inr, Option-cases, Option, none, some, [], arith, take}
use sshinner.Run.{deref}
use sshinner.Run.Ensures.{Ensures, ended, after, option}
use sshinner.Server.Trans.{ushort}
use sshinner.Json.{
  Member, Json, server, client, ipaddr, port, userid, ss5_port, dns_port, r_mach_uuid, portmaps,
}
use sshinner.Client.{Client, Clt}
use sshinner.Client.Settings.{
  max_port_num, fill_maps, load_server, load_usr, load_client, load_settings_client, fetch_and_copy,
  port_of,
}
use sshinner.Client.Consistent.{IsLinked}
use sshinner.Client.Consistent.Quietly.{
  beside, Quiet, quiet, no_end, after-Quiet, end-Quiet, also-Quiet, branch-Quiet,
}

-- A client without transfers in its list, with an `unsigned short` for the port of the DNS proxy.
abbrev pub Early : Client → Type 0
Early s = IsLinked s × (s.trans ≡ []) × (ushort s.dns_port ≡ s.dns_port)

option-Quiet :
    {A B : Type 0} (o : Option A) (n : Clt B) (k : A → Clt B) (s : Client)
    → Quiet s (n s)
    → ((a : A) → Quiet s (k a s))
    → Quiet s ((elim o as (λ _. Clt B) [ none ↦ n | some a ↦ k a ]) s)
option-Quiet none n k s absent present = absent
option-Quiet (some a) n k s absent present = present a

deref-Quiet : {A : Type 0} (o : Option A) (s : Client) → Quiet s (deref o s)
deref-Quiet none s = no_end
deref-Quiet (some a) s = quiet s

module _ {J : Type 0} (json : Json J) where
  load_server-Quiet : (obj : J) (s : Client) → Quiet s (load_server json obj s)
  unfolding load_server
  load_server-Quiet obj s =
      also-Quiet _
        (option-Quiet (json.member obj ipaddr) _ _ s (quiet s) λ v.
          also-Quiet _ (deref-Quiet (json.string v) s)
            λ text t. quiet (record (beside s t) { srv_addr = json.inet_addr text }))
        λ _ t.
          option-Quiet (json.member obj port) _ _ (beside s t) (quiet (beside s t))
            λ v. quiet (record (beside s t) { srv_port = ushort (json.int v) })

  load_usr-Quiet : (obj : J) (s : Client) → Quiet s (load_usr json obj s)
  unfolding load_usr
  load_usr-Quiet obj s =
      also-Quiet _
        (option-Quiet (json.member obj r_mach_uuid) _ _ s (quiet s) λ v.
          option-Quiet (json.string v) _ _ s (quiet s) λ text.
            option-Quiet (json.id128_from_string text) _ _ s (quiet s)
              λ uuid. quiet (record s { session_uuid = uuid }))
        λ _ t. option-Quiet (json.member obj portmaps) _ _ (beside s t) (quiet (beside s t)) λ v.
          option-Quiet (json.elements v) _ _ (beside s t) no_end λ vs.
            quiet (record (beside s t) { maps = fill_maps json 0 (take max_port_num vs) t.maps })

  port_of-ushort :
      (obj : J) (name : Member) → ushort (port_of json obj name) ≡ port_of json obj name
  port_of-ushort obj name = elim (Option-cases (json.member obj name)) [
    | inl e ↦ rw (e, port_of) refl
    | inr (v, e) ↦ rw (e, port_of) (ground arith)
  ]

  load_client-Early :
      (obj : J) (s : Client) → Early s → Ensures (λ _ s'. Early s') (load_client json obj s)
  unfolding load_client
  load_client-Early obj s (sound, empty, short) =
      let s1 : Client = record s {
        username = fetch_and_copy json obj Member.username s.username 128;
      } in
      after-Quiet _
        (option-Quiet (json.member obj userid) _ _ s1 (quiet s1)
          λ v. quiet (record s1 { userid = json.int64 v }))
        λ _ s2.
          let s3 : Client = record (beside s s2) {
            ss5_port = port_of json obj ss5_port;
            dns_port = port_of json obj dns_port;
          } in
          end-Quiet
            (branch-Quiet s3.is_daemon _ _ s3 (quiet (record s3 { session_uuid = s3.mach_uuid }))
              (load_usr-Quiet obj s3))
            λ _ _. (sound, empty, port_of-ushort obj dns_port)

  pub load_settings_client-Early :
      (file : Option J) (s : Client)
      → Early s
      → Ensures (λ _ s'. Early s') (load_settings_client json file s)
  unfolding load_settings_client
  load_settings_client-Early none s early = ended early
  load_settings_client-Early (some obj) s (sound, empty, short) =
      let s1 : Client = record s { trans = [] } in
      let early : Early s1 = (rw empty at sound, refl, short) in
      after-Quiet _
        (option-Quiet (json.member obj server) _ _ s1 (quiet s1) λ v. load_server-Quiet v s1)
        λ _ s2.
          after {P = λ _ s'. Early s'}
            (option (json.member obj client) _ _ (beside s1 s2) (ended early)
              λ v. load_client-Early v (beside s1 s2) early)
            λ _ _ still. ended still
