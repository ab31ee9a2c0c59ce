-- ===== src/Examples/Linking.antt =====
-- A USR client from its start to its first transfer.
use sshinner.Base.{ℕ, true, ◌≡◌, refl, inr, some, [], ◌∷◌, ◌∈◌}
use sshinner.Run.{Run, ok, stop}
use sshinner.Protocol.{zero_head, daemon_usr, cmd_ok}
use sshinner.Crypt.{encrypt_init}
use sshinner.Server.{Ptr, find_at}
use sshinner.Client.{PortMap, PortTrans, Client, zero_port_trans}
use sshinner.Client.Memory.{calloc}
use sshinner.Client.Trans.{find_in, find_trans, create_trans}
use sshinner.Client.Trans.Apart.{IsLive}
use sshinner.Client.Control.{Net, accept_conn_cb, set_eventcb_srv}
use sshinner.Client.Settings.{fill_maps, load_server, load_usr, load_client, load_settings_client}
use sshinner.Client.Register.{load_key, register, write_packet, usr_init_srv}
use sshinner.Client.Start.{
  Machine, blank_client, parse_options, configure, sign_on, listen_maps, main,
}
use sshinner.Client.Consistent.Reach.{Reach, start, step, accepts, find_trans-Reach}
use sshinner.Examples.Data.{test_evp, test_env}
use sshinner.Examples.Crossing.{fill, seal, small_client}
use sshinner.Examples.Starting.{file, machine}

-- The machine of a USR client, whose server replies to it.
abbrev user_machine : Machine ℕ
user_machine = record machine {
  options = [];
  reply = record zero_head { direct = daemon_usr; cmd = cmd_ok };
}

-- The state in which a run ends.
abbrev state_of : {A : Type 0} → Run Client A → Client
state_of (ok a s) = s
state_of (stop why) = blank_client []

unfoldable begun : Client
unfolding main configure parse_options load_settings_client load_server load_client load_usr
    fill_maps sign_on usr_init_srv load_key register write_packet seal fill listen_maps encrypt_init
    set_eventcb_srv
begun = state_of (main file small_client test_evp user_machine (blank_client (41 ∷ 42 ∷ [])))

begins : main file small_client test_evp user_machine (blank_client (41 ∷ 42 ∷ [])) ≡ ok tt begun
unfolding begun
begins = refl

abbrev net : Net
net = record { connects_local = true; connects_srv = true; local_bev = 70; srv_bev = 71 }

abbrev first_map : PortMap
first_map = record { usrport = 168; daemonport = 182 }

unfoldable linked : Client
unfolding accept_conn_cb begun create_trans find_trans find_in calloc
linked = state_of (accept_conn_cb net first_map 4000 begun)

links : accept_conn_cb net first_map 4000 begun ≡ ok tt linked
unfolding linked
links = refl

linked-Reach : Reach test_env small_client test_evp file user_machine linked
linked-Reach =
    step (start (41 ∷ 42 ∷ []) (inr (refl, refl), (inr (refl, refl), tt)) begins)
      (accepts net first_map 4000 links)

abbrev first_trans : PortTrans
first_trans = record zero_port_trans { l_port = 4000; local_bev = 70; srv_bev = 71 }

there : find_at linked.transs 41 ≡ some first_trans
unfolding linked
there = refl

find_trans-Reach_example :
    (41 ∈ linked.trans)
    × (find_trans 4000 linked ≡ ok 41 linked)
    × ((p : Ptr) (u : PortTrans) → find_at linked.transs p ≡ some u → u.l_port ≡ 4000 → p ≡ 41)
    × ((p : Ptr) → p ∈ linked.trans → IsLive linked.transs p)
find_trans-Reach_example =
    find_trans-Reach test_env small_client test_evp file user_machine linked linked-Reach 41
      first_trans there
