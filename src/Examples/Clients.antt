-- ===== src/Examples/Clients.antt =====
-- The theorems on the client at a small state.
use sshinner.Base.{
  replicate, ℕ, ◌≡◌, refl, true, false, not, ◌&&◌, none, [], ◌∷◌, arith, ◌==◌, if◌then◌else◌,
}
use sshinner.Run.{ok, Returns, stop, faulted, ◌>>◌}
use sshinner.Protocol.{CtlHead, zero_head, cmd_conn}
use sshinner.Server.Trans.{ushort}
use sshinner.Client.{PortMap, Client}
use sshinner.Client.Portmap.{find_daemon_portmap}
use sshinner.Client.Portmap.Table.{Kept, find_daemon_portmap-Kept}
use sshinner.Client.Trans.{find_trans, create_trans}
use sshinner.Client.Trans.Ports.{AllLive, create_trans-find_trans}
use sshinner.Client.Control.{Net, conn, accept_conn_cb}
use sshinner.Client.Control.Accept.{Accepted, accept_conn_cb-Accepted}
use sshinner.Client.Control.Retry.{conn-conn}

abbrev pub test_client : Client
test_client = record {
  is_daemon = true;
  hostname = b'h' ∷ [];
  username = b'B' ∷ b'o' ∷ b'b' ∷ [];
  userid = 3;
  mach_uuid = 7;
  session_uuid = 7;
  srv_addr = 0;
  srv_port = 0;
  ss5_port = 1080;
  dns_port = 0;
  enc_key = 1 ∷ 2 ∷ [];
  transid_ports = replicate 8 0;
  queues = [] ∷ [] ∷ [];
  control_bev = 50;
  maps = record { usrport = 0; daemonport = 22 } ∷ record { usrport = 0; daemonport = 0 } ∷ [];
  trans = [];
  transs = λ p. none;
  supply = 40 ∷ 41 ∷ [];
  trace = [];
}

find_daemon_portmap-Kept_example :
    Returns (Kept 80 true test_client) (find_daemon_portmap 80 true test_client)
find_daemon_portmap-Kept_example = find_daemon_portmap-Kept 80 true test_client

create_trans-find_trans_example :
    Returns
      (λ r s'.
        (r ≡ 40)
        × AllLive s'.transs s'.trans
        × ((m : ℕ)
            → find_trans m s'
              ≡ ok (if not (r == 0) && (ushort m == ushort 8080) then 40 else 0) s'))
      (create_trans 8080 test_client)
create_trans-find_trans_example =
    create_trans-find_trans test_client 8080 40 (41 ∷ []) tt refl (omega arith) refl

abbrev no_service : Net
no_service = record { connects_local = false; connects_srv = true; local_bev = 60; srv_bev = 61 }

abbrev request : CtlHead
request = record zero_head { cmd = cmd_conn; mach_uuid = 7; extra_param = 8080; daemonport = 22 }

conn-conn_example : (conn no_service request >> conn no_service request) test_client ≡ stop faulted
conn-conn_example =
    conn-conn no_service no_service request test_client 40 (41 ∷ []) refl refl tt refl refl
      (omega arith) refl

abbrev usr_client : Client
usr_client = record test_client { is_daemon = false }

abbrev open_net : Net
open_net = record no_service { connects_local = true }

abbrev web_map : PortMap
web_map = record { usrport = 8000; daemonport = 80 }

accept_conn_cb-Accepted_example :
    Returns
      (λ _ s'. Accepted usr_client open_net web_map 40123 40 s')
      (accept_conn_cb open_net web_map 40123 usr_client)
accept_conn_cb-Accepted_example =
    accept_conn_cb-Accepted usr_client open_net web_map 40123 40 (41 ∷ []) tt refl (omega arith)
      refl refl refl (omega arith) (omega arith) (omega arith)
