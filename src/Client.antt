-- ===== src/Client.antt =====
-- The client's state (client/include/sshinner_c.h), and what it does to the outside.
pub mod Memory
pub mod Portmap
pub mod Trans
pub mod Control
pub mod Register
pub mod Proxy
pub mod Dns
pub mod Settings
pub mod Start
pub mod Consistent
use sshinner.Base.{ℕ, Bool, false, Option, List}
use sshinner.Run.{Cmd}
use sshinner.Protocol.{CtlHead}
use sshinner.Crypt.{EncryptCtx, blank_ctx}
use sshinner.Server.{Ptr}

-- `PORTMAP`
pub record PortMap : Type 0 where
  pub usrport : ℕ
  pub daemonport : ℕ

-- `PORTTRANS`
pub record PortTrans : Type 0 where
  pub l_port : ℕ
  pub local_bev : Ptr
  pub srv_bev : Ptr
  pub extra_ev : Ptr
  pub is_enc : Bool
  pub ctx_enc : EncryptCtx
  pub ctx_dec : EncryptCtx

-- A block that `calloc` returns.
abbrev pub zero_port_trans : PortTrans
zero_port_trans = record {
  l_port = 0;
  local_bev = 0;
  srv_bev = 0;
  extra_ev = 0;
  is_enc = false;
  ctx_enc = blank_ctx;
  ctx_dec = blank_ctx;
}

-- `C_ITEM`: a connection of a program that waits for a worker thread, and its SOCKS5 request.
pub record CItem : Type 0 where
  pub socket : ℕ
  pub p_trans : Ptr
  pub buf : List ℕ

-- The callbacks that a bufferevent is given: those of the control connection, of data, or of the two
-- proxies.
pub data Handlers : Type 0 where
  srv_cbs data_cbs ss5_cbs dns_cbs : Handlers

-- What the client does to the outside, in order.
pub data Action : Type 0 where
  -- `bufferevent_write` of a head, and of bytes
  sends : Ptr → CtlHead → Action
  forwards : Ptr → List ℕ → Action
  -- `bufferevent_free`, `bufferevent_enable` and `bufferevent_setcb`
  frees : Ptr → Action
  enables : Ptr → Action
  binds : Ptr → Handlers → Ptr → Action
  -- `event_add`
  arms : Ptr → Action
  -- `event_base_loopexit`
  leaves : Action
  -- `write` to a descriptor, and `close`
  writes : ℕ → List ℕ → Action
  closes : ℕ → Action
  -- a byte written to a worker's notify pipe
  notifies : ℕ → ℕ → Action
  -- `sendto` a port of this machine, through the socket of an event
  answers : Ptr → ℕ → List ℕ → Action
  -- `evconnlistener_new_bind`: a port for the programs of a user, with the index of its entry in the port
  -- table, and the port of the SOCKS5 proxy
  listens : (port index : ℕ) → Action
  listens_ss5 : (port : ℕ) → Action

-- `CLT_OPT`, with the store of the transfers, the answers of `calloc` to come, and what was done.
-- `maps` has MAX_PORT_NUM entries, `transid_ports` (`dns_transid_port_map`) has 0xFFFF where there is a
-- DNS proxy; `queues` are the `conn_queue`s of the worker threads.
pub record Client : Type 0 where
  pub is_daemon : Bool
  pub hostname : List ℕ
  pub username : List ℕ
  pub userid : ℕ
  pub mach_uuid : ℕ
  pub session_uuid : ℕ
  -- `srv`: the address and the port of the server
  pub srv_addr : ℕ
  pub srv_port : ℕ
  pub ss5_port : ℕ
  pub dns_port : ℕ
  pub enc_key : List ℕ
  pub transid_ports : List ℕ
  pub queues : List (List CItem)
  pub control_bev : Ptr
  pub maps : List PortMap
  pub trans : List Ptr
  pub transs : Ptr → Option PortTrans
  pub supply : List Ptr
  pub trace : List Action

abbrev pub Clt : Type 0 → Type 0
Clt A = Cmd Client A
