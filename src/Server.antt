-- ===== src/Server.antt =====
-- The server's state (server/include/sshinner_s.h): objects on a store, each at its address, and
-- what the server calls of its libraries.
pub mod Memory
pub mod Start
pub mod Consistent
pub mod Uuid
pub mod Trans
pub mod Account
pub mod Init
pub mod Relay
pub mod Dispatch
pub mod Worker
pub mod Transfer
use sshinner.Base.{ℕ, Bool, false, Option, none, some, List, [], ◌==◌, if◌then◌else◌, replicate}
use sshinner.Run.{Cmd}
use sshinner.Protocol.{CtlHead}
use sshinner.Crypt.{Evp, EncryptCtx, blank_ctx}

-- An address; 0 is `NULL`. A `struct bufferevent` is known by its address too.
abbrev pub Ptr : Type 0
Ptr = ℕ

-- `TRANS_ITEM`
pub record TransItem : Type 0 where
  pub p_activ_item : Ptr
  pub usr_lport : ℕ
  pub is_enc : Bool
  pub ctx_enc : EncryptCtx
  pub ctx_dec : EncryptCtx
  pub bev_u : Ptr
  pub bev_d : Ptr
  pub extra_ev : Ptr
  -- the request that `dat` points to; `none` for `NULL`
  pub request : Option (List ℕ)

-- A block that `calloc` returns.
abbrev pub zero_trans : TransItem
zero_trans = record {
  p_activ_item = 0;
  usr_lport = 0;
  is_enc = false;
  ctx_enc = blank_ctx;
  ctx_dec = blank_ctx;
  bev_u = 0;
  bev_d = 0;
  extra_ev = 0;
  request = none;
}

-- `ACTIV_ITEM`; the list `trans` holds addresses.
pub record ActivItem : Type 0 where
  pub p_acct : Ptr
  pub mach_uuid : ℕ
  pub bev_daemon : Ptr
  pub bev_usr : Ptr
  pub enc_key : List ℕ
  pub trans : List Ptr

abbrev pub zero_activ : ActivItem
zero_activ = record {
  p_acct = 0;
  mach_uuid = 0;
  bev_daemon = 0;
  bev_usr = 0;
  enc_key = replicate 16 0;
  trans = [];
}

-- `ACCT_ITEM`
pub record AcctItem : Type 0 where
  pub username : List ℕ
  pub userid : ℕ
  pub items : List Ptr

-- `C_ITEM`: a connection handed to a worker thread, and the transfer that `arg.ptr` points to.
pub record CItem : Type 0 where
  pub socket : ℕ
  pub p_trans : Ptr

-- The search tree of the sessions: a colour, the left and the right subtree, and the session that the
-- node lies in.
pub data Tree : Type 0 where
  leaf : Tree
  node : Bool → Tree → Ptr → Tree → Tree

-- The callbacks that a bufferevent is given.
pub data Callbacks : Type 0 where
  main_cbs relay_cbs relay_enc_cbs relay_dns_cbs : Callbacks

-- What the server does to the world outside its own objects, in order.
pub data Effect : Type 0 where
  -- `bufferevent_write(bev, &head, CTL_HEAD_LEN)`
  sends : Ptr → CtlHead → Effect
  -- `write` of a head to a descriptor
  writes : ℕ → CtlHead → Effect
  -- `bufferevent_write` of bytes
  forwards : Ptr → List ℕ → Effect
  -- `sendto` to the name server
  asks : Ptr → List ℕ → Effect
  -- `bufferevent_free`
  frees : Ptr → Effect
  -- `close`
  closes : ℕ → Effect
  -- `bufferevent_setcb`
  binds : Ptr → Callbacks → Ptr → Effect
  -- `bufferevent_enable`
  enables : Ptr → Effect
  -- a byte written to a worker's notify pipe
  notifies : ℕ → ℕ → Effect
  -- a read of a block behind its `free`, for what `free` left there
  reads_freed : Effect

-- `SRV_OPT` with the store, the answers of `malloc` and `calloc` to come, and what was done so far.
pub record Server : Type 0 where
  pub acct_items : List Ptr
  pub uuid_tree : Tree
  pub queues : List (List CItem)
  pub accts : Ptr → Option AcctItem
  pub activs : Ptr → Option ActivItem
  pub transs : Ptr → Option TransItem
  pub supply : List Ptr
  pub trace : List Effect

abbrev pub Srv : Type 0 → Type 0
Srv A = Cmd Server A

-- The members of the JSON text of an initialisation packet.
pub data Key : Type 0 where
  username userid r_mach_uuid : Key

-- What the server calls of OpenSSL, json-c, sd-id128, libevent, the compiler's layout of a head, and
-- the red-black tree of the Linux kernel that the repository holds a copy of.
pub record Env : Type 0 where
  pub evp : Evp
  -- `RSA_private_decrypt`; `none` if it fails
  pub rsa_private_decrypt : List ℕ → Option (List ℕ)
  -- whether `json_tokener_parse` takes a text, and the members of what it makes of it
  pub json_parses : List ℕ → Bool
  pub json_string : List ℕ → Key → Option (List ℕ)
  pub json_int : List ℕ → Key → ℕ
  -- `sd_id128_from_string`, `SD_ID128_CONST_STR`
  pub id128_from_string : List ℕ → Option ℕ
  pub id128_text : ℕ → List ℕ
  -- `bufferevent_getfd`
  pub getfd : Ptr → ℕ
  -- `crc32(0L, ...)`
  pub crc32 : List ℕ → ℕ
  -- `evbuffer_remove`: at most so many bytes, and what is left
  pub evbuffer_remove : ℕ → List ℕ → List ℕ × List ℕ
  -- `CTL_HEAD_LEN`, and the head that lies in so many bytes
  pub head_len : ℕ
  pub head_of : List ℕ → CtlHead
  -- `rb_insert_color` and `rb_erase`
  pub rb_insert_color : Ptr → Tree → Tree
  pub rb_erase : Ptr → Tree → Tree

-- The object at an address.
abbrev pub find_at {ℓ} : {A : Type ℓ} → (Ptr → Option A) → Ptr → Option A
find_at store p = if p == 0 then none else store p

-- A store with one address written, or freed by `none`.
abbrev pub write_at {ℓ} : {A : Type ℓ} → (Ptr → Option A) → Ptr → Option A → Ptr → Option A
write_at store p cell q = if q == p then cell else store q
