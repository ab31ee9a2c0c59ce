-- ===== src/Client/Trans.antt =====
-- The client's transfers (client/source/sshinner_c_utils.c, `sc_find_trans` to `sc_free_all_trans`).
pub mod Apart
pub mod Ports
use sshinner.Base.{
  ℕ, Bool, true, false, not, none, some, List, [], ◌∷◌, ◌++◌, ◌==◌, if◌then◌else◌, erase,
}
use sshinner.Run.{pure, ◌>>=◌, ◌>>◌}
use sshinner.Crypt.{encrypt_ctx_free}
use sshinner.Server.{Ptr}
use sshinner.Server.Trans.{ushort}
use sshinner.Client.{PortTrans, zero_port_trans, Clt}
use sshinner.Client.Memory.{get, load_trans, put_trans, set_trans, calloc, free_bev}

-- The loop of `sc_find_trans`.
unfoldable pub find_in : ℕ → List Ptr → Clt Ptr
find_in l_sock [] = pure 0
find_in l_sock (p ∷ ps) = do
  t ← load_trans p
  if t.l_port == l_sock then pure p else find_in l_sock ps

-- `sc_find_trans`
unfoldable pub find_trans : ℕ → Clt Ptr
find_trans l_sock = do s ← get; find_in (ushort l_sock) s.trans

-- `sc_create_trans`
unfoldable pub create_trans : ℕ → Clt Ptr
create_trans l_sock = do
  found ← find_trans l_sock
  if not (found == 0) then pure 0 else do
    p_trans ← calloc
    if p_trans == 0 then pure 0 else do
      put_trans p_trans (some (record zero_port_trans { l_port = ushort l_sock }))
      s ← get
      set_trans (s.trans ++ p_trans ∷ [])
      pure p_trans

-- The contexts of an encrypted transfer are let go: `ctx_enc` twice, and `ctx_dec` not at all.
abbrev pub free_ctxs : PortTrans → PortTrans
free_ctxs t =
    if t.is_enc then record t { ctx_enc = encrypt_ctx_free (encrypt_ctx_free t.ctx_enc) } else t

-- `sc_free_trans`
unfoldable pub free_trans : Ptr → Clt Bool
free_trans p_trans = if p_trans == 0 then pure false else do
  t ← load_trans p_trans
  if t.l_port == 0 then pure false else do
    s ← get
    set_trans (erase p_trans s.trans)
    put_trans p_trans (some (record t { l_port = 0 }))
    free_bev t.srv_bev
    free_bev t.local_bev
    put_trans p_trans (some (free_ctxs (record t { l_port = 0; srv_bev = 0; local_bev = 0 })))
    put_trans p_trans none
    pure true

-- The loop of `sc_free_all_trans`.
unfoldable pub free_each : List Ptr → Clt (Unit {0})
free_each [] = pure tt
free_each (p ∷ ps) = do
  t ← load_trans p
  free_bev t.srv_bev
  free_bev t.local_bev
  put_trans p (some (free_ctxs t))
  s ← get
  set_trans (erase p s.trans)
  put_trans p none
  free_each ps

-- `sc_free_all_trans`
unfoldable pub free_all_trans : Clt Bool
free_all_trans = do s ← get; free_each s.trans; pure true
