-- ===== src/Server/Trans.antt =====
-- The transfers of a session (server/source/sshinner_s_data.c, from `ss_find_trans` on).
pub mod Ports
pub mod Release
pub mod Live
pub mod Drain
use sshinner.Base.{
  ℕ, ◌%◌, ◌^◌, Bool, true, false, not, ◌||◌, none, some, List, [], ◌∷◌, ◌++◌, ◌==◌, if◌then◌else◌,
  erase,
}
use sshinner.Run.{ok, stop, faulted, pure, require, ◌>>=◌, ◌>>◌}
use sshinner.Crypt.{encrypt_ctx_free}
use sshinner.Server.{Ptr, TransItem, zero_trans, Effect, frees, binds, Srv}
use sshinner.Server.Memory.{load_activ, load_trans, put_activ, put_trans, emit, calloc}

-- An argument that becomes an `unsigned short`.
abbrev pub ushort : ℕ → ℕ
ushort n = n % 2 ^ 16

abbrev pub is_empty : List Ptr → Bool
is_empty [] = true
is_empty (p ∷ ps) = false

-- The loop of `ss_find_trans`.
unfoldable pub find_in : ℕ → List Ptr → Srv Ptr
find_in l_sock [] = pure 0
find_in l_sock (p ∷ ps) = do
  t ← load_trans p
  if t.usr_lport == l_sock then pure p else find_in l_sock ps

-- `ss_find_trans`
unfoldable pub find_trans : Ptr → ℕ → Srv Ptr
find_trans p_activ_item l_sock = if p_activ_item == 0 then pure 0 else do
  activ ← load_activ p_activ_item
  if is_empty activ.trans then pure 0 else find_in (ushort l_sock) activ.trans

-- `ss_create_trans`
unfoldable pub create_trans : Ptr → ℕ → Srv Ptr
unfolding calloc
create_trans p_activ_item l_sock = if p_activ_item == 0 then pure 0 else do
  found ← find_trans p_activ_item l_sock
  if not (found == 0) then pure 0 else do
    p_trans ← calloc
    if p_trans == 0 then pure 0 else do
      put_trans p_trans (some (record zero_trans { usr_lport = ushort l_sock }))
      activ ← load_activ p_activ_item
      put_activ p_activ_item (some (record activ { trans = activ.trans ++ p_trans ∷ [] }))
      pure p_trans

-- `bufferevent_free` of a bufferevent that is there, where it is one of the transfer whose callback runs.
abbrev pub free_bev : Ptr → Srv (Unit {0})
free_bev bev = if bev == 0 then pure tt else emit (frees bev)

-- Whether a bufferevent is freed behind an effect, or behind several, given whether it was before: one
-- with the same address that libevent hands out and binds is a new one.
abbrev freed_by : Ptr → Effect → Bool → Bool
freed_by bev (frees x) was = if x == bev then true else was
freed_by bev (binds x cbs p_trans) was = if x == bev then false else was
freed_by bev e was = was

unfoldable pub freed_after : Ptr → Bool → List Effect → Bool
freed_after bev was [] = was
freed_after bev was (e ∷ es) = freed_after bev (freed_by bev e was) es

abbrev pub is_freed : Ptr → List Effect → Bool
is_freed bev trace = freed_after bev false trace

-- `bufferevent_free` of a bufferevent that is there; it must not have been freed before.
unfoldable pub free_live : Ptr → Srv (Unit {0})
free_live bev s =
    if bev == 0 then ok tt s else if is_freed bev s.trace then stop faulted else emit (frees bev) s

-- `encrypt_ctx_free` of both contexts, where the transfer is encrypted.
abbrev pub free_ctxs : TransItem → TransItem
free_ctxs t =
    if t.is_enc
    then record t { ctx_enc = encrypt_ctx_free t.ctx_enc; ctx_dec = encrypt_ctx_free t.ctx_dec }
    else t

-- `ss_free_trans`. Its head is built and not sent. What it reads through `p_trans->p_activ_item` is
-- the machine id before the removal, and `bev_daemon` behind it.
unfoldable pub free_trans : Ptr → Ptr → Srv Bool
free_trans p_activ_item p_trans = if p_activ_item == 0 then pure false else do
  activ ← load_activ p_activ_item
  if is_empty activ.trans || (p_trans == 0) then pure false else do
    t ← load_trans p_trans
    if t.usr_lport == 0 then pure false else do
      load_activ t.p_activ_item
      put_activ p_activ_item (some (record activ { trans = erase p_trans activ.trans }))
      put_trans p_trans (some (record t { usr_lport = 0 }))
      free_bev t.bev_d
      free_bev t.bev_u
      put_trans p_trans (some (free_ctxs (record t { usr_lport = 0; bev_d = 0; bev_u = 0 })))
      owner ← load_activ t.p_activ_item
      require (not (owner.bev_daemon == 0))
      put_trans p_trans none
      pure true

-- The loop of `ss_free_all_trans`.
unfoldable pub free_each : Ptr → List Ptr → Srv (Unit {0})
unfolding free_live
free_each p_activ_item [] = pure tt
free_each p_activ_item (p ∷ ps) = do
  t ← load_trans p
  put_trans p (some (free_ctxs t))
  free_live t.bev_d
  free_live t.bev_u
  activ ← load_activ p_activ_item
  put_activ p_activ_item (some (record activ { trans = erase p activ.trans }))
  put_trans p none
  free_each p_activ_item ps

-- `ss_free_all_trans`; its lock is taken through `p_activ_item` before the test for `NULL`.
unfoldable pub free_all_trans : Ptr → Srv Bool
unfolding free_each
free_all_trans p_activ_item = do
  activ ← load_activ p_activ_item
  if is_empty activ.trans then pure true else do free_each p_activ_item activ.trans; pure true
