-- ===== src/Server/Init.antt =====
-- The initialisation packet (server/source/sshinner_s_event.c, `ss_main_handle_init`), with the
-- helpers of sshinner_s_utils.c that it calls.
pub mod Opened
use sshinner.Base.{
  ℕ, Bool, true, false, not, Option, none, some, List, [], ◌∷◌, ◌++◌, ◌==◌, if◌then◌else◌, take,
  c_string,
}
use sshinner.Run.{pure, ◌>>=◌, ◌>>◌}
use sshinner.Protocol.{CtlHead, zero_head, usr_daemon, daemon_usr, cmd_init, cmd_ok, cmd_error}
use sshinner.Crypt.{encrypt_init}
use sshinner.Server.{
  Ptr, ActivItem, zero_activ, Env, Srv, Key, username, userid, r_mach_uuid, binds, enables,
  main_cbs,
}
use sshinner.Server.Memory.{
  load_acct, load_activ, put_acct, put_activ, set_acct_items, get, emit, calloc, send,
}
use sshinner.Server.Uuid.{uuid_search, uuid_insert}
use sshinner.Server.Account.{find_acct_item}

-- `json_fetch_and_copy`: the member, cut to the buffer, or what the buffer held.
abbrev pub json_fetch_and_copy : Option (List ℕ) → (held : List ℕ) → ℕ → List ℕ
json_fetch_and_copy none held max_len = held
json_fetch_and_copy (some []) held max_len = held
json_fetch_and_copy (some (c ∷ cs)) held max_len = c_string (take max_len (c ∷ cs))

-- `sc_send_head_cmd`
unfoldable pub send_head_cmd : Ptr → CtlHead → ℕ → ℕ → ℕ → Srv Bool
send_head_cmd bev p_head cmd direct extra_param = if bev == 0 then pure false else do
  send bev (record zero_head {
    direct = direct;
    cmd = cmd;
    extra_param = extra_param;
    mach_uuid = p_head.mach_uuid;
    usrport = p_head.usrport;
    daemonport = p_head.daemonport;
  })
  pure true

-- `ss_ret_cmd_err`
unfoldable pub ret_cmd_err : Ptr → ℕ → ℕ → Srv (Unit {0})
ret_cmd_err bev uuid direct =
    send bev (record zero_head { mach_uuid = uuid; cmd = cmd_error; direct = direct })

-- `ss_ret_cmd_ok`
unfoldable pub ret_cmd_ok : Ptr → ℕ → ℕ → Srv (Unit {0})
ret_cmd_ok bev uuid direct =
    send bev (record zero_head { mach_uuid = uuid; cmd = cmd_ok; direct = direct })

-- The branch of a client in USR mode: the session must exist.
unfoldable pub init_usr : Env → Ptr → CtlHead → List ℕ → ℕ → List ℕ → Srv Bool
init_usr env bev p_head name number uuid_s = elim (env.id128_from_string uuid_s) [
  | none ↦ pure false
  | some mach_uuid ↦ (do
    p_acct_item ← find_acct_item name number
    if p_acct_item == 0 then pure false else do
      s ← get
      p_activ_item ← uuid_search mach_uuid s.uuid_tree
      if p_activ_item == 0 then pure false else do
        activ ← load_activ p_activ_item
        put_activ p_activ_item (some (record activ { bev_usr = bev }))
        send_head_cmd bev p_head cmd_ok daemon_usr p_head.extra_param
        emit (binds bev main_cbs p_activ_item)
        emit (enables bev)
        pure true)
]

-- The account of a client in DAEMON mode, made if there is none; 0 where memory is exhausted.
unfoldable pub find_or_add_acct : List ℕ → ℕ → Srv Ptr
find_or_add_acct name number = do
  found ← find_acct_item name number
  if not (found == 0) then pure found else do
    p_acct_item ← calloc
    if p_acct_item == 0 then pure 0 else do
      s ← get
      put_acct p_acct_item (some (record { username = name; userid = number; items = [] }))
      set_acct_items (s.acct_items ++ p_acct_item ∷ [])
      pure p_acct_item

-- The branch of a client in DAEMON mode: a new session.
unfoldable pub init_daemon : Env → Ptr → CtlHead → List ℕ → ℕ → Srv Bool
init_daemon env bev p_head name number = do
  p_acct_item ← find_or_add_acct name number
  if p_acct_item == 0 then pure false else do
    s ← get
    taken ← uuid_search p_head.mach_uuid s.uuid_tree
    if not (taken == 0) then pure false else do
      p_activ_item ← calloc
      if p_activ_item == 0 then pure false else do
        let key = encrypt_init env.evp (env.id128_text p_head.mach_uuid)
        let activ : ActivItem = record zero_activ {
          p_acct = p_acct_item;
          mach_uuid = p_head.mach_uuid;
          enc_key = elim key [ none ↦ zero_activ.enc_key | some k ↦ k ];
        }
        put_activ p_activ_item (some activ)
        acct ← load_acct p_acct_item
        put_acct p_acct_item (some (record acct { items = acct.items ++ p_activ_item ∷ [] }))
        uuid_insert env p_activ_item
        put_activ p_activ_item (some (record activ { bev_daemon = bev }))
        send_head_cmd bev p_head cmd_ok usr_daemon p_head.extra_param
        emit (binds bev main_cbs p_activ_item)
        emit (enables bev)
        pure true

-- `ss_main_handle_init`; `held` is what its buffers hold before anything is copied there.
unfoldable pub handle_init :
    Env → (held : Key → List ℕ) → Ptr → CtlHead → Option (List ℕ) → Srv Bool
unfolding init_usr init_daemon
handle_init env held bev p_head none = pure false
handle_init env held bev p_head (some packet) =
    if not (p_head.cmd == cmd_init)
    then pure false
    else elim (env.rsa_private_decrypt (take p_head.dat_len packet)) [
      | none ↦ pure false
      | some out ↦
          let text = c_string out in
          if not (env.json_parses text)
          then pure false
          else let name = json_fetch_and_copy (env.json_string text username) (held username) 128 in
            let number = env.json_int text userid in
            if p_head.direct == usr_daemon
            then init_usr env bev p_head name number
                (json_fetch_and_copy (env.json_string text r_mach_uuid) (held r_mach_uuid) 33)
            else (if p_head.direct == daemon_usr
                then init_daemon env bev p_head name number
                else pure false)
    ]
