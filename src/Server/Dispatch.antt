-- ===== src/Server/Dispatch.antt =====
-- The main connections (server/source/sshinner_s_event.c, `main_bufferread_cb`,
-- `main_bufferevent_cb` and `accept_conn_cb`).
pub mod Reading
use sshinner.Base.{
  ℕ, zero, suc, ◌+◌, ◌-◌, Bool, true, false, not, ◌||◌, Option, none, some, List, [], ◌++◌, ◌==◌,
  ltb, if◌then◌else◌, length, replicate,
}
use sshinner.Run.{pure, halt, aborted, spun, require, ◌>>=◌, ◌>>◌}
use sshinner.Protocol.{CtlHead, cmd_init, cmd_ss5, cmd_dns, reply_direct}
use sshinner.Server.{Ptr, Env, Srv, Key, closes, binds, enables, main_cbs}
use sshinner.Server.Memory.{load_activ, emit, calloc}
use sshinner.Server.Trans.{free_live}
use sshinner.Server.Account.{activ_item_remove}
use sshinner.Server.Init.{handle_init, ret_cmd_err}
use sshinner.Server.Relay.{handle_ctl, handle_ss5, handle_dns}

-- The loop that reads the body of a packet behind the bytes `got`, and what is left of the input;
-- `none` where the fuel runs out. One round for each byte that is wanted, and one more, are enough.
unfoldable pub read_body : Env → ℕ → (want : ℕ) → (input got : List ℕ) → Option (List ℕ × List ℕ)
read_body env zero want input got = none
read_body env (suc fuel) want input got =
    let (chunk, rest) = env.evbuffer_remove (want - length got) input in
    let again = read_body env fuel want rest (got ++ chunk) in
    if not (ltb 0 (length chunk))
    then some (got, rest)
    else if ltb (length chunk) (want - length got)
    then again
    else some (got ++ chunk, rest)

-- A body in its block: the block was cleared before it was read.
abbrev pub padded : ℕ → List ℕ → List ℕ
padded want got = got ++ replicate (want - length got) 0

-- The call that the command of a packet with a body asks for.
unfoldable pub call_body : Env → (Key → List ℕ) → Ptr → CtlHead → List ℕ → Srv Bool
call_body env held bev head packet =
    if head.cmd == cmd_ss5
    then handle_ss5 env bev head (some packet)
    else if head.cmd == cmd_dns
    then handle_dns env bev head (some packet)
    else handle_init env held bev head (some packet)

-- The answer to a packet that a handler refuses.
abbrev pub answer : Ptr → CtlHead → Bool → Srv (Unit {0})
answer bev head true = pure tt
answer bev head false = ret_cmd_err bev head.mach_uuid (reply_direct head)

-- A packet with a body: it is read, its sum is checked, and it is handled. What is returned is the
-- input that is left.
unfoldable pub read_packet : Env → (Key → List ℕ) → Ptr → CtlHead → List ℕ → Srv (List ℕ)
read_packet env held bev head input = do
  require (ltb 0 head.dat_len)
  dat ← calloc
  if dat == 0 then pure input else elim (read_body env (head.dat_len + 1) head.dat_len input []) [
    | none ↦ halt spun
    | some (got, rest) ↦
        let packet = padded head.dat_len got in
        if not (env.crc32 packet == head.crc)
        then pure rest
        else do done ← call_body env held bev head packet; answer bev head done; pure rest
  ]

-- `main_bufferread_cb`
unfoldable pub main_bufferread_cb : Env → (Key → List ℕ) → Ptr → List ℕ → Srv (List ℕ)
main_bufferread_cb env held bev input =
    let (bytes, rest) = env.evbuffer_remove env.head_len input in
    let head = env.head_of bytes in
    if not (length bytes == env.head_len)
    then pure rest
    else if (head.cmd == cmd_ss5) || (head.cmd == cmd_dns) || (head.cmd == cmd_init)
    then read_packet env held bev head rest
    else (do done ← handle_ctl env bev head; answer bev head done; pure rest)

-- The bits of a bufferevent's `events`.
pub record Events : Type 0 where
  pub connected : Bool
  pub error : Bool
  pub eof : Bool
  pub timeout : Bool

-- The other side of a session is closed, if it is there.
unfoldable pub close_peer : Env → Ptr → Srv (Unit {0})
close_peer env peer =
    if peer == 0 then pure tt else do free_live peer; emit (closes (env.getfd peer))

-- `main_bufferevent_cb`; `ptr` is 0 on a connection that no session has taken.
unfoldable pub main_bufferevent_cb : Env → Ptr → Events → Ptr → Srv (Unit {0})
unfolding close_peer
main_bufferevent_cb env bev events p_item =
    if events.connected || events.error || not events.eof || (p_item == 0) then pure tt else do
      item ← load_activ p_item
      if item.bev_daemon == bev
          then close_peer env item.bev_usr
          else (if item.bev_usr == bev then close_peer env item.bev_daemon else halt aborted)
      activ_item_remove env p_item
      pure tt

-- `accept_conn_cb`, for the bufferevent that libevent makes for a new connection.
unfoldable pub accept_conn_cb : Ptr → Srv (Unit {0})
accept_conn_cb bev = do emit (binds bev main_cbs 0); emit (enables bev)
