-- ===== src/Examples/Reaching.antt =====
-- A server from its start to its first transfer.
use sshinner.Base.{
  ℕ, true, false, ◌≡◌, refl, inl, inr, none, ◌∈◌, some, List, [], ◌∷◌, ◌==◌, if◌then◌else◌,
}
use sshinner.Run.{Run, ok, stop, faulted, ◌>>=◌}
use sshinner.Protocol.{CtlHead, zero_head, cmd_init, cmd_conn, cmd_ss5, usr_daemon, daemon_usr}
use sshinner.Server.{Ptr, TransItem, ActivItem, Env, Server, zero_trans, find_at}
use sshinner.Server.Memory.{calloc}
use sshinner.Server.Account.{find_acct_item, find_acct_in}
use sshinner.Server.Uuid.{uuid_search, uuid_insert}
use sshinner.Server.Init.{handle_init, init_daemon, find_or_add_acct, send_head_cmd}
use sshinner.Server.Relay.{handle_ctl, handle_ss5, handle_proxy, conn_trans, hand_over}
use sshinner.Server.Trans.{
  create_trans, find_in, find_trans, free_trans, free_all_trans, free_each, free_live, freed_after,
}
use sshinner.Server.Dispatch.{Events, main_bufferread_cb, read_packet, read_body, call_body}
use sshinner.Server.Transfer.{bufferevent_cb}
use sshinner.Crypt.{encrypt_ctx_init}
use sshinner.Server.Worker.{thread_process, fetch_item, take_over, take_ss5, start_ctxs, target_of}
use sshinner.Server.{AcctItem, zero_activ}
use sshinner.Server.Dispatch.{main_bufferevent_cb}
use sshinner.Server.Consistent.Ending.{Outcome, main_bufferevent_cb-Gone}
use sshinner.Server.Uuid.Update.{KeepsOrder}
use sshinner.Server.Consistent.{IsConsistent}
use sshinner.Server.Consistent.Reach.{
  started, allocates, reads_packet, Reach, start, step, trans_event, Reach-find_trans,
  Reach-IsConsistent, Step-IsConsistent,
}
use sshinner.Examples.Data.{test_env}
use sshinner.Examples.Sessions.{test_env-KeepsOrder}

-- Heads of one byte: 1 is the registration of a daemon, whose body has three bytes, and any other the
-- request of a user for the port 8080.
abbrev head_of : List ℕ → CtlHead
head_of [] = zero_head
head_of (byte ∷ bytes) =
    if byte == 1
    then record zero_head { cmd = cmd_init; direct = daemon_usr; mach_uuid = 8; dat_len = 3 }
    else record zero_head { cmd = cmd_conn; direct = usr_daemon; mach_uuid = 8; extra_param = 8080 }

abbrev small_env : Env
small_env = record test_env { head_len = 1; head_of = head_of }

small_env-KeepsOrder : KeepsOrder small_env
small_env-KeepsOrder = record {
  insert_color = test_env-KeepsOrder.insert_color;
  erases = test_env-KeepsOrder.erases;
}

-- The state in which a run ends.
abbrev state_of : {A : Type 0} → Run Server A → Server
state_of (ok a s) = s
state_of (stop why) = started []

abbrev blocks : List Ptr
blocks = 10 ∷ 11 ∷ 12 ∷ 13 ∷ 14 ∷ 15 ∷ []

abbrev with_blocks : Server
with_blocks = record (started ([] ∷ [])) { supply = blocks }

unfoldable registered : Server
unfolding main_bufferread_cb read_packet read_body call_body handle_init init_daemon
    find_or_add_acct find_acct_item find_acct_in calloc uuid_search uuid_insert send_head_cmd
registered =
    state_of (main_bufferread_cb small_env (λ key. []) 70 (1 ∷ 65 ∷ 66 ∷ 67 ∷ []) with_blocks)

unfoldable relaying : Server
unfolding main_bufferread_cb registered handle_ctl conn_trans create_trans find_trans find_in
    hand_over calloc uuid_search
relaying = state_of (main_bufferread_cb small_env (λ key. []) 71 (2 ∷ []) registered)

registers :
    main_bufferread_cb small_env (λ key. []) 70 (1 ∷ 65 ∷ 66 ∷ 67 ∷ []) with_blocks
    ≡ ok [] registered
unfolding registered
registers = refl

relays : main_bufferread_cb small_env (λ key. []) 71 (2 ∷ []) registered ≡ ok [] relaying
unfolding relaying
relays = refl

with_blocks-Reach : Reach small_env ([] ∷ []) with_blocks
with_blocks-Reach = step start (
    allocates blocks (
      inr (refl, refl, refl),
      (
        inr (refl, refl, refl),
        (
          inr (refl, refl, refl),
          (inr (refl, refl, refl), (inr (refl, refl, refl), (inr (refl, refl, refl), tt))),
        ),
      ),
    ))

relaying-Reach : Reach small_env ([] ∷ []) relaying
relaying-Reach =
    step (step with_blocks-Reach (reads_packet (λ key. []) 70 (1 ∷ 65 ∷ 66 ∷ 67 ∷ []) registers))
      (reads_packet (λ key. []) 71 (2 ∷ []) relays)

abbrev first_trans : TransItem
first_trans = record zero_trans { p_activ_item = 12; usr_lport = 8080 }

there : find_at relaying.transs 13 ≡ some first_trans
unfolding relaying
there = refl

Reach-find_trans_example :
    (a : ActivItem) × (find_at relaying.activs 12 ≡ some a)
    × (13 ∈ a.trans)
    × ((p : Ptr) (b : ActivItem) → find_at relaying.activs p ≡ some b → 13 ∈ b.trans → p ≡ 12)
    × (find_trans 12 8080 relaying ≡ ok 13 relaying)
Reach-find_trans_example =
    Reach-find_trans small_env small_env-KeepsOrder ([] ∷ []) relaying relaying-Reach 13 first_trans
      there

-- The user's connection of the transfer ends.
abbrev at_end : Events
at_end = record { connected = false; error = false; eof = true; timeout = false }

unfoldable closed : Server
unfolding relaying bufferevent_cb free_trans
closed = state_of (bufferevent_cb at_end 13 relaying)

closes : bufferevent_cb at_end 13 relaying ≡ ok tt closed
unfolding closed
closes = refl

Step-IsConsistent_example : IsConsistent closed
Step-IsConsistent_example =
    Step-IsConsistent small_env small_env-KeepsOrder relaying closed
      (Reach-IsConsistent small_env small_env-KeepsOrder ([] ∷ []) relaying relaying-Reach)
      (trans_event at_end 13 closes)

-- A client asks for a connection that cannot be made. When the session ends, `ss_free_all_trans` frees
-- the bufferevent of that request again.
abbrev ss5_head : CtlHead
ss5_head = record zero_head {
  cmd = cmd_ss5;
  direct = daemon_usr;
  mach_uuid = 8;
  dat_len = 10;
  extra_param = 9090;
}

free_all_trans_twice :
    (handle_ss5 small_env 72 ss5_head (some (5 ∷ 1 ∷ 0 ∷ 1 ∷ 10 ∷ 0 ∷ 0 ∷ 7 ∷ 1 ∷ 187 ∷ []))
        >>= λ done. thread_process small_env (λ sin. false) 0 (some b'S') 80 81 >>= λ dns.
            free_all_trans 12)
      registered
    ≡ stop faulted
unfolding registered handle_ss5 handle_proxy create_trans find_trans find_in calloc uuid_search
    hand_over thread_process fetch_item take_over take_ss5 start_ctxs encrypt_ctx_init target_of
    free_all_trans free_each free_live freed_after
free_all_trans_twice = refl

-- The session of the transfer.
unfoldable first_activ : ActivItem
unfolding relaying
first_activ = elim (find_at relaying.activs 12) [ none ↦ zero_activ | some a ↦ a ]

unfoldable first_acct : AcctItem
unfolding relaying
first_acct = elim (find_at relaying.accts 11) [
  | none ↦ record { username = []; userid = 0; items = [] }
  | some a ↦ a
]

main_bufferevent_cb-Gone_example :
    Outcome relaying 12 first_activ 70 (main_bufferevent_cb small_env 70 at_end 12 relaying)
unfolding relaying first_activ first_acct
main_bufferevent_cb-Gone_example =
    main_bufferevent_cb-Gone small_env small_env-KeepsOrder relaying
      (Reach-IsConsistent small_env small_env-KeepsOrder ([] ∷ []) relaying relaying-Reach) 12 70
      first_activ first_acct at_end refl refl refl refl refl refl (inl refl)
