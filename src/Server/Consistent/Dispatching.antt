-- ===== src/Server/Consistent/Dispatching.antt =====
-- The main connections keep the server's objects together.
use sshinner.Base.{
  ℕ, ◌+◌, inl, inr, Bool, true, false, not, ◌||◌, Option-cases, some, List, [], ◌==◌, length, ltb,
}
use sshinner.Run.Ensures.{ended, stopped, after, branch, after_read, require-Reads}
use sshinner.Protocol.{CtlHead, cmd_init, cmd_ss5, cmd_dns}
use sshinner.Server.{Ptr, Key, Env, Server}
use sshinner.Server.Init.{ret_cmd_err}
use sshinner.Server.Relay.{handle_ss5, handle_dns}
use sshinner.Server.Uuid.Update.{KeepsOrder}
use sshinner.Server.Dispatch.{
  read_body, padded, call_body, answer, read_packet, main_bufferread_cb, accept_conn_cb,
}
use sshinner.Server.Consistent.{IsConsistent, Kept}
use sshinner.Server.Consistent.Quietly.{Quiet, quiet, Any, after-Quiet, send-Quiet}
use sshinner.Server.Consistent.Rules.{calloc-Kept}
use sshinner.Server.Consistent.Requests.{handle_ctl-Kept, handle_proxy-Kept}
use sshinner.Server.Consistent.Registration.{handle_init-Kept}

answer-Quiet :
    (bev : Ptr) (head : CtlHead) (done : Bool) (s : Server) → Quiet Any s (answer bev head done s)
unfolding ret_cmd_err
answer-Quiet bev head true s = quiet tt
answer-Quiet bev head false s = send-Quiet bev _ s

module _ (env : Env) (rb : KeepsOrder env) (held : Key → List ℕ) (bev : Ptr) where
  call_body-Kept :
      (head : CtlHead) (packet : List ℕ) (s : Server)
      → IsConsistent s
      → Kept (call_body env held bev head packet s)
  unfolding call_body handle_ss5 handle_dns
  call_body-Kept head packet s sound =
      branch (head.cmd == cmd_ss5) _ _ s
        (λ _. handle_proxy-Kept env cmd_ss5 b'S' bev head (some packet) s sound)
        λ _.
          branch (head.cmd == cmd_dns) _ _ s
            (λ _. handle_proxy-Kept env cmd_dns b'N' bev head (some packet) s sound)
            λ _. handle_init-Kept env rb held bev head (some packet) s sound

  read_packet-Kept :
      (head : CtlHead) (input : List ℕ) (s : Server)
      → IsConsistent s
      → Kept (read_packet env held bev head input s)
  unfolding read_packet
  read_packet-Kept head input s sound = after_read _ (require-Reads (ltb 0 head.dat_len) s) λ _ _.
      after (calloc-Kept s sound) λ block s1 sound1.
        branch (block == 0) _ _ s1 (λ _. ended sound1)
          λ _. elim (Option-cases (read_body env (head.dat_len + 1) head.dat_len input [])) [
            | inl e ↦ rw e stopped
            | inr ((got, rest), e) ↦ rw e (
                branch (not (env.crc32 (padded head.dat_len got) == head.crc)) _ _ s1
                  (λ _. ended sound1)
                  λ _.
                    after (call_body-Kept head (padded head.dat_len got) s1 sound1)
                      λ done s2 sound2.
                        after-Quiet _ (answer-Quiet bev head done s2) λ _ _ _. ended sound2)
          ]

  pub main_bufferread_cb-Kept :
      (input : List ℕ) (s : Server)
      → IsConsistent s
      → Kept (main_bufferread_cb env held bev input s)
  unfolding main_bufferread_cb
  main_bufferread_cb-Kept input s sound =
      let bytes = (env.evbuffer_remove env.head_len input).0 in
      let head = env.head_of bytes in
      branch (not (length bytes == env.head_len)) _ _ s (λ _. ended sound)
        λ _.
          branch ((head.cmd == cmd_ss5) || (head.cmd == cmd_dns) || (head.cmd == cmd_init)) _ _ s
            (λ _. read_packet-Kept head _ s sound)
            λ _.
              after (handle_ctl-Kept env bev head s sound) λ done s1 sound1.
                after-Quiet _ (answer-Quiet bev head done s1) λ _ _ _. ended sound1

pub accept_conn_cb-Kept : (bev : Ptr) (s : Server) → IsConsistent s → Kept (accept_conn_cb bev s)
unfolding accept_conn_cb
accept_conn_cb-Kept bev s sound = ended sound
