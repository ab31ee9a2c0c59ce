-- ===== src/Server/Relay/Proxied.antt =====
-- The handling of a SOCKS5 or a DNS request, by the state that it leaves.
use sshinner.Base.{
  ℕ, ◌%◌, ◌≡◌, ◌≢◌, ap, ◌∙◌, true, false, some, none, List, [], ◌∷◌, ◌++◌, arith, ◌==◌, length,
  get_elem?, take,
}
use sshinner.Run.{ok}
use sshinner.Protocol.{CtlHead, usr_daemon}
use sshinner.Server.{Ptr, Env, Server, CItem, TransItem, ActivItem, zero_trans, frees, write_at}
use sshinner.Server.Memory.{calloc}
use sshinner.Server.Uuid.{uuid_search}
use sshinner.Server.Trans.{ushort}
use sshinner.Server.Trans.Ports.{scan, IsSession, create_free}
use sshinner.Server.Trans.Release.{write-write}
use sshinner.Server.Relay.{handle_proxy, decrypted}
use sshinner.Server.Relay.Steps.{handed, hand_over_lem}

-- The transfer that a request makes.
abbrev pub asked : Ptr → Ptr → CtlHead → List ℕ → TransItem
asked p bev head out = record zero_trans {
  is_enc = true;
  p_activ_item = p;
  usr_lport = ushort head.extra_param;
  bev_d = bev;
  request = some (decrypted head.dat_len out);
}

module _ (env : Env) (cmd letter bev p x c w : ℕ) (head : CtlHead) (packet out : List ℕ)
    (rest : List Ptr) (a : ActivItem) (q : List CItem) where
  -- The state with the transfer, and the one behind the handover.
  abbrev pub with_trans : Server → Server
  with_trans s = record s {
    supply = rest;
    transs = write_at s.transs x (some (asked p bev head out));
    activs = write_at s.activs p (some (record a { trans = a.trans ++ x ∷ [] }));
    trace = s.trace ++ frees bev ∷ [];
  }

  abbrev pub proxied : Server → Server
  proxied s = handed env bev x letter w q (with_trans s)

  pub handle_proxy_lem :
      (s : Server)
      → (head.cmd == cmd) ≡ true
      → (head.direct == usr_daemon) ≡ false
      → env.rsa_private_decrypt (take head.dat_len packet) ≡ some out
      → uuid_search head.mach_uuid s.uuid_tree s ≡ ok p s
      → IsSession s p a
      → s.supply ≡ x ∷ c ∷ rest
      → x ≢ 0
      → c ≢ 0
      → s.transs x ≡ none
      → (scan s.transs (ushort head.extra_param) a.trans == 0) ≡ true
      → w ≡ head.extra_param % length s.queues
      → get_elem? s.queues w ≡ some q
      → handle_proxy env cmd letter bev head (some packet) s ≡ ok true (proxied s)
  unfolding handle_proxy calloc
  handle_proxy_lem s right daemon clear found session next real block unused free worker at_w =
      let p_real : (p == 0) ≡ false = ground (arith, session.here) in
      let new : TransItem = record zero_trans { usr_lport = ushort head.extra_param } in
      let last = asked p bev head out in
      let raw : Server = record (with_trans s) {
        transs = write_at (write_at s.transs x (some new)) x (some last);
      } in
      rw
        (
          right,
          daemon,
          clear,
          found,
          p_real,
          create_free s p head.extra_param x (c ∷ rest) a session next real unused free,
        )
        (ground (arith, hand_over_lem env bev x letter w head q raw worker at_w))
      ∙ ap (λ g. ok true (handed env bev x letter w q (record (with_trans s) { transs = g })))
          (write-write s.transs x (some new) (some last))
