-- ===== src/Client/Consistent/Starting.antt =====
-- The start of a client leaves its transfers together: it makes at most that of the DNS proxy.
use sshinner.Base.{
  ℕ, suc, zero, ◌≡◌, refl, Bool, true, false, not, ◌&&◌, none, some, List, [], ◌∷◌, ◌++◌, ◌==◌,
  arith,
}
use sshinner.Run.{require}
use sshinner.Run.Ensures.{Ensures, ended, stopped, after, branch, option, after_read}
use sshinner.Crypt.{Evp, encrypt_init, encrypt_ctx_init}
use sshinner.Server.{Ptr, write_at}
use sshinner.Server.Trans.{ushort}
use sshinner.Json.{Json}
use sshinner.Client.{PortMap, PortTrans, Client, dns_cbs, listens}
use sshinner.Client.Register.{PacketEnv}
use sshinner.Client.Dns.{DnsSockets, start_dns_proxy}
use sshinner.Client.Start.{
  blank_client, parse_options, Machine, listen_maps, create_ss5_worker_threads, configure, sign_on,
  start_ss5_proxy, main,
}
use sshinner.Client.Consistent.{Fresh, IsLinked, Kept}
use sshinner.Client.Consistent.Writes.{Sound-write}
use sshinner.Client.Consistent.Quietly.{
  beside, Quiet, quiet, no_end, rebase, after-Quiet, end-Quiet, also-Quiet, branch-Quiet,
  emit-Quiet, bind_bev-Quiet, trans-Reads,
}
use sshinner.Client.Consistent.Lists.{Made-port, create_trans-Made}
use sshinner.Client.Consistent.Configuring.{Early, load_settings_client-Early}
use sshinner.Client.Consistent.Packets.{
  daemon_init_srv-Quiet, usr_init_srv-Quiet, daemon_dns_init_srv-Quiet,
}
use sshinner.Client.Consistent.Controlling.{set_eventcb_srv-Quiet}

listen_maps-Quiet :
    (can_listen : ℕ → Bool) (i : ℕ) (maps : List PortMap) (s : Client)
    → Quiet s (listen_maps can_listen i maps s)
unfolding listen_maps
listen_maps-Quiet can_listen i [] s = quiet s
listen_maps-Quiet can_listen i (map ∷ maps) s = branch-Quiet (map.usrport == 0) _ _ s (quiet s) (
    also-Quiet _
      (branch-Quiet (can_listen map.usrport) _ _ s (emit-Quiet (listens map.usrport i) s) (quiet s))
      λ _ t. listen_maps-Quiet can_listen (suc i) maps (beside s t))

require-Quiet : (b : Bool) (s : Client) → Quiet s (require b s)
require-Quiet b s = branch-Quiet b _ _ s (quiet s) no_end

create_ss5_worker_threads-Quiet :
    (made : ℕ → Bool) (i n : ℕ) (s : Client) → Quiet s (create_ss5_worker_threads made i n s)
unfolding create_ss5_worker_threads
create_ss5_worker_threads-Quiet made i zero s = quiet s
create_ss5_worker_threads-Quiet made i (suc n) s = also-Quiet _ (require-Quiet (made i) s) λ _ t.
    let s1 : Client = record (beside s t) { queues = t.queues ++ [] ∷ [] } in
    rebase (record t { queues = t.queues ++ [] ∷ [] })
      (create_ss5_worker_threads-Quiet made (suc i) n s1)

start_dns_proxy-Kept :
    (env : PacketEnv) (evp : Evp) (net : DnsSockets) (l_sock : ℕ) (s : Client)
    → IsLinked s
    → ushort l_sock ≡ l_sock
    → Kept (start_dns_proxy env evp net l_sock s)
unfolding start_dns_proxy
start_dns_proxy-Kept env evp net l_sock s sound short =
    branch (not net.socket_made) _ _ s (λ _. stopped)
      λ _.
        branch (not net.bound) _ _ s (λ _. stopped)
          λ _. option net.table _ _ s stopped λ table.
            after (create_trans-Made l_sock (record s { transid_ports = table }) sound) λ p s1 made.
              branch (p == 0) _ _ s1 (λ _. stopped)
                λ _. after_read _ (trans-Reads p s1) λ t there.
                  let t1 : PortTrans = record t {
                    is_enc = true;
                    l_port = l_sock;
                    ctx_enc = (encrypt_ctx_init evp t.ctx_enc l_sock s1.enc_key true).1;
                    ctx_dec = (encrypt_ctx_init evp t.ctx_dec l_sock s1.enc_key false).1;
                    extra_ev = net.extra_ev;
                  } in
                  let s2 : Client = record s1 { transs = write_at s1.transs p (some t1) } in
                  let sound2 : IsLinked s2 =
                    Sound-write s1.transs s1.trans s1.supply made.0 p t t1 there
                      (ground (arith, short, Made-port l_sock p s1 t made there)) in
                  branch (not net.connects_srv) _ _ s2 (λ _. stopped)
                    λ _.
                      after-Quiet _ (daemon_dns_init_srv-Quiet env net.srv_fd l_sock 12333 s2)
                        λ _ s3. end-Quiet (bind_bev-Quiet net.srv_bev dns_cbs p _) λ _ _.
                          Sound-write s2.transs s2.trans s2.supply sound2 p t1
                            (record t1 { srv_bev = net.srv_bev }) (ground (arith, there)) refl

module _ {J : Type 0} (json : Json J) (env : PacketEnv) (evp : Evp) (m : Machine J) where
  configure-Early : (s : Client) → Early s → Ensures (λ _ s'. Early s') (configure json env evp m s)
  unfolding configure
  configure-Early s early = option (parse_options false m.options) _ _ s stopped λ is_daemon.
      after (load_settings_client-Early json m.settings (record s { is_daemon = is_daemon }) early)
        λ loaded s1 early1.
          branch (not loaded) _ _ s1 (λ _. stopped)
            λ _. branch s1.is_daemon _ _ _ (λ _. ended early1) λ _. ended early1

  sign_on-Quiet : (s : Client) → Quiet s (sign_on json env evp m s)
  unfolding sign_on
  sign_on-Quiet s = also-Quiet _ (require-Quiet m.connects_srv s) λ _ t.
      also-Quiet _
        (branch-Quiet t.is_daemon _ _ (beside s t)
          (daemon_init_srv-Quiet env m.srv_fd m.reply (beside s t))
          (usr_init_srv-Quiet env m.srv_fd m.reply (beside s t)))
        λ done t1. require-Quiet done (beside s t1)

  start_ss5_proxy-Quiet : (s : Client) → Quiet s (start_ss5_proxy json env evp m s)
  unfolding start_ss5_proxy
  start_ss5_proxy-Quiet s = also-Quiet _ (require-Quiet (not (m.thread_objs == 0)) s) λ _ t.
      also-Quiet _ (create_ss5_worker_threads-Quiet m.thread_made 0 5 (beside s t)) λ _ t1.
        branch-Quiet (m.can_listen t1.ss5_port) _ _ (beside s t1) (emit-Quiet _ (beside s t1))
          no_end

  main-Kept : (s : Client) → Early s → Kept (main json env evp m s)
  unfolding main
  main-Kept s early = after (configure-Early s early) λ _ s1 (sound, empty, short).
      after-Quiet _ (sign_on-Quiet s1) λ _ s2.
        after-Quiet _
          (branch-Quiet s2.is_daemon _ _ (beside s1 s2) (quiet (beside s1 s2))
            (listen_maps-Quiet m.can_listen 0 s2.maps (beside s1 s2)))
          λ _ s3.
            let s4 : Client = record (beside s1 s3) {
              enc_key = elim (encrypt_init evp (env.id128_text s3.mach_uuid)) [
                | none ↦ s3.enc_key
                | some key ↦ key
              ];
            } in
            after-Quiet _
              (branch-Quiet (s4.is_daemon && not (s4.ss5_port == 0)) _ _ s4
                (start_ss5_proxy-Quiet s4) (quiet s4))
              λ _ s5.
                after {P = λ _ s'. IsLinked s'}
                  (branch (s5.is_daemon && not (s4.dns_port == 0)) _ _ (beside s4 s5)
                    (λ _. start_dns_proxy-Kept env evp m.dns s4.dns_port (beside s4 s5) sound short)
                    λ _. ended sound)
                  λ _ s6 still. end-Quiet (set_eventcb_srv-Quiet m.srv_bev s6) λ _ _. still

  -- What `main` leaves of a client that was cleared.
  pub started-Kept :
      (supply : List Ptr)
      → Fresh (blank_client supply).transs supply
      → Kept (main json env evp m (blank_client supply))
  started-Kept supply fresh = main-Kept (blank_client supply) (
    record {
      apart = tt;
      listed = λ q t e. ground (arith, e);
      short = λ q t e. ground (arith, e);
      fresh = fresh;
    },
    refl,
    refl,
  )
