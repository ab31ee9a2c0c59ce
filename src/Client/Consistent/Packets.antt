-- ===== src/Client/Consistent/Packets.antt =====
-- The packets that a client registers with leave its transfers alone.
use sshinner.Base.{
  ◌≡◌, refl, ℕ, ◌+◌, ◌++◌, [], ◌∷◌, Bool, true, false, not, ltb, inl, inr, Option-cases, List,
  length,
}
use sshinner.Run.{pure}
use sshinner.Protocol.{CtlHead, zero_head, daemon_usr, usr_daemon, cmd_init, cmd_ss5, cmd_dns}
use sshinner.Client.{Client, writes}
use sshinner.Client.Register.{
  KeyFile, PacketEnv, missing, unreadable, readable, load_key, write_packet, too_long, register,
  daemon_init_srv, usr_init_srv, request_len, daemon_ss5_init_srv, daemon_dns_init_srv,
}
use sshinner.Client.Consistent.Quietly.{
  Quiet, quiet, no_end, also-Quiet, branch-Quiet, emit-Quiet, beside,
}

module _ (env : PacketEnv) where
  load_key-Quiet : (is_daemon : Bool) (s : Client) → Quiet s (load_key env is_daemon s)
  unfolding load_key
  load_key-Quiet is_daemon s = by_file env.key_file refl
    where
      by_file : (k : KeyFile) → env.key_file ≡ k → Quiet s (load_key env is_daemon s)
      by_file missing e = rw (e, load_key) no_end
      by_file unreadable e = rw (e, load_key) (branch-Quiet is_daemon _ _ s no_end (quiet s))
      by_file readable e = rw (e, load_key) (quiet s)

  write_packet-Quiet :
      (srv_fd : ℕ) (head : CtlHead) (text : List ℕ) (s : Client)
      → Quiet s (write_packet env srv_fd head text s)
  unfolding write_packet
  write_packet-Quiet srv_fd head text s = elim (Option-cases (env.rsa_public_encrypt text)) [
    | inl e ↦ rw (e, write_packet) (quiet s)
    | inr (body, e) ↦
        rw (e, write_packet)
          (also-Quiet (λ _. pure true)
            (emit-Quiet
              (writes srv_fd (
                env.head_bytes (record head { dat_len = length body; crc = env.crc32 body })
                ++ body))
              s)
            λ _ t. quiet (beside s t))
  ]

  register-Quiet :
      (srv_fd : ℕ) (head : CtlHead) (text : List ℕ) (reply : CtlHead) (answer : ℕ) (s : Client)
      → Quiet s (register env srv_fd head text reply answer s)
  unfolding register
  register-Quiet srv_fd head text reply answer s =
      branch-Quiet (too_long env text) _ _ s (quiet s) (
        also-Quiet _ (write_packet-Quiet srv_fd head (text ++ 0 ∷ []) s)
          λ sent t. branch-Quiet sent _ _ _ (quiet (beside s t)) (quiet (beside s t)))

  pub daemon_init_srv-Quiet :
      (srv_fd : ℕ) (reply : CtlHead) (s : Client) → Quiet s (daemon_init_srv env srv_fd reply s)
  unfolding daemon_init_srv
  daemon_init_srv-Quiet srv_fd reply s = also-Quiet _ (load_key-Quiet true s) λ loaded t.
      branch-Quiet (not loaded) _ _ _ (quiet (beside s t)) (
        register-Quiet srv_fd
          (record zero_head { direct = daemon_usr; cmd = cmd_init; mach_uuid = t.mach_uuid }) _
          reply _ (beside s t))

  pub usr_init_srv-Quiet :
      (srv_fd : ℕ) (reply : CtlHead) (s : Client) → Quiet s (usr_init_srv env srv_fd reply s)
  unfolding usr_init_srv
  usr_init_srv-Quiet srv_fd reply s = also-Quiet _ (load_key-Quiet false s) λ loaded t.
      branch-Quiet (not loaded) _ _ _ (quiet (beside s t)) (
        register-Quiet srv_fd
          (record zero_head { direct = usr_daemon; cmd = cmd_init; mach_uuid = t.mach_uuid }) _
          reply _ (beside s t))

  pub daemon_ss5_init_srv-Quiet :
      (srv_fd : ℕ) (request : List ℕ) (l_port : ℕ) (s : Client)
      → Quiet s (daemon_ss5_init_srv env srv_fd request l_port s)
  unfolding daemon_ss5_init_srv
  daemon_ss5_init_srv-Quiet srv_fd request l_port s =
      also-Quiet _ (load_key-Quiet true s) λ loaded t. elim (Option-cases (request_len request)) [
        | inl e ↦ rw e no_end
        | inr (n, e) ↦ rw e (
            branch-Quiet (ltb env.rsa_size (n + 12)) _ _ _ (quiet (beside s t)) (
              write_packet-Quiet srv_fd
                (record zero_head {
                  direct = daemon_usr;
                  cmd = cmd_ss5;
                  extra_param = l_port;
                  mach_uuid = t.mach_uuid;
                })
                _ (beside s t)))
      ]

  pub daemon_dns_init_srv-Quiet :
      (srv_fd l_port salt : ℕ) (s : Client) → Quiet s (daemon_dns_init_srv env srv_fd l_port salt s)
  unfolding daemon_dns_init_srv
  daemon_dns_init_srv-Quiet srv_fd l_port salt s = also-Quiet _ (load_key-Quiet true s) λ loaded t.
      write_packet-Quiet srv_fd
        (record zero_head {
          direct = daemon_usr;
          cmd = cmd_dns;
          extra_param = l_port;
          mach_uuid = t.mach_uuid;
        })
        _ (beside s t)
