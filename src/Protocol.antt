-- ===== src/Protocol.antt =====
-- The packet heads of include/sshinner.h. Every field is a number: `direct` and `cmd` come from the
-- network and may hold any value.
use sshinner.Base.{ℕ, ◌==◌, if◌then◌else◌}

-- `CTL_HEAD`
pub record CtlHead : Type 0 where
  pub direct : ℕ
  pub cmd : ℕ
  pub extra_param : ℕ
  pub mach_uuid : ℕ
  pub daemonport : ℕ
  pub usrport : ℕ
  pub crc : ℕ
  pub dat_len : ℕ

-- `memset(&head, 0, CTL_HEAD_LEN)`
abbrev pub zero_head : CtlHead
zero_head = record {
  direct = 0;
  cmd = 0;
  extra_param = 0;
  mach_uuid = 0;
  daemonport = 0;
  usrport = 0;
  crc = 0;
  dat_len = 0;
}

-- `enum DIREC`
abbrev pub usr_daemon : ℕ
usr_daemon = 1

abbrev pub daemon_usr : ℕ
daemon_usr = 2

-- The `HD_CMD` letters.
abbrev pub cmd_init : ℕ
cmd_init = b'I'

abbrev pub cmd_conn : ℕ
cmd_conn = b'C'

abbrev pub cmd_conn_act : ℕ
cmd_conn_act = b'A'

abbrev pub cmd_ss5 : ℕ
cmd_ss5 = b'S'

abbrev pub cmd_ss5_act : ℕ
cmd_ss5_act = b'T'

abbrev pub cmd_dns : ℕ
cmd_dns = b'D'

abbrev pub cmd_dns_act : ℕ
cmd_dns_act = b'J'

abbrev pub cmd_end_trans : ℕ
cmd_end_trans = b'X'

abbrev pub cmd_ok : ℕ
cmd_ok = b'O'

abbrev pub cmd_error : ℕ
cmd_error = b'E'

-- `head.direct == USR_DAEMON? DAEMON_USR: USR_DAEMON`
abbrev pub reply_direct : CtlHead → ℕ
reply_direct head = if head.direct == usr_daemon then daemon_usr else usr_daemon
