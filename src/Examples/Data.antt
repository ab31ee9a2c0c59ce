-- ===== src/Examples/Data.antt =====
-- A server with one account, two sessions and two transfers, and libraries for it.
use sshinner.Base.{
  ℕ, ◌+◌, ◌-◌, true, false, none, some, List, [], ◌∷◌, ◌==◌, ltb, if◌then◌else◌, erase, take, drop,
}
use sshinner.Protocol.{zero_head}
use sshinner.Crypt.{Evp}
use sshinner.Crypt.Stream.{stream}
use sshinner.Server.{
  Ptr, TransItem, ActivItem, AcctItem, Tree, leaf, node, Env, Server, zero_trans, zero_activ,
}
use sshinner.Server.Uuid.Sequence.{in_order}

-- A byte cipher that is its own inverse.
abbrev pub flip : ℕ → ℕ
flip b = if ltb b 256 then 255 - b else b

abbrev pub test_evp : Evp
test_evp = record {
  md5 = λ bs. bs;
  bytes_to_key = λ passwd. some passwd;
  init_rc4 = λ enc. true;
  set_key_length = true;
  set_key = λ enc key. true;
  update = λ enc key n bs. some (stream (λ key n. flip) key n bs);
}

-- A tree with its nodes in a row.
abbrev pub of_list : List Ptr → Tree
of_list [] = leaf
of_list (p ∷ ps) = node false leaf p (of_list ps)

abbrev pub test_env : Env
test_env = record {
  evp = test_evp;
  rsa_private_decrypt = λ bs. some bs;
  json_parses = λ text. true;
  json_string = λ text key. some text;
  json_int = λ text key. 3;
  id128_from_string = λ text. some 7;
  id128_text = λ uuid. uuid ∷ [];
  getfd = λ bev. bev + 100;
  crc32 = λ bs. 0;
  evbuffer_remove = λ n bs. (take n bs, drop n bs);
  head_len = 8;
  head_of = λ bs. zero_head;
  rb_insert_color = λ x t. t;
  rb_erase = λ x t. of_list (erase x (in_order t));
}

abbrev pub trans_31 : TransItem
trans_31 = record zero_trans { p_activ_item = 20; usr_lport = 80; bev_u = 61; bev_d = 62 }

abbrev pub trans_32 : TransItem
trans_32 = record zero_trans { p_activ_item = 20; usr_lport = 443; bev_d = 63 }

abbrev pub activ_20 : ActivItem
activ_20 = record zero_activ {
  p_acct = 10;
  mach_uuid = 7;
  bev_daemon = 51;
  bev_usr = 52;
  trans = 31 ∷ 32 ∷ [];
}

abbrev pub activ_21 : ActivItem
activ_21 = record zero_activ { p_acct = 10; mach_uuid = 9; bev_daemon = 53 }

-- In the store, and not yet in the tree.
abbrev pub activ_22 : ActivItem
activ_22 = record zero_activ { p_acct = 10; mach_uuid = 8; bev_daemon = 54 }

abbrev pub acct_10 : AcctItem
acct_10 = record { username = b'B' ∷ b'o' ∷ b'b' ∷ []; userid = 3; items = 20 ∷ 21 ∷ [] }

abbrev pub test_server : Server
test_server = record {
  acct_items = 10 ∷ [];
  uuid_tree = node false leaf 20 (node true leaf 21 leaf);
  queues = [] ∷ [] ∷ [];
  accts = λ p. if p == 10 then some acct_10 else none;
  activs = λ p.
      if p == 20
      then some activ_20
      else if p == 21
      then some activ_21
      else if p == 22
      then some activ_22
      else none;
  transs = λ p. if p == 31 then some trans_31 else if p == 32 then some trans_32 else none;
  supply = 40 ∷ 41 ∷ 42 ∷ 43 ∷ [];
  trace = [];
}
