-- ===== src/Json.antt =====
-- The settings file settings.json, as json-c reads it for client/source/sshinner_c_utils.c and
-- server/source/sshinner_s_utils.c.
use sshinner.Base.{ℕ, Option, List}

-- The members of settings.json.
pub data Member : Type 0 where
  server client ipaddr port username userid ss5_port dns_port r_mach_uuid portmaps usrport
        daemonport thread_num :
      Member

-- What the code calls of json-c, for values `J`, with `null` among them; of `inet_addr`; and of sd-id128.
pub record Json (J : Type 0) : Type 0 where
  -- `json_object_object_get_ex`
  pub member : J → Member → Option J
  -- `json_object_get_string`, which is `NULL` for `null`, and `json_object_get_string_len`
  pub string : J → Option (List ℕ)
  pub string_len : J → ℕ
  -- `json_object_get_int` and `json_object_get_int64`, as numbers of 32 and of 64 bits
  pub int : J → ℕ
  pub int64 : J → ℕ
  -- `json_object_array_length` and `json_object_array_get_idx`; `none` for what is no array, at which the
  -- first fails an assertion
  pub elements : J → Option (List J)
  pub inet_addr : List ℕ → ℕ
  pub id128_from_string : List ℕ → Option ℕ
