-- ===== src/Server/Dispatch/Reading.antt =====
-- What `main_bufferread_cb` takes from the input: whole packets, packets in part, and damaged ones.
mod Bytes
use mathlib.Core.List.{append-nil, append_assoc}
use mathlib.Core.Path.{fun_ext}
use sshinner.Base.{
  take-append, drop-append, ℕ, zero, suc, ◌+◌, ◌-◌, ◌≤◌, ◌<◌, ◌≡◌, refl, ap, ◌∙◌, ◌⊎◌, inl, inr,
  Bool, if◌then◌else◌, true, false, ◌||◌, Bool-cases, some, List, [], ◌∷◌, ◌++◌, arith, ◌==◌,
  ==_true, ltb, length, length-append, take, drop,
}
use sshinner.Run.{ok, pure, ◌>>=◌, ◌>>◌}
use sshinner.Protocol.{
  CtlHead, zero_head, cmd_init, cmd_ss5, cmd_dns, cmd_error, usr_daemon, daemon_usr,
}
use sshinner.Server.Init.{handle_init, ret_cmd_err}
use sshinner.Server.Relay.{handle_ss5, handle_dns}
use sshinner.Server.{Ptr, Env, Server, Srv, Key}
use sshinner.Server.Memory.{calloc, send}
use sshinner.Server.Dispatch.{read_body, padded, call_body, answer, read_packet, main_bufferread_cb}
use sshinner.Server.Dispatch.Reading.Bytes.{
  length-take, take-take, drop-drop, nothing_left, measure_take,
}

-- `evbuffer_remove` takes bytes off the front, as many as it likes, but none only where none are
-- asked for or none are there.
abbrev pub Removes : Env → Type 0
Removes env =
    (n : ℕ) (bs : List ℕ)
    → (k : ℕ) × (k ≤ n)
      × (k ≤ length bs)
      × (env.evbuffer_remove n bs ≡ (take k bs, drop k bs))
      × ((k ≡ 0) → (n ≡ 0) ⊎ (length bs ≡ 0))

module _ (env : Env) (removes : Removes env) where
  read_body_from :
      (fuel want m : ℕ) (input got : List ℕ)
      → length got + m ≡ want
      → m < fuel
      → read_body env fuel want input got ≡ some (got ++ take m input, drop m input)
  unfolding read_body
  read_body_from zero want m input got e f = ground arith
  read_body_from (suc fuel) want m input got e f =
      let (k, le, le', cut, stuck) = removes m input in
      let asked : want - length got ≡ m = omega arith in
      let size = length-take k input le' in
      rw (asked, cut, size)
        (elim (Bool-cases (ltb 0 k)) [
          | inr none' ↦
              let z : k ≡ 0 = ground arith in
              let (t, d) = nothing_left m input (stuck z) in rw (none', z, t, d, append-nil got)
          | inl some' ↦ elim (Bool-cases (ltb k m)) [
            | inl short ↦
                rw (some', short)
                  (read_body_from fuel want (m - k) (drop k input) (got ++ take k input)
                      (omega (arith, length-append got (take k input))) (ground arith)
                    ∙ ground (
                      arith,
                      append_assoc got (take k input) (take (m - k) (drop k input)),
                      take-take k (m - k) m input (omega arith),
                      drop-drop k (m - k) m input (omega arith),
                    ))
            | inr full ↦ let same : k ≡ m = ground arith in rw (some', full, same)
          ]
        ])

  -- Whatever the size of the pieces that `evbuffer_remove` gives, the loop that reads the body of a
  -- packet ends within one round more than the bytes it wants. It has then taken as many bytes off
  -- the input as it wants, or all where there are fewer.
  pub read_body_lem :
      (want fuel : ℕ) (input : List ℕ)
      → want < fuel
      → read_body env fuel want input [] ≡ some (take want input, drop want input)
  read_body_lem want fuel input f = read_body_from fuel want want input [] (omega arith) f

padded_full : (n : ℕ) (xs : List ℕ) → length xs ≡ n → padded n xs ≡ xs
padded_full n xs e = let z : n - length xs ≡ 0 = omega arith in rw (z, append-nil xs)

pub exact-Removes :
    (env : Env)
    → ((n : ℕ) (bs : List ℕ) → env.evbuffer_remove n bs ≡ (take n bs, drop n bs))
    → Removes env
exact-Removes env exact n bs =
    let (a, b, c, d, e) = measure_take n bs in (length (take n bs), a, b, rw (exact n bs, c, d), e)

-- The handler of each command whose packets have a body.
pub data Names (env : Env) (held : Key → List ℕ) (bev : Ptr) (head : CtlHead) (body : List ℕ)
    : ℕ → Srv Bool → Type 0 where
  ss5 : Names env held bev head body cmd_ss5 (handle_ss5 env bev head (some body))
  dns : Names env held bev head body cmd_dns (handle_dns env bev head (some body))
  init : Names env held bev head body cmd_init (handle_init env held bev head (some body))

-- The packet that tells the sender of another one that it was refused.
abbrev pub refusal : CtlHead → CtlHead
refusal head = record zero_head {
  mach_uuid = head.mach_uuid;
  cmd = cmd_error;
  direct = if head.direct == usr_daemon then daemon_usr else usr_daemon;
}

call_body-Names :
    (env : Env) (held : Key → List ℕ) (bev : Ptr) (head : CtlHead) (body : List ℕ) (cmd : ℕ)
    (handler : Srv Bool)
    → head.cmd ≡ cmd
    → Names env held bev head body cmd handler
    → call_body env held bev head body ≡ handler
unfolding call_body
call_body-Names env held bev head body cmd handler e ss5 = rw e refl
call_body-Names env held bev head body cmd handler e dns = rw e refl
call_body-Names env held bev head body cmd handler e init = rw e refl

answer-refusal :
    (bev : Ptr) (head : CtlHead) (done : Bool)
    → answer bev head done ≡ (if done then pure tt else send bev (refusal head))
unfolding ret_cmd_err
answer-refusal bev head true = refl
answer-refusal bev head false = refl

module _ (env : Env)
    (exact : (n : ℕ) (bs : List ℕ) → env.evbuffer_remove n bs ≡ (take n bs, drop n bs))
    (held : Key → List ℕ) (bev : Ptr) (s : Server) where
  module _ (front : List ℕ) (dat : Ptr) (rest : List Ptr) (size : length front ≡ env.head_len)
      (bodied : ((env.head_of front).cmd == cmd_ss5)
          || ((env.head_of front).cmd == cmd_dns)
          || ((env.head_of front).cmd == cmd_init)
        ≡ true)
      (some_body : ltb 0 (env.head_of front).dat_len ≡ true) (memory : s.supply ≡ dat ∷ rest)
      (real : (dat == 0) ≡ false) where
    abbrev head : CtlHead
    head = env.head_of front

    abbrev after_calloc : Server
    after_calloc = record s { supply = rest }

    enter :
        (input : List ℕ)
        → main_bufferread_cb env held bev (front ++ input) s ≡ read_packet env held bev head input s
    unfolding main_bufferread_cb
    enter input = rw (
      exact env.head_len (front ++ input),
      take-append env.head_len front input size,
      drop-append env.head_len front input size,
      ==_true (length front) env.head_len size,
      bodied,
    )

    body_of :
        (input : List ℕ)
        → read_body env (head.dat_len + 1) head.dat_len input []
          ≡ some (take head.dat_len input, drop head.dat_len input)
    body_of input =
        read_body_lem env (exact-Removes env exact) head.dat_len (head.dat_len + 1) input
          (omega arith)

    pub main_bufferread_cb_body :
        (body more : List ℕ)
        → length body ≡ head.dat_len
        → env.crc32 body ≡ head.crc
        → main_bufferread_cb env held bev (front ++ (body ++ more)) s
          ≡ (call_body env held bev head body >>= λ done. answer bev head done >> pure more)
              after_calloc
    unfolding read_packet calloc
    main_bufferread_cb_body body more full sum =
        enter (body ++ more)
        ∙ rw (
          some_body,
          memory,
          real,
          body_of (body ++ more),
          take-append head.dat_len body more full,
          drop-append head.dat_len body more full,
          padded_full head.dat_len body full,
          ==_true (env.crc32 body) head.crc sum,
        )

    -- Let `evbuffer_remove` give all the bytes that it is asked for and that are there, let a packet
    -- that carries a body arrive in full, with the sum of its body in its head, and let `malloc` give
    -- a block. Then the body, no more and no less, goes to the handler that its command
    -- names: `handle_ss5`, `handle_dns` or `handle_init`. Where that refuses, an error with the machine
    -- of the packet goes back to the sender, in the other direction; and what stands behind the packet
    -- is left in the input.
    pub main_bufferread_cb_whole :
        (body more : List ℕ) (handler : Srv Bool)
        → Names env held bev head body head.cmd handler
        → length body ≡ head.dat_len
        → env.crc32 body ≡ head.crc
        → main_bufferread_cb env held bev (front ++ (body ++ more)) s
          ≡ (handler >>= λ done. (if done then pure tt else send bev (refusal head)) >> pure more)
              after_calloc
    main_bufferread_cb_whole body more handler named full sum =
        main_bufferread_cb_body body more full sum
        ∙ rw (call_body-Names env held bev head body head.cmd handler refl named) (
            ap (λ k. (handler >>= λ done. k done >> pure more) after_calloc)
              (fun_ext (answer-refusal bev head)))

    -- Let the sum in a packet's head differ from that of the block that its body was read to, with
    -- zeros where the body has not arrived. Then nothing is handled or sent, and the bytes that were
    -- read are gone from the input.
    pub main_bufferread_cb_damaged :
        (input : List ℕ)
        → (env.crc32 (padded head.dat_len (take head.dat_len input)) == head.crc) ≡ false
        → main_bufferread_cb env held bev (front ++ input) s
          ≡ ok (drop head.dat_len input) after_calloc
    unfolding read_packet calloc
    main_bufferread_cb_damaged input wrong =
        enter input ∙ rw (some_body, memory, real, body_of input, wrong)
