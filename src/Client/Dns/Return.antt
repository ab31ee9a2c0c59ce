-- ===== src/Client/Dns/Return.antt =====
-- Where the DNS proxy sends an answer.
use sshinner.Base.{
  ℕ, zero, suc, ◌≤◌, ◌<◌, ◌≡◌, ◌≢◌, refl, ◌∙◌, some, List, [], ◌∷◌, ◌++◌, arith, ◌==◌,
  if◌then◌else◌, ◌+◌, ◌*◌, ◌&&◌, Bool, Bool-cases, inl, inr, ltb, length, set, length-set, take,
  drop, All,
}
use sshinner.Run.{ok, pure, Returns, returns, bind, weaken, ◌>>◌}
use sshinner.Crypt.{Evp, EncFrame, encrypt, decrypt, EncryptCtx}
use sshinner.Server.{Ptr, find_at, write_at}
use sshinner.Server.Transfer.{frame_of}
use sshinner.Client.{Client, Clt, PortTrans, Action, forwards, answers}
use sshinner.Client.Proxy.{byte_at}
use sshinner.Client.Dns.{transid, client_to_proxy_cb, dns_bufferread_cb_enc}

byte_at-set :
    (xs : List ℕ) (i v j : ℕ)
    → i < length xs
    → byte_at (set xs i v) j ≡ (if j == i then v else byte_at xs j)
byte_at-set [] i v j h = ground arith
byte_at-set (x ∷ xs) zero v zero h = refl
byte_at-set (x ∷ xs) zero v (suc j) h = ground arith
byte_at-set (x ∷ xs) (suc i) v zero h = ground arith
byte_at-set (x ∷ xs) (suc i) v (suc j) h = ground (arith, byte_at-set xs i v j)

transid-append : (xs ys : List ℕ) → 2 ≤ length xs → transid (xs ++ ys) ≡ transid xs
transid-append [] ys h = ground arith
transid-append (x ∷ []) ys h = ground arith
transid-append (x ∷ y ∷ xs) ys h = refl

-- The port that asked last with an index of the table.
abbrev asker_at : (id port : ℕ) → List (ℕ × List ℕ) → ℕ
asker_at id port [] = port
asker_at id port ((from, input) ∷ rest) =
    asker_at id (if id == transid input then from else port) rest

-- The first two bytes of two messages, their numbers, are the same.
abbrev pub is_same_number : List ℕ → List ℕ → Bool
is_same_number x y = (byte_at x 0 == byte_at y 0) && (byte_at x 1 == byte_at y 1)

-- Questions, each with the port that it comes from: the port that asked last with the number of an answer.
abbrev pub asker : (answer : List ℕ) → (port : ℕ) → List (ℕ × List ℕ) → ℕ
asker answer port [] = port
asker answer port ((from, input) ∷ rest) =
    asker answer (if is_same_number answer input then from else port) rest

-- A question of two bytes or more; the second, as a `char`, is not -1.
abbrev pub IsQuestion : ℕ × List ℕ → Type 0
IsQuestion (from, input) = (2 ≤ length input) × (byte_at input 0 < 256) × (byte_at input 1 < 255)

-- An answer whose second byte, as a `char`, is not negative.
abbrev pub IsAnswer : List ℕ → Type 0
IsAnswer dat = (byte_at dat 0 < 256) × (byte_at dat 1 < 128)

transid-is_same :
    (x y : List ℕ)
    → IsAnswer x
    → byte_at y 0 < 256
    → byte_at y 1 < 255
    → (transid x == transid y) ≡ is_same_number x y
transid-is_same x y (x0, x1) y0 y1 = elim (Bool-cases (ltb (byte_at y 1) 128)) [
  | inl low ↦ ground (arith, x0, x1, y0, y1, low)
  | inr high ↦ ground (arith, x0, x1, y0, y1, high)
]

asker_at-asker :
    (x : List ℕ) (port : ℕ) (qs : List (ℕ × List ℕ))
    → IsAnswer x
    → All IsQuestion qs
    → asker_at (transid x) port qs ≡ asker x port qs
asker_at-asker x port [] a asked = refl
asker_at-asker x port ((from, input) ∷ rest) a ((two, y0, y1), asked) =
    rw (transid-is_same x input a y0 y1)
      (asker_at-asker x (if is_same_number x input then from else port) rest a asked)

transid_bounds : (y : List ℕ) → byte_at y 0 < 256 → byte_at y 1 < 255 → transid y < 65535
transid_bounds y y0 y1 = elim (Bool-cases (ltb (byte_at y 1) 128)) [
  | inl low ↦ ground (arith, y0, y1, low)
  | inr high ↦ ground (arith, y0, y1, high)
]

module _ (evp : Evp) (held stored : EncFrame) (p : Ptr) where
  -- The proxy takes one question after the other.
  abbrev pub ask_all : List (ℕ × List ℕ) → Clt (Unit {0})
  ask_all [] = pure tt
  ask_all ((from, input) ∷ rest) = do client_to_proxy_cb evp held stored p from input; ask_all rest

  -- The frame of a question.
  abbrev frame : List ℕ → EncFrame
  frame input = record { dat = input ++ drop (length input) held.dat; len = length input }

  abbrev after_question : Client → PortTrans → ℕ → List ℕ → Client
  after_question s t from input =
      let (done, ctx, out) = encrypt evp t.ctx_enc (frame input) stored in
      record s {
        transid_ports = set s.transid_ports (transid input) from;
        transs = write_at s.transs p (some (record t { ctx_enc = ctx }));
        trace = s.trace ++ forwards t.srv_bev (take out.len out.dat) ∷ [];
      }

  client_to_proxy_cb_lem :
      (s : Client) (t : PortTrans) (from : ℕ) (input : List ℕ)
      → find_at s.transs p ≡ some t
      → t.srv_bev ≢ 0
      → 2 ≤ length input
      → transid input < length s.transid_ports
      → client_to_proxy_cb evp held stored p from input s ≡ ok tt (after_question s t from input)
  unfolding client_to_proxy_cb
  client_to_proxy_cb_lem s t from input here linked two inside =
      rw (transid-append input (drop (length input) held.dat) two) (ground (arith, here))

  -- What the questions leave of the transfer, the table and the record of what was done.
  abbrev Answerable : Client → PortTrans → List (ℕ × List ℕ) → Client → Type 0
  Answerable s t qs s' =
      (ctx : EncryptCtx) × (find_at s'.transs p ≡ some (record t { ctx_enc = ctx }))
      × (length s'.transid_ports ≡ length s.transid_ports)
      × ((id : ℕ) → byte_at s'.transid_ports id ≡ asker_at id (byte_at s.transid_ports id) qs)

  ask_all-Answerable :
      (qs : List (ℕ × List ℕ)) (s : Client) (t : PortTrans)
      → find_at s.transs p ≡ some t
      → t.srv_bev ≢ 0
      → length s.transid_ports ≡ 65535
      → All IsQuestion qs
      → Returns (λ _ s'. Answerable s t qs s') (ask_all qs s)
  ask_all-Answerable [] s t here linked full asked = returns (t.ctx_enc, here, refl, λ id. refl)
  ask_all-Answerable ((from, input) ∷ rest) s t here linked full ((two, y0, y1), asked) =
      let inside : transid input < length s.transid_ports = rw full (transid_bounds input y0 y1) in
      let s1 = after_question s t from input in
      let t1 : PortTrans = record t { ctx_enc = (encrypt evp t.ctx_enc (frame input) stored).1 } in
      let size : length s1.transid_ports ≡ length s.transid_ports =
        length-set s.transid_ports (transid input) from in
      rw (client_to_proxy_cb_lem s t from input here linked two inside) (
        weaken (ask_all-Answerable rest s1 t1 (ground (arith, here)) linked (size ∙ full) asked)
          λ _ s' (ctx, there, sized, ports). (
            ctx,
            there,
            sized ∙ size,
            λ id. ports id ∙ rw (byte_at-set s.transid_ports (transid input) from id inside) refl,
          ))

  answered_lem :
      (unstored : EncFrame) (s : Client) (t : PortTrans) (reply : List ℕ)
      → let (done, ctx, out) = decrypt evp t.ctx_dec (frame_of reply) unstored in
        find_at s.transs p ≡ some t
        → t.local_bev ≡ 0
        → t.extra_ev ≢ 0
        → 0 < length reply
        → 0 < out.len
        → transid out.dat < length s.transid_ports
        → dns_bufferread_cb_enc evp unstored t.srv_bev p reply s
          ≡ ok tt (record s {
            transs = write_at s.transs p (some (record t { ctx_dec = ctx }));
            trace =
                s.trace
                ++ answers t.extra_ev
                    (byte_at s.transid_ports (transid out.dat))
                    (take out.len out.dat)
                  ∷ [];
          })
  unfolding dns_bufferread_cb_enc
  answered_lem unstored s t reply here local armed some_reply some_answer inside =
      ground (arith, here)

  module _ (unstored : EncFrame) (s : Client) (t : PortTrans) (here : find_at s.transs p ≡ some t)
      (linked : t.srv_bev ≢ 0) (local : t.local_bev ≡ 0) (armed : t.extra_ev ≢ 0)
      (full : length s.transid_ports ≡ 65535) (qs : List (ℕ × List ℕ)) (asked : All IsQuestion qs)
      (reply : List ℕ) where
    -- The answer, decrypted.
    abbrev pub answer : EncFrame
    answer = (decrypt evp t.ctx_dec (frame_of reply) unstored).2

    -- The last thing that is done: the answer goes to a port.
    abbrev pub GoesTo : ℕ → Client → Type 0
    GoesTo port s' =
        (before : List Action) × (s'.trace
          ≡ before ++ answers t.extra_ev port (take answer.len answer.dat) ∷ [])

    -- Let a client's DNS proxy have a connection to the server, a socket, no local connection, and a table
    -- of 0xFFFF ports, and let programs ask questions of two bytes or more, whose second byte is not 255.
    -- Let the server answer with bytes that decrypt to a frame that is not empty, whose second byte is
    -- below 128. The frame then goes to the program that asked last with the same first two bytes; where
    -- none did, to the port that the table held before at the number that these bytes make, the first of
    -- them the high one.
    pub dns_bufferread_cb_enc-ask_all :
        0 < length reply
        → 0 < answer.len
        → IsAnswer answer.dat
        → Returns
            (λ _ s'.
              GoesTo
                (asker answer.dat
                  (byte_at s.transid_ports (byte_at answer.dat 0 * 256 + byte_at answer.dat 1))
                  qs)
                s')
            ((ask_all qs >> dns_bufferread_cb_enc evp unstored t.srv_bev p reply) s)
    dns_bufferread_cb_enc-ask_all some_reply some_answer (x0, x1) =
        let number : transid answer.dat ≡ byte_at answer.dat 0 * 256 + byte_at answer.dat 1 =
          ground (arith, x0, x1) in
        let inside : transid answer.dat < length s.transid_ports =
          rw full (transid_bounds answer.dat x0 (omega (arith, x1))) in
        bind (ask_all-Answerable qs s t here linked full asked) λ _ s1 (ctx, there, size, ports).
          let t1 : PortTrans = record t { ctx_enc = ctx } in
          rw
            (answered_lem unstored s1 t1 reply there local armed some_reply some_answer
              (rw size inside))
            (returns (
              s1.trace,
              rw
                  (
                    ports (transid answer.dat),
                    asker_at-asker answer.dat (byte_at s.transid_ports (transid answer.dat)) qs
                        (x0, x1) asked,
                    number,
                  )
                  refl,
            ))
