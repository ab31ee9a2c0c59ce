-- ===== src/Client/Proxy/Refusal.antt =====
-- What `ss5_accept_conn_cb` does with any program: it is refused, or waits for a worker.
use mathlib.Core.List.{append_assoc}
use mathlib.Core.Path.{subst}
use sshinner.Base.{
  ℕ, ◌%◌, ◌≡◌, ◌≢◌, refl, ◌∙◌, ◌⊎◌, inl, inr, Bool, Bool-cases, true, false, some, none, List, [],
  ◌∷◌, ◌++◌, arith, ◌==◌, if◌then◌else◌, length, set, get_elem?, get_elem?-set, ne_zero_of_elem,
  All,
}
use sshinner.Run.{ok, Returns, returns}
use sshinner.Server.{Ptr, find_at, write_at}
use sshinner.Server.Trans.{ushort}
use sshinner.Client.{zero_port_trans, CItem, Client, writes, closes, notifies}
use sshinner.Client.Memory.{calloc}
use sshinner.Client.Trans.{create_trans}
use sshinner.Client.Trans.Ports.{
  AllLive, scan, create_in_use, create_empty, create_null, create_free,
}
use sshinner.Client.Proxy.{buffer, byte_at, is_request, ss5_accept_conn_cb}

-- The first bytes that a program sends are those of SOCKS5.
abbrev pub greets : List ℕ → Bool
greets greeting = byte_at (buffer greeting) 0 == 5

-- What a refusal takes of the blocks: none; or that of an item, which nothing holds any more, and with it
-- perhaps the `NULL` that the transfer was refused with.
abbrev pub Wastes : List Ptr → List Ptr → Type 0
Wastes supply supply' =
    (supply' ≡ supply)
    ⊎ ((c : Ptr) × ((supply ≡ c ∷ supply') ⊎ ((c ≢ 0) × (supply ≡ c ∷ 0 ∷ supply'))))

-- The connection is closed, behind the answer to a greeting if there was one, and nothing is queued and no
-- transfer is made.
abbrev pub Refused : Client → ℕ → Bool → Client → Type 0
Refused s fd greeted s' =
    (s'.trans ≡ s.trans)
    × (s'.transs ≡ s.transs)
    × (s'.queues ≡ s.queues)
    × Wastes s.supply s'.supply
    × (s'.trace
        ≡ s.trace ++ (if greeted then writes fd (5 ∷ 0 ∷ []) ∷ closes fd ∷ [] else closes fd ∷ []))

-- There is a new transfer, which waits with the request at the end of the worker's queue, and the worker has
-- been told.
abbrev pub Queued : Client → ℕ → ℕ → List ℕ → List CItem → Client → Type 0
Queued s fd sbuf request q s' =
    let w : ℕ = ushort sbuf % length s.queues in
    (x : Ptr) × (x ≢ 0)
    × (s'.trans ≡ s.trans ++ x ∷ [])
    × (find_at s'.transs x ≡ some (record zero_port_trans { l_port = ushort sbuf; is_enc = true }))
    × (get_elem? s'.queues w
        ≡ some (q ++ record { socket = fd; p_trans = x; buf = buffer request } ∷ []))
    × (s'.trace ≡ s.trace ++ writes fd (5 ∷ 0 ∷ []) ∷ notifies w b'Q' ∷ [])

supply_cases : (xs : List Ptr) → (xs ≡ []) ⊎ ((x : Ptr) × (rest : List Ptr) × (xs ≡ x ∷ rest))
supply_cases [] = inl refl
supply_cases (x ∷ xs) = inr (x, xs, refl)

unused_of :
    (P : Ptr → Type 0) (xs : List Ptr) (x : Ptr) (rest : List Ptr)
    → xs ≡ x ∷ rest
    → All P xs
    → P x × All P rest
unused_of P xs x rest e all = subst (All P) e all

ne_zero_of_test : (x : Ptr) → (x == 0) ≡ false → x ≢ 0
ne_zero_of_test x e = ground arith

module _ (fd sbuf : ℕ) (greeting request : List ℕ) (q : List CItem) (s : Client)
    (live : AllLive s.transs s.trans) (unused : All (λ x. s.transs x ≡ none) s.supply)
    (at_w : get_elem? s.queues (ushort sbuf % length s.queues) ≡ some q) where
  abbrev Outcome : Client → Type 0
  Outcome s' =
      Refused s fd (greets greeting) s'
      ⊎ ((greets greeting ≡ true)
          × (is_request (buffer request) ≡ true)
          × Queued s fd sbuf request q s')

  module _ (right : greets greeting ≡ true) (good : is_request (buffer request) ≡ true) (c : Ptr)
      (rest : List Ptr) (e : s.supply ≡ c ∷ rest) where
    abbrev answered : Client
    answered = record s { supply = rest; trace = s.trace ++ writes fd (5 ∷ 0 ∷ []) ∷ [] }

    abbrev closed : List Ptr → Client
    closed rest' = record answered { supply = rest'; trace = answered.trace ++ closes fd ∷ [] }

    closed-Refused :
        (rest' : List Ptr) → Wastes s.supply rest' → Refused s fd (greets greeting) (closed rest')
    closed-Refused rest' wasted = rw right (
      refl,
      refl,
      refl,
      wasted,
      append_assoc s.trace (writes fd (5 ∷ 0 ∷ []) ∷ []) (closes fd ∷ []),
    )

    no_item : (c == 0) ≡ true → ss5_accept_conn_cb fd sbuf greeting request s ≡ ok tt (closed rest)
    unfolding ss5_accept_conn_cb calloc
    no_item null = rw (right, good, e) (ground (arith, null))

    no_trans :
        (rest' : List Ptr)
        → (c == 0) ≡ false
        → create_trans sbuf answered ≡ ok 0 (record answered { supply = rest' })
        → ss5_accept_conn_cb fd sbuf greeting request s ≡ ok tt (closed rest')
    unfolding ss5_accept_conn_cb calloc
    no_trans rest' real made = rw (right, good, e) (ground (arith, made, real))

    module _ (x : Ptr) (rest' : List Ptr) where
      -- The transfer is made, and then marked as an encrypted one.
      abbrev with_trans : Client
      with_trans = record answered {
        supply = rest';
        transs = write_at s.transs x (some (record zero_port_trans { l_port = ushort sbuf }));
        trans = s.trans ++ x ∷ [];
      }

      abbrev waits : Client
      waits =
          let w : ℕ = ushort sbuf % length s.queues in
          record with_trans {
            transs =
                write_at with_trans.transs x
                  (some (record zero_port_trans { l_port = ushort sbuf; is_enc = true }));
            queues =
                set s.queues w
                  (q ++ record { socket = fd; p_trans = x; buf = buffer request } ∷ []);
            trace = answered.trace ++ notifies w b'Q' ∷ [];
          }

      accepted :
          x ≢ 0
          → (c == 0) ≡ false
          → create_trans sbuf answered ≡ ok x with_trans
          → ss5_accept_conn_cb fd sbuf greeting request s ≡ ok tt waits
      unfolding ss5_accept_conn_cb calloc
      accepted x_real real made =
          rw (right, good, e)
            (ground (
              arith,
              made,
              real,
              ne_zero_of_elem s.queues (ushort sbuf % length s.queues) q at_w,
              at_w,
            ))

      waits-Queued : x ≢ 0 → Queued s fd sbuf request q waits
      waits-Queued x_real = (
        x,
        x_real,
        refl,
        ground arith,
        get_elem?-set s.queues (ushort sbuf % length s.queues) q
            (q ++ record { socket = fd; p_trans = x; buf = buffer request } ∷ []) at_w,
        append_assoc s.trace (writes fd (5 ∷ 0 ∷ []) ∷ [])
            (notifies (ushort sbuf % length s.queues) b'Q' ∷ []),
      )

    null_next :
        (x : Ptr) (rest' : List Ptr) → rest ≡ x ∷ rest' → (x == 0) ≡ true → s.supply ≡ c ∷ 0 ∷ rest'
    null_next x rest' next null = let z : x ≡ 0 = ground (arith, null) in e ∙ rw (next, z) refl

    ends_with_item :
        (c == 0) ≡ false
        → All (λ x. s.transs x ≡ none) rest
        → Returns (λ _ s'. Outcome s') (ss5_accept_conn_cb fd sbuf greeting request s)
    ends_with_item real unused_rest = elim (Bool-cases (scan s.transs (ushort sbuf) s.trans == 0)) [
      | inr used ↦
          rw (no_trans rest real (create_in_use answered sbuf live used))
            (returns (inl (closed-Refused rest (inr (c, inl e)))))
      | inl free ↦ elim (supply_cases rest) [
        | inl none_left ↦
            rw (no_trans rest real (create_empty answered sbuf live none_left))
              (returns (inl (closed-Refused rest (inr (c, inl e)))))
        | inr (x, rest', next) ↦ elim (Bool-cases (x == 0)) [
          | inl null ↦
              rw (no_trans rest' real (create_null answered sbuf live x rest' next null free)) (
                returns (
                  inl (
                    closed-Refused rest'
                      (inr (c, inr (ne_zero_of_test c real, null_next x rest' next null))))))
          | inr x_real ↦
              rw
                (accepted x rest' (ne_zero_of_test x x_real) real (
                  create_free answered sbuf x rest' live next (ne_zero_of_test x x_real)
                    (unused_of (λ x. s.transs x ≡ none) rest x rest' next unused_rest).0 free))
                (returns (inr (right, good, waits-Queued x rest' (ne_zero_of_test x x_real))))
        ]
      ]
    ]

  -- Whatever a program sends and whether there is memory or not, `ss5_accept_conn_cb` ends in one of two
  -- ways, given live and unused blocks and a worker for the port. Either the connection is closed, behind
  -- at most the answer to its greeting, nothing is queued, no transfer is made, and of memory at most the
  -- block of one item is gone, which is then lost. Or it greeted and asked as SOCKS5 wants, a new
  -- encrypted transfer with its port is in the list, and the request waits at the end of that worker's
  -- queue, with the worker told.
  pub ss5_accept_conn_cb-Queued :
      Returns (λ _ s'. Outcome s') (ss5_accept_conn_cb fd sbuf greeting request s)
  unfolding ss5_accept_conn_cb calloc
  ss5_accept_conn_cb-Queued = elim (Bool-cases (greets greeting)) [
    | inr wrong ↦ rw wrong (returns (inl (refl, refl, refl, inl refl, ground (arith, wrong))))
    | inl right ↦ elim (Bool-cases (is_request (buffer request))) [
      | inr bad ↦
          rw (right, bad)
            (returns (
              inl (
                refl,
                refl,
                refl,
                inl refl,
                ground (arith, append_assoc s.trace (writes fd (5 ∷ 0 ∷ []) ∷ []) (closes fd ∷ [])),
              )))
      | inl good ↦ elim (supply_cases s.supply) [
        | inl empty ↦
            rw (right, good, empty)
              (returns (
                inl (
                  refl,
                  refl,
                  refl,
                  inl empty,
                  append_assoc s.trace (writes fd (5 ∷ 0 ∷ []) ∷ []) (closes fd ∷ []),
                )))
        | inr (c, rest, e) ↦ elim (Bool-cases (c == 0)) [
          | inl null ↦
              rw (no_item right good c rest e null)
                (returns (inl (closed-Refused right good c rest e rest (inr (c, inl e)))))
          | inr real ↦
              ends_with_item right good c rest e real
                (unused_of (λ x. s.transs x ≡ none) s.supply c rest e unused).1
        ]
      ]
    ]
  ]
