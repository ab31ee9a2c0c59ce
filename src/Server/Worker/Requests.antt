-- ===== src/Server/Worker/Requests.antt =====
-- The SOCKS5 requests that a worker understands.
use sshinner.Base.{
  ℕ, ◌+◌, ◌*◌, ◌≡◌, ◌≢◌, refl, List, [], ◌∷◌, ◌++◌, arith, ltb, if◌then◌else◌, length,
  length-append, take-append, drop-append, All, c_string,
}
use sshinner.Server.Worker.{ipv4, named, overrun, target_of}

c_string_text : (cs : List ℕ) → All (λ c. c ≢ 0) cs → c_string cs ≡ cs
c_string_text [] r = refl
c_string_text (c ∷ cs) (real, rest) = ground (arith, c_string_text cs rest)

-- The requests to connect to a name, and to an address.
abbrev pub ask_name : List ℕ → (hi lo : ℕ) → List ℕ → List ℕ
ask_name name hi lo more = 5 ∷ 1 ∷ 0 ∷ 3 ∷ length name ∷ name ++ (hi ∷ lo ∷ more)

abbrev pub ask_ipv4 : (a b c d hi lo : ℕ) → List ℕ → List ℕ
ask_ipv4 a b c d hi lo more = 5 ∷ 1 ∷ 0 ∷ 1 ∷ a ∷ b ∷ c ∷ d ∷ hi ∷ lo ∷ more

-- A worker reads a SOCKS5 request to connect to a name of less than 128 bytes, none of them 0, or to an
-- IPv4 address, as what it asks for, whatever follows it. A name of 128 bytes or more overruns.
pub target_of-ask :
    (name : List ℕ) (a b c d hi lo : ℕ) (more : List ℕ)
    → All (λ byte. byte ≢ 0) name
    → (target_of (ask_name name hi lo more)
        ≡ (if ltb (length name) 128 then named name (hi * 256 + lo) else overrun))
      × (target_of (ask_ipv4 a b c d hi lo more)
          ≡ ipv4 (record { addr = a ∷ b ∷ c ∷ d ∷ []; port = hi * 256 + lo }))
unfolding target_of
target_of-ask name a b c d hi lo more text = (
  rw
      (
        take-append (length name) name (hi ∷ lo ∷ more) refl,
        c_string_text name text,
        drop-append (5 + length name) (5 ∷ 1 ∷ 0 ∷ 3 ∷ length name ∷ name) (hi ∷ lo ∷ more)
            (omega arith),
      )
      (ground (arith, length-append name (hi ∷ lo ∷ more))),
  ground arith,
)
