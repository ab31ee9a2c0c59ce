-- ===== src/Run.antt =====
-- Commands of a process over a state `S`: how a C function returns, or stops the process.
pub mod Ensures
use sshinner.Base.{Bool, Option, none, some, if◌then◌else◌}

-- `aborted`: `SYS_ABORT` or a failed `assert`. `exited`: `exit`. `faulted`: a read or a write through
-- `NULL` or through an address that holds no object, or a second `bufferevent_free`. `spun`: the fuel of a
-- loop ran out.
pub data Stop : Type 0 where
  aborted exited faulted spun : Stop

pub data Run (S A : Type 0) : Type 0 where
  ok : A → S → Run S A
  stop : Stop → Run S A

abbrev pub Cmd : Type 0 → Type 0 → Type 0
Cmd S A = S → Run S A

abbrev pub pure : {S A : Type 0} → A → Cmd S A
pure a s = ok a s

abbrev pub halt : {S A : Type 0} → Stop → Cmd S A
halt why s = stop why

module _ {S A B : Type 0} where
  abbrev pub and_then : Run S A → (A → Cmd S B) → Run S B
  and_then (ok a s) k = k a s
  and_then (stop why) k = stop why

  infixl 5 ◌>>=◌ ◌>>◌
  abbrev pub ◌>>=◌ : Cmd S A → (A → Cmd S B) → Cmd S B
  m >>= k = λ s. and_then (m s) k

  abbrev pub ◌>>◌ : Cmd S A → Cmd S B → Cmd S B
  m >> n = m >>= λ _. n

-- `assert`
abbrev pub require : {S : Type 0} → Bool → Cmd S (Unit {0})
require b = if b then pure tt else halt aborted

-- The object at an address that must hold one.
abbrev pub deref : {S A : Type 0} → Option A → Cmd S A
deref none = halt faulted
deref (some a) = pure a

-- A command that ends with a value and a state of which `P` holds: it neither stops nor spins.
pub data Returns {S A : Type 0} (P : A → S → Type 0) : Run S A → Type 0 where
  returns : {a : A} {s : S} → P a s → Returns P (ok a s)

module _ {S A : Type 0} {P : A → S → Type 0} where
  -- The rest of a command, after a part that returns.
  pub bind :
      {B : Type 0} {Q : B → S → Type 0} {r : Run S A} {k : A → Cmd S B}
      → Returns P r
      → ((a : A) (s : S) → P a s → Returns Q (k a s))
      → Returns Q (and_then r k)
  bind (returns {a} {s} p) rest = rest a s p

  pub weaken :
      {Q : A → S → Type 0} {r : Run S A}
      → Returns P r
      → ((a : A) (s : S) → P a s → Q a s)
      → Returns Q r
  weaken (returns {a} {s} p) step = returns (step a s p)
