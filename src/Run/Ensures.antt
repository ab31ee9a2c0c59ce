-- ===== src/Run/Ensures.antt =====
-- Commands that may stop: what holds where they end.
use mathlib.Core.Path.{subst}
use sshinner.Base.{◌≡◌, refl, Bool, true, false, Option, none, some, if◌then◌else◌}
use sshinner.Run.{Stop, Run, ok, stop, Cmd, and_then, deref, require, Returns, returns}

-- A command that stops, or ends with a value and a state of which `P` holds.
pub data Ensures {S A : Type 0} (P : A → S → Type 0) : Run S A → Type 0 where
  ended : {a : A} {s : S} → P a s → Ensures P (ok a s)
  stopped : {why : Stop} → Ensures P (stop why)

module _ {S A : Type 0} {P : A → S → Type 0} where
  ended_lem : {a : A} {s : S} → Ensures P (ok a s) → P a s
  ended_lem (ended p) = p

  pub ends : {r : Run S A} {a : A} {s : S} → Ensures P r → r ≡ ok a s → P a s
  ends h e = ended_lem (subst (Ensures P) e h)

  pub Returns-Ensures : {r : Run S A} → Returns P r → Ensures P r
  Returns-Ensures (returns p) = ended p

  pub both :
      {Q : A → S → Type 0} {r : Run S A}
      → Returns P r
      → Ensures Q r
      → Returns (λ a s. P a s × Q a s) r
  both (returns p) (ended q) = returns (p, q)

  pub after :
      {B : Type 0} {Q : B → S → Type 0} {r : Run S A} {k : A → Cmd S B}
      → Ensures P r
      → ((a : A) (s : S) → P a s → Ensures Q (k a s))
      → Ensures Q (and_then r k)
  after (ended {a} {s} p) rest = rest a s p
  after stopped rest = stopped

  pub branch :
      (b : Bool) (m n : Cmd S A) (s : S)
      → (b ≡ true → Ensures P (m s))
      → (b ≡ false → Ensures P (n s))
      → Ensures P ((if b then m else n) s)
  branch true m n s t f = t refl
  branch false m n s t f = f refl

  pub option :
      {B : Type 0} (o : Option B) (m : Cmd S A) (n : B → Cmd S A) (s : S)
      → Ensures P (m s)
      → ((b : B) → Ensures P (n b s))
      → Ensures P ((elim o as (λ _. Cmd S A) [ none ↦ m | some b ↦ n b ]) s)
  option none m n s absent present = absent
  option (some b) m n s absent present = present b

-- A command that stops, or ends with a value of which `P` holds and changes nothing.
pub data Reads {S A : Type 0} (P : A → Type 0) (s : S) : Run S A → Type 0 where
  reads : {a : A} → P a → Reads P s (ok a s)
  no_read : {why : Stop} → Reads P s (stop why)

module _ {S A : Type 0} {P : A → Type 0} {s : S} where
  pub after_read :
      {B : Type 0} {Q : B → S → Type 0} {r : Run S A} (k : A → Cmd S B)
      → Reads P s r
      → ((a : A) → P a → Ensures Q (k a s))
      → Ensures Q (and_then r k)
  after_read k (reads {a} p) rest = rest a p
  after_read k no_read rest = stopped

  pub also_read :
      {B : Type 0} {Q : B → Type 0} {r : Run S A} (k : A → Cmd S B)
      → Reads P s r
      → ((a : A) → P a → Reads Q s (k a s))
      → Reads Q s (and_then r k)
  also_read k (reads {a} p) rest = rest a p
  also_read k no_read rest = no_read

  pub branch_read :
      (b : Bool) (m n : Cmd S A)
      → (b ≡ true → Reads P s (m s))
      → (b ≡ false → Reads P s (n s))
      → Reads P s ((if b then m else n) s)
  branch_read true m n t f = t refl
  branch_read false m n t f = f refl

pub deref-Reads : {S A : Type 0} (o : Option A) (s : S) → Reads (λ a. o ≡ some a) s (deref o s)
deref-Reads none s = no_read
deref-Reads (some a) s = reads refl

pub require-Reads : {S : Type 0} (b : Bool) (s : S) → Reads (λ _. b ≡ true) s (require b s)
require-Reads true s = reads refl
require-Reads false s = no_read
