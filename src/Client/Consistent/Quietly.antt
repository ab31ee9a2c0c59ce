-- ===== src/Client/Consistent/Quietly.antt =====
-- Commands that leave the client's transfers alone.
use sshinner.Base.{
  Bool-cases, inl, inr, ◌≡◌, Bool, true, false, ◌==◌, if◌then◌else◌, some, [], ◌∷◌, ◌++◌,
}
use sshinner.Run.{Run, ok, stop, Stop, and_then}
use sshinner.Run.Ensures.{Ensures, ended, stopped, Reads, deref-Reads}
use sshinner.Server.{Ptr, find_at}
use sshinner.Client.{Client, Clt, Action, frees, Handlers}
use sshinner.Client.Memory.{load_trans, emit, enable, free_bev}
use sshinner.Client.Control.{bind_bev}

-- The state `t` with the transfers of `s`, and its port for the DNS proxy.
abbrev pub beside : Client → Client → Client
beside s t = record t {
  trans = s.trans;
  transs = s.transs;
  supply = s.supply;
  dns_port = s.dns_port;
}

-- A run that stops, or ends with the transfers that it began with.
pub data Quiet {A : Type 0} (s : Client) : Run Client A → Type 0 where
  quiet : {a : A} (t : Client) → Quiet s (ok a (beside s t))
  no_end : {why : Stop} → Quiet s (stop why)

pub rebase :
    {A : Type 0} {s : Client} (u : Client) {r : Run Client A} → Quiet (beside s u) r → Quiet s r
rebase u (quiet t) = quiet t
rebase u no_end = no_end

module _ {A : Type 0} {s : Client} where
  pub after-Quiet :
      {B : Type 0} {Q : B → Client → Type 0} {r : Run Client A} (k : A → Clt B)
      → Quiet s r
      → ((a : A) (t : Client) → Ensures Q (k a (beside s t)))
      → Ensures Q (and_then r k)
  after-Quiet k (quiet {a} t) rest = rest a t
  after-Quiet k no_end rest = stopped

  pub end-Quiet :
      {Q : A → Client → Type 0} {r : Run Client A}
      → Quiet s r
      → ((a : A) (t : Client) → Q a (beside s t))
      → Ensures Q r
  end-Quiet (quiet {a} t) rest = ended (rest a t)
  end-Quiet no_end rest = stopped

  pub also-Quiet :
      {B : Type 0} {r : Run Client A} (k : A → Clt B)
      → Quiet s r
      → ((a : A) (t : Client) → Quiet (beside s t) (k a (beside s t)))
      → Quiet s (and_then r k)
  also-Quiet k (quiet {a} t) rest = rebase t (rest a t)
  also-Quiet k no_end rest = no_end

  pub branch-Quiet :
      (b : Bool) (m n : Clt A) (t : Client)
      → Quiet s (m t)
      → Quiet s (n t)
      → Quiet s ((if b then m else n) t)
  branch-Quiet true m n t this other = this
  branch-Quiet false m n t this other = other

pub emit-Quiet : (e : Action) (s : Client) → Quiet s (emit e s)
emit-Quiet e s = quiet (record s { trace = s.trace ++ e ∷ [] })

pub enable-Quiet : (bev : Ptr) (s : Client) → Quiet s (enable bev s)
enable-Quiet bev s = branch-Quiet (bev == 0) _ _ s no_end (emit-Quiet _ s)

pub free_bev-Quiet : (bev : Ptr) (s : Client) → Quiet s (free_bev bev s)
free_bev-Quiet bev s = elim (Bool-cases (bev == 0)) [
  | inl e ↦ rw e (quiet s)
  | inr e ↦ rw e (emit-Quiet (frees bev) s)
]

pub bind_bev-Quiet :
    (bev : Ptr) (cbs : Handlers) (p : Ptr) (s : Client) → Quiet s (bind_bev bev cbs p s)
bind_bev-Quiet bev cbs p s = branch-Quiet (bev == 0) _ _ s no_end (emit-Quiet _ s)

pub trans-Reads :
    (p : Ptr) (s : Client) → Reads (λ t. find_at s.transs p ≡ some t) s (load_trans p s)
trans-Reads p s = deref-Reads (find_at s.transs p) s
