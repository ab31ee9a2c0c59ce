-- ===== src/Server/Consistent/Quietly.antt =====
-- Commands that leave the tree, the sessions, the transfers and the blocks alone.
use sshinner.Base.{◌≡◌, refl, Bool, true, false, Option, some, List, ◌==◌, if◌then◌else◌}
use sshinner.Run.{Run, ok, stop, Stop, and_then}
use sshinner.Run.Ensures.{Ensures, ended, stopped, Reads, deref-Reads}
use sshinner.Server.{Ptr, AcctItem, CItem, Server, Srv, Effect, Callbacks, find_at}
use sshinner.Server.Memory.{emit, load_trans, load_activ, send}
use sshinner.Server.Worker.{bind_bev}
use sshinner.Protocol.{CtlHead}

-- The accounts, the queues, and what was done.
pub record Aside : Type 0 where
  pub items : List Ptr
  pub accts : Ptr → Option AcctItem
  pub queues : List (List CItem)
  pub trace : List Effect

abbrev pub beside : Server → Aside → Server
beside s r = record s { acct_items = r.items; accts = r.accts; queues = r.queues; trace = r.trace }

-- A run that stops, or ends with a value of which `P` holds beside the state that it began in.
pub data Quiet {A : Type 0} (P : A → Type 0) (s : Server) : Run Server A → Type 0 where
  quiet : {a : A} {r : Aside} → P a → Quiet P s (ok a (beside s r))
  no_end : {why : Stop} → Quiet P s (stop why)

module _ {A : Type 0} {P : A → Type 0} {s : Server} where
  pub after-Quiet :
      {B : Type 0} {Q : B → Server → Type 0} {r : Run Server A} (k : A → Srv B)
      → Quiet P s r
      → ((a : A) (aside : Aside) → P a → Ensures Q (k a (beside s aside)))
      → Ensures Q (and_then r k)
  after-Quiet k (quiet {a} {r} p) rest = rest a r p
  after-Quiet k no_end rest = stopped

  pub end-Quiet :
      {Q : A → Server → Type 0} {r : Run Server A}
      → Quiet P s r
      → ((a : A) (aside : Aside) → P a → Q a (beside s aside))
      → Ensures Q r
  end-Quiet (quiet {a} {r} p) rest = ended (rest a r p)
  end-Quiet no_end rest = stopped

  pub also-Quiet :
      {B : Type 0} {Q : B → Type 0} {r : Run Server A} (k : A → Srv B)
      → Quiet P s r
      → ((a : A) (aside : Aside) → P a → Quiet Q s (k a (beside s aside)))
      → Quiet Q s (and_then r k)
  also-Quiet k (quiet {a} {r} p) rest = rest a r p
  also-Quiet k no_end rest = no_end

  pub branch-Quiet :
      (b : Bool) (m n : Srv A) (s' : Server)
      → (b ≡ true → Quiet P s (m s'))
      → (b ≡ false → Quiet P s (n s'))
      → Quiet P s ((if b then m else n) s')
  branch-Quiet true m n s' t f = t refl
  branch-Quiet false m n s' t f = f refl

abbrev pub Any : {A : Type 0} → A → Type 0
Any a = Unit {0}

pub emit-Quiet : (e : Effect) (s : Server) → Quiet Any s (emit e s)
emit-Quiet e s = quiet tt

pub send-Quiet : (bev : Ptr) (head : CtlHead) (s : Server) → Quiet Any s (send bev head s)
send-Quiet bev head s = branch-Quiet (bev == 0) _ _ s (λ _. no_end) (λ _. quiet tt)

pub bind_bev-Quiet :
    (bev : Ptr) (cbs : Callbacks) (p : Ptr) (s : Server) → Quiet Any s (bind_bev bev cbs p s)
bind_bev-Quiet bev cbs p s = branch-Quiet (bev == 0) _ _ s (λ _. no_end) (λ _. quiet tt)

pub trans-Reads :
    (p : Ptr) (s : Server) → Reads (λ t. find_at s.transs p ≡ some t) s (load_trans p s)
trans-Reads p s = deref-Reads (find_at s.transs p) s

pub activ-Reads :
    (p : Ptr) (s : Server) → Reads (λ a. find_at s.activs p ≡ some a) s (load_activ p s)
activ-Reads p s = deref-Reads (find_at s.activs p) s
