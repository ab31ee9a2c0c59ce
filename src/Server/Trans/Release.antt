-- ===== src/Server/Trans/Release.antt =====
-- `ss_free_trans` and `ss_free_all_trans`: what is left of a session.
use mathlib.Core.Path.{fun_ext}
use mathlib.Core.List.{append-nil, append_assoc}
use sshinner.Base.{
  ℕ, ◌≡◌, ◌≢◌, refl, ap, ◌∙◌, Bool, true, Option, none, some, List, [], ◌∷◌, ◌++◌, arith, ◌==◌,
  if◌then◌else◌, erase, ◌∈◌, ◌∉◌,
}
use sshinner.Run.{ok, Returns, returns}
use sshinner.Server.{Ptr, TransItem, ActivItem, Server, Effect, frees, find_at, write_at}
use sshinner.Server.Trans.{ushort, find_trans, free_trans, free_ctxs}
use sshinner.Server.Trans.Ports.{
  Transs, port, scan, Apart, Apart-write, Apart-erase, scan-write, scan-erase, port_ne, IsSession,
  find_trans-scan,
}

-- What a `bufferevent_free` of a bufferevent does, if it is there.
abbrev pub freed : Ptr → List Effect
freed bev = if bev == 0 then [] else frees bev ∷ []

pub write-write {ℓ} :
    {A : Type ℓ} (f : Ptr → Option A) (p : Ptr) (c d : Option A)
    → write_at (write_at f p c) p d ≡ write_at f p d
write-write f p c d = fun_ext λ q. ground arith

pub not-mem-erase_apart : (f : Transs) (q : Ptr) (ps : List Ptr) → Apart f ps → q ∉ erase q ps
not-mem-erase_apart f q [] r = refl
not-mem-erase_apart f q (p ∷ ps) (live, alone, rest) =
    ground (arith, live, port_ne f q (port f p) ps rest, not-mem-erase_apart f q ps rest)

-- What `ss_free_trans` leaves: the transfer is gone from the session and from the store, and its
-- bufferevents have been freed.
abbrev pub Released : Server → Ptr → ActivItem → Ptr → TransItem → Bool → Server → Type 0
Released s p a q t r s' =
    (r ≡ true)
    × (b : ActivItem) × IsSession s' p b
    × (b.trans ≡ erase q a.trans)
    × (s'.transs q ≡ none)
    × (s'.trace ≡ s.trace ++ freed t.bev_d ++ freed t.bev_u)
    × ((m : ℕ)
        → find_trans p m s'
          ≡ ok (if t.usr_lport == ushort m then 0 else scan s.transs (ushort m) a.trans) s')

module _ (s : Server) (p q : Ptr) (a : ActivItem) (t : TransItem) (session : IsSession s p a)
    (member : q ∈ a.trans) (there : find_at s.transs q ≡ some t) (named : t.usr_lport ≢ 0)
    (owner : t.p_activ_item ≡ p) (linked : a.bev_daemon ≢ 0) where
  abbrev pub shrunk : ActivItem
  shrunk = record a { trans = erase q a.trans }

  abbrev pub after_free : Server
  after_free = record s {
    activs = write_at s.activs p (some shrunk);
    transs = write_at s.transs q none;
    trace = s.trace ++ freed t.bev_d ++ freed t.bev_u;
  }

  -- The transfer between its two writes and the `free`.
  abbrev unnamed : TransItem
  unnamed = record t { usr_lport = 0 }

  abbrev cleared : TransItem
  cleared = free_ctxs (record t { usr_lport = 0; bev_d = 0; bev_u = 0 })

  -- The store as its three writes leave it.
  abbrev rewritten : Transs
  rewritten = write_at (write_at (write_at s.transs q (some unnamed)) q (some cleared)) q none

  rewritten_lem : rewritten ≡ write_at s.transs q none
  rewritten_lem =
      ap (λ g. write_at g q none) (write-write s.transs q (some unnamed) (some cleared))
      ∙ write-write s.transs q (some cleared) none

  pub free_trans_lem : free_trans p q s ≡ ok true after_free
  unfolding free_trans
  free_trans_lem =
      let raw : Server = record after_free { transs = rewritten } in
      let run : free_trans p q s ≡ ok true raw = ground (
        arith,
        session.here,
        append-nil s.trace,
        append_assoc s.trace (freed t.bev_d) (freed t.bev_u),
      ) in
      run ∙ ap (λ g. ok true (record after_free { transs = g })) rewritten_lem

  left : q ∉ erase q a.trans
  left = not-mem-erase_apart s.transs q a.trans session.apart

  shrunk-IsSession : IsSession after_free p shrunk
  shrunk-IsSession = record {
    here = ground (arith, session.here);
    apart =
        Apart-write s.transs q none (erase q a.trans) left
          (Apart-erase s.transs q a.trans session.apart);
  }

  -- Let a session have transfers with different ports and a control connection to its daemon, and let
  -- one of them have a port that is not 0 and point back to the session. `ss_free_trans` on it
  -- succeeds: the transfer is gone from the session and from the store, its bufferevents have been
  -- freed in order, once each, and no search finds its port. Every other search gives what it gave.
  pub find_trans-free : Returns (Released s p a q t) (free_trans p q s)
  find_trans-free = rw free_trans_lem (
      returns (
        refl,
        shrunk,
        shrunk-IsSession,
        refl,
        ground arith,
        refl,
        λ m.
            find_trans-scan after_free p m shrunk shrunk-IsSession
            ∙ ap (λ r. ok r after_free)
                (scan-write s.transs q none (ushort m) (erase q a.trans) left
                  ∙ ground (arith, scan-erase s.transs q (ushort m) a.trans session.apart member)),
      ))
