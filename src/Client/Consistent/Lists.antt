-- ===== src/Client/Consistent/Lists.antt =====
-- The making and the freeing of a transfer keep the client's transfers together.
use sshinner.Base.{
  ℕ, ◌≡◌, refl, ap, ◌∙◌, ◌⊎◌, inl, inr, true, not, none, some, List, [], ◌∷◌, ◌==◌, arith, erase,
}
use sshinner.Run.{ok}
use sshinner.Run.Ensures.{Ensures, ended, after, branch, after_read}
use sshinner.Server.{Ptr, find_at, write_at}
use sshinner.Server.Trans.{ushort}
use sshinner.Server.Trans.Release.{write-write}
use sshinner.Client.{PortTrans, zero_port_trans, Client}
use sshinner.Client.Memory.{calloc}
use sshinner.Client.Trans.{
  find_trans, create_trans, free_trans, free_each, free_all_trans, free_ctxs,
}
use sshinner.Client.Trans.Ports.{scan, find_trans_lem}
use sshinner.Client.Trans.Apart.{Apart-AllLive}
use sshinner.Client.Consistent.{Sound, IsLinked, Kept}
use sshinner.Client.Consistent.Writes.{Sound-free, Sound-skip, Sound-open}
use sshinner.Client.Consistent.Quietly.{after-Quiet, free_bev-Quiet, trans-Reads, beside}

calloc-cases :
    (s : Client)
    → (calloc s ≡ ok 0 s)
      ⊎ ((x : Ptr) × (rest : List Ptr) × (s.supply ≡ x ∷ rest)
          × (calloc s ≡ ok x (record s { supply = rest })))
unfolding calloc
calloc-cases s = elim (supply_cases s.supply) [
  | inl e ↦ inl (ground (arith, e))
  | inr (x, rest, e) ↦ inr (x, rest, e, ground (arith, e))
]
  where
    supply_cases : (xs : List Ptr) → (xs ≡ []) ⊎ ((x : Ptr) × (rest : List Ptr) × (xs ≡ x ∷ rest))
    supply_cases [] = inl refl
    supply_cases (x ∷ xs) = inr (x, xs, refl)

pub calloc-Kept : (s : Client) → IsLinked s → Kept (calloc s)
calloc-Kept s sound = elim (calloc-cases s) [
  | inl e ↦ rw e (ended sound)
  | inr (x, rest, e, run) ↦ rw run (ended (Sound-skip s.transs s.trans x rest (rw e at sound)))
]

pub find_trans-scan :
    (s : Client) (l : ℕ) → IsLinked s → find_trans l s ≡ ok (scan s.transs (ushort l) s.trans) s
find_trans-scan s l sound = find_trans_lem s l (Apart-AllLive s.transs s.trans sound.apart)

-- A transfer for a port was made, or none was.
abbrev pub Made : ℕ → Ptr → Client → Type 0
Made l p s =
    IsLinked s
    × (((p == 0) ≡ true)
        ⊎ ((t : PortTrans) × (find_at s.transs p ≡ some t) × (t.l_port ≡ ushort l)))

pub Made-port :
    (l : ℕ) (p : Ptr) (s : Client) (t : PortTrans)
    → Made l p s
    → find_at s.transs p ≡ some t
    → ushort l ≡ t.l_port
Made-port l p s t (sound, made) there = elim made [
  | inl null ↦ ground (arith, null, there)
  | inr (u, here, port) ↦ ground (arith, here, there, port)
]

pub create_trans-Made : (l : ℕ) (s : Client) → IsLinked s → Ensures (Made l) (create_trans l s)
unfolding create_trans
create_trans-Made l s sound = rw (find_trans-scan s l sound) (
    branch (not (scan s.transs (ushort l) s.trans == 0)) _ _ s (λ _. ended (sound, inl refl))
      λ free. elim (calloc-cases s) [
        | inl e ↦ rw e (ended (sound, inl refl))
        | inr (x, rest, e, run) ↦ rw run (
            let sound1 : Sound s.transs s.trans (x ∷ rest) = rw e at sound in
            branch (x == 0) _ _ _
              (λ null. ended (Sound-skip s.transs s.trans x rest sound1, inl refl))
              λ real.
                let t : PortTrans = record zero_port_trans { l_port = ushort l } in
                ended (
                  Sound-open s.transs s.trans x rest sound1 real t (ground arith)
                      (ground (arith, free)),
                  inr (t, ground arith, refl),
                ))
      ])

pub free_trans-Kept : (p : Ptr) (s : Client) → IsLinked s → Kept (free_trans p s)
unfolding free_trans
free_trans-Kept p s sound =
    branch (p == 0) _ _ s (λ _. ended sound)
      λ _. after_read _ (trans-Reads p s) λ t there.
        branch (t.l_port == 0) _ _ s (λ _. ended sound)
          λ _.
            let s1 : Client = record s {
              trans = erase p s.trans;
              transs = write_at s.transs p (some (record t { l_port = 0 }));
            } in
            after-Quiet _ (free_bev-Quiet t.srv_bev s1) λ _ s2.
              after-Quiet _ (free_bev-Quiet t.local_bev (beside s1 s2)) λ _ s3. ended (
                rw
                  (
                    write-write s1.transs p
                        (some (free_ctxs (record t { l_port = 0; srv_bev = 0; local_bev = 0 })))
                        none,
                    write-write s.transs p (some (record t { l_port = 0 })) none,
                  )
                  (Sound-free s.transs s.trans s.supply sound p t there))

erase_first : (p : Ptr) (ps : List Ptr) → erase p (p ∷ ps) ≡ ps
erase_first p ps = ground arith

free_each-Kept : (ps : List Ptr) (s : Client) → s.trans ≡ ps → IsLinked s → Kept (free_each ps s)
unfolding free_each
free_each-Kept [] s all sound = ended sound
free_each-Kept (p ∷ ps) s all sound = after_read _ (trans-Reads p s) λ t there.
    after-Quiet _ (free_bev-Quiet t.srv_bev s) λ _ s1.
      after-Quiet _ (free_bev-Quiet t.local_bev (beside s s1)) λ _ s2.
        free_each-Kept ps _ (ap (erase p) all ∙ erase_first p ps) (
          rw (write-write s.transs p (some (free_ctxs t)) none)
            (Sound-free s.transs s.trans s.supply sound p t there))

pub free_all_trans-Kept : (s : Client) → IsLinked s → Kept (free_all_trans s)
unfolding free_all_trans
free_all_trans-Kept s sound = after (free_each-Kept s.trans s refl sound) λ _ _ still. ended still
