-- ===== src/Client/Portmap/Table.antt =====
-- What `sc_find_daemon_portmap` leaves of the table.
use sshinner.Base.{
  ℕ, suc, zero, ◌≡◌, ◌≢◌, refl, ap, ◌∙◌, ◌⊎◌, inl, inr, Bool, true, false, Bool-cases, Option,
  Option-cases, none, some, List, [], ◌∷◌, arith, ◌==◌, get_elem?,
}
use sshinner.Run.{ok, Returns, returns}
use sshinner.Client.{PortMap, Client}
use sshinner.Client.Portmap.{index_of, claim, find_daemon_portmap}

-- An entry of the table has a port.
abbrev pub Holds : ℕ → List PortMap → ℕ → Type 0
Holds port ms i = (m : PortMap) × (get_elem? ms i ≡ some m) × (m.daemonport ≡ port)

module _ (port : ℕ) where
  index_of-Holds : (ms : List PortMap) (i : ℕ) → index_of port ms ≡ some i → Holds port ms i
  unfolding index_of
  index_of-Holds [] i e = ground (arith, e)
  index_of-Holds (m ∷ ms) zero e = elim (Bool-cases (m.daemonport == port)) [
    | inl same ↦ (m, refl, ground arith)
    | inr other ↦ elim (Option-cases (index_of port ms)) [
      | inl absent ↦ ground (arith, e, absent)
      | inr (k, present) ↦ ground (arith, e, present)
    ]
  ]
  index_of-Holds (m ∷ ms) (suc i) e = elim (Option-cases (index_of port ms)) [
    | inl absent ↦ ground (arith, e, absent)
    | inr (k, present) ↦ index_of-Holds ms i (ground (arith, e, present))
  ]

  index_of-none : (ms : List PortMap) → index_of port ms ≡ none → (i : ℕ) → ¬ Holds port ms i
  unfolding index_of
  index_of-none [] e i (m, at_i, same) = ground (arith, at_i)
  index_of-none (x ∷ ms) e zero (m, at_i, same) = elim (Option-cases (index_of port ms)) [
    | inl absent ↦ ground (arith, e, at_i, same, absent)
    | inr (k, present) ↦ ground (arith, e, present)
  ]
  index_of-none (x ∷ ms) e (suc i) (m, at_i, same) = elim (Option-cases (index_of port ms)) [
    | inl absent ↦ index_of-none ms absent i (m, at_i, same)
    | inr (k, present) ↦ ground (arith, e, present)
  ]

  index_of-claim :
      (ms : List PortMap) (i : ℕ)
      → index_of port ms ≡ none
      → index_of 0 ms ≡ some i
      → index_of port (claim port ms) ≡ some i
  unfolding index_of claim
  index_of-claim [] i e z = ground (arith, e, z)
  index_of-claim (m ∷ ms) i e z = elim (Option-cases (index_of 0 ms)) [
    | inl no_free ↦ ground (arith, e, z, no_free)
    | inr (k, free) ↦ elim (Option-cases (index_of port ms)) [
      | inl absent ↦ ground (arith, e, z, free, absent, index_of-claim ms k absent free)
      | inr (l, present) ↦ ground (arith, e, z, free, present)
    ]
  ]

  claim-other :
      (ms : List PortMap) (i j : ℕ)
      → index_of 0 ms ≡ some i
      → i ≢ j
      → get_elem? (claim port ms) j ≡ get_elem? ms j
  unfolding index_of claim
  claim-other [] i j z e = refl
  claim-other (m ∷ ms) i zero z e = elim (Option-cases (index_of 0 ms)) [
    | inl no_free ↦ ground (arith, z, no_free)
    | inr (k, free) ↦ ground (arith, z, free)
  ]
  claim-other (m ∷ ms) i (suc j) z e = elim (Option-cases (index_of 0 ms)) [
    | inl no_free ↦ ground (arith, z, no_free)
    | inr (k, free) ↦ ground (arith, z, free, claim-other ms k j free)
  ]

  claim-free :
      (ms : List PortMap) (i : ℕ)
      → index_of 0 ms ≡ some i
      → (m : PortMap) × (get_elem? ms i ≡ some m)
        × (m.daemonport ≡ 0)
        × (get_elem? (claim port ms) i ≡ some (record m { daemonport = port }))
  unfolding index_of claim
  claim-free [] i z = ground (arith, z)
  claim-free (m ∷ ms) zero z = elim (Bool-cases (m.daemonport == 0)) [
    | inl is_free ↦ (m, refl, ground arith, rw is_free refl)
    | inr taken ↦ elim (Option-cases (index_of 0 ms)) [
      | inl no_free ↦
          let z' : none ≡ some zero = ground (arith, z, no_free, taken) in ground (arith, z')
      | inr (k, free) ↦
          let z' : some (suc k) ≡ some zero = ground (arith, z, free, taken) in ground (arith, z')
    ]
  ]
  claim-free (m ∷ ms) (suc i) z = elim (Bool-cases (m.daemonport == 0)) [
    | inl is_free ↦
        let z' : some zero ≡ some (suc i) = ground (arith, z, is_free) in ground (arith, z')
    | inr taken ↦ elim (Option-cases (index_of 0 ms)) [
      | inl no_free ↦
          let z' : none ≡ some (suc i) = ground (arith, z, no_free, taken) in ground (arith, z')
      | inr (k, free) ↦
          let e : some k ≡ some i = ground (arith, z, free, taken) in
          let (x, at_i, is_free, made) = claim-free ms i (free ∙ e) in
          (x, at_i, is_free, ground (arith, taken, made))
    ]
  ]

module _ (port : ℕ) (s : Client) where
  find_present :
      (i : ℕ) (createit : Bool)
      → index_of port s.maps ≡ some i
      → find_daemon_portmap port createit s ≡ ok (some i) s
  unfolding find_daemon_portmap
  find_present i createit e = ground (arith, e)

  find_lookup : index_of port s.maps ≡ none → find_daemon_portmap port false s ≡ ok none s
  unfolding find_daemon_portmap
  find_lookup e = ground (arith, e)

  find_full :
      (createit : Bool)
      → index_of port s.maps ≡ none
      → index_of 0 s.maps ≡ none
      → find_daemon_portmap port createit s ≡ ok none s
  unfolding find_daemon_portmap
  find_full createit e z = ground (arith, e, z)

  find_made :
      (i : ℕ)
      → index_of port s.maps ≡ none
      → index_of 0 s.maps ≡ some i
      → find_daemon_portmap port true s ≡ ok (some i) (record s { maps = claim port s.maps })
  unfolding find_daemon_portmap
  find_made i e z = ground (arith, e, z)

-- An entry that was free is given to a port that no entry held.
abbrev pub Claims : ℕ → List PortMap → List PortMap → ℕ → Type 0
Claims port ms ms' i =
    (m : PortMap) × (get_elem? ms i ≡ some m)
    × (m.daemonport ≡ 0)
    × (get_elem? ms' i ≡ some (record m { daemonport = port }))
    × ((j : ℕ) → ¬ Holds port ms j)

-- What a call returns and leaves.
abbrev pub Kept : ℕ → Bool → Client → Option ℕ → Client → Type 0
Kept port createit s r s' =
    ((i : ℕ) → r ≡ some i → Holds port s'.maps i)
    × ((i : ℕ)
        → r ≡ some i
        → ((s'.maps ≡ s.maps) × Holds port s.maps i)
          ⊎ ((createit ≡ true) × Claims port s.maps s'.maps i))
    × (r ≡ none → (s'.maps ≡ s.maps))
    × (r ≡ none → (i : ℕ) → (¬ Holds port s.maps i) × (createit ≡ true → ¬ Holds 0 s.maps i))
    × (find_daemon_portmap port createit s' ≡ ok r s')
    × (find_daemon_portmap port false s' ≡ ok r s')
    × ((j : ℕ) → r ≢ some j → get_elem? s'.maps j ≡ get_elem? s.maps j)
    × (s' ≡ record s { maps = s'.maps })

-- `sc_find_daemon_portmap` for a port returns an entry that holds the port, or `NULL` where none does
-- and, if it may make one, no entry is free. The entry that it returns held the port before, and then
-- the table is as it was; or no entry held the port, a new one was asked for, this entry was free, and
-- the port is all that is written to it. No other entry is changed, and nothing beside the table. A
-- later call for the port returns the same and changes nothing more.
pub find_daemon_portmap-Kept :
    (port : ℕ) (createit : Bool) (s : Client)
    → Returns (Kept port createit s) (find_daemon_portmap port createit s)
find_daemon_portmap-Kept port createit s = elim (Option-cases (index_of port s.maps)) [
  | inr (i, present) ↦ rw (find_present port s i createit present) (
      returns (
        λ j e. index_of-Holds port s.maps j (present ∙ e),
        λ j e. inl (refl, index_of-Holds port s.maps j (present ∙ e)),
        λ e. refl,
        λ e j. ground (arith, e),
        find_present port s i createit present,
        find_present port s i false present,
        λ j e. refl,
        refl,
      ))
  | inl absent ↦ elim (Option-cases (index_of 0 s.maps)) [
    | inl full ↦ rw (find_full port s createit absent full) (
        returns (
          λ j e. ground (arith, e),
          λ j e. ground (arith, e),
          λ e. refl,
          λ e j. (index_of-none port s.maps absent j, λ c. index_of-none 0 s.maps full j),
          find_full port s createit absent full,
          find_lookup port s absent,
          λ j e. refl,
          refl,
        ))
    | inr (i, free) ↦ elim (Bool-cases createit) [
      | inl make ↦
          let kept = index_of-claim port s.maps i absent free in
          rw (make, find_made port s i absent free)
            (returns (
              λ j e. index_of-Holds port (claim port s.maps) j (kept ∙ e),
              λ j e.
                  let (m, at_j, is_free, made) = claim-free port s.maps j (free ∙ e) in
                  inr (refl, (m, at_j, is_free, made, index_of-none port s.maps absent)),
              λ e. ground (arith, e),
              λ e j. ground (arith, e),
              find_present port (record s { maps = claim port s.maps }) i true kept,
              find_present port (record s { maps = claim port s.maps }) i false kept,
              λ j e. claim-other port s.maps i j free (λ h. e (ap some h)),
              refl,
            ))
      | inr lookup ↦
          rw (lookup, find_lookup port s absent)
            (returns (
              λ j e. ground (arith, e),
              λ j e. ground (arith, e),
              λ e. refl,
              λ e j. (index_of-none port s.maps absent j, λ c. ground (arith, c, lookup)),
              find_lookup port s absent,
              find_lookup port s absent,
              λ j e. refl,
              refl,
            ))
    ]
  ]
]

-- Whatever it returns, only the table changes.
pub find_daemon_portmap_maps :
    (port : ℕ) (createit : Bool) (s : Client)
    → (r : Option ℕ) × (ms : List PortMap) × (find_daemon_portmap port createit s
        ≡ ok r (record s { maps = ms }))
find_daemon_portmap_maps port createit s = elim (Option-cases (index_of port s.maps)) [
  | inr (i, present) ↦ (some i, s.maps, find_present port s i createit present)
  | inl absent ↦ elim (Option-cases (index_of 0 s.maps)) [
    | inl full ↦ (none, s.maps, find_full port s createit absent full)
    | inr (i, free) ↦ elim (Bool-cases createit) [
      | inl make ↦ (some i, claim port s.maps, rw make (find_made port s i absent free))
      | inr lookup ↦ (none, s.maps, rw lookup (find_lookup port s absent))
    ]
  ]
]
