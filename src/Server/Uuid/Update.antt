-- ===== src/Server/Uuid/Update.antt =====
-- Insertion and removal of a session, seen on the sequence of sessions.
use sshinner.Base.{
  ℕ, suc, ◌≤◌, ◌<◌, ◌≡◌, ◌≢◌, refl, ap, ◌∙◌, inl, inr, Bool, true, false, Option, none, some, List,
  [], ◌∷◌, ◌++◌, arith, Option-cases, ◌&&◌, ltb, ◌==◌, if◌then◌else◌, erase, ◌∈◌,
}
use sshinner.Run.{ok, Returns, returns}
use sshinner.Server.{Ptr, Tree, leaf, node, Env, Server}
use sshinner.Server.Uuid.{uuid_search, link_node, uuid_insert, uuid_erase}
use sshinner.Server.Uuid.Sequence.{
  Activs, in_order, IsLive, key, Rising, Rising-left, Rising-right, find_uuid, find_uuid_below,
  find_uuid_at, find_uuid_left, find_uuid_right, put_in,
}
use sshinner.Server.Uuid.Search.{uuid_search-find}

module _ (f : Activs) where
  Rising-mono : (low high : ℕ) (ps : List Ptr) → low ≤ high → Rising f high ps → Rising f low ps
  Rising-mono low high [] h r = tt
  Rising-mono low high (p ∷ ps) h (live, at_least, rest) = (live, omega arith, rest)

  put_in-left :
      (x : Ptr) (xs : List Ptr) (p : Ptr) (ys : List Ptr)
      → key f x < key f p
      → put_in f x (xs ++ p ∷ ys) ≡ put_in f x xs ++ p ∷ ys
  put_in-left x [] p ys h = ground arith
  put_in-left x (q ∷ xs) p ys h = ground (arith, put_in-left x xs p ys h)

  put_in-right :
      (low : ℕ) (x : Ptr) (xs : List Ptr) (p : Ptr) (ys : List Ptr)
      → Rising f low (xs ++ p ∷ ys)
      → key f p < key f x
      → put_in f x (xs ++ p ∷ ys) ≡ xs ++ p ∷ put_in f x ys
  put_in-right low x [] p ys r h = ground arith
  put_in-right low x (q ∷ xs) p ys (live, at_least, rest) h = ground (
    arith,
    Rising-right f (suc (key f q)) xs p ys rest,
    put_in-right (suc (key f q)) x xs p ys rest h,
  )

  pub put_in-Rising :
      (low : ℕ) (x : Ptr) (ps : List Ptr)
      → IsLive f x
      → low ≤ key f x
      → Rising f low ps
      → find_uuid f (key f x) ps ≡ 0
      → Rising f low (put_in f x ps)
  put_in-Rising low x [] l h r e = (l, h, tt)
  put_in-Rising low x (p ∷ ps) l h (live, at_least, rest) e =
      ground (arith, put_in-Rising (suc (key f p)) x ps l)

  pub find_uuid-put_in :
      (v low : ℕ) (x : Ptr) (ps : List Ptr)
      → Rising f low ps
      → find_uuid f (key f x) ps ≡ 0
      → find_uuid f v (put_in f x ps) ≡ (if v == key f x then x else find_uuid f v ps)
  find_uuid-put_in v low x [] r e = refl
  find_uuid-put_in v low x (p ∷ ps) (live, at_least, rest) e =
      ground (arith, find_uuid-put_in v (suc (key f p)) x ps rest)

  pub erase-Rising :
      (low : ℕ) (x : Ptr) (ps : List Ptr) → Rising f low ps → Rising f low (erase x ps)
  erase-Rising low x [] r = tt
  erase-Rising low x (p ∷ ps) (live, at_least, rest) =
      ground (arith, erase-Rising (suc (key f p)) x ps rest, Rising-mono low (suc (key f p)) ps)

  pub key_above : (low : ℕ) (x : Ptr) (ps : List Ptr) → Rising f low ps → x ∈ ps → low ≤ key f x
  key_above low x [] r h = cc
  key_above low x (p ∷ ps) (live, at_least, rest) h =
      ground (arith, key_above (suc (key f p)) x ps rest)

  mem_ne_null : (low : ℕ) (x : Ptr) (ps : List Ptr) → Rising f low ps → x ∈ ps → (x == 0) ≡ false
  mem_ne_null low x [] r h = cc
  mem_ne_null low x (p ∷ ps) (live, at_least, rest) h =
      ground (arith, live, mem_ne_null (suc (key f p)) x ps rest)

  pub find_uuid-erase :
      (v low : ℕ) (x : Ptr) (ps : List Ptr)
      → Rising f low ps
      → x ∈ ps
      → find_uuid f v (erase x ps) ≡ (if v == key f x then 0 else find_uuid f v ps)
  find_uuid-erase v low x [] r h = cc
  find_uuid-erase v low x (p ∷ ps) (live, at_least, rest) h = ground (
    arith,
    find_uuid-erase v (suc (key f p)) x ps rest,
    key_above (suc (key f p)) x ps rest,
    find_uuid_below f v (suc (key f p)) ps rest,
  )

-- The descent of an insertion, by the machine ids alone.
link : Activs → Ptr → Tree → Option Tree
link f x leaf = some (node true leaf x leaf)
link f x (node colour left p right) =
    if ltb (key f x) (key f p)
    then elim (link f x left) [ none ↦ none | some t ↦ some (node colour t p right) ]
    else (if ltb (key f p) (key f x)
        then elim (link f x right) [ none ↦ none | some t ↦ some (node colour left p t) ]
        else none)

-- What the descent makes of a sequence.
abbrev Linked : Activs → Ptr → List Ptr → Option Tree → Type 0
Linked f x ps none = find_uuid f (key f x) ps ≢ 0
Linked f x ps (some t) = (find_uuid f (key f x) ps ≡ 0) × (in_order t ≡ put_in f x ps)

link-Linked :
    (f : Activs) (x : Ptr) (low : ℕ) (t : Tree)
    → Rising f low (in_order t)
    → Linked f x (in_order t) (link f x t)
unfolding link
link-Linked f x low leaf r = (refl, refl)
link-Linked f x low (node colour left p right) r =
    let (here, at_least, rest) = Rising-right f low (in_order left) p (in_order right) r in
    ground (
      arith,
      here,
      link-Linked f x low left (Rising-left f low (in_order left) (p ∷ in_order right) r),
      link-Linked f x (suc (key f p)) right rest,
      find_uuid_at f low (in_order left) p (in_order right) r,
      find_uuid_left f (key f x) low (in_order left) p (in_order right) r,
      find_uuid_right f (key f x) low (in_order left) p (in_order right) r,
      put_in-left f x (in_order left) p (in_order right),
      put_in-right f low x (in_order left) p (in_order right) r,
    )

module _ (s : Server) (x : Ptr) (live : IsLive s.activs x) where
  link_node-link :
      (low : ℕ) (t : Tree)
      → Rising s.activs low (in_order t)
      → link_node x t s ≡ ok (link s.activs x t) s
  unfolding link_node link
  link_node-link low leaf r = refl
  link_node-link low (node colour left p right) r =
      let (here, at_least, rest) = Rising-right s.activs low (in_order left) p (in_order right) r in
      ground (
        arith,
        here,
        link_node-link low left (Rising-left s.activs low (in_order left) (p ∷ in_order right) r),
        link_node-link (suc (key s.activs p)) right rest,
      )

-- The documented behaviour of the red-black tree: rebalancing keeps the order of the nodes, and
-- removal takes out one node.
pub record KeepsOrder (env : Env) : Type 0 where
  pub insert_color : (x : Ptr) (t : Tree) → in_order (env.rb_insert_color x t) ≡ in_order t
  pub erases : (x : Ptr) (t : Tree) → in_order (env.rb_erase x t) ≡ erase x (in_order t)

-- The sessions of the tree exist, and their machine ids rise in order.
abbrev pub IsIndexed : Server → Type 0
IsIndexed s = Rising s.activs 0 (in_order s.uuid_tree)

-- What an insertion of `x` leaves: `done` says that its machine id was free.
abbrev pub Inserted : Server → Ptr → Bool → Server → Type 0
Inserted s x done s' =
    IsIndexed s'
    × (done ≡ (find_uuid s.activs (key s.activs x) (in_order s.uuid_tree) == 0))
    × ((v : ℕ)
        → uuid_search v s'.uuid_tree s'
          ≡ ok
              (if done && (v == key s.activs x)
                then x
                else find_uuid s.activs v (in_order s.uuid_tree))
              s')
    × (s' ≡ record s { uuid_tree = s'.uuid_tree })

-- What a removal of `x` leaves.
abbrev pub Erased : Server → Ptr → Unit {0} → Server → Type 0
Erased s x _ s' =
    IsIndexed s'
    × ((v : ℕ)
        → uuid_search v s'.uuid_tree s'
          ≡ ok (if v == key s.activs x then 0 else find_uuid s.activs v (in_order s.uuid_tree)) s')
    × (s' ≡ record s { uuid_tree = s'.uuid_tree })

module _ (env : Env) (rb : KeepsOrder env) (s : Server) (x : Ptr) (indexed : IsIndexed s) where
  -- Where the machine ids of the tree rise in order and the red-black tree keeps the order of its
  -- nodes, `ss_uuid_insert` of an existing session succeeds exactly when no session of the tree has
  -- its machine id. Then a search for that id returns the session; a search for any other returns
  -- what it returned before, as does every search where the insertion is refused. The machine ids
  -- still rise, and nothing but the tree has changed.
  pub uuid_search-insert : IsLive s.activs x → Returns (Inserted s x) (uuid_insert env x s)
  unfolding uuid_insert
  uuid_search-insert live =
      rw (link_node-link s x live 0 s.uuid_tree indexed)
        (elim (Option-cases (link s.activs x s.uuid_tree)) [
          | inl e ↦
              let taken : Linked s.activs x ps none =
                rw e at (link-Linked s.activs x 0 s.uuid_tree indexed) in
              rw e (
                returns
                  (indexed, ground arith, λ v. uuid_search-find s v 0 s.uuid_tree indexed, refl))
          | inr (t, e) ↦
              let free : Linked s.activs x ps (some t) =
                rw e at (link-Linked s.activs x 0 s.uuid_tree indexed) in
              let t' = env.rb_insert_color x t in
              let s' : Server = record s { uuid_tree = t' } in
              let order : in_order t' ≡ put_in s.activs x ps = rb.insert_color x t ∙ free.1 in
              let still : IsIndexed s' =
                rw order (put_in-Rising s.activs 0 x ps live (omega arith) indexed free.0) in
              rw e (
                returns (
                  still,
                  ground arith,
                  λ v.
                      uuid_search-find s' v 0 t' still
                      ∙ ap (λ q. ok q s')
                          (rw order (find_uuid-put_in s.activs v 0 x ps indexed free.0)),
                  refl,
                ))
        ])
    where
      ps : List Ptr
      ps = in_order s.uuid_tree

  -- Under the same conditions `ss_uuid_erase` of a session of the tree makes a search for its machine
  -- id return `NULL`, and leaves every other search as it was. The machine ids still rise, and nothing
  -- but the tree has changed.
  pub uuid_search-erase : x ∈ in_order s.uuid_tree → Returns (Erased s x) (uuid_erase env x s)
  unfolding uuid_erase
  uuid_search-erase member =
      let t = env.rb_erase x s.uuid_tree in
      let s' : Server = record s { uuid_tree = t } in
      let order = rb.erases x s.uuid_tree in
      let still : IsIndexed s' =
        rw order (erase-Rising s.activs 0 x (in_order s.uuid_tree) indexed) in
      rw (mem_ne_null s.activs 0 x (in_order s.uuid_tree) indexed member) (
        returns (
          still,
          λ v.
              uuid_search-find s' v 0 t still
              ∙ ap (λ q. ok q s')
                  (rw order (find_uuid-erase s.activs v 0 x (in_order s.uuid_tree) indexed member)),
          refl,
        ))
