-- ===== src/Fsm/Set/Registry.antt =====
-- The two indexes of a set over its instances, and what each change of them keeps.
use deploykit.Base.{
  ℕ, ◌≡◌, Option, none, some, List, length, if◌then◌else◌, ◌==◌, get_elem?, arith, get_elem?-length,
  inl, inr, Option-cases, ℕ_discrete, ite,
}
use deploykit.Base.Int.{ℤ-discrete}
use deploykit.Base.Dict.{Dict, lookup, insert, erase, lookup-insert, lookup-erase}
use deploykit.Fsm.Types.{Index, InstanceId, index_key, id_key}
use deploykit.Fsm.Queue.{Ref}
use deploykit.Fsm.Set.{file_under, unfile}

abbrev pub Bystate : Type 0
Bystate = Dict Index (Dict InstanceId Ref)

-- What an instance says of itself.
abbrev pub Face : Type 0
Face = InstanceId × Index

-- `bystate[state][id]`.
abbrev pub find_in : Option (Dict InstanceId Ref) → InstanceId → Option Ref
find_in none id = none
find_in (some m) id = lookup id m

abbrev pub filed : Bystate → Index → InstanceId → Option Ref
filed b state id = find_in (lookup state b) id

-- `members` and `bystate` hold the same instances: each member's instance has its id, and stands in
-- the map of its state; and what stands in the map of a state is a member in that state.
pub record IsIndexed (members : Dict InstanceId Ref) (b : Bystate) (faces : List Face)
    : Type 0 where
  pub located :
      (id : InstanceId) (r : Ref)
      → lookup id members ≡ some r
      → (state : Index) × (get_elem? faces r ≡ some (id, state)) × (filed b state id ≡ some r)
  pub is_member :
      (state : Index) (id : InstanceId) (r : Ref)
      → filed b state id ≡ some r
      → (lookup id members ≡ some r) × (get_elem? faces r ≡ some (id, state))

filed-file_under :
    (state state' : Index) (id id' : InstanceId) (r : Ref) (b b' : Bystate)
    → file_under state id r b ≡ some b'
    → filed b' state' id'
      ≡ ite
          (ℤ-discrete state state')
          (ite (ℕ_discrete id id') (some r) (filed b state' id'))
          (filed b state' id')
unfolding file_under
filed-file_under state state' id id' r b b' h = elim (Option-cases (lookup state b)) [
  | inl e ↦ absurd (ground arith)
  | inr (m, e) ↦
      let made : b' ≡ insert state (insert id r m) b = ground arith in
      rw made
        (ground (arith, lookup-insert state state' (insert id r m) b, lookup-insert id id' r m))
]

filed-unfile :
    (state state' : Index) (id id' : InstanceId) (b : Bystate)
    → filed (unfile state id b) state' id'
      ≡ ite
          (ℤ-discrete state state')
          (ite (ℕ_discrete id id') none (filed b state' id'))
          (filed b state' id')
unfolding unfile
filed-unfile state state' id id' b = elim (Option-cases (lookup state b)) [
  | inl e ↦ ground arith
  | inr (m, e) ↦ ground (arith, lookup-insert state state' (erase id m) b, lookup-erase id id' m)
]

-- The faces after a write of `face` at `r`.
abbrev pub Written : List Face → ℕ → Face → List Face → Type 0
Written faces r face faces' =
    (q : ℕ) → get_elem? faces' q ≡ (if r == q then some face else get_elem? faces q)

module _ (members : Dict InstanceId Ref) (b b' : Bystate) (faces faces' : List Face)
    (id : InstanceId) (r : Ref) (current next : Index) (v : IsIndexed members b faces)
    (member : lookup id members ≡ some r) (face : get_elem? faces r ≡ some (id, current))
    (moved : file_under next id r (unfile current id b) ≡ some b')
    (written : Written faces r (id, next) faces') where
  filed-moved :
      (state : Index) (id' : InstanceId)
      → filed b' state id'
        ≡ ite
            (ℕ_discrete id id')
            (ite
              (ℤ-discrete next state)
              (some r)
              (ite (ℤ-discrete current state) none (filed b state id')))
            (filed b state id')
  filed-moved state id' = ground (
    arith,
    filed-file_under next state id id' r (unfile current id b) b' moved,
    filed-unfile current state id id' b,
  )

  move_located :
      (id' : InstanceId) (q : Ref)
      → lookup id' members ≡ some q
      → (state : Index) × (get_elem? faces' q ≡ some (id', state)) × (filed b' state id' ≡ some q)
  move_located id' q m = elim (ℕ_discrete id id') [
    | yes e ↦ (next, ground (arith, written q), ground (arith, filed-moved next id'))
    | no ne ↦
        let (state, f, g) = v.located id' q m in
        (state, ground (arith, written q), ground (arith, filed-moved state id'))
  ]

  move_is_member :
      (state : Index) (id' : InstanceId) (q : Ref)
      → filed b' state id' ≡ some q
      → (lookup id' members ≡ some q) × (get_elem? faces' q ≡ some (id', state))
  move_is_member state id' q h =
      ground (arith, filed-moved state id', v.is_member state id' q, written q)

  -- An instance moves from its state to another.
  pub move-IsIndexed : IsIndexed members b' faces'
  move-IsIndexed = record { located = move_located; is_member = move_is_member }

-- The faces after an instance is allocated at the end of the store.
abbrev pub Grown : List Face → Face → List Face → Type 0
Grown faces face faces' =
    (q : ℕ) → get_elem? faces' q ≡ (if length faces == q then some face else get_elem? faces q)

module _ (members : Dict InstanceId Ref) (b : Bystate) (faces faces' : List Face) (face : Face)
    (v : IsIndexed members b faces) (grown_at : Grown faces face faces') where
  grow_located :
      (id' : InstanceId) (q : Ref)
      → lookup id' members ≡ some q
      → (state : Index) × (get_elem? faces' q ≡ some (id', state)) × (filed b state id' ≡ some q)
  grow_located id' q m =
      let (state, f, g) = v.located id' q m in
      (state, ground (arith, grown_at q, get_elem?-length faces), g)

  grow_is_member :
      (state : Index) (id' : InstanceId) (q : Ref)
      → filed b state id' ≡ some q
      → (lookup id' members ≡ some q) × (get_elem? faces' q ≡ some (id', state))
  grow_is_member state id' q h =
      ground (arith, grown_at q, v.is_member state id' q, get_elem?-length faces)

  -- An instance that is allocated and not entered changes nothing.
  pub grow-IsIndexed : IsIndexed members b faces'
  grow-IsIndexed = record { located = grow_located; is_member = grow_is_member }

module _ (members : Dict InstanceId Ref) (b b' : Bystate) (faces faces' : List Face)
    (id : InstanceId) (initial : Index) (v : IsIndexed members b faces)
    (fresh : lookup id members ≡ none)
    (filed_now : file_under initial id (length faces) b ≡ some b')
    (grown_at : Grown faces (id, initial) faces') where
  add_located :
      (id' : InstanceId) (q : Ref)
      → lookup id' (insert id (length faces) members) ≡ some q
      → (state : Index) × (get_elem? faces' q ≡ some (id', state)) × (filed b' state id' ≡ some q)
  add_located id' q m = elim (ℕ_discrete id id') [
    | yes e ↦ (
      initial,
      ground (arith, grown_at q, lookup-insert id id' (length faces) members),
      ground (
        arith,
        lookup-insert id id' (length faces) members,
        filed-file_under initial initial id id' (length faces) b b' filed_now,
      ),
    )
    | no ne ↦
        let (state, f, g) =
          v.located id' q (ground (arith, lookup-insert id id' (length faces) members)) in
        (
          state,
          ground (arith, grown_at q, get_elem?-length faces),
          ground (arith, filed-file_under initial state id id' (length faces) b b' filed_now),
        )
  ]

  add_is_member :
      (state : Index) (id' : InstanceId) (q : Ref)
      → filed b' state id' ≡ some q
      → (lookup id' (insert id (length faces) members) ≡ some q)
        × (get_elem? faces' q ≡ some (id', state))
  add_is_member state id' q h = ground (
    arith,
    filed-file_under initial state id id' (length faces) b b' filed_now,
    v.is_member state id' q,
    grown_at q,
    get_elem?-length faces,
    lookup-insert id id' (length faces) members,
  )

  -- A new instance, at the end of the store.
  pub add-IsIndexed : IsIndexed (insert id (length faces) members) b' faces'
  add-IsIndexed = record { located = add_located; is_member = add_is_member }

module _ (members : Dict InstanceId Ref) (b : Bystate) (faces faces' : List Face) (id : InstanceId)
    (r : Ref) (current : Index) (zeroed : Face) (v : IsIndexed members b faces)
    (member : lookup id members ≡ some r) (face : get_elem? faces r ≡ some (id, current))
    (written : Written faces r zeroed faces') where
  delete_located :
      (id' : InstanceId) (q : Ref)
      → lookup id' (erase id members) ≡ some q
      → (state : Index) × (get_elem? faces' q ≡ some (id', state))
        × (filed (unfile current id b) state id' ≡ some q)
  delete_located id' q m =
      let other = lookup-erase id id' members in
      let (state, f, g) = v.located id' q (ground (arith, other)) in
      (
        state,
        ground (arith, other, written q),
        ground (arith, other, filed-unfile current state id id' b),
      )

  delete_is_member :
      (state : Index) (id' : InstanceId) (q : Ref)
      → filed (unfile current id b) state id' ≡ some q
      → (lookup id' (erase id members) ≡ some q) × (get_elem? faces' q ≡ some (id', state))
  delete_is_member state id' q h = ground (
    arith,
    filed-unfile current state id id' b,
    v.is_member state id' q,
    written q,
    lookup-erase id id' members,
  )

  -- An instance leaves both indexes, whatever its face becomes.
  pub delete-IsIndexed : IsIndexed (erase id members) (unfile current id b) faces'
  delete-IsIndexed = record { located = delete_located; is_member = delete_is_member }
