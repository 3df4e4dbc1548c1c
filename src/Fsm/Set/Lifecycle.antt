-- ===== src/Fsm/Set/Lifecycle.antt =====
-- `handleAdd` and `handleDelete` keep the invariant.
use native.Mathlib.Nat.{mod-eq_of_lt}
use deploykit.Base.{
  ℕ, suc, ◌+◌, ◌<◌, ◌≤◌, ◌^◌, ◌≡◌, refl, sym, ap, subst, ◌∙◌, Option, none, some, false, List, [],
  ◌∷◌, ◌++◌, map, length, get_elem?, modify, arith, length-modify, length-append, get_elem?-modify,
  get_elem?-map, get_elem?-append_one, inl, inr, Option-cases,
}
use deploykit.Base.Dict.{Dict, lookup, insert, lookup-insert, lookup-erase}
use deploykit.Fsm.Types.{Index, InstanceId, Err, index_key, id_key}
use deploykit.Fsm.Queue.{Instance, Ref}
use deploykit.Fsm.Queue.Refs.{RefsBelow}
use deploykit.Fsm.Queue.Places.{Placed}
use deploykit.Fsm.Queue.Moves.{HasPlaces-same, HasPlaces-append}
use deploykit.Fsm.Set.{FsmSet, file_under}
use deploykit.Fsm.Set.Handlers.{
  handle_add, add_after, allocate, new_instance, next_id, handle_delete,
}
use deploykit.Fsm.Set.Registry.{IsIndexed, Written, add-IsIndexed, delete-IsIndexed}
use deploykit.Fsm.Set.Invariant.{
  SetInv, Keeps, face, faces, NoSingle, Deadline, process_deadline-Deadline,
}
use deploykit.Fsm.Set.Preserve.{file_under-total, is_some-file_under, is_some-unfile}
use deploykit.Fsm.Set.Registry.{grow-IsIndexed, Grown}
use deploykit.Fsm.Set.Events.{member_id, member_stored, NoSingle-same}

RefsBelow-mono : {m n : ℕ} (q : List Ref) → m ≤ n → RefsBelow m q → RefsBelow n q
RefsBelow-mono [] h v = tt
RefsBelow-mono (r ∷ q) h v = (omega arith, RefsBelow-mono q h v.1)

map-append_one :
    {A B : Type 0} (g : A → B) (xs : List A) (y : A) → map g (xs ++ y ∷ []) ≡ map g xs ++ g y ∷ []
map-append_one g [] y = refl
map-append_one g (x ∷ xs) y = ap (◌∷◌ (g x)) (map-append_one g xs y)

length-faces : (st : List Instance) → length (faces st) ≡ length st
length-faces [] = refl
length-faces (i ∷ st) = ap suc (length-faces st)

module _ (s : FsmSet) (initial : Index) (v : SetInv s) (bound : s.next + 1 < 2 ^ 64) where
  born : List Instance
  born = s.store ++ new_instance s.next initial ∷ []

  Grown-born : Grown (faces s.store) (s.next, initial) (faces born)
  unfolding born
  Grown-born q =
      ap (λ l. get_elem? l q) (map-append_one face s.store (new_instance s.next initial))
      ∙ get_elem?-append_one (faces s.store) (s.next, initial) q

  next-grows : next_id s.next ≡ s.next + 1
  next-grows = mod-eq_of_lt bound

  NoSingle-born : NoSingle born
  unfolding born
  NoSingle-born q h e =
      let grown =
        ap (λ l. get_elem? l q)
          (map-append_one (λ i. i.flaps) s.store (new_instance s.next initial))
        ∙ get_elem?-append_one (map (λ i. i.flaps) s.store) [] q in
      ground (arith, grown, v.no_single q h)

  length-born : length born ≡ length s.store + 1
  unfolding born
  length-born = length-append s.store (new_instance s.next initial ∷ [])

  RefsBelow-born : RefsBelow (length born) s.queue
  RefsBelow-born = RefsBelow-mono s.queue (omega (arith, length-born)) v.refs

  Placed-born : Placed (record (s.timers) { store = born })
  unfolding born
  Placed-born =
      (v.placed.0, HasPlaces-append s.queue s.store (new_instance s.next initial) refl v.placed.1)

  allocate-SetInv : SetInv (allocate s initial)
  unfolding allocate born
  allocate-SetInv = record {
    compiled = v.compiled;
    filled = v.filled;
    indexed =
        grow-IsIndexed s.members s.bystate (faces s.store) (faces born) (s.next, initial) v.indexed
          Grown-born;
    fresh = λ id r e. omega (arith, v.fresh id r e, next-grows);
    no_single = NoSingle-born;
    refs = RefsBelow-born;
    placed = Placed-born;
  }

  not_member : lookup s.next s.members ≡ none
  not_member = elim (Option-cases (lookup s.next s.members)) [
    | inl e ↦ e
    | inr (r, e) ↦ absurd (omega (arith, v.fresh s.next r e))
  ]

  module _ (s₁ : FsmSet) (d : Deadline (allocate s initial) (length s.store) initial (s₁, none))
      (b : Dict Index (Dict InstanceId Ref))
      (filed_now : file_under initial s.next (length s.store) s.bystate ≡ some b) where
    Grown-landed : Grown (faces s.store) (s.next, initial) (faces s₁.store)
    unfolding allocate born
    Grown-landed q =
        let last = Grown-born (length s.store) in
        let landed = d.1 s.next initial (ground (arith, last, length-faces s.store)) q in
        ground (arith, landed, Grown-born q, length-faces s.store)

    added-IsIndexed : IsIndexed (insert s.next (length s.store) s.members) b (faces s₁.store)
    added-IsIndexed =
        subst (λ n. IsIndexed (insert s.next n s.members) b (faces s₁.store)) (length-faces s.store)
          (add-IsIndexed s.members s.bystate b (faces s.store) (faces s₁.store) s.next initial
            v.indexed not_member (rw (length-faces s.store) filed_now) Grown-landed)

    added_fresh :
        (id : InstanceId) (r : Ref)
        → lookup id (insert s.next (length s.store) s.members) ≡ some r
        → id < next_id s.next
    added_fresh id r e =
        ground (arith, lookup-insert s.next id (length s.store) s.members, v.fresh id r, next-grows)

    added : SetInv (record s₁ {
      members = insert s.next (length s.store) s₁.members;
      bystate = b;
      replies = s₁.replies ++ s.next ∷ [];
    })
    unfolding allocate born
    added =
        subst
          (λ (x : FsmSet). SetInv (record x {
            members = insert s.next (length s.store) x.members;
            bystate = b;
            replies = x.replies ++ s.next ∷ [];
          }))
          (sym d.0)
          (record {
            compiled = v.compiled;
            filled = λ i h.
                is_some-file_under initial i s.next (length s.store) s.bystate b filed_now
                  (v.filled i h);
            indexed = added-IsIndexed;
            fresh = added_fresh;
            no_single = λ q h x. NoSingle-born q h (ap (λ l. get_elem? l q) (sym d.2) ∙ x);
            refs = d.4 (omega (arith, length-born)) RefsBelow-born;
            placed = d.5 (omega (arith, length-born)) Placed-born;
          })

  landed_clean :
      (s₁ : FsmSet)
      → Deadline (allocate s initial) (length s.store) initial (s₁, none)
      → s₁.stray ≡ false
  unfolding allocate born
  landed_clean s₁ d = (d.5 (omega (arith, length-born)) Placed-born).0

  add_after-SetInv :
      (p : FsmSet × Option Err)
      → Deadline (allocate s initial) (length s.store) initial p
      → Keeps SetInv (add_after initial s.next (length s.store) p)
  unfolding add_after allocate
  add_after-SetInv (s₁, some e) d = subst SetInv (sym d) allocate-SetInv
  add_after-SetInv (s₁, none) d =
      let (b, e) =
        file_under-total initial s.next (length s.store) s.bystate (v.filled initial d.3) in
      rw
        (
          landed_clean s₁ d,
          ap (λ x. file_under initial s.next (length s.store) x.bystate) d.0 ∙ e,
          add_after,
        )
        (added s₁ d b e)

  -- The id of a new instance is used once, so long as the 64 bits of `s.next` do not wrap.
  pub handle_add-SetInv : Keeps SetInv (handle_add s initial)
  unfolding handle_add
  handle_add-SetInv =
      add_after-SetInv _ (process_deadline-Deadline (allocate s initial) (length s.store) initial)

pub handle_delete-SetInv :
    (s : FsmSet) (id : InstanceId) → SetInv s → Keeps SetInv (handle_delete s id)
unfolding handle_delete
handle_delete-SetInv s id v = elim (Option-cases (lookup id s.members)) [
  | inl e ↦ rw (e, handle_delete) v
  | inr (r, e) ↦ elim (Option-cases (get_elem? s.store r)) [
    | inl f ↦ absurd (member_stored s r id v e f)
    | inr (i, f) ↦
        let own = member_id s r i id v e f in
        rw (e, handle_delete, f)
          (record {
            compiled = v.compiled;
            filled = λ j h. is_some-unfile i.state j id s.bystate (v.filled j h);
            indexed =
                delete-IsIndexed s.members s.bystate (faces s.store)
                  (faces (modify s.store r zero_id)) id r i.state (0, i.state) v.indexed e
                  (get_elem?-map face s.store r ∙ ground (arith)) (zeroed r i f);
            fresh = λ j q h. v.fresh j q (ground (arith, lookup-erase id j s.members));
            no_single = NoSingle-same s.store r zero_id (λ x. refl) v.no_single;
            refs = subst (λ k. RefsBelow k s.queue) (sym (length-modify s.store r zero_id)) v.refs;
            placed = (v.placed.0, HasPlaces-same s.queue s.store r zero_id (λ x. refl) v.placed.1);
          })
  ]
]
  where
    zero_id : Instance → Instance
    zero_id x = record x { id = 0 }

    zeroed :
        (r : Ref) (i : Instance)
        → get_elem? s.store r ≡ some i
        → Written (faces s.store) r (0, i.state) (faces (modify s.store r zero_id))
    zeroed r i f q = ground (
      arith,
      get_elem?-map face (modify s.store r zero_id) q,
      get_elem?-modify s.store r q zero_id,
      get_elem?-map face s.store q,
    )
