-- ===== src/Fsm/Set/Events.antt =====
-- `handleEvent` keeps the invariant.
use mathlib.Core.Option
use deploykit.Base.{
  ◌≡◌, ◌≢◌, refl, sym, ap, subst, ◌∙◌, Option, none, some, List, length, if◌then◌else◌, get_elem?,
  modify, arith, map-modify_same, length-modify, get_elem?-modify, get_elem?-map, Bool-cases, inl,
  inr, Option-cases,
}
use deploykit.Base.Int.{pos, ltb_ℤ}
use deploykit.Base.Dict.{lookup}
use deploykit.Fsm.Types.{Index, Signal, InstanceId, Action, Result-cases, index_key, id_key, Flap}
use deploykit.Fsm.Spec.{transition}
use deploykit.Fsm.Flap.{History, flap, record_move, count}
use deploykit.Fsm.Flap.Oscillation.{record_move_total}
use deploykit.Fsm.Queue.{Instance, Ref}
use deploykit.Fsm.Queue.Refs.{RefsBelow}
use deploykit.Fsm.Queue.Places.{HasPlaces}
use deploykit.Fsm.Queue.Moves.{HasPlaces-same}
use deploykit.Fsm.Set.{FsmSet, fault, done, Event, raise, handle_error, process_deadline, alter}
use deploykit.Fsm.Set.Handlers.{land, run_action, act, check_flaps, handle_event, new_payload}
use deploykit.Fsm.Set.Registry.{IsIndexed}
use deploykit.Fsm.Set.Invariant.{
  SetInv, SetInv-channels, Keeps, raise-Sends, face, faces, NoSingle, process_deadline-Deadline,
}
use deploykit.Fsm.Set.Preserve.{raise_then, land_after-SetInv}

-- A change of one instance that keeps its face.
pub alter-SetInv :
    (s : FsmSet) (r : Ref) (f : Instance → Instance)
    → ((i : Instance) → face (f i) ≡ face i)
    → NoSingle (modify s.store r f)
    → HasPlaces s.queue (modify s.store r f)
    → SetInv s
    → SetInv (alter s r f)
alter-SetInv s r f same n places v = record {
  compiled = v.compiled;
  filled = v.filled;
  indexed =
      subst (IsIndexed s.members s.bystate) (sym (map-modify_same face s.store r f same)) v.indexed;
  fresh = v.fresh;
  no_single = n;
  refs = subst (λ k. RefsBelow k s.queue) (sym (length-modify s.store r f)) v.refs;
  placed = (v.placed.0, places);
}

faces-alter :
    (s : FsmSet) (r : Ref) (f : Instance → Instance)
    → ((i : Instance) → face (f i) ≡ face i)
    → faces (alter s r f).store ≡ faces s.store
faces-alter s r f same = map-modify_same face s.store r f same

pub NoSingle-same :
    (st : List Instance) (r : Ref) (f : Instance → Instance)
    → ((i : Instance) → (f i).flaps ≡ i.flaps)
    → NoSingle st
    → NoSingle (modify st r f)
NoSingle-same st r f same n q h e =
    n q h (ap (λ l. get_elem? l q) (sym (map-modify_same (λ i. i.flaps) st r f same)) ∙ e)

NoSingle-flaps :
    (st : List Instance) (r : Ref) (g : History)
    → length g ≢ 1
    → NoSingle st
    → NoSingle (modify st r (λ x. record x { flaps = g }))
NoSingle-flaps st r g one n q h e =
    let f = λ (x : Instance). record x { flaps = g } in
    elim (Option-cases (get_elem? st q)) [
      | inl p ↦ absurd (
          ground (arith, get_elem?-map (λ i. i.flaps) (modify st r f) q, get_elem?-modify st r q f))
      | inr (i, p) ↦ ground (
        arith,
        get_elem?-map (λ i. i.flaps) (modify st r f) q,
        get_elem?-modify st r q f,
        get_elem?-map (λ i. i.flaps) st q,
        n q h,
      )
    ]

run_action-frame :
    (s : FsmSet) (i : Instance) (x : Signal) (next : Index) (a : Option Action)
    → let (s', landing) = run_action s i x next a in
      s' ≡ record s { reported = s'.reported; actions_run = s'.actions_run }
unfolding run_action handle_error
run_action-frame s i x next none = refl
run_action-frame s i x next (some a) = ground arith

module _ (s : FsmSet) (ev : Event) (r : Ref) (i : Instance) (next : Index) (action : Option Action)
    (v : SetInv s) (m : lookup i.id s.members ≡ some r)
    (at : get_elem? (faces s.store) r ≡ some (i.id, i.state)) where
  act-SetInv : Keeps SetInv (act s ev r i next action)
  unfolding act land
  act-SetInv =
      let payload = new_payload ev.payload i.payload in
      let f = λ (x : Instance). record x { payload = payload } in
      let s₁ = alter s r f in
      let v₁ : SetInv s₁ =
        alter-SetInv s r f (λ x. refl) (NoSingle-same s.store r f (λ x. refl) v.no_single)
          (HasPlaces-same s.queue s.store r f (λ x. refl) v.placed.1) v in
      let ran = run_action s₁ (record i { payload = payload }) ev.signal next action in
      let same : ran.0 ≡ record s₁ { reported = ran.0.reported; actions_run = ran.0.actions_run } =
        run_action-frame s₁ (record i { payload = payload }) ev.signal next action in
      land_after-SetInv ran.0 r i.id i.state ran.1 (process_deadline ran.0 r ran.1)
        (subst SetInv (sym same) (
          SetInv-channels (record s₁ { reported = ran.0.reported; actions_run = ran.0.actions_run })
            refl v₁))
        (ap (λ x. lookup i.id x.members) same ∙ m)
        (ap (λ x. get_elem? (faces x.store) r) same
          ∙ (ap (λ l. get_elem? l r) (faces-alter s r f (λ x. refl)) ∙ at))
        (process_deadline-Deadline ran.0 r ran.1)

module _ (s : FsmSet) (ev : Event) (r : Ref) (i : Instance) (next : Index) (action : Option Action)
    (v : SetInv s) (m : lookup i.id s.members ≡ some r) (here : get_elem? s.store r ≡ some i) where
  at_face : get_elem? (faces s.store) r ≡ some (i.id, i.state)
  at_face = get_elem?-map face s.store r ∙ ap (Option.map face) here

  with_history : History → FsmSet
  with_history h = alter s r (λ x. record x { flaps = h })

  recorded_long : (h : History) → record_move i.flaps i.state next ≡ some h → length h ≢ 1
  recorded_long h e =
      let long =
        v.no_single r i.flaps
          (get_elem?-map (λ x. x.flaps) s.store r ∙ ap (Option.map (λ x. x.flaps)) here) in
      let (h', e', n') = record_move_total i.flaps i.state next long in ground arith

  recorded : record_move i.flaps i.state next ≡ none → ⊥
  recorded e =
      let long =
        v.no_single r i.flaps
          (get_elem?-map (λ x. x.flaps) s.store r ∙ ap (Option.map (λ x. x.flaps)) here) in
      let (h', e', n') = record_move_total i.flaps i.state next long in ground arith

  with_history-SetInv : (h : History) → length h ≢ 1 → SetInv (with_history h)
  unfolding with_history
  with_history-SetInv h n =
      alter-SetInv s r (λ x. record x { flaps = h }) (λ x. refl)
        (NoSingle-flaps s.store r h n v.no_single)
        (HasPlaces-same s.queue s.store r (λ x. record x { flaps = h }) (λ x. refl) v.placed.1) v

  -- After the move is recorded: the limit is raised, or the transition goes on.
  counted-SetInv :
      (h : History) (limit : Flap)
      → length h ≢ 1
      → Keeps SetInv (
          if ltb_ℤ (pos (count h i.state next)) limit.count
          then act (with_history h) ev r (record i { flaps = h }) next action
          else elim (raise (with_history h) i.id limit.raise) [
            | fault f ↦ fault f
            | done s' ↦ done (s', none)
          ])
  counted-SetInv h limit n = elim (Bool-cases (ltb_ℤ (pos (count h i.state next)) limit.count)) [
    | inl p ↦ rw p (
        act-SetInv (with_history h) ev r (record i { flaps = h }) next action
          (with_history-SetInv h n) (unfold with_history in m)
          (unfold with_history in
            ap (λ l. get_elem? l r) (faces-alter s r (λ x. record x { flaps = h }) (λ x. refl))
            ∙ at_face))
    | inr p ↦ rw p (
        raise_then (raise (with_history h) i.id limit.raise) (with_history-SetInv h n)
          (raise-Sends (with_history h) i.id limit.raise))
  ]

  check_flaps-SetInv : Keeps SetInv (check_flaps s ev r i next action)
  unfolding check_flaps with_history
  check_flaps-SetInv = elim (Option-cases (flap s.spec i.state next)) [
    | inl e ↦ rw (e, check_flaps) (act-SetInv s ev r i next action v m at_face)
    | inr (limit, e) ↦ elim (Bool-cases (ltb_ℤ (pos 0) limit.count)) [
      | inr p ↦ rw (e, check_flaps, p) (act-SetInv s ev r i next action v m at_face)
      | inl p ↦ elim (Option-cases (record_move i.flaps i.state next)) [
        | inl q ↦ absurd (recorded q)
        | inr (h, q) ↦ rw (e, check_flaps, p, q) (counted-SetInv h limit (recorded_long h q))
      ]
    ]
  ]

-- A member's instance has its id.
pub member_id :
    (s : FsmSet) (r : Ref) (i : Instance) (id : InstanceId)
    → SetInv s
    → lookup id s.members ≡ some r
    → get_elem? s.store r ≡ some i
    → i.id ≡ id
member_id s r i id v e f =
    let (state, g, _) = v.indexed.located id r e in ground (arith, get_elem?-map face s.store r)

pub member_stored :
    (s : FsmSet) (r : Ref) (id : InstanceId)
    → SetInv s
    → lookup id s.members ≡ some r
    → get_elem? s.store r ≡ none
    → ⊥
member_stored s r id v e f =
    let (state, g, _) = v.indexed.located id r e in ground (arith, get_elem?-map face s.store r)

pub handle_event-SetInv : (s : FsmSet) (ev : Event) → SetInv s → Keeps SetInv (handle_event s ev)
unfolding handle_event
handle_event-SetInv s ev v = elim (Option-cases (lookup ev.instance_id s.members)) [
  | inl e ↦ rw (e, handle_event) v
  | inr (r, e) ↦ elim (Option-cases (get_elem? s.store r)) [
    | inl f ↦ absurd (member_stored s r ev.instance_id v e f)
    | inr (i, f) ↦ elim (Result-cases (transition s.spec i.state ev.signal)) [
      | inr (x, g) ↦ rw (e, handle_event, f, g) v
      | inl ((next, action), g) ↦
          let own = member_id s r i ev.instance_id v e f in
          rw (e, handle_event, f, g)
            (check_flaps-SetInv s ev r i next action v (ap (λ id. lookup id s.members) own ∙ e) f)
    ]
  ]
]
