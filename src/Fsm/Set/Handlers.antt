-- ===== src/Fsm/Set/Handlers.antt =====
-- pkg/fsm/set.go: the handlers of the transactions, on the parts of `Fsm/Set.antt`.
use deploykit.Base.{
  ℕ, zero, suc, ◌+◌, ◌%◌, ◌^◌, Option, none, some, [], ◌∷◌, ◌++◌, length, if◌then◌else◌, get_elem?,
  ◌&&◌,
}
use deploykit.Base.Int.{pos, ltb_ℤ, add64, eqb_ℤ}
use deploykit.Base.Dict.{lookup, insert, erase}
use deploykit.Fsm.Types.{
  Index, Signal, InstanceId, Payload, Action, Err, unknown_fsm, ok, err, index_key, id_key,
}
use deploykit.Fsm.Spec.{expiry, visit, error_next, transition}
use deploykit.Fsm.Flap.{flap, record_move, count}
use deploykit.Fsm.Queue.{Instance, Ref, Timers, minus_one, dequeue, peek}
use deploykit.Fsm.Set.{
  Event, Txn, clock_tick, read, add, delete, send, FsmSet, panicked, Outcome, fault, done, Handled,
  alter, handle_error, raise, visits_of, process_deadline, file_under, unfile,
}

abbrev pub new_instance : InstanceId → Index → Instance
new_instance id initial = record {
  id = id;
  state = initial;
  payload = none;
  flaps = [];
  start = pos 0;
  deadline = pos 0;
  index = minus_one;
  visits = (initial, pos 1) ∷ [];
}

-- `s.next++`.
abbrev pub next_id : InstanceId → InstanceId
next_id n = (n + 1) % 2 ^ 64

-- The new instance, allocated at the end of the store.
unfoldable pub allocate : FsmSet → Index → FsmSet
allocate s initial = record s {
  next = next_id s.next;
  timers = record (s.timers) { store = s.store ++ new_instance s.next initial ∷ [] };
}

-- The end of `handleAdd`, after `processDeadline`, which may have panicked: both maps, and the reply. Where the deadline
-- cannot be set the caller gets no reply.
unfoldable pub add_after : Index → InstanceId → Ref → FsmSet × Option Err → Handled
unfolding file_under
add_after initial id r (s, some e) = done (s, some e)
add_after initial id r (s, none) =
    if s.stray then fault panicked else elim (file_under initial id r s.bystate) [
      | none ↦ fault panicked
      | some b ↦ done (
        record s { members = insert id r s.members; bystate = b; replies = s.replies ++ id ∷ [] },
        none,
      )
    ]

-- `handleAdd`.
unfoldable pub handle_add : FsmSet → Index → Handled
unfolding allocate add_after
handle_add s initial =
    let r = length s.store in
    add_after initial s.next r (process_deadline (allocate s initial) r initial)

-- `handleDelete`: the instance's id becomes 0, and the deadline queue is left as it is.
unfoldable pub handle_delete : FsmSet → InstanceId → Handled
unfolding unfile
handle_delete s id = elim (lookup id s.members) [
  | none ↦ done (s, some (unknown_fsm id))
  | some r ↦ elim (get_elem? s.store r) [
    | none ↦ fault panicked
    | some i ↦ done (
      record (alter s r (λ x. record x { id = 0 })) {
        members = erase id s.members;
        bystate = unfile i.state id s.bystate;
      },
      none,
    )
  ]
]

-- One round of the loop of `handleClockTick`, on the instance that was taken off the queue.
unfoldable pub fire : FsmSet → Ref → Instance → Handled
fire s r i =
    let reset =
      λ (s' : FsmSet). alter s' r (λ x. record x { deadline = minus_one; index = minus_one }) in
    if ltb_ℤ (pos 0) i.deadline
    then elim (expiry s.spec i.state) [
      | err e ↦ done (s, some e)
      | ok none ↦ done (reset s, none)
      | ok (some rule) ↦ elim (raise s i.id rule.raise) [
        | fault f ↦ fault f
        | done s' ↦ done (reset s', none)
      ]
    ]
    else done (reset s, none)

abbrev pub take_due : FsmSet → Option Ref × Timers → Handled
take_due s (none, t) = fault panicked
take_due s (some r, t) = if t.stray then fault panicked else elim (get_elem? t.store r) [
  | none ↦ fault panicked
  | some i ↦ fire (record s { timers = t }) r i
]

-- The loop, on fuel: a round takes one instance off the queue and puts none on it.
unfoldable pub fire_due : ℕ → FsmSet → Handled
fire_due zero s = done (s, none)
fire_due (suc fuel) s = elim (peek s.timers) [
  | none ↦ done (s, none)
  | some r ↦ elim (get_elem? s.store r) [
    | none ↦ fault panicked
    | some i ↦
        if ltb_ℤ s.now i.deadline then done (s, none) else elim (take_due s (dequeue s.timers)) [
          | fault f ↦ fault f
          | done (s', some e) ↦ done (s', some e)
          | done (s', none) ↦ fire_due fuel s'
        ]
  ]
]

-- `handleClockTick`.
unfoldable pub handle_clock_tick : FsmSet → Handled
handle_clock_tick s =
    let s₁ = record s { now = add64 s.now (pos 1) } in fire_due (suc (length s.queue)) s₁

-- `processVisitLimit`.
unfoldable pub process_visit_limit : FsmSet → Ref → Instance → Index → Handled
process_visit_limit s r i state = elim (visit s.spec state) [
  | err e ↦ done (s, some e)
  | ok none ↦ done (s, none)
  | ok (some limit) ↦
      if ltb_ℤ (pos 0) limit.value && eqb_ℤ (visits_of (lookup state i.visits)) limit.value
      then elim (raise s i.id limit.raise) [ fault f ↦ fault f | done s' ↦ done (s', none) ]
      else done (s, none)
]

-- The end of `handleEvent`, after `processDeadline`, which may have panicked: the instance lands in the next state.
unfoldable pub land_after : Ref → InstanceId → Index → Index → FsmSet × Option Err → Handled
unfolding file_under unfile
land_after r id current next (s, some e) = done (s, some e)
land_after r id current next (s, none) =
    if s.stray then fault panicked else elim (file_under next id r (unfile current id s.bystate)) [
      | none ↦ fault panicked
      | some b ↦ elim (get_elem? s.store r) [
        | none ↦ fault panicked
        | some i ↦ process_visit_limit (record s { bystate = b }) r i next
      ]
    ]

unfoldable pub land : FsmSet → Ref → InstanceId → Index → Index → Handled
unfolding land_after
land s r id current next = land_after r id current next (process_deadline s r next)

-- The action runs before the transition; its error leads to the state of the error rule.
unfoldable pub run_action : FsmSet → Instance → Signal → Index → Option Action → FsmSet × Index
run_action s i signal next none = (s, next)
run_action s i signal next (some action) =
    let s₁ = record s { actions_run = s.actions_run + 1 } in
    if action s.actions_run i.id i.payload
    then elim (error_next s.spec i.state signal) [
      | err e ↦ (handle_error s₁ e, next)
      | ok alternate ↦ (s₁, alternate)
    ]
    else (s₁, next)

-- `event.data`, where it is not nil.
abbrev pub new_payload : Payload → Payload → Payload
new_payload none old = old
new_payload (some values) old = some values

unfoldable pub act : FsmSet → Event → Ref → Instance → Index → Option Action → Handled
unfolding run_action
act s ev r i next action =
    let payload = new_payload ev.payload i.payload in
    let s₁ = alter s r (λ x. record x { payload = payload }) in
    let (s₂, landing) = run_action s₁ (record i { payload = payload }) ev.signal next action in
    land s₂ r i.id i.state landing

-- The flap detection of `handleEvent`.
unfoldable pub check_flaps : FsmSet → Event → Ref → Instance → Index → Option Action → Handled
check_flaps s ev r i next action = elim (flap s.spec i.state next) [
  | none ↦ act s ev r i next action
  | some limit ↦
      if ltb_ℤ (pos 0) limit.count
      then elim (record_move i.flaps i.state next) [
        | none ↦ fault panicked
        | some h ↦
            let s₁ = alter s r (λ x. record x { flaps = h }) in
            if ltb_ℤ (pos (count h i.state next)) limit.count
            then act s₁ ev r (record i { flaps = h }) next action
            else elim (raise s₁ i.id limit.raise) [ fault f ↦ fault f | done s' ↦ done (s', none) ]
      ]
      else act s ev r i next action
]

-- `handleEvent`.
unfoldable pub handle_event : FsmSet → Event → Handled
handle_event s ev = elim (lookup ev.instance_id s.members) [
  | none ↦ done (s, some (unknown_fsm ev.instance_id))
  | some r ↦ elim (get_elem? s.store r) [
    | none ↦ fault panicked
    | some i ↦ elim (transition s.spec i.state ev.signal) [
      | err e ↦ done (s, some e)
      | ok (next, action) ↦ check_flaps s ev r i next action
    ]
  ]
]

-- A transaction of the channel; a read changes nothing.
unfoldable pub handle : FsmSet → Txn → Handled
handle s clock_tick = handle_clock_tick s
handle s read = done (s, none)
handle s (add initial) = handle_add s initial
handle s (delete id) = handle_delete s id
handle s (send ev) = handle_event s ev

-- The body of the core loop of `run`: an error of the handler goes to `handleError`.
unfoldable pub process : FsmSet → Txn → Outcome FsmSet
process s t = elim (handle s t) [
  | fault f ↦ fault f
  | done (s', none) ↦ done s'
  | done (s', some e) ↦ done (handle_error s' e)
]
