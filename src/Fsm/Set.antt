-- ===== src/Fsm/Set.antt =====
-- pkg/fsm/set.go: a set of state machine instances, run by one goroutine that takes transactions
-- from a buffered channel. A handler is a function from the set to the set that it leaves.
pub mod Handlers
pub mod Registry
pub mod Invariant
pub mod Preserve
pub mod Events
pub mod Lifecycle
pub mod ClockTick
pub mod Settled
pub mod Room
pub mod Run
mod Tests
use deploykit.Base.{
  ℕ, Option, none, some, Bool, false, List, [], ◌∷◌, ◌++◌, length, if◌then◌else◌, ◌==◌, ltb,
  get_elem?, modify,
}
use deploykit.Base.Int.{ℤ, pos, ltb_ℤ, add64}
use deploykit.Base.Dict.{Dict, lookup, insert, erase, has}
use deploykit.Fsm.Types.{
  Index, Signal, InstanceId, Time, Tick, Payload, State, Options, Expiry, Err, unknown_state,
  unknown_transition, unknown_signal, ok, err, index_key, id_key, default_buffer_size,
}
use deploykit.Fsm.Spec.{Spec, expiry}
use deploykit.Fsm.Queue.{Instance, Ref, Timers, minus_one, enqueue, remove, update}

-- `type event`.
pub record Event : Type 0 where
  pub instance_id : InstanceId
  pub signal : Signal
  pub payload : Payload

-- What the closures on the channel do when they run.
pub data Txn : Type 0 where
  clock_tick read : Txn
  add : Index → Txn
  delete : InstanceId → Txn
  send : Event → Txn

-- `type Set`. `transactions` is the content of the channel, the oldest first; `reported` and
-- `replies` list what was offered on the channel of errors and what was sent to callers of `Add`, and
-- `actions_run` counts the actions that were run.
pub record FsmSet : Type 0 where
  pub options : Options
  pub spec : Spec
  pub now : Time
  pub next : InstanceId
  pub timers : Timers
  pub open timers use *
  pub members : Dict InstanceId Ref
  pub bystate : Dict Index (Dict InstanceId Ref)
  pub transactions : List Txn
  pub reported : List Err
  pub actions_run : ℕ
  pub replies : List InstanceId

-- A handler returns, or waits for ever on a full channel that only its own goroutine empties, or
-- panics: on a nil pointer, on a nil map, or on a place outside a slice.
pub data Fault : Type 0 where
  blocked panicked : Fault

pub data Outcome (A : Type 0) : Type 0 where
  fault : Fault → Outcome A
  done : A → Outcome A

abbrev pub Handled : Type 0
Handled = Outcome (FsmSet × Option Err)

-- The loop of `NewSet` over the states of the spec.
unfoldable pub empty_states : Dict Index State → Dict Index (Dict InstanceId Ref)
empty_states [] = []
empty_states ((i, st) ∷ states) = (i, []) ∷ empty_states states

-- `NewSet`.
unfoldable pub new_set : Spec → Options → FsmSet
unfolding empty_states
new_set spec options = record {
  options = record options {
    buffer_size = if options.buffer_size == 0 then default_buffer_size else options.buffer_size;
  };
  spec = spec;
  now = pos 0;
  next = 0;
  timers = record { store = []; queue = []; stray = false };
  members = [];
  bystate = empty_states spec.states;
  transactions = [];
  reported = [];
  actions_run = 0;
  replies = [];
}

-- A change of the instance at `r`.
abbrev pub alter : FsmSet → Ref → (Instance → Instance) → FsmSet
alter s r f = record s { timers = record (s.timers) { store = modify s.store r f } }

-- Whether the options leave an error out.
abbrev pub is_ignored : Options → Err → Bool
is_ignored o (unknown_state i) = o.ignore_undefined_states
is_ignored o (unknown_transition x i) = o.ignore_undefined_transitions
is_ignored o (unknown_signal x i) = o.ignore_undefined_signals
is_ignored o _ = false

-- `handleError`. Its send does not wait, so the error may still be dropped by the channel.
unfoldable pub handle_error : FsmSet → Err → FsmSet
handle_error s e =
    if is_ignored s.options e then s else record s { reported = s.reported ++ e ∷ [] }

-- A send on the channel of transactions by the goroutine that receives from it.
unfoldable pub push_txn : FsmSet → Txn → Outcome FsmSet
push_txn s t =
    if ltb (length s.transactions) s.options.buffer_size
    then done (record s { transactions = s.transactions ++ t ∷ [] })
    else fault blocked

-- `raise`. Its error, for a signal that the spec does not know, is dropped by every caller.
unfoldable pub raise : FsmSet → InstanceId → Signal → Outcome FsmSet
unfolding push_txn
raise s id signal =
    if has signal s.spec.signals
    then push_txn s (send (record { instance_id = id; signal = signal; payload = none }))
    else done s

abbrev pub visits_of : Option ℤ → ℤ
visits_of none = pos 0
visits_of (some n) = n

-- `instance.update`.
unfoldable pub update_instance : Index → Time → Tick → Instance → Instance
update_instance next now ttl i = record i {
  visits = insert next (add64 (visits_of (lookup next i.visits)) (pos 1)) i.visits;
  state = next;
  start = now;
  deadline = if ltb_ℤ (pos 0) ttl then add64 now ttl else pos 0;
}

-- The end of `processDeadline`: the queue follows the instance's new deadline.
unfoldable pub schedule : Timers → Ref → Timers
schedule t r = elim (get_elem? t.store r) [
  | none ↦ t
  | some i ↦
      if ltb_ℤ minus_one i.index
      then (if ltb_ℤ (pos 0) i.deadline then update t r else remove t r)
      else (if ltb_ℤ (pos 0) i.deadline then enqueue t r else t)
]

abbrev pub ttl_of : Option Expiry → Tick
ttl_of none = pos 0
ttl_of (some e) = e.ttl

-- `processDeadline`.
unfoldable pub process_deadline : FsmSet → Ref → Index → FsmSet × Option Err
unfolding update_instance schedule
process_deadline s r state = elim (expiry s.spec state) [
  | err e ↦ (s, some e)
  | ok rule ↦
      let t = record (s.timers) {
        store = modify s.store r (update_instance state s.now (ttl_of rule));
      } in
      (record s { timers = schedule t r }, none)
]

-- `bystate[state][id] = r`, which panics where `bystate[state]` is nil; and the delete.
unfoldable pub file_under :
    Index
    → InstanceId
    → Ref
    → Dict Index (Dict InstanceId Ref)
    → Option (Dict Index (Dict InstanceId Ref))
file_under state id r b = elim (lookup state b) [
  | none ↦ none
  | some m ↦ some (insert state (insert id r m) b)
]

unfoldable pub unfile :
    Index → InstanceId → Dict Index (Dict InstanceId Ref) → Dict Index (Dict InstanceId Ref)
unfile state id b = elim (lookup state b) [ none ↦ b | some m ↦ insert state (erase id m) b ]
