-- ===== src/Fsm/Set/Tests.antt =====
-- A set over the machine of `Fsm/Spec/Tests.antt`: runs of its two goroutines, and the theorems there.
use deploykit.Base.{◌⊎◌, is_some, true, ◌≡◌, refl, none, false, [], ◌∷◌, arith}
use deploykit.Base.Int.{pos, ◌+ℤ◌, ℤ-discrete, add64}
use deploykit.Base.Dict.{lookup, insert}
use deploykit.Fsm.Types.{Options}
use deploykit.Fsm.Spec.{expiry}
use deploykit.Fsm.Spec.Tests.{machine, machine-IsCompiled}
use deploykit.Fsm.Queue.{Instance, enqueue, up, less, deadline_at}
use deploykit.Fsm.Set.{
  FsmSet, add, done, new_set, empty_states, process_deadline, schedule, update_instance, file_under,
}
use deploykit.Fsm.Types.{Err}
use deploykit.Base.{Option}
use deploykit.Fsm.Set.Settled.{IsSettled}
use deploykit.Fsm.Set.Run.{Reach-handle_clock_tick}
use deploykit.Fsm.Set.Handlers.{handle_clock_tick, process, handle, handle_add, add_after, allocate}
use deploykit.Fsm.Set.Registry.{IsIndexed}
use deploykit.Fsm.Set.Run.{nothing, input, run, Reach, here, next, Reach-new_set}

abbrev options : Options
options = record {
  name = "test";
  buffer_size = 4;
  ignore_undefined_states = false;
  ignore_undefined_transitions = false;
  ignore_undefined_signals = false;
}

abbrev fresh : FsmSet
fresh = new_set machine options

abbrev asked : FsmSet
asked = record fresh { transactions = add (pos 0) ∷ [] }

-- Instance 0 in state 0, due after three ticks, and counted twice as visiting its first state.
abbrev first : Instance
first = record {
  id = 0;
  state = pos 0;
  payload = none;
  flaps = [];
  start = pos 0;
  deadline = pos 3;
  index = pos 0;
  visits = (pos 0, pos 2) ∷ [];
}

abbrev added : FsmSet
added = record fresh {
  next = 1;
  timers = record { store = first ∷ []; queue = 0 ∷ []; stray = false };
  members = (0, 0) ∷ [];
  bystate = (pos 0, (0, 0) ∷ []) ∷ (pos 1, []) ∷ [];
  actions_run = 0;
  replies = 0 ∷ [];
}

process_add : process fresh (add (pos 0)) ≡ done added
unfolding process handle handle_add add_after allocate process_deadline schedule update_instance
    file_under new_set empty_states expiry enqueue up less deadline_at lookup insert ℤ-discrete
    add64 ◌+ℤ◌
process_add = refl

Reach-added : Reach fresh added
unfolding new_set
Reach-added =
    next (next here (ground arith) (input fresh (add (pos 0)) (ground arith))) (ground arith)
      (run asked added (add (pos 0)) [] [] [] refl process_add nothing (ground arith))

Reach-new_set_example : IsIndexed ((0, 0) ∷ []) added.bystate ((0, pos 0) ∷ [])
unfolding new_set
Reach-new_set_example = Reach-new_set machine options added machine-IsCompiled Reach-added

-- One instance waits in the queue, and the channel has room for four transactions.
Reach-handle_clock_tick_example :
    (s' : FsmSet) × (e : Option Err) × (handle_clock_tick added ≡ done (s', e))
    × ((is_some e ≡ true) ⊎ ((s'.now ≡ add64 (pos 0) (pos 1)) × IsSettled s'))
unfolding new_set
Reach-handle_clock_tick_example =
    Reach-handle_clock_tick machine options added machine-IsCompiled Reach-added (ground arith)
