-- ===== src/Workflow/Ingress.antt =====
-- pkg/controller/ingress/fsm.go: the states of the controller of load balancers.
use deploykit.Base.{List, [], ◌∷◌}
use deploykit.Base.Int.{pos}
use deploykit.Fsm.Types.{Index, Signal, State, Result, index_key}
use deploykit.Fsm.Spec.{Spec, new_spec, define}
use deploykit.Fsm.Spec.Define.{by_index}
use deploykit.Workflow.{plain}

abbrev pub waiting : Index
waiting = pos 0

abbrev pub syncing : Index
syncing = pos 1

abbrev pub follower : Index
follower = pos 2

abbrev pub start : Signal
start = pos 0

abbrev pub sync : Signal
sync = pos 1

abbrev pub lead : Signal
lead = pos 2

abbrev pub follow : Signal
follow = pos 3

abbrev waiting_state : State
waiting_state =
    plain waiting ((start, syncing) ∷ (sync, waiting) ∷ (lead, waiting) ∷ (follow, follower) ∷ [])
      []

abbrev pub syncing_state : State
syncing_state = plain syncing ((sync, waiting) ∷ (follow, follower) ∷ (lead, syncing) ∷ []) []

abbrev follower_state : State
follower_state = plain follower ((lead, waiting) ∷ (follow, follower) ∷ []) []

abbrev pub first_state : State
first_state = waiting_state

abbrev pub more_states : List State
more_states = syncing_state ∷ follower_state ∷ []

-- `stateMachineSpec`.
unfoldable pub state_machine_spec : Result Spec
unfolding define new_spec
state_machine_spec = define new_spec first_state more_states

-- The spec that the states compile to, as the theorems about the machine show.
abbrev pub machine : Spec
machine = record {
  states = by_index (first_state ∷ more_states);
  signals = (start, start) ∷ (sync, sync) ∷ (lead, lead) ∷ (follow, follow) ∷ [];
  flaps = [];
}
