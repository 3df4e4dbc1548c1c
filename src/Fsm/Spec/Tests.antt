-- ===== src/Fsm/Spec/Tests.antt =====
-- A machine with two states: the theorems at its spec, and runs of `Define` and `transition`.
use deploykit.Base.{◌≡◌, refl, Option, ◌↔◌, some, true, [], ◌∷◌, inl, inr}
use deploykit.Base.Int.{pos, ℤ-discrete}
use deploykit.Base.Dict.{lookup, insert, has}
use deploykit.Fsm.Types.{
  Index, State, Action, Limit, ok, err, duplicate_state, unknown_state, index_key,
}
use deploykit.Fsm.Spec.{
  Spec, new_spec, collect, check_targets, check_references, check_actions, check_all_actions,
  check_limits, compile, define, expiry, visit, error_next, transition,
}
use deploykit.Fsm.Spec.Define.{define_iff, define-IsCompiled, IsCompiled, AllDifferent}
use deploykit.Fsm.Spec.Compile.{AllWellFormed}
use deploykit.Fsm.Spec.Transition.{transition-Raises, moves_known}

abbrev no_limit : Limit
no_limit = record { value = pos 0; raise = pos 0 }

abbrev fails : Action
fails n id payload = true

-- State 0 goes to 1 on signal 7 or after three ticks; an error of the action leads back to 0.
abbrev waiting : State
waiting = record {
  index = pos 0;
  transitions = (pos 7, pos 1) ∷ [];
  actions = (pos 7, some fails) ∷ [];
  errors = (pos 7, pos 0) ∷ [];
  ttl = record { ttl = pos 3; raise = pos 7 };
  visit = record { value = pos 2; raise = pos 7 };
}

-- State 1 goes back to 0 on signal 8.
abbrev running : State
running = record {
  index = pos 1;
  transitions = (pos 8, pos 0) ∷ [];
  actions = [];
  errors = [];
  ttl = record { ttl = pos 0; raise = pos 0 };
  visit = no_limit;
}

abbrev pub machine : Spec
machine = record {
  states = (pos 0, waiting) ∷ (pos 1, running) ∷ [];
  signals = (pos 7, pos 7) ∷ (pos 8, pos 8) ∷ [];
  flaps = [];
}

define-machine : define new_spec waiting (running ∷ []) ≡ ok machine
unfolding define new_spec insert collect compile check_references check_targets check_all_actions
    check_actions check_limits has lookup ℤ-discrete
define-machine = refl

define_twice : define new_spec waiting (waiting ∷ []) ≡ err (duplicate_state (pos 0))
unfolding define new_spec insert collect has lookup ℤ-discrete
define_twice = refl

define_dangling : define new_spec waiting [] ≡ err (unknown_state (pos 1))
unfolding define new_spec insert collect compile check_references check_targets has lookup
    ℤ-discrete
define_dangling = refl

pub machine-IsCompiled : IsCompiled machine
machine-IsCompiled = define-IsCompiled new_spec waiting (running ∷ []) define-machine

define_iff_example :
    ((out : Spec) × (define new_spec waiting (running ∷ []) ≡ ok out))
    ↔ (AllDifferent (pos 0 ∷ pos 1 ∷ []) × AllWellFormed ((pos 0, waiting) ∷ (pos 1, running) ∷ []))
define_iff_example = define_iff new_spec waiting (running ∷ [])

define-IsCompiled_example : IsCompiled machine
define-IsCompiled_example = define-IsCompiled new_spec waiting (running ∷ []) define-machine

transition-Raises_example :
    (r : Index × Option Action) × (transition machine (pos 0) (pos 7) ≡ ok r)
unfolding expiry visit lookup ℤ-discrete
transition-Raises_example =
    transition-Raises machine (pos 0) (pos 7) machine-IsCompiled (inl (waiting.ttl, refl, refl))

moves_known_example : has (pos 0) machine.states ≡ true
unfolding error_next has lookup ℤ-discrete
moves_known_example = moves_known machine (pos 0) (pos 7) (pos 0) machine-IsCompiled (inr refl)
