-- ===== src/Fsm/Flap/Tests.antt =====
-- Oscillations of a small machine, and the theorems on them.
use deploykit.Base.{◌≡◌, refl, none, some, true, [], ◌∷◌, All}
use deploykit.Base.Int.{pos, eqb_ℤ, ℤ-discrete}
use deploykit.Base.Dict.{lookup, insert, has}
use deploykit.Fsm.Types.{Index, Flap, State, ok, index_key}
use deploykit.Fsm.Spec.{Spec}
use deploykit.Fsm.Flap.{
  History, flap, flap_key, collect_flaps, check_flapping, equals, last_two, record_move, count,
}
use deploykit.Fsm.Flap.Watch.{check_flapping_lem, last_check}
use deploykit.Fsm.Flap.Oscillation.{oscillate, alternate, count-oscillate}

abbrev plain : Index → State
plain i = record {
  index = i;
  transitions = [];
  actions = [];
  errors = [];
  ttl = record { ttl = pos 0; raise = pos 0 };
  visit = record { value = pos 0; raise = pos 0 };
}

abbrev two_states : Spec
two_states = record {
  states = (pos 0, plain (pos 0)) ∷ (pos 1, plain (pos 1)) ∷ [];
  signals = [];
  flaps = [];
}

abbrev watched : Flap
watched = record { first = pos 1; second = pos 0; count = pos 3; raise = pos 9 }

abbrev watching : Spec
watching = record two_states { flaps = ((pos 0, pos 1), watched) ∷ [] }

check_flapping_run : check_flapping two_states (watched ∷ []) ≡ ok watching
unfolding check_flapping collect_flaps has lookup insert flap_key ℤ-discrete
check_flapping_run = refl

check_flapping_example :
    All {A = Flap}
      (λ c. (has c.first two_states.states ≡ true) × (has c.second two_states.states ≡ true))
      (watched ∷ [])
    × ((a b : Index) → flap watching a b ≡ last_check a b (watched ∷ []) none)
check_flapping_example = check_flapping_lem two_states (watched ∷ []) watching check_flapping_run

-- A move that does not go back empties the history.
record_move_hop : record_move (pos 0 ∷ pos 1 ∷ []) (pos 1) (pos 2) ≡ some []
unfolding record_move last_two equals eqb_ℤ ℤ-discrete
record_move_hop = refl

count-oscillate_example :
    (h : History) × (oscillate 4 (pos 0) (pos 1) [] ≡ some h)
    × (h ≡ alternate 5 (pos 0) (pos 1))
    × (count h (pos 0) (pos 1) ≡ 2)
count-oscillate_example = count-oscillate 3 (pos 0) (pos 1)
