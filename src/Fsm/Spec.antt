-- ===== src/Fsm/Spec.antt =====
-- pkg/fsm/fsm.go: the rules of a state machine, their validation and their use.
pub mod Compile
pub mod Limits
pub mod Define
pub mod Transition
pub mod Tests
use deploykit.Base.{Option, none, some, List, [], ◌∷◌, length, if◌then◌else◌, ◌==◌, is_some}
use deploykit.Base.Int.{ℤ, pos, ltb_ℤ}
use deploykit.Base.Dict.{Key, Dict, lookup, insert, has}
use deploykit.Fsm.Types.{
  Index, Signal, Action, State, Expiry, Limit, Flap, duplicate_state, unknown_state,
  unknown_transition, unknown_signal, nil_action, no_transitions, no_such_state, Result, ok, err,
  ◌>>=◌, ◌>>◌, guard, index_key,
}

pub record Spec : Type 0 where
  pub states : Dict Index State
  pub signals : Dict Signal Signal
  pub flaps : List ((Index × Index) × Flap)

unfoldable pub new_spec : Spec
new_spec = record { states = []; signals = []; flaps = [] }

-- The loop of `Define` over `more`.
unfoldable pub collect : Dict Index State → List State → Result (Dict Index State)
collect states [] = ok states
collect states (st ∷ more) =
    let rest = collect (insert st.index st states) more in
    if has st.index states then err (duplicate_state st.index) else rest

-- `compile`, first pass over one map: every target is a state, and the signal is registered.
unfoldable pub check_targets :
    Dict Index State → Dict Signal Index → Dict Signal Signal → Result (Dict Signal Signal)
check_targets m [] sigs = ok sigs
check_targets m ((signal, next) ∷ transfer) sigs =
    let rest = check_targets m transfer (insert signal signal sigs) in
    if has next m then rest else err (unknown_state next)

unfoldable pub check_references :
    Dict Index State → Dict Index State → Dict Signal Signal → Result (Dict Signal Signal)
check_references m [] sigs = ok sigs
check_references m ((_, st) ∷ todo) sigs = do
  sigs₁ ← check_targets m st.transitions sigs
  sigs₂ ← check_targets m st.errors sigs₁
  check_references m todo sigs₂

-- `compile`, second pass: every action belongs to a transition and is not nil.
unfoldable pub check_actions :
    State → Dict Signal Signal → Dict Signal (Option Action) → Result (Unit {0})
check_actions st sigs [] = ok tt
check_actions st sigs ((signal, action) ∷ rest) = do
  guard (has signal st.transitions) (unknown_transition signal st.index)
  guard (is_some action) (nil_action signal)
  guard (has signal sigs) (unknown_signal signal st.index)
  check_actions st sigs rest

unfoldable pub check_all_actions : Dict Signal Signal → Dict Index State → Result (Unit {0})
check_all_actions sigs [] = ok tt
check_all_actions sigs ((_, st) ∷ todo) = do
  check_actions st sigs st.actions
  check_all_actions sigs todo

-- `compile`, third pass: what a TTL and a visit limit raise is registered as well.
unfoldable pub check_raise : State → ℤ → Signal → Dict Signal Signal → Result (Dict Signal Signal)
check_raise st value raise sigs =
    if ltb_ℤ (pos 0) value
    then (if has raise st.transitions
        then ok (insert raise raise sigs)
        else err (unknown_signal raise st.index))
    else ok sigs

unfoldable pub check_limits : Dict Index State → Dict Signal Signal → Result (Dict Signal Signal)
unfolding check_raise
check_limits [] sigs = ok sigs
check_limits ((_, st) ∷ todo) sigs = do
  sigs₁ ← check_raise st st.ttl.ttl st.ttl.raise sigs
  sigs₂ ← check_raise st st.visit.value st.visit.raise sigs₁
  check_limits todo sigs₂

-- `Spec.compile`.
unfoldable pub compile : Dict Index State → Result (Dict Signal Signal)
compile m = do sigs ← check_references m m []; check_all_actions sigs m; check_limits m sigs

-- `Spec.Define`.
unfoldable pub define : Spec → State → List State → Result Spec
define s state more = do
  states ← collect (insert state.index state []) more
  signals ← compile states
  ok (record s { states = states; signals = signals })

-- `Spec.SetAction`.
unfoldable pub set_action : Spec → Index → Signal → Option Action → Result Spec
set_action s state signal action = elim (lookup state s.states) [
  | none ↦ err (no_such_state state)
  | some st ↦
      let st' = record st { actions = insert signal action st.actions } in
      ok (record s { states = insert state st' s.states })
]

-- `Spec.expiry`: the TTL rule of a state; `none` where the TTL is not positive.
unfoldable pub expiry : Spec → Index → Result (Option Expiry)
expiry s current = elim (lookup current s.states) [
  | none ↦ err (unknown_state current)
  | some st ↦ ok (if ltb_ℤ (pos 0) st.ttl.ttl then some st.ttl else none)
]

-- `Spec.visit`: the visit limit of a state.
unfoldable pub visit : Spec → Index → Result (Option Limit)
visit s next = elim (lookup next s.states) [
  | none ↦ err (unknown_state next)
  | some st ↦ ok (if ltb_ℤ (pos 0) st.visit.value then some st.visit else none)
]

-- `Spec.error`: the state that an action's error leads to.
unfoldable pub error_next : Spec → Index → Signal → Result Index
error_next s current signal = elim (lookup current s.states) [
  | none ↦ err (unknown_state current)
  | some st ↦
      if has signal s.signals
      then elim (lookup signal st.errors) [
        | none ↦ err (unknown_transition signal current)
        | some next ↦ ok next
      ]
      else err (unknown_signal signal current)
]

-- A map entry that is missing or nil.
abbrev pub flatten_action : Option (Option Action) → Option Action
flatten_action none = none
flatten_action (some a) = a

-- `Spec.transition`: the next state and its action. A missing action and a nil one are both `none`.
unfoldable pub transition : Spec → Index → Signal → Result (Index × Option Action)
transition s current signal = elim (lookup current s.states) [
  | none ↦ err (unknown_state current)
  | some st ↦
      if length st.transitions == 0
      then err (no_transitions (length s.states))
      else if has signal s.signals
      then elim (lookup signal st.transitions) [
        | none ↦ err (unknown_transition signal st.index)
        | some next ↦ ok (next, flatten_action (lookup signal st.actions))
      ]
      else err (unknown_signal signal (pos 0))
]
