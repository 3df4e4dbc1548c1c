-- ===== src/Workflow/Polling.antt =====
-- pkg/controller/ingress/fsm.go, init: the poller of the controller of load balancers, with Run of
-- pkg/controller/internal/poll.go.
use deploykit.Base.{
  ℕ, suc, ◌+◌, ◌≡◌, ◌∙◌, refl, sym, Option, none, some, Bool, true, false, List, [], ◌∷◌, arith,
  if◌then◌else◌,
}
use deploykit.Base.Int.{ℤ-discrete}
use deploykit.Base.Dict.{lookup, insert, has}
use deploykit.Fsm.Types.{Index, Signal, Action, Result, ok, err, ◌>>=◌, index_key, ok_inj}
use deploykit.Fsm.Spec.{Spec, set_action, transition}
use deploykit.Workflow.Compiled.{define-ingress_machine}
use deploykit.Workflow.Ingress.{
  waiting, syncing, follower, start, sync, lead, follow, machine, syncing_state, state_machine_spec,
}

-- The spec of the process, where `synchronize` is the closure that syncs routes, backends and
-- health checks; it logs their errors and returns nil.
unfoldable pub ingress_spec : Action → Result Spec
unfolding state_machine_spec set_action
ingress_spec synchronize = do
  spec ← state_machine_spec
  set_action spec syncing sync (some synchronize)

abbrev runs : Option Action → ℕ
runs none = 0
runs (some a) = 1

-- A signal to the singleton: its state, and how often the action ran. A signal that the state has
-- no transition for changes nothing.
unfoldable pub signal_singleton : Spec → Index × ℕ → Signal → Index × ℕ
unfolding transition
signal_singleton spec (state, count) signal = elim (transition spec state signal) [
  | err e ↦ (state, count)
  | ok (next, a) ↦ (next, count + runs a)
]

-- `mustTrue(c.isLeader())`: `none` is an error, or a leader check that is missing.
abbrev pub must_true : Option Bool → Bool
must_true none = false
must_true (some v) = v

-- A round of the poller: whether it should run, then its work. The signals that a round sends are
-- transactions of the set, taken in their order.
unfoldable pub poll_once : Spec → Index × ℕ → Option Bool → Index × ℕ
unfolding signal_singleton
poll_once spec c leader =
    if must_true leader
    then signal_singleton spec (signal_singleton spec (signal_singleton spec c lead) start) sync
    else signal_singleton spec c follow

unfoldable pub poll_rounds : Spec → Index × ℕ → List (Option Bool) → Index × ℕ
unfolding poll_once
poll_rounds spec c [] = c
poll_rounds spec c (leader ∷ more) = poll_rounds spec (poll_once spec c leader) more

-- How many rounds found the node to be the leader.
abbrev pub led : List (Option Bool) → ℕ
led [] = 0
led (leader ∷ more) = if must_true leader then suc (led more) else led more

-- The state that a round leaves.
abbrev pub resting : Bool → Index
resting leads = if leads then waiting else follower

abbrev pub last_leads : Bool → List (Option Bool) → Bool
last_leads leads [] = leads
last_leads leads (leader ∷ more) = last_leads (must_true leader) more

abbrev pub synced_machine : Action → Spec
unfolding insert ℤ-discrete
synced_machine synchronize =
    let s = machine in
    record s {
      states =
          insert syncing (record syncing_state { actions = (sync, some synchronize) ∷ [] })
            s.states;
    }

pub ingress_spec-ok :
    (synchronize : Action) → ingress_spec synchronize ≡ ok (synced_machine synchronize)
unfolding ingress_spec state_machine_spec set_action lookup insert ℤ-discrete
ingress_spec-ok synchronize = rw define-ingress_machine refl

poll_once_machine :
    (synchronize : Action) (leads : Bool) (count : ℕ) (leader : Option Bool)
    → poll_once (synced_machine synchronize) (resting leads, count) leader
      ≡ (resting (must_true leader), if must_true leader then count + 1 else count)
unfolding poll_once signal_singleton transition has lookup insert ℤ-discrete
poll_once_machine synchronize true count (some true) = ground arith
poll_once_machine synchronize false count (some true) = ground arith
poll_once_machine synchronize true count (some false) = ground arith
poll_once_machine synchronize false count (some false) = ground arith
poll_once_machine synchronize true count none = ground arith
poll_once_machine synchronize false count none = ground arith

rounds_machine :
    (synchronize : Action) (leads : Bool) (count : ℕ) (leaders : List (Option Bool))
    → poll_rounds (synced_machine synchronize) (resting leads, count) leaders
      ≡ (resting (last_leads leads leaders), count + led leaders)
unfolding poll_rounds
rounds_machine synchronize leads count [] = ground arith
rounds_machine synchronize leads count (leader ∷ more) =
    rw (poll_once_machine synchronize leads count leader) (
      rounds_machine synchronize (must_true leader) (if must_true leader then count + 1 else count)
        more
      ∙ ground arith)

-- After any rounds of the ingress controller's poller, from the state of a follower, the machine
-- waits if the last round found the node to be the leader, and is a follower otherwise, and the
-- syncing ran once for each round that found it to be the leader, and for no other.
pub poll_rounds_lem :
    (synchronize : Action) (leaders : List (Option Bool)) {spec : Spec}
    → ingress_spec synchronize ≡ ok spec
    → poll_rounds spec (follower, 0) leaders ≡ (resting (last_leads false leaders), led leaders)
poll_rounds_lem synchronize leaders e =
    let same = ok_inj (sym (ingress_spec-ok synchronize) ∙ e) in
    rw (← same, rounds_machine synchronize false 0 leaders) (ground arith)
