-- ===== src/Workflow/Pool.antt =====
-- pkg/controller/pool/fsm.go: the states of an instance of a pool.
use deploykit.Base.{none, some, true, List, [], ◌∷◌}
use deploykit.Base.Int.{ℤ, pos}
use deploykit.Fsm.Types.{Index, Signal, Action, State, Result, ok, ◌>>=◌, index_key}
use deploykit.Fsm.Spec.{Spec, new_spec, define}
use deploykit.Fsm.Spec.Define.{by_index}
use deploykit.Workflow.{
  Channel, provision_chan, destroy_chan, pending_chan, ready_chan, cleanup_chan, plain, timed,
  ModelOptions, Model, tick_size,
}

abbrev pub requested : Index
requested = pos 0

abbrev pub provisioning : Index
provisioning = pos 1

abbrev pub waiting : Index
waiting = pos 2

abbrev pub waiting_terminate : Index
waiting_terminate = pos 3

abbrev pub ready : Index
ready = pos 4

abbrev pub cannot_provision : Index
cannot_provision = pos 5

abbrev pub cannot_terminate : Index
cannot_terminate = pos 6

abbrev pub unmatched : Index
unmatched = pos 7

abbrev pub terminating : Index
terminating = pos 8

abbrev pub terminated : Index
terminated = pos 9

abbrev pub throttled : Index
throttled = pos 10

abbrev pub terminate_throttled : Index
terminate_throttled = pos 11

abbrev pub resource_found : Signal
resource_found = pos 12

abbrev pub resource_lost : Signal
resource_lost = pos 13

abbrev pub provision : Signal
provision = pos 14

abbrev pub provision_error : Signal
provision_error = pos 15

abbrev pub dependency_missing : Signal
dependency_missing = pos 16

abbrev pub dependency_ready : Signal
dependency_ready = pos 17

abbrev pub terminate : Signal
terminate = pos 18

abbrev pub terminate_error : Signal
terminate_error = pos 19

abbrev pub cleanup : Signal
cleanup = pos 20

abbrev pub throttle : Signal
throttle = pos 21

module _ (send : Channel → Action) (options : ModelOptions) where
  abbrev requested_state : State
  requested_state =
      timed requested (record { ttl = options.wait_before_provision; raise = provision })
        ((resource_found, ready) ∷ (resource_lost, provisioning) ∷ (provision, provisioning) ∷ [])
        ((provision, some (send provision_chan)) ∷ [])

  abbrev provisioning_state : State
  provisioning_state =
      plain provisioning
        ((dependency_missing, waiting)
          ∷ (resource_found, ready)
          ∷ (throttle, throttled)
          ∷ (provision_error, cannot_provision)
          ∷ [])
        ((dependency_missing, some (send pending_chan))
          ∷ (resource_found, some (send ready_chan))
          ∷ [])

  abbrev throttled_state : State
  throttled_state =
      timed throttled (record { ttl = pos 1; raise = provision })
        ((resource_found, ready) ∷ (resource_lost, provisioning) ∷ (provision, provisioning) ∷ [])
        ((provision, some (send provision_chan)) ∷ [])

  abbrev terminate_throttled_state : State
  terminate_throttled_state =
      timed terminate_throttled (record { ttl = pos 1; raise = terminate })
        ((resource_lost, terminated) ∷ (terminate, terminating) ∷ [])
        ((terminate, some (send destroy_chan)) ∷ [])

  abbrev terminating_state : State
  terminating_state =
      plain terminating
        ((dependency_missing, waiting_terminate)
          ∷ (resource_lost, terminated)
          ∷ (terminate_error, cannot_terminate)
          ∷ (throttle, terminate_throttled)
          ∷ [])
        ((dependency_missing, some (send pending_chan)) ∷ [])

  abbrev waiting_state : State
  waiting_state =
      plain waiting ((dependency_missing, waiting) ∷ (dependency_ready, provisioning) ∷ [])
        ((dependency_ready, some (send provision_chan)) ∷ [])

  abbrev waiting_terminate_state : State
  waiting_terminate_state =
      plain waiting_terminate
        ((dependency_missing, waiting_terminate)
          ∷ (dependency_ready, terminating)
          ∷ (resource_lost, terminated)
          ∷ [])
        ((dependency_ready, some (send destroy_chan)) ∷ [])

  abbrev ready_state : State
  ready_state =
      plain ready
        ((resource_lost, provisioning) ∷ (resource_found, ready) ∷ (terminate, terminating) ∷ [])
        ((resource_lost, some (send provision_chan)) ∷ (terminate, some (send destroy_chan)) ∷ [])

  abbrev cannot_provision_state : State
  cannot_provision_state = plain cannot_provision ((resource_found, ready) ∷ []) []

  abbrev cannot_terminate_state : State
  cannot_terminate_state = plain cannot_terminate [] []

  abbrev unmatched_state : State
  unmatched_state =
      timed unmatched (record { ttl = options.wait_before_destroy; raise = terminate })
        ((terminate, terminating) ∷ []) ((terminate, some (send destroy_chan)) ∷ [])

  abbrev terminated_state : State
  terminated_state =
      timed terminated (record { ttl = options.wait_before_destroy; raise = cleanup })
        ((cleanup, terminated) ∷ []) ((cleanup, some (send cleanup_chan)) ∷ [])

  abbrev pub first_state : State
  first_state = requested_state

  abbrev pub more_states : List State
  more_states =
      provisioning_state ∷ throttled_state ∷ terminate_throttled_state ∷ terminating_state
      ∷ waiting_state ∷ waiting_terminate_state ∷ ready_state ∷ cannot_provision_state
      ∷ cannot_terminate_state ∷ unmatched_state ∷ terminated_state ∷ []

  -- `BuildModel`. The interval is that of the properties.
  unfoldable pub build_model : ℤ → Result Model
  unfolding define tick_size new_spec
  build_model interval = do
    spec ← define new_spec first_state more_states
    ok (record {
      spec = spec;
      set = none;
      tick_size = tick_size (interval ∷ []) options.observe_interval;
      options = options.fsm_options;
      channels_open = true;
    })

  -- The spec that the states compile to, as the theorems about the machine show.
  abbrev pub machine : Spec
  machine = record {
    states = by_index (first_state ∷ more_states);
    signals =
        (resource_found, resource_found)
        ∷ (resource_lost, resource_lost)
        ∷ (provision, provision)
        ∷ (dependency_missing, dependency_missing)
        ∷ (throttle, throttle)
        ∷ (provision_error, provision_error)
        ∷ (terminate, terminate)
        ∷ (terminate_error, terminate_error)
        ∷ (dependency_ready, dependency_ready)
        ∷ (cleanup, cleanup)
        ∷ [];
    flaps = [];
  }
