-- ===== src/Workflow/Swarm.antt =====
-- pkg/controller/gc/model/swarm/fsm.go: the states of a node of a swarm and its instance.
use deploykit.Base.{
  Bool, false, not, ◌&&◌, is_some, if◌then◌else◌, Option, none, some, true, List, [], ◌∷◌,
}
use deploykit.Base.Int.{pos}
use deploykit.Fsm.Types.{Index, Signal, Action, State, Tick, Result, index_key}
use deploykit.Fsm.Spec.{Spec, new_spec, define}
use deploykit.Fsm.Spec.Define.{by_index}
use deploykit.Workflow.{plain, timed}

abbrev pub docker_node_ready : Signal
docker_node_ready = pos 0

abbrev pub docker_node_down : Signal
docker_node_down = pos 1

abbrev pub docker_node_gone : Signal
docker_node_gone = pos 2

abbrev pub instance_ok : Signal
instance_ok = pos 3

abbrev pub instance_gone : Signal
instance_gone = pos 4

abbrev pub timeout : Signal
timeout = pos 5

abbrev pub reap : Signal
reap = pos 6

abbrev pub start : Index
start = pos 0

abbrev pub matched_instance : Index
matched_instance = pos 1

abbrev pub matched_docker_node : Index
matched_docker_node = pos 2

abbrev pub swarm_node : Index
swarm_node = pos 3

abbrev pub swarm_node_ready : Index
swarm_node_ready = pos 4

abbrev pub swarm_node_down : Index
swarm_node_down = pos 5

abbrev pub pending_instance_destroy : Index
pending_instance_destroy = pos 6

abbrev pub removed_instance : Index
removed_instance = pos 7

abbrev pub done : Index
done = pos 8

-- The fields of `modelProperties` that are ticks.
pub record ModelProperties : Type 0 where
  pub no_data : Tick
  pub docker_node_join : Tick
  pub wait_describe_instances : Tick
  pub wait_before_instance_destroy : Tick
  pub wait_before_reprovision : Tick
  pub wait_before_cleanup : Tick

abbrev pub default_model_properties : ModelProperties
default_model_properties = record {
  no_data = pos 10;
  docker_node_join = pos 5;
  wait_describe_instances = pos 5;
  wait_before_instance_destroy = pos 3;
  wait_before_reprovision = pos 10;
  wait_before_cleanup = pos 10;
}

-- What FoundNode reads of a node: whether its state is ready, whether its role is a manager, and
-- whether the manager is reachable, if it has a status.
pub record Node : Type 0 where
  pub is_ready : Bool
  pub is_manager : Bool
  pub reachable : Option Bool

-- The signal of the switch over the status of a ready manager.
abbrev manager_signal : Option Bool → Option Signal
manager_signal none = none
manager_signal (some true) = some docker_node_ready
manager_signal (some false) = some docker_node_down

-- `FoundNode`: the signal that it sends, and whether it returns an error; `none` is a description
-- without a node in its properties.
unfoldable pub found_node : Option Node → Option Signal × Bool
found_node none = (none, true)
found_node (some node) =
    if not node.is_ready
    then (some docker_node_down, false)
    else if node.is_manager && is_some node.reachable
    then (manager_signal node.reachable, false)
    else (some docker_node_ready, true)

module _ (instance_destroy docker_node_rm : Action) (p : ModelProperties) where
  abbrev start_state : State
  start_state =
      timed start (record { ttl = p.no_data; raise = timeout })
        ((docker_node_ready, matched_docker_node)
          ∷ (docker_node_down, matched_docker_node)
          ∷ (instance_ok, matched_instance)
          ∷ (timeout, removed_instance)
          ∷ [])
        []

  abbrev matched_instance_state : State
  matched_instance_state =
      timed matched_instance (record { ttl = p.docker_node_join; raise = docker_node_gone })
        ((docker_node_ready, swarm_node)
          ∷ (docker_node_down, swarm_node)
          ∷ (docker_node_gone, pending_instance_destroy)
          ∷ (instance_gone, removed_instance)
          ∷ [])
        ((instance_gone, some (instance_destroy)) ∷ [])

  abbrev pending_instance_destroy_state : State
  pending_instance_destroy_state =
      timed pending_instance_destroy (record { ttl = p.wait_before_instance_destroy; raise = reap })
        ((docker_node_ready, swarm_node)
          ∷ (instance_gone, removed_instance)
          ∷ (reap, removed_instance)
          ∷ [])
        ((instance_gone, some (instance_destroy)) ∷ (reap, some (instance_destroy)) ∷ [])

  abbrev matched_docker_node_state : State
  matched_docker_node_state =
      timed matched_docker_node (record { ttl = p.wait_describe_instances; raise = instance_gone })
        ((instance_ok, swarm_node)
          ∷ (instance_gone, removed_instance)
          ∷ (docker_node_gone, removed_instance)
          ∷ [])
        ((instance_gone, some (docker_node_rm)) ∷ [])

  abbrev swarm_node_state : State
  swarm_node_state =
      plain swarm_node
        ((docker_node_ready, swarm_node_ready)
          ∷ (docker_node_down, swarm_node_down)
          ∷ (docker_node_gone, matched_instance)
          ∷ (instance_gone, matched_docker_node)
          ∷ [])
        []

  abbrev swarm_node_ready_state : State
  swarm_node_ready_state =
      plain swarm_node_ready
        ((docker_node_down, swarm_node_down)
          ∷ (docker_node_gone, matched_instance)
          ∷ (instance_gone, matched_docker_node)
          ∷ [])
        []

  abbrev swarm_node_down_state : State
  swarm_node_down_state =
      timed swarm_node_down (record { ttl = p.wait_before_reprovision; raise = docker_node_gone })
        ((docker_node_ready, swarm_node_ready)
          ∷ (docker_node_gone, pending_instance_destroy)
          ∷ (instance_gone, matched_docker_node)
          ∷ [])
        []

  abbrev removed_instance_state : State
  removed_instance_state =
      timed removed_instance (record { ttl = p.wait_before_cleanup; raise = timeout })
        ((docker_node_down, done) ∷ (timeout, done) ∷ [])
        ((docker_node_down, some (docker_node_rm)) ∷ [])

  abbrev done_state : State
  done_state = plain done [] []

  abbrev pub first_state : State
  first_state = start_state

  abbrev pub more_states : List State
  more_states =
      matched_instance_state ∷ pending_instance_destroy_state ∷ matched_docker_node_state
      ∷ swarm_node_state ∷ swarm_node_ready_state ∷ swarm_node_down_state ∷ removed_instance_state
      ∷ done_state ∷ []

  -- The call of Define in `BuildModel`.
  unfoldable pub build_spec : Result Spec
  unfolding define new_spec
  build_spec = define new_spec first_state more_states

  -- The spec that the states compile to, as the theorems about the machine show.
  abbrev pub machine : Spec
  machine = record {
    states = by_index (first_state ∷ more_states);
    signals =
        (docker_node_ready, docker_node_ready)
        ∷ (docker_node_down, docker_node_down)
        ∷ (instance_ok, instance_ok)
        ∷ (timeout, timeout)
        ∷ (docker_node_gone, docker_node_gone)
        ∷ (instance_gone, instance_gone)
        ∷ (reap, reap)
        ∷ [];
    flaps = [];
  }
