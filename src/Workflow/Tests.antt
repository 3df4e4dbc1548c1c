-- ===== src/Workflow/Tests.antt =====
-- Runs of the machines, and the theorems at concrete options.
use deploykit.Base.{◌≡◌, refl, Option, none, some, Bool, true, false, List, [], ◌∷◌, arith}
use deploykit.Base.Int.{pos, ℤ-discrete}
use deploykit.Base.Dict.{lookup, has}
use deploykit.Fsm.Types.{Action, default_options, index_key}
use deploykit.Fsm.Spec.{transition}
use deploykit.Fsm.Set.{FsmSet, new_set}
use deploykit.Workflow.{Channel, provision_chan, ModelOptions, Model, tick_size, start}
use deploykit.Workflow.Pool
use deploykit.Workflow.Resource
use deploykit.Workflow.Inventory
use deploykit.Workflow.Swarm
use deploykit.Workflow.Ingress
use deploykit.Workflow.Compiled.{IsBuilt, Compiles, build_models-IsBuilt}
use deploykit.Workflow.Lifecycle.{Ends, machines-Ends, Sends, transition-Sends}
use deploykit.Workflow.Deadlines.{lapse, lapse_lem}
use deploykit.Workflow.Polling.{poll_rounds, poll_rounds_lem, synced_machine, ingress_spec-ok}

-- The actions return nil.
abbrev sends : Channel → Action
sends channel n id payload = false

abbrev quiet : Action
quiet n id payload = false

abbrev options : ModelOptions
options = record {
  wait_before_provision = pos 3;
  wait_before_destroy = pos 3;
  observe_interval = pos 5000000000;
  fsm_options = default_options "pool";
}

longest_interval : tick_size (pos 2 ∷ pos 7000000000 ∷ []) (pos 3) ≡ pos 7000000000
unfolding tick_size
longest_interval = refl

build_models-IsBuilt_example :
    IsBuilt (Pool.build_model sends options (pos 2))
    × IsBuilt (Resource.build_model sends options [])
    × IsBuilt (Inventory.build_model (λ c. quiet) [] (pos 2))
    × Compiles (Swarm.build_spec quiet quiet Swarm.default_model_properties)
    × Compiles Ingress.state_machine_spec
build_models-IsBuilt_example =
    build_models-IsBuilt sends (λ c. quiet) quiet quiet options Swarm.default_model_properties
      (pos 2) []

-- The model that is built, and the set that Start makes of it.
abbrev model : Model
model = record {
  spec = Pool.machine sends options;
  set = none;
  tick_size = pos 5000000000;
  options = default_options "pool";
  channels_open = true;
}

abbrev started : FsmSet
started = new_set model.spec model.options

machines-Ends_example :
    Ends (Pool.machine sends options) Pool.cannot_terminate Pool.terminated
    × Ends (Resource.machine sends options) Resource.cannot_terminate Resource.terminated
machines-Ends_example = machines-Ends sends options

transition-Sends_example :
    Sends sends Pool.throttled Pool.provision Pool.provisioning (some (sends provision_chan))
unfolding transition lookup has ℤ-discrete
transition-Sends_example = transition-Sends sends options Pool.throttled Pool.provision refl

lapse_lem_example :
    let after = lapse 3 (Swarm.machine quiet quiet Swarm.default_model_properties) in
    (after Swarm.start ≡ ([], Swarm.done))
    × (after Swarm.matched_instance ≡ (quiet ∷ [], Swarm.done))
    × (after Swarm.pending_instance_destroy ≡ (quiet ∷ [], Swarm.done))
    × (after Swarm.swarm_node_down ≡ (quiet ∷ [], Swarm.done))
    × (after Swarm.matched_docker_node ≡ (quiet ∷ [], Swarm.done))
    × (after Swarm.removed_instance ≡ ([], Swarm.done))
lapse_lem_example = lapse_lem quiet quiet Swarm.default_model_properties 0 (record {
  no_data = ground arith;
  docker_node_join = ground arith;
  wait_describe_instances = ground arith;
  wait_before_instance_destroy = ground arith;
  wait_before_reprovision = ground arith;
  wait_before_cleanup = ground arith;
})

-- A ready worker is reported as an error, although its signal is sent.
ready_worker :
    Swarm.found_node (some (record { is_ready = true; is_manager = false; reachable = none }))
    ≡ (some Swarm.docker_node_ready, true)
unfolding Swarm.found_node
ready_worker = refl

-- Leader twice, then a follower, then an error, then the leader again.
abbrev answers : List (Option Bool)
answers = some true ∷ some true ∷ some false ∷ none ∷ some true ∷ []

poll_rounds_lem_example :
    poll_rounds (synced_machine quiet) (Ingress.follower, 0) answers ≡ (Ingress.waiting, 3)
poll_rounds_lem_example = poll_rounds_lem quiet answers (ingress_spec-ok quiet)
