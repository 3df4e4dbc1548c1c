-- ===== src/Workflow.antt =====
-- The models that the controllers run their items on: pkg/controller/pool/fsm.go, with what the
-- models of resources (pkg/controller/resource/fsm.go) and inventories share with it.
pub mod Pool
pub mod Resource
pub mod Inventory
pub mod Swarm
pub mod Ingress
pub mod Compiled
pub mod Lifecycle
pub mod Deadlines
pub mod Polling
mod Tests
use deploykit.Base.{◌≡◌, Option, none, some, Bool, false, List, [], ◌∷◌, if◌then◌else◌}
use deploykit.Base.Int.{ℤ, pos, ltb_ℤ}
use deploykit.Base.Dict.{Dict}
use deploykit.Fsm.Types.{Index, Signal, Action, State, Expiry, Limit, Tick, Options, index_key}
use deploykit.Fsm.Spec.{Spec, transition}
use deploykit.Fsm.Types.{ok}
use deploykit.Fsm.Set.{FsmSet, new_set}

-- The channels that the actions of a model send an instance on.
pub data Channel : Type 0 where
  provision_chan destroy_chan pending_chan ready_chan cleanup_chan : Channel

-- The fields of a state that a literal leaves out.
abbrev pub no_expiry : Expiry
no_expiry = record { ttl = pos 0; raise = pos 0 }

abbrev pub no_limit : Limit
no_limit = record { value = pos 0; raise = pos 0 }

abbrev pub plain : Index → Dict Signal Index → Dict Signal (Option Action) → State
plain index transitions actions = record {
  index = index;
  transitions = transitions;
  actions = actions;
  errors = [];
  ttl = no_expiry;
  visit = no_limit;
}

abbrev pub timed : Index → Expiry → Dict Signal Index → Dict Signal (Option Action) → State
timed index ttl transitions actions = record (plain index transitions actions) { ttl = ttl }

-- The tuning parameters of a model: `ModelProperties`, and the interval of the global observer.
pub record ModelOptions : Type 0 where
  pub wait_before_provision : Tick
  pub wait_before_destroy : Tick
  pub observe_interval : ℤ
  pub fsm_options : Options

abbrev pub second : ℤ
second = pos 1000000000

-- The loop over the observation intervals, and the test against the global one.
unfoldable pub longest : ℤ → List ℤ → ℤ
longest size [] = size
longest size (interval ∷ more) = longest (if ltb_ℤ size interval then interval else size) more

unfoldable pub tick_size : List ℤ → ℤ → ℤ
unfolding longest
tick_size intervals global =
    let size = longest second intervals in if ltb_ℤ size global then global else size

-- `type Model`. `set` is nil until the model is started; `channels_open` says that the channels are.
pub record Model : Type 0 where
  pub spec : Spec
  pub set : Option FsmSet
  pub tick_size : ℤ
  pub options : Options
  pub channels_open : Bool

-- `Start` and `Stop`. The clock is what puts ticks among the transactions of the set.
unfoldable pub start : Model → Model
start m = elim m.set [ none ↦ record m { set = some (new_set m.spec m.options) } | some s ↦ m ]

unfoldable pub stop : Model → Model
stop m = elim m.set [ none ↦ m | some s ↦ record m { set = none; channels_open = false } ]

-- A state leads to another where signals take the machine from the one to the other.
pub data Leads (s : Spec) : Index → Index → Type 0 where
  stay : {i : Index} → Leads s i i
  move :
      {i j k : Index} (x : Signal) {a : Option Action}
      → transition s i x ≡ ok (j, a)
      → Leads s j k
      → Leads s i k
