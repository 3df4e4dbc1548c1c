-- ===== src/Workflow/Inventory.antt =====
-- pkg/controller/inventory/fsm.go: the states of an item of an inventory.
use deploykit.Base.{none, some, true, List, [], ◌∷◌}
use deploykit.Base.Int.{ℤ, pos}
use deploykit.Fsm.Types.{
  Index, Signal, Action, State, Result, ok, ◌>>=◌, default_options, index_key,
}
use deploykit.Fsm.Spec.{Spec, new_spec, define}
use deploykit.Fsm.Spec.Define.{by_index}
use deploykit.Workflow.{plain, Model, tick_size}

abbrev pub found : Index
found = pos 0

abbrev pub lost : Index
lost = pos 1

abbrev pub resource_found : Signal
resource_found = pos 2

abbrev pub resource_lost : Signal
resource_lost = pos 3

pub data InventoryChannel : Type 0 where
  found_chan lost_chan : InventoryChannel

module _ (send : InventoryChannel → Action) where
  abbrev found_state : State
  found_state =
      plain found ((resource_found, found) ∷ (resource_lost, lost) ∷ [])
        ((resource_lost, some (send lost_chan)) ∷ [])

  abbrev lost_state : State
  lost_state =
      plain lost ((resource_found, found) ∷ []) ((resource_found, some (send found_chan)) ∷ [])

  abbrev pub first_state : State
  first_state = found_state

  abbrev pub more_states : List State
  more_states = lost_state ∷ []

  -- `BuildModel`. The intervals are those of all accessors.
  unfoldable pub build_model : List ℤ → ℤ → Result Model
  unfolding define tick_size new_spec
  build_model intervals global = do
    spec ← define new_spec first_state more_states
    ok (record {
      spec = spec;
      set = none;
      tick_size = tick_size intervals global;
      options = default_options "inventory";
      channels_open = true;
    })

  -- The spec that the states compile to, as the theorems about the machine show.
  abbrev pub machine : Spec
  machine = record {
    states = by_index (first_state ∷ more_states);
    signals = (resource_found, resource_found) ∷ (resource_lost, resource_lost) ∷ [];
    flaps = [];
  }
