-- ===== src/Workflow/Compiled.antt =====
-- BuildModel: the states of every model compile, whatever the options are.
use deploykit.Base.{
  ◌≡◌, ◌⊎◌, refl, sym, subst, true, false, none, List, [], ◌∷◌, arith, inl, inr, All,
}
use deploykit.Base.Int.{ℤ, pos, ltb_ℤ, ℤ-discrete}
use deploykit.Base.Dict.{Dict, lookup, insert, has}
use deploykit.Fsm.Types.{Result, ◌>>=◌, Index, State, Action, Signal, ok, index_key}
use deploykit.Fsm.Spec.{
  Spec, new_spec, collect, check_targets, check_references, check_actions, check_all_actions,
  check_raise, check_limits, compile, define,
}
use deploykit.Fsm.Spec.Define.{IsCompiled, define-IsCompiled}
use deploykit.Workflow.{Channel, Model, ModelOptions}
use deploykit.Workflow.Pool
use deploykit.Workflow.Resource
use deploykit.Workflow.Inventory
use deploykit.Workflow.Inventory.{InventoryChannel}
use deploykit.Workflow.Swarm
use deploykit.Workflow.Swarm.{ModelProperties}
use deploykit.Workflow.Ingress

-- A limit that is not set, or that raises a signal which the state accepts and the table lists.
abbrev IsQuiet : State → Dict Signal Signal → ℤ → Signal → Type 0
IsQuiet st sigs value raise =
    (ltb_ℤ (pos 0) value ≡ false)
    ⊎ ((has raise st.transitions ≡ true) × (insert raise raise sigs ≡ sigs))

check_raise_quiet :
    (st : State) (sigs : Dict Signal Signal) (value : ℤ) (raise : Signal)
    → IsQuiet st sigs value raise
    → check_raise st value raise sigs ≡ ok sigs
unfolding check_raise
check_raise_quiet st sigs value raise (inl p) = rw p refl
check_raise_quiet st sigs value raise (inr (p, q)) = ground arith

check_limits_quiet :
    (sigs : Dict Signal Signal) (m : Dict Index State)
    → All
        (λ e.
          IsQuiet e.1 sigs e.1.ttl.ttl e.1.ttl.raise
          × IsQuiet e.1 sigs e.1.visit.value e.1.visit.raise)
        m
    → check_limits m sigs ≡ ok sigs
unfolding check_limits
check_limits_quiet sigs [] h = refl
check_limits_quiet sigs ((i, st) ∷ m) h =
    rw
      (
        check_raise_quiet st sigs st.ttl.ttl st.ttl.raise h.0.0,
        check_raise_quiet st sigs st.visit.value st.visit.raise h.0.1,
      )
      (check_limits_quiet sigs m h.1)

-- The two forms of a state, and a list of them.
abbrev without : {P Q : Type 0} → ((false ≡ false) ⊎ P) × ((false ≡ false) ⊎ Q)
without = (inl refl, inl refl)

abbrev with_ttl :
    {P Q : Type 0} {sigs : Dict Signal Signal}
    → (P ⊎ ((true ≡ true) × (sigs ≡ sigs))) × ((false ≡ false) ⊎ Q)
with_ttl = (inr (refl, refl), inl refl)

infixr 4 ◌&◌
abbrev pub ◌&◌ : {P Q : Type 0} → P → Q → P × Q
p & q = (p, q)

pub define-pool_machine :
    (send : Channel → Action) (o : ModelOptions)
    → define new_spec (Pool.first_state send o) (Pool.more_states send o) ≡ ok (Pool.machine send o)
unfolding define new_spec insert collect compile check_references check_targets check_all_actions
    check_actions has lookup ℤ-discrete
define-pool_machine send o =
    rw
      (check_limits_quiet (Pool.machine send o).signals (Pool.machine send o).states (
        with_ttl & without & with_ttl & with_ttl & without & without & without & without & without
        & without & with_ttl & with_ttl & tt))
      refl

pub define-resource_machine :
    (send : Channel → Action) (o : ModelOptions)
    → define new_spec (Resource.first_state send o) (Resource.more_states send o)
      ≡ ok (Resource.machine send o)
unfolding define new_spec insert collect compile check_references check_targets check_all_actions
    check_actions has lookup ℤ-discrete
define-resource_machine send o =
    rw
      (check_limits_quiet (Resource.machine send o).signals (Resource.machine send o).states (
        with_ttl & without & without & without & without & without & without & without & with_ttl
        & with_ttl & tt))
      refl

pub define-inventory_machine :
    (send : InventoryChannel → Action)
    → define new_spec (Inventory.first_state send) (Inventory.more_states send)
      ≡ ok (Inventory.machine send)
unfolding define new_spec insert collect compile check_references check_targets check_all_actions
    check_actions has lookup ℤ-discrete
define-inventory_machine send =
    rw
      (check_limits_quiet (Inventory.machine send).signals (Inventory.machine send).states
        (without & without & tt))
      refl

pub define-swarm_machine :
    (destroy remove : Action) (p : ModelProperties)
    → define new_spec (Swarm.first_state destroy remove p) (Swarm.more_states destroy remove p)
      ≡ ok (Swarm.machine destroy remove p)
unfolding define new_spec insert collect compile check_references check_targets check_all_actions
    check_actions has lookup ℤ-discrete
define-swarm_machine destroy remove p =
    rw
      (check_limits_quiet (Swarm.machine destroy remove p).signals
        (Swarm.machine destroy remove p).states
        (with_ttl & with_ttl & with_ttl & with_ttl & without & without & with_ttl & with_ttl
          & without & tt))
      refl

pub define-ingress_machine :
    define new_spec Ingress.first_state Ingress.more_states ≡ ok Ingress.machine
unfolding define new_spec insert collect compile check_references check_targets check_all_actions
    check_actions has lookup ℤ-discrete
define-ingress_machine =
    rw
      (check_limits_quiet Ingress.machine.signals Ingress.machine.states
        (without & without & without & tt))
      refl

-- A model that has not been started, with a spec that Define compiled.
abbrev pub IsBuilt : Result Model → Type 0
IsBuilt r = (m : Model) × (r ≡ ok m) × IsCompiled m.spec × (m.set ≡ none)

abbrev pub Compiles : Result Spec → Type 0
Compiles r = (s : Spec) × (r ≡ ok s) × IsCompiled s

compiled_of :
    (st : State) (more : List State) {s : Spec}
    → define new_spec st more ≡ ok s
    → Compiles (define new_spec st more)
compiled_of st more {s} e = (s, e, define-IsCompiled new_spec st more e)

model_of_spec :
    (r : Result Spec) (f : Spec → Model)
    → Compiles r
    → ((s : Spec) → (f s).spec ≡ s)
    → ((s : Spec) → (f s).set ≡ none)
    → IsBuilt (r >>= λ s. ok (f s))
model_of_spec r f (s, e, c) h k = rw e (f s, refl, subst IsCompiled (sym (h s)) c, k s)

-- Whatever the options, the observation intervals and the actions are, BuildModel of pools, of
-- resources and of inventories returns a model that is not started and whose spec is well formed
-- with its signals known, and the states of the swarm's machine and of the load balancers'
-- machine compile to such a spec.
pub build_models-IsBuilt :
    (send : Channel → Action) (report : InventoryChannel → Action) (destroy remove : Action)
    (o : ModelOptions) (p : ModelProperties) (interval : ℤ) (intervals : List ℤ)
    → IsBuilt (Pool.build_model send o interval)
      × IsBuilt (Resource.build_model send o intervals)
      × IsBuilt (Inventory.build_model report intervals interval)
      × Compiles (Swarm.build_spec destroy remove p)
      × Compiles Ingress.state_machine_spec
unfolding Pool.build_model Resource.build_model Inventory.build_model Swarm.build_spec
    Ingress.state_machine_spec
build_models-IsBuilt send report destroy remove o p interval intervals = (
  model_of_spec _ _
      (compiled_of (Pool.first_state send o) (Pool.more_states send o) (define-pool_machine send o))
      (λ s. refl) (λ s. refl),
  model_of_spec _ _
      (compiled_of (Resource.first_state send o) (Resource.more_states send o)
        (define-resource_machine send o))
      (λ s. refl) (λ s. refl),
  model_of_spec _ _
      (compiled_of (Inventory.first_state report) (Inventory.more_states report)
        (define-inventory_machine report))
      (λ s. refl) (λ s. refl),
  compiled_of (Swarm.first_state destroy remove p) (Swarm.more_states destroy remove p)
      (define-swarm_machine destroy remove p),
  compiled_of Ingress.first_state Ingress.more_states define-ingress_machine,
)
