-- ===== src/Workflow/Deadlines.antt =====
-- pkg/controller/gc/model/swarm/fsm.go: what the deadlines of a machine lead to, and FoundNode.
use deploykit.Base.{ℕ, zero, suc, ◌≡◌, refl, Option, none, some, List, [], ◌∷◌, arith}
use deploykit.Base.Int.{pos, ◌<ℤ◌, ℤ-discrete}
use deploykit.Base.Dict.{lookup, has}
use deploykit.Fsm.Types.{Index, Action, ok, err, index_key}
use deploykit.Fsm.Spec.{Spec, expiry, transition}
use deploykit.Workflow.Swarm.{
  ModelProperties, machine, start, matched_instance, matched_docker_node, pending_instance_destroy,
  removed_instance, swarm_node_down, done,
}

-- An action that is there is run.
abbrev with_action : Option Action → List Action → List Action
with_action none actions = actions
with_action (some a) actions = a ∷ actions

-- The actions that run, and the state, where no signal arrives but those that deadlines raise;
-- `n` bounds the number of deadlines.
unfoldable pub lapse : ℕ → Spec → Index → List Action × Index
unfolding expiry transition
lapse zero s i = ([], i)
lapse (suc n) s i = elim (expiry s i) [
  | err e ↦ ([], i)
  | ok none ↦ ([], i)
  | ok (some rule) ↦ elim (transition s i rule.raise) [
    | err e ↦ ([], i)
    | ok (next, a) ↦ let (actions, last) = lapse n s next in (with_action a actions, last)
  ]
]

pub record IsPositive (p : ModelProperties) : Type 0 where
  pub no_data : pos 0 <ℤ p.no_data
  pub docker_node_join : pos 0 <ℤ p.docker_node_join
  pub wait_describe_instances : pos 0 <ℤ p.wait_describe_instances
  pub wait_before_instance_destroy : pos 0 <ℤ p.wait_before_instance_destroy
  pub wait_before_reprovision : pos 0 <ℤ p.wait_before_reprovision
  pub wait_before_cleanup : pos 0 <ℤ p.wait_before_cleanup

module _ (destroy remove : Action) (p : ModelProperties) where
  lapse-done : (n : ℕ) → lapse n (machine destroy remove p) done ≡ ([], done)
  unfolding lapse lookup ℤ-discrete
  lapse-done zero = refl
  lapse-done (suc n) = refl

  lapse_removed :
      (n : ℕ)
      → IsPositive p
      → lapse (suc n) (machine destroy remove p) removed_instance ≡ ([], done)
  unfolding lapse lookup has ℤ-discrete
  lapse_removed n h = ground (arith, lapse-done n)

  lapse_pending :
      (n : ℕ)
      → IsPositive p
      → lapse (suc (suc n)) (machine destroy remove p) pending_instance_destroy
        ≡ (destroy ∷ [], done)
  unfolding lapse lookup has ℤ-discrete
  lapse_pending n h = ground (arith, lapse_removed n)

  -- With positive ticks and no signals but those of deadlines, the machine of a swarm node comes
  -- to its last state within three deadlines from every state but those of a node that is
  -- matched with its instance and not down, and on the way it destroys the instance once where
  -- the instance was seen, removes the node once where only the node was seen, and runs no
  -- action where neither was or the instance is removed.
  pub lapse_lem :
      (n : ℕ)
      → IsPositive p
      → let after = lapse (suc (suc (suc n))) (machine destroy remove p) in
        (after start ≡ ([], done))
        × (after matched_instance ≡ (destroy ∷ [], done))
        × (after pending_instance_destroy ≡ (destroy ∷ [], done))
        × (after swarm_node_down ≡ (destroy ∷ [], done))
        × (after matched_docker_node ≡ (remove ∷ [], done))
        × (after removed_instance ≡ ([], done))
  unfolding lapse lookup has ℤ-discrete
  lapse_lem n h = (
    ground (arith, lapse_removed (suc n)),
    ground (arith, lapse_pending n),
    lapse_pending (suc n) h,
    ground (arith, lapse_pending n),
    ground (arith, lapse_removed (suc n)),
    lapse_removed (suc (suc n)) h,
  )
