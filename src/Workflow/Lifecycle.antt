-- ===== src/Workflow/Lifecycle.antt =====
-- Pools and resources: which states lead to the end of an instance's life, and what is sent where.
use deploykit.Base.{◌≡◌, ◌≢◌, ◌↔◌, ◌⊎◌, refl, subst, Option, none, some, List, [], ◌∷◌, arith, All}
use deploykit.Base.Int.{ℤ-discrete}
use deploykit.Base.Dict.{lookup, has, All-lookup}
use deploykit.Fsm.Types.{Index, Signal, Action, Result, ok, ok_inj, ◌>>=◌, >>=-eq-ok, index_key}
use deploykit.Fsm.Spec.{Spec, transition, flatten_action}
use deploykit.Fsm.Spec.Transition.{transition-ok}
use deploykit.Workflow.{Channel, provision_chan, destroy_chan, ModelOptions, Leads, stay, move}
use deploykit.Workflow.Compiled.{◌&◌}
use deploykit.Workflow.Pool
use deploykit.Workflow.Resource

-- What holds of the rows of a table holds of the transitions that are taken.
pub transition_row :
    (P : Index → Signal → Index → Option Action → Type 0) (s : Spec) {i n : Index} (x : Signal)
    {a : Option Action}
    → All
        (λ e. All (λ t. P e.0 t.0 t.1 (flatten_action (lookup t.0 e.1.actions))) e.1.transitions)
        s.states
    → transition s i x ≡ ok (n, a)
    → P i x n a
transition_row P s {i} {n} x {a} h e =
    let (st, p, q, r) = transition-ok s i x e in
    rw r (
      All-lookup (λ t. P i t.0 t.1 (flatten_action (lookup t.0 st.actions))) x st.transitions
        (All-lookup
          (λ e. All (λ t. P e.0 t.0 t.1 (flatten_action (lookup t.0 e.1.actions))) e.1.transitions)
          i s.states h p)
        q)

-- The state after a list of signals, each of which is accepted.
abbrev pub follow_signals : Spec → Index → List Signal → Result Index
follow_signals s i [] = ok i
follow_signals s i (x ∷ xs) = transition s i x >>= λ r. follow_signals s r.0 xs

pub Leads-follow_signals :
    (s : Spec) (i : Index) (xs : List Signal) {j : Index}
    → follow_signals s i xs ≡ ok j
    → Leads s i j
Leads-follow_signals s i [] e = subst (Leads s i) (ok_inj e) stay
Leads-follow_signals s i (x ∷ xs) e =
    let (r, p, q) = >>=-eq-ok (transition s i x) _ e in move x p (Leads-follow_signals s r.0 xs q)

-- A state without a transition leads to itself only.
pub Leads-eq :
    (s : Spec) {i j : Index}
    → ((x : Signal) (r : Index × Option Action) → transition s i x ≢ ok r)
    → Leads s i j
    → i ≡ j
Leads-eq s h stay = refl
Leads-eq s h (move x e w) = absurd (h x _ e)

-- Every state leads to `last`, but for `stuck`.
abbrev pub Ends : Spec → Index → Index → Type 0
Ends s stuck last = All (λ e. Leads s e.0 last ↔ (e.0 ≢ stuck)) s.states

Leads-last :
    (s : Spec) (stuck i last : Index) (xs : List Signal)
    → i ≢ stuck
    → follow_signals s i xs ≡ ok last
    → Leads s i last ↔ (i ≢ stuck)
Leads-last s stuck i last xs h e = (λ w. h, λ k. Leads-follow_signals s i xs e)

stuck_iff :
    (s : Spec) (stuck last : Index)
    → ((x : Signal) (r : Index × Option Action) → transition s stuck x ≢ ok r)
    → stuck ≢ last
    → Leads s stuck last ↔ (stuck ≢ stuck)
stuck_iff s stuck last h n = (λ w. absurd (n (Leads-eq s h w)), λ k. absurd (k refl))

-- In the machines of pools and of resources every state but that of a failed termination leads
-- by some signals to the terminated state, and that one does not.
pub machines-Ends :
    (send : Channel → Action) (o : ModelOptions)
    → Ends (Pool.machine send o) Pool.cannot_terminate Pool.terminated
      × Ends (Resource.machine send o) Resource.cannot_terminate Resource.terminated
unfolding transition lookup has ℤ-discrete
machines-Ends send o = (pool_ends, resource_ends)
  where
    pool_ends : Ends (Pool.machine send o) Pool.cannot_terminate Pool.terminated
    pool_ends =
        (Leads-last _ _ _ _ (Pool.resource_found ∷ Pool.terminate ∷ Pool.resource_lost ∷ [])
          (ground arith) refl)
        & (Leads-last _ _ _ _ (Pool.resource_found ∷ Pool.terminate ∷ Pool.resource_lost ∷ [])
            (ground arith) refl)
        & (Leads-last _ _ _ _ (Pool.resource_found ∷ Pool.terminate ∷ Pool.resource_lost ∷ [])
            (ground arith) refl)
        & (Leads-last _ _ _ _ (Pool.resource_lost ∷ []) (ground arith) refl)
        & (Leads-last _ _ _ _ (Pool.resource_lost ∷ []) (ground arith) refl)
        & (Leads-last _ _ _ _
            (Pool.dependency_ready ∷ Pool.resource_found ∷ Pool.terminate ∷ Pool.resource_lost ∷ [])
            (ground arith) refl)
        & (Leads-last _ _ _ _ (Pool.resource_lost ∷ []) (ground arith) refl)
        & (Leads-last _ _ _ _ (Pool.terminate ∷ Pool.resource_lost ∷ []) (ground arith) refl)
        & (Leads-last _ _ _ _ (Pool.resource_found ∷ Pool.terminate ∷ Pool.resource_lost ∷ [])
            (ground arith) refl)
        & (stuck_iff _ _ _ (λ x r e. absurd (cc)) (ground arith))
        & (Leads-last _ _ _ _ (Pool.terminate ∷ Pool.resource_lost ∷ []) (ground arith) refl)
        & (Leads-last _ _ _ _ ([]) (ground arith) refl)
        & tt

    resource_ends : Ends (Resource.machine send o) Resource.cannot_terminate Resource.terminated
    resource_ends =
        (Leads-last _ _ _ _
          (Resource.resource_found ∷ Resource.terminate ∷ Resource.resource_lost ∷ [])
          (ground arith) refl)
        & (Leads-last _ _ _ _
            (Resource.resource_found ∷ Resource.terminate ∷ Resource.resource_lost ∷ [])
            (ground arith) refl)
        & (Leads-last _ _ _ _ (Resource.resource_lost ∷ []) (ground arith) refl)
        & (Leads-last _ _ _ _
            (Resource.dependency_ready ∷ Resource.resource_found ∷ Resource.terminate
              ∷ Resource.resource_lost ∷ [])
            (ground arith) refl)
        & (Leads-last _ _ _ _ (Resource.resource_lost ∷ []) (ground arith) refl)
        & (Leads-last _ _ _ _ (Resource.terminate ∷ Resource.resource_lost ∷ []) (ground arith)
            refl)
        & (Leads-last _ _ _ _
            (Resource.resource_found ∷ Resource.terminate ∷ Resource.resource_lost ∷ [])
            (ground arith) refl)
        & (stuck_iff _ _ _ (λ x r e. absurd (cc)) (ground arith))
        & (Leads-last _ _ _ _ (Resource.terminate ∷ Resource.resource_lost ∷ []) (ground arith)
            refl)
        & (Leads-last _ _ _ _ ([]) (ground arith) refl)
        & tt

abbrev pub Sends : (Channel → Action) → Index → Signal → Index → Option Action → Type 0
Sends send i x n a =
    (n ≡ Pool.terminating → a ≡ some (send destroy_chan))
    × (n ≡ Pool.provisioning
        → (a ≡ some (send provision_chan))
          ⊎ ((a ≡ none) × (x ≡ Pool.resource_lost) × ((i ≡ Pool.requested) ⊎ (i ≡ Pool.throttled))))

-- In the machine of a pool, a transition into the state that waits for a destruction sends the
-- instance on the channel of destructions, and one into the state that waits for a provisioning
-- sends it on the channel of provisionings, unless the instance was requested or throttled and
-- its resource is reported lost: then nothing is sent.
pub transition-Sends :
    (send : Channel → Action) (o : ModelOptions) (i : Index) (x : Signal) {n : Index}
    {a : Option Action}
    → transition (Pool.machine send o) i x ≡ ok (n, a)
    → Sends send i x n a
unfolding lookup ℤ-discrete
transition-Sends send o i x e = transition_row (Sends send) (Pool.machine send o) x (ground arith) e
