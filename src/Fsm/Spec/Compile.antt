-- ===== src/Fsm/Spec/Compile.antt =====
-- What `compile` accepts: exactly the well-formed state tables, with exactly their signals.
use deploykit.Base.{
  ◌≡◌, inl, inr, refl, Option, Bool, true, false, [], ◌∷◌, arith, ◌||◌, is_some, All, Bool-cases,
  ite,
}
use mathlib.Core.Bool.{or-false}
use deploykit.Base.Int.{ℤ, pos, ◌<ℤ◌, ℤ-discrete}
use deploykit.Base.Dict.{Dict, lookup, insert, has, lookup-insert}
use deploykit.Fsm.Types.{Index, Signal, Action, State, ok, index_key, >>=-eq-ok}
use deploykit.Fsm.Spec.{check_targets, check_references, check_actions, check_all_actions}

-- Every target is a state.
abbrev pub TargetsKnown : Dict Index State → Dict Signal Index → Type 0
TargetsKnown m = All λ e. has e.1 m ≡ true

-- Every action belongs to a transition of its state and is not nil.
abbrev pub ActionsKnown : State → Dict Signal (Option Action) → Type 0
ActionsKnown st = All λ e. (has e.0 st.transitions ≡ true) × (is_some e.1 ≡ true)

-- A limit that is set raises a signal that the state accepts.
abbrev pub RaiseKnown : State → ℤ → Signal → Type 0
RaiseKnown st value raise = pos 0 <ℤ value → has raise st.transitions ≡ true

pub record IsWellFormed (m : Dict Index State) (st : State) : Type 0 where
  pub transitions_known : TargetsKnown m st.transitions
  pub errors_known : TargetsKnown m st.errors
  pub actions_known : ActionsKnown st st.actions
  pub ttl_known : RaiseKnown st st.ttl.ttl st.ttl.raise
  pub visit_known : RaiseKnown st st.visit.value st.visit.raise

abbrev pub AllWellFormed : Dict Index State → Type 0
AllWellFormed m = All (λ e. IsWellFormed m e.1) m

-- Whether some state has a transition or an error rule on the signal.
abbrev pub is_used : Signal → Dict Index State → Bool
is_used x [] = false
is_used x ((_, st) ∷ m) = has x st.transitions || has x st.errors || is_used x m

pub has-insert :
    (a b : ℤ) {V : Type 0} (v : V) (m : Dict ℤ V)
    → has b (insert a v m) ≡ ite (ℤ-discrete a b) true (has b m)
unfolding has
has-insert a b v m = ground (arith, lookup-insert a b v m)

has-cons :
    {V : Type 0} (x a : ℤ) (v : V) (m : Dict ℤ V)
    → has x ((a, v) ∷ m) ≡ ite (ℤ-discrete a x) true (has x m)
unfolding has lookup
has-cons x a v m = ground arith

pub has-nil : (V : Type 0) (x : ℤ) → has {V = V} x [] ≡ false
unfolding has lookup
has-nil V x = refl

-- The first pass over one map: it succeeds on known targets, and registers the signals.
check_targets_total :
    (m : Dict Index State) (t : Dict Signal Index) (sigs : Dict Signal Signal)
    → TargetsKnown m t
    → (out : Dict Signal Signal) × (check_targets m t sigs ≡ ok out)
unfolding check_targets
check_targets_total m [] sigs h = (sigs, refl)
check_targets_total m ((a, n) ∷ t) sigs h =
    let (out, e) = check_targets_total m t (insert a a sigs) h.1 in (out, ground arith)

check_targets_sound :
    (m : Dict Index State) (t : Dict Signal Index) (sigs out : Dict Signal Signal)
    → check_targets m t sigs ≡ ok out
    → TargetsKnown m t × ((x : Signal) → has x out ≡ (has x sigs || has x t))
unfolding check_targets
check_targets_sound m [] sigs out h =
    (tt, λ x. ground (arith, has-nil Index x, or-false (has x sigs)))
check_targets_sound m ((a, n) ∷ t) sigs out h = elim (Bool-cases (has n m)) [
  | inl p ↦
      let (known, same) = check_targets_sound m t (insert a a sigs) out (ground arith) in
      ((p, known), λ x. ground (arith, same x, has-insert a x a sigs, has-cons x a n t))
  | inr p ↦ absurd (ground arith)
]

pub check_references_total :
    (m todo : Dict Index State) (sigs : Dict Signal Signal)
    → All (λ e. IsWellFormed m e.1) todo
    → (out : Dict Signal Signal) × (check_references m todo sigs ≡ ok out)
unfolding check_references
check_references_total m [] sigs h = (sigs, refl)
check_references_total m ((i, st) ∷ todo) sigs h =
    let (s₁, e₁) = check_targets_total m st.transitions sigs h.0.transitions_known in
    let (s₂, e₂) = check_targets_total m st.errors s₁ h.0.errors_known in
    let (s₃, e₃) = check_references_total m todo s₂ h.1 in (s₃, rw (e₁, e₂) e₃)

abbrev pub AllTargetsKnown : Dict Index State → Dict Index State → Type 0
AllTargetsKnown m = All λ e. TargetsKnown m e.1.transitions × TargetsKnown m e.1.errors

pub check_references_sound :
    (m todo : Dict Index State) (sigs out : Dict Signal Signal)
    → check_references m todo sigs ≡ ok out
    → AllTargetsKnown m todo × ((x : Signal) → has x out ≡ (has x sigs || is_used x todo))
unfolding check_references
check_references_sound m [] sigs out h = (tt, λ x. ground (arith, or-false (has x sigs)))
check_references_sound m ((i, st) ∷ todo) sigs out h =
    let (s₁, e₁, h₁) = >>=-eq-ok (check_targets m st.transitions sigs) _ h in
    let (s₂, e₂, h₂) = >>=-eq-ok (check_targets m st.errors s₁) _ h₁ in
    let (k₁, same₁) = check_targets_sound m st.transitions sigs s₁ e₁ in
    let (k₂, same₂) = check_targets_sound m st.errors s₁ s₂ e₂ in
    let (k₃, same₃) = check_references_sound m todo s₂ out h₂ in
    (((k₁, k₂), k₃), λ x. ground (arith, same₁ x, same₂ x, same₃ x))

-- The second pass. Its third test never fails, since a transition's signal is registered.
check_actions_total :
    (st : State) (sigs : Dict Signal Signal) (actions : Dict Signal (Option Action))
    → ((x : Signal) → has x st.transitions ≡ true → has x sigs ≡ true)
    → ActionsKnown st actions
    → check_actions st sigs actions ≡ ok tt
unfolding check_actions
check_actions_total st sigs [] reg h = refl
check_actions_total st sigs ((x, a) ∷ actions) reg h =
    rw (h.0.0, h.0.1, reg x h.0.0) (check_actions_total st sigs actions reg h.1)

check_actions_sound :
    (st : State) (sigs : Dict Signal Signal) (actions : Dict Signal (Option Action))
    → check_actions st sigs actions ≡ ok tt
    → ActionsKnown st actions
unfolding check_actions
check_actions_sound st sigs [] h = tt
check_actions_sound st sigs ((x, a) ∷ actions) h =
    ground (arith, check_actions_sound st sigs actions)

pub check_all_actions_total :
    (sigs : Dict Signal Signal) (todo : Dict Index State)
    → ((x : Signal) → is_used x todo ≡ true → has x sigs ≡ true)
    → All (λ e. ActionsKnown e.1 e.1.actions) todo
    → check_all_actions sigs todo ≡ ok tt
unfolding check_all_actions
check_all_actions_total sigs [] reg h = refl
check_all_actions_total sigs ((i, st) ∷ todo) reg h =
    rw (check_actions_total st sigs st.actions (λ x e. reg x (ground arith)) h.0)
      (check_all_actions_total sigs todo (λ x e. reg x (ground arith)) h.1)

pub check_all_actions_sound :
    (sigs : Dict Signal Signal) (todo : Dict Index State)
    → check_all_actions sigs todo ≡ ok tt
    → All (λ e. ActionsKnown e.1 e.1.actions) todo
unfolding check_all_actions
check_all_actions_sound sigs [] h = tt
check_all_actions_sound sigs ((i, st) ∷ todo) h =
    let (u, e, h₁) = >>=-eq-ok (check_actions st sigs st.actions) _ h in
    (check_actions_sound st sigs st.actions e, check_all_actions_sound sigs todo h₁)
