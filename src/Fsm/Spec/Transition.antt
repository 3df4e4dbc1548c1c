-- ===== src/Fsm/Spec/Transition.antt =====
-- How a compiled spec moves: `transition`, `error`, and the signals that the spec raises itself.
use deploykit.Base.{
  ◌≡◌, ◌⊎◌, inl, inr, subst, ◌∙◌, Option, some, true, false, [], ◌∷◌, arith, length, ◌==◌,
  Option-cases,
}
use deploykit.Base.Int.{ℤ, pos, ◌<ℤ◌, ℤ-discrete}
use deploykit.Base.Dict.{
  Dict, lookup, insert, has, lookup-insert, has-lookup, All-lookup, length-insert_old,
}
use deploykit.Fsm.Types.{Index, Signal, State, Action, Result, ok, ◌>>=◌, index_key, Expiry, Limit}
use deploykit.Fsm.Spec.{Spec, transition, error_next, expiry, visit, set_action, flatten_action}
use deploykit.Fsm.Spec.Compile.{IsWellFormed, is_used}
use deploykit.Fsm.Spec.Define.{IsCompiled}

has_of_lookup : {V : Type 0} (a : ℤ) (m : Dict ℤ V) {v : V} → lookup a m ≡ some v → has a m ≡ true
unfolding has
has_of_lookup a m e = rw e

is_used-lookup :
    (x i : ℤ) (m : Dict Index State) {st : State}
    → lookup i m ≡ some st
    → has x st.transitions ≡ true
    → is_used x m ≡ true
unfolding lookup
is_used-lookup x i [] e h = absurd (cc)
is_used-lookup x i ((b, w) ∷ m) {st} e h = elim (ℤ-discrete b i) [
  | yes p ↦ let same : w ≡ st = ground arith in rw (same, h)
  | no p ↦ ground (arith, is_used-lookup x i m {st = st})
]

length-of_lookup :
    {V : Type 0} (x : ℤ) (m : Dict ℤ V) {v : V} → lookup x m ≡ some v → (length m == 0) ≡ false
unfolding lookup
length-of_lookup x [] e = absurd (cc)
length-of_lookup x (b ∷ m) e = ground arith

module _ (s : Spec) (compiled : IsCompiled s) (i : Index) {st : State}
    (at : lookup i s.states ≡ some st) where
  well_formed : IsWellFormed s.states st
  well_formed = All-lookup (λ e. IsWellFormed s.states e.1) i s.states compiled.well_formed at

  registered : (x : Signal) → has x st.transitions ≡ true → has x s.signals ≡ true
  registered x h = compiled.registered x ∙ is_used-lookup x i s.states at h

  -- In a compiled spec every transition that a state declares is taken on its signal, with the
  -- action of that signal.
  pub transition_declared :
      (x : Signal) {n : Index}
      → lookup x st.transitions ≡ some n
      → transition s i x ≡ ok (n, flatten_action (lookup x st.actions))
  unfolding transition
  transition_declared x {n} e =
      let some_entry = length-of_lookup x st.transitions e in
      let known = registered x (has_of_lookup x st.transitions e) in ground arith

  -- The signal that a TTL or a visit limit raises is never refused in its state.
  raise_accepted :
      (x : Signal)
      → has x st.transitions ≡ true
      → (r : Index × Option Action) × (transition s i x ≡ ok r)
  raise_accepted x h =
      let (n, e) = has-lookup x st.transitions h in
      ((n, flatten_action (lookup x st.actions)), transition_declared x e)

-- The signal of a TTL.
expiry-transition :
    (s : Spec) (i : Index) (e : Expiry)
    → IsCompiled s
    → expiry s i ≡ ok (some e)
    → (r : Index × Option Action) × (transition s i e.raise ≡ ok r)
unfolding expiry
expiry-transition s i e c h = elim (Option-cases (lookup i s.states)) [
  | inl p ↦ absurd (ground arith)
  | inr (st, p) ↦
      let here : st.ttl ≡ e = ground arith in
      let set : pos 0 <ℤ st.ttl.ttl = ground arith in
      subst (λ (t : Expiry). (r : Index × Option Action) × (transition s i t.raise ≡ ok r)) here
        (raise_accepted s c i p st.ttl.raise ((well_formed s c i p).ttl_known set))
]

-- The signal of a visit limit.
visit-transition :
    (s : Spec) (i : Index) (l : Limit)
    → IsCompiled s
    → visit s i ≡ ok (some l)
    → (r : Index × Option Action) × (transition s i l.raise ≡ ok r)
unfolding visit
visit-transition s i l c h = elim (Option-cases (lookup i s.states)) [
  | inl p ↦ absurd (ground arith)
  | inr (st, p) ↦
      let here : st.visit ≡ l = ground arith in
      let set : pos 0 <ℤ st.visit.value = ground arith in
      subst (λ (t : Limit). (r : Index × Option Action) × (transition s i t.raise ≡ ok r)) here
        (raise_accepted s c i p st.visit.raise ((well_formed s c i p).visit_known set))
]

-- The signals that a state's TTL and its visit limit raise.
abbrev pub Raises : Spec → Index → Signal → Type 0
Raises s i x =
    ((e : Expiry) × (expiry s i ≡ ok (some e)) × (e.raise ≡ x))
    ⊎ ((l : Limit) × (visit s i ≡ ok (some l)) × (l.raise ≡ x))

-- In a compiled spec a signal that a state's TTL or its visit limit raises is accepted by
-- transition in that state.
pub transition-Raises :
    (s : Spec) (i : Index) (x : Signal)
    → IsCompiled s
    → Raises s i x
    → (r : Index × Option Action) × (transition s i x ≡ ok r)
transition-Raises s i x c (inl (e, h, same)) =
    subst (λ y. (r : Index × Option Action) × (transition s i y ≡ ok r)) same
      (expiry-transition s i e c h)
transition-Raises s i x c (inr (l, h, same)) =
    subst (λ y. (r : Index × Option Action) × (transition s i y ≡ ok r)) same
      (visit-transition s i l c h)

-- What a successful transition says: the state is known, and declares the target for the signal.
pub transition-ok :
    (s : Spec) (i : Index) (x : Signal) {n : Index} {a : Option Action}
    → transition s i x ≡ ok (n, a)
    → (st : State) × (lookup i s.states ≡ some st)
      × (lookup x st.transitions ≡ some n)
      × (a ≡ flatten_action (lookup x st.actions))
unfolding transition
transition-ok s i x h = elim (Option-cases (lookup i s.states)) [
  | inl p ↦ absurd (ground arith)
  | inr (st, p) ↦ (st, p, ground arith, ground arith)
]

error_next-ok :
    (s : Spec) (i : Index) (x : Signal) {n : Index}
    → error_next s i x ≡ ok n
    → (st : State) × (lookup i s.states ≡ some st) × (lookup x st.errors ≡ some n)
unfolding error_next
error_next-ok s i x h = elim (Option-cases (lookup i s.states)) [
  | inl p ↦ absurd (ground arith)
  | inr (st, p) ↦ (st, p, ground arith)
]

-- In a spec that Define compiled, the state that a transition leads to, or the error rule of a
-- failed action, is always a state of the spec.
pub moves_known :
    (s : Spec) (i : Index) (x : Signal) (n : Index)
    → IsCompiled s
    → ((a : Option Action) × (transition s i x ≡ ok (n, a))) ⊎ (error_next s i x ≡ ok n)
    → has n s.states ≡ true
moves_known s i x n c (inl (a, h)) =
    let (st, p, e, _) = transition-ok s i x h in
    All-lookup (λ e. has e.1 s.states ≡ true) x st.transitions
      (well_formed s c i p).transitions_known e
moves_known s i x n c (inr h) =
    let (st, p, e) = error_next-ok s i x h in
    All-lookup (λ e. has e.1 s.states ≡ true) x st.errors (well_formed s c i p).errors_known e

abbrev pub target : Result (Index × Option Action) → Result Index
target r = r >>= λ p. ok (p.0)

-- Where SetAction succeeds it changes, for no state and signal, whether transition succeeds, the
-- error that it returns, or the next state.
pub transition-set_action :
    (s out : Spec) (i j : Index) (x y : Signal) (a : Option Action)
    → set_action s i x a ≡ ok out
    → (target (transition out j y) ≡ target (transition s j y))
unfolding set_action transition
transition-set_action s out i j x y a h = elim (Option-cases (lookup i s.states)) [
  | inl p ↦ absurd (ground arith)
  | inr (st, p) ↦
      let st' : State = record st { actions = insert x a st.actions } in
      let made : out ≡ record s { states = insert i st' s.states } = ground arith in
      rw made
        (ground (arith, lookup-insert i j st' s.states, length-insert_old i st' s.states {w = st}))
]
