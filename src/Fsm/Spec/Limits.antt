-- ===== src/Fsm/Spec/Limits.antt =====
-- The third pass of `compile`, and the three passes together.
use deploykit.Base.{◌≡◌, inl, inr, refl, ◌∙◌, true, [], ◌∷◌, arith, All, Bool-cases}
use deploykit.Base.Int.{ℤ, pos, ltb_ℤ}
use deploykit.Base.Dict.{Dict, insert, has}
use deploykit.Fsm.Types.{Index, Signal, State, ok, index_key, >>=-eq-ok}
use deploykit.Fsm.Spec.{check_references, check_all_actions, check_raise, check_limits, compile}
use deploykit.Fsm.Spec.Compile.{
  ActionsKnown, RaiseKnown, IsWellFormed, AllWellFormed, is_used, has-insert, has-nil,
  AllTargetsKnown, check_references_total, check_references_sound, check_all_actions_total,
  check_all_actions_sound,
}

-- The third pass registers nothing new.
check_raise_total :
    (st : State) (value : ℤ) (raise : Signal) (sigs : Dict Signal Signal)
    → RaiseKnown st value raise
    → (out : Dict Signal Signal) × (check_raise st value raise sigs ≡ ok out)
unfolding check_raise
check_raise_total st value raise sigs h = elim (Bool-cases (ltb_ℤ (pos 0) value)) [
  | inl p ↦ (insert raise raise sigs, ground (arith, h (ground arith)))
  | inr p ↦ (sigs, ground arith)
]

check_raise_sound :
    (st : State) (value : ℤ) (raise : Signal) (sigs out : Dict Signal Signal)
    → ((x : Signal) → has x st.transitions ≡ true → has x sigs ≡ true)
    → check_raise st value raise sigs ≡ ok out
    → RaiseKnown st value raise × ((x : Signal) → has x out ≡ has x sigs)
unfolding check_raise
check_raise_sound st value raise sigs out reg h = elim (Bool-cases (ltb_ℤ (pos 0) value)) [
  | inl p ↦ (λ lt. ground arith, λ x. ground (arith, has-insert raise x raise sigs, reg raise))
  | inr p ↦ (λ lt. absurd (ground arith), λ x. ground arith)
]

abbrev AllRaisesKnown : Dict Index State → Type 0
AllRaisesKnown =
    All
      λ e. RaiseKnown e.1 e.1.ttl.ttl e.1.ttl.raise × RaiseKnown e.1 e.1.visit.value e.1.visit.raise

check_limits_total :
    (todo : Dict Index State) (sigs : Dict Signal Signal)
    → AllRaisesKnown todo
    → (out : Dict Signal Signal) × (check_limits todo sigs ≡ ok out)
unfolding check_limits
check_limits_total [] sigs h = (sigs, refl)
check_limits_total ((i, st) ∷ todo) sigs h =
    let (s₁, e₁) = check_raise_total st st.ttl.ttl st.ttl.raise sigs h.0.0 in
    let (s₂, e₂) = check_raise_total st st.visit.value st.visit.raise s₁ h.0.1 in
    let (s₃, e₃) = check_limits_total todo s₂ h.1 in (s₃, rw (e₁, e₂) e₃)

check_limits_sound :
    (todo : Dict Index State) (sigs out : Dict Signal Signal)
    → ((x : Signal) → is_used x todo ≡ true → has x sigs ≡ true)
    → check_limits todo sigs ≡ ok out
    → AllRaisesKnown todo × ((x : Signal) → has x out ≡ has x sigs)
unfolding check_limits
check_limits_sound [] sigs out reg h = (tt, λ x. ground arith)
check_limits_sound ((i, st) ∷ todo) sigs out reg h =
    let (s₁, e₁, h₁) = >>=-eq-ok (check_raise st st.ttl.ttl st.ttl.raise sigs) _ h in
    let (s₂, e₂, h₂) = >>=-eq-ok (check_raise st st.visit.value st.visit.raise s₁) _ h₁ in
    let (k₁, same₁) =
      check_raise_sound st st.ttl.ttl st.ttl.raise sigs s₁ (λ x e. reg x (ground arith)) e₁ in
    let (k₂, same₂) =
      check_raise_sound st st.visit.value st.visit.raise s₁ s₂
        (λ x e. same₁ x ∙ reg x (ground arith)) e₂ in
    let (k₃, same₃) =
      check_limits_sound todo s₂ out (λ x e. same₂ x ∙ (same₁ x ∙ reg x (ground arith))) h₂ in
    (((k₁, k₂), k₃), λ x. same₃ x ∙ (same₂ x ∙ same₁ x))

AllWellFormed-actions :
    (m todo : Dict Index State)
    → All (λ e. IsWellFormed m e.1) todo
    → All (λ e. ActionsKnown e.1 e.1.actions) todo × AllRaisesKnown todo
AllWellFormed-actions m [] h = (tt, tt)
AllWellFormed-actions m (e ∷ todo) h =
    let (a, r) = AllWellFormed-actions m todo h.1 in
    ((h.0.actions_known, a), ((h.0.ttl_known, h.0.visit_known), r))

AllWellFormed-of_parts :
    (m todo : Dict Index State)
    → AllTargetsKnown m todo
    → All (λ e. ActionsKnown e.1 e.1.actions) todo
    → AllRaisesKnown todo
    → All (λ e. IsWellFormed m e.1) todo
AllWellFormed-of_parts m [] t a r = tt
AllWellFormed-of_parts m (e ∷ todo) t a r = (
  record {
    transitions_known = t.0.0;
    errors_known = t.0.1;
    actions_known = a.0;
    ttl_known = r.0.0;
    visit_known = r.0.1;
  },
  AllWellFormed-of_parts m todo t.1 a.1 r.1,
)

pub compile_total :
    (m : Dict Index State) → AllWellFormed m → (sigs : Dict Signal Signal) × (compile m ≡ ok sigs)
unfolding compile
compile_total m h =
    let (s₁, e₁) = check_references_total m m [] h in
    let (_, same) = check_references_sound m m [] s₁ e₁ in
    let (a, r) = AllWellFormed-actions m m h in
    let reg = λ (x : Signal) (u : is_used x m ≡ true). same x ∙ ground (arith, has-nil Signal x) in
    let (s₂, e₂) = check_limits_total m s₁ r in (s₂, rw (e₁, check_all_actions_total s₁ m reg a) e₂)

pub compile_sound :
    (m : Dict Index State) (sigs : Dict Signal Signal)
    → compile m ≡ ok sigs
    → AllWellFormed m × ((x : Signal) → has x sigs ≡ is_used x m)
unfolding compile
compile_sound m sigs h =
    let (s₁, e₁, h₁) = >>=-eq-ok (check_references m m []) _ h in
    let (_, e₂, h₂) = >>=-eq-ok (check_all_actions s₁ m) _ h₁ in
    let (t, same) = check_references_sound m m [] s₁ e₁ in
    let same' = λ (x : Signal). same x ∙ ground (arith, has-nil Signal x) in
    let a = check_all_actions_sound s₁ m e₂ in
    let (r, same₂) = check_limits_sound m s₁ sigs (λ x u. same' x ∙ u) h₂ in
    (AllWellFormed-of_parts m m t a r, λ x. same₂ x ∙ same' x)
