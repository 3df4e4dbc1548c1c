-- ===== src/Fsm/Flap/Watch.antt =====
-- Which pairs of states a spec watches for oscillation.
use deploykit.Base.{
  ◌≡◌, ◌≢◌, inl, inr, refl, ap, ◌∙◌, Option, none, some, Bool, true, false, List, [], ◌∷◌, arith,
  ◌&&◌, ◌||◌, if◌then◌else◌, Bool-cases, All, if_pos, if_neg,
}
use deploykit.Base.Int.{eq_of_parts, eqb_ℤ}
use deploykit.Base.Dict.{Dict, lookup, insert, has, lookup-insert}
use deploykit.Fsm.Types.{
  Index, Flap, ok, index_key, pair_key, pair_dec, >>=-eq-ok, guard-eq-ok, guard, ok_inj,
}
use deploykit.Fsm.Spec.{Spec}
use deploykit.Fsm.Flap.{flap_key, flap, collect_flaps, check_flapping}

flap_key_symm : (a b : Index) → flap_key a b ≡ flap_key b a
unfolding flap_key
flap_key_symm a b = ground (arith, eq_of_parts a b)

-- The limit on a pair of states does not depend on the direction.
pub flap_symm : (s : Spec) (a b : Index) → flap s a b ≡ flap s b a
unfolding flap
flap_symm s a b = rw (flap_key_symm a b)

-- The last check of the list that names the pair, in either order.
abbrev pub last_check : Index → Index → List Flap → Option Flap → Option Flap
last_check a b [] found = found
last_check a b (c ∷ checks) found = last_check a b checks (
    if (eqb_ℤ c.first a && eqb_ℤ c.second b) || (eqb_ℤ c.first b && eqb_ℤ c.second a)
    then some c
    else found)

abbrev names_pair : Index → Index → Flap → Bool
names_pair a b c = (eqb_ℤ c.first a && eqb_ℤ c.second b) || (eqb_ℤ c.first b && eqb_ℤ c.second a)

flap_key_hit :
    (a b : Index) (c : Flap) → names_pair a b c ≡ true → flap_key c.first c.second ≡ flap_key a b
unfolding eqb_ℤ
flap_key_hit a b c h = ground (arith, flap_key_symm a b)

flap_key_miss :
    (a b : Index) (c : Flap) → names_pair a b c ≡ false → flap_key c.first c.second ≢ flap_key a b
unfolding eqb_ℤ flap_key
flap_key_miss a b c h e = ground arith

insert_check :
    (a b : Index) (c : Flap) (flaps : Dict (Index × Index) Flap)
    → lookup (flap_key a b) (insert (flap_key c.first c.second) c flaps)
      ≡ (if names_pair a b c then some c else lookup (flap_key a b) flaps)
insert_check a b c flaps =
    let same = pair_dec (flap_key c.first c.second) (flap_key a b) in
    let old = lookup (flap_key a b) flaps in
    elim (Bool-cases (names_pair a b c)) [
      | inl p ↦ rw (lookup-insert, p) (if_pos same (flap_key_hit a b c p) (some c) old)
      | inr p ↦ rw (lookup-insert, p) (if_neg same (flap_key_miss a b c p) (some c) old)
    ]

collect_flaps-lookup :
    (s : Spec) (a b : Index) (checks : List Flap) (flaps out : Dict (Index × Index) Flap)
    → collect_flaps s checks flaps ≡ ok out
    → lookup (flap_key a b) out ≡ last_check a b checks (lookup (flap_key a b) flaps)
unfolding collect_flaps
collect_flaps-lookup s a b [] flaps out h = ground arith
collect_flaps-lookup s a b (c ∷ checks) flaps out h =
    let (_, _, h₁) = >>=-eq-ok (guard (has c.first s.states) _) _ h in
    let (_, _, h₂) = >>=-eq-ok (guard (has c.second s.states) _) _ h₁ in
    collect_flaps-lookup s a b checks (insert (flap_key c.first c.second) c flaps) out h₂
    ∙ ap (last_check a b checks) (insert_check a b c flaps)

collect_flaps_known :
    (s : Spec) (checks : List Flap) (flaps out : Dict (Index × Index) Flap)
    → collect_flaps s checks flaps ≡ ok out
    → All (λ c. (has c.first s.states ≡ true) × (has c.second s.states ≡ true)) checks
unfolding collect_flaps
collect_flaps_known s [] flaps out h = tt
collect_flaps_known s (c ∷ checks) flaps out h =
    let (_, e₁, h₁) = >>=-eq-ok (guard (has c.first s.states) _) _ h in
    let (_, e₂, h₂) = >>=-eq-ok (guard (has c.second s.states) _) _ h₁ in
    (
      (guard-eq-ok _ _ e₁, guard-eq-ok _ _ e₂),
      collect_flaps_known s checks (insert (flap_key c.first c.second) c flaps) out h₂,
    )

lookup_nil : (a b : Index) → lookup {V = Flap} (flap_key a b) [] ≡ none
unfolding lookup
lookup_nil a b = refl

-- Where CheckFlapping succeeds, every state that a check names is a state of the spec, and the
-- limit found for a pair of states is the last check that names the pair, in either order.
pub check_flapping_lem :
    (s : Spec) (checks : List Flap) (out : Spec)
    → check_flapping s checks ≡ ok out
    → All (λ c. (has c.first s.states ≡ true) × (has c.second s.states ≡ true)) checks
      × ((a b : Index) → flap out a b ≡ last_check a b checks none)
unfolding check_flapping flap
check_flapping_lem s checks out h =
    let (flaps, e, h₁) = >>=-eq-ok (collect_flaps s checks []) _ h in
    (
      collect_flaps_known s checks [] flaps e,
      λ a b. rw (← ok_inj h₁) (
          collect_flaps-lookup s a b checks [] flaps e
          ∙ ap (last_check a b checks) (lookup_nil a b)),
    )
