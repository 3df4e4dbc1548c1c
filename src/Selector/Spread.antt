-- ===== src/Selector/Spread.antt =====
-- The spread choice: the plugin with the fewest instances.
use deploykit.Base.{
  ℕ, suc, ◌≤◌, ◌<◌, ◌≡◌, ◌⊎◌, inl, inr, Option, none, some, List, [], ◌∷◌, get_elem?, ltb, arith,
  Bool-cases, All,
}
use deploykit.Selector.{Choice, fewest, select_spread, largest}

-- A plugin that answers reports at least `n`.
abbrev AtLeast : ℕ → Choice × Option ℕ → Type 0
AtLeast n (c, none) = Unit
AtLeast n (c, some m) = n ≤ m

-- The choice reports a number below the bound, and no plugin reports fewer.
abbrev pub IsFewest : ℕ → Choice → List (Choice × Option ℕ) → Type 0
IsFewest bound c choices =
    (n : ℕ) × (j : ℕ) × (get_elem? choices j ≡ some (c, some n))
    × (n < bound)
    × All (AtLeast n) choices

fewest_lem :
    (choices : List (Choice × Option ℕ)) (min : ℕ) (match : Option Choice) (c : Choice)
    → fewest choices min match ≡ some c
    → IsFewest min c choices ⊎ ((match ≡ some c) × All (AtLeast min) choices)
unfolding fewest
fewest_lem [] min match c e = inr (e, tt)
fewest_lem ((x, none) ∷ choices) min match c e = elim (fewest_lem choices min match c e) [
  | inl (n, j, g, lt, a) ↦ inl (n, suc j, g, lt, (tt, a))
  | inr (s, a) ↦ inr (s, (tt, a))
]
fewest_lem ((x, some m) ∷ choices) min match c e = elim (Bool-cases (ltb m min)) [
  | inl p ↦ elim (fewest_lem choices m (some x) c (ground arith)) [
    | inl (n, j, g, lt, a) ↦ inl (n, suc j, g, ground arith, (omega arith, a))
    | inr (s, a) ↦ inl (m, 0, ground arith, ground arith, (omega arith, a))
  ]
  | inr p ↦ elim (fewest_lem choices min match c (ground arith)) [
    | inl (n, j, g, lt, a) ↦ inl (n, suc j, g, lt, (ground arith, a))
    | inr (s, a) ↦ inr (s, (ground arith, a))
  ]
]

-- Where the spread selection has a match, the plugin of the match answered, and none that
-- answered has fewer instances.
pub select_spread-IsFewest :
    (choices : List (Choice × Option ℕ)) (c : Choice)
    → select_spread choices ≡ some c
    → IsFewest largest c choices
unfolding select_spread
select_spread-IsFewest choices c e = elim (fewest_lem choices largest none c e) [
  | inl f ↦ f
  | inr (s, a) ↦ absurd (cc)
]
