-- ===== src/Selector/Weighted.antt =====
-- The weighted choice: each choice gets as many of the picks as its weight says.
use deploykit.Base.{
  ℕ, zero, suc, ◌+◌, ◌%◌, ◌^◌, ◌≤◌, ◌<◌, ◌≡◌, ◌↔◌, refl, ap, sym, ◌∙◌, true, Option, none, some,
  List, [], ◌∷◌, take, length, get_elem?, if◌then◌else◌, ltb, arith, Bool-cases, inl, inr,
  length-map, get_elem?-total,
}
use deploykit.Group.Types.{reply}
use deploykit.Selector.{
  Choice, sort_choices, biases_from, total, bin_from, bin, select_weighted, insert_choice, mass_of,
  less_word,
}

-- The sum of the biases, as numbers that do not wrap.
unfoldable pub mass_sum : List ℕ → ℕ
mass_sum [] = 0
mass_sum (mass ∷ biases) = mass + mass_sum biases

-- The bins of such numbers.
unfoldable exact_bin : List ℕ → ℕ → ℕ → ℕ → Option ℕ
exact_bin [] pick i sum = none
exact_bin (mass ∷ biases) pick i sum =
    let rest = exact_bin biases pick (suc i) (sum + mass) in
    if ltb pick (sum + mass) then some i else rest

total-mass_sum : (biases : List ℕ) → mass_sum biases < 2 ^ 63 → total biases ≡ mass_sum biases
unfolding total mass_sum
total-mass_sum [] h = refl
total-mass_sum (mass ∷ biases) h = omega (arith, total-mass_sum biases (omega arith))

less_word-ltb : (a b : ℕ) → a < 2 ^ 63 → b < 2 ^ 63 → less_word a b ≡ ltb a b
less_word-ltb a b h k = ground arith

-- Where nothing wraps, the loop finds the bins of the numbers.
bin_from-exact_bin :
    (biases : List ℕ) (pick i sum : ℕ)
    → sum + mass_sum biases < 2 ^ 63
    → pick < 2 ^ 63
    → bin_from biases pick i sum ≡ exact_bin biases pick i sum
unfolding bin_from exact_bin mass_sum
bin_from-exact_bin [] pick i sum h k = refl
bin_from-exact_bin (mass ∷ biases) pick i sum h k =
    let same : (sum + mass) % 2 ^ 64 ≡ sum + mass = omega arith in
    rw (same, less_word-ltb pick (sum + mass) k (omega arith))
      (ap (λ rest. if ltb pick (sum + mass) then some i else rest)
        (bin_from-exact_bin biases pick (suc i) (sum + mass) (omega arith) k))

exact_bin-ge : (biases : List ℕ) (pick i sum k : ℕ) → exact_bin biases pick i sum ≡ some k → i ≤ k
unfolding exact_bin
exact_bin-ge [] pick i sum k e = absurd (cc)
exact_bin-ge (mass ∷ biases) pick i sum k e =
    ground (arith, exact_bin-ge biases pick (suc i) (sum + mass) k)

exact_bin_sound :
    (biases : List ℕ) (pick i sum j : ℕ)
    → sum ≤ pick
    → exact_bin biases pick i sum ≡ some (i + j)
    → (sum + mass_sum (take j biases) ≤ pick)
      × (pick < sum + mass_sum (take (suc j) biases))
      × (j < length biases)
unfolding exact_bin mass_sum
exact_bin_sound [] pick i sum j h e = absurd (cc)
exact_bin_sound (mass ∷ biases) pick i sum zero h e = elim (Bool-cases (ltb pick (sum + mass))) [
  | inl p ↦ (omega arith, ground arith, omega arith)
  | inr p ↦
      let above = exact_bin-ge biases pick (suc i) (sum + mass) (i + 0) (ground arith) in
      absurd (omega arith)
]
exact_bin_sound (mass ∷ biases) pick i sum (suc j) h e = elim (Bool-cases (ltb pick (sum + mass))) [
  | inl p ↦ absurd (ground arith)
  | inr p ↦
      let (a, b, c) =
        exact_bin_sound biases pick (suc i) (sum + mass) j (ground arith) (ground arith) in
      (omega arith, omega arith, omega arith)
]

exact_bin_complete :
    (biases : List ℕ) (pick i sum j : ℕ)
    → sum + mass_sum (take j biases) ≤ pick
    → pick < sum + mass_sum (take (suc j) biases)
    → exact_bin biases pick i sum ≡ some (i + j)
unfolding exact_bin mass_sum
exact_bin_complete [] pick i sum zero h k = absurd (omega arith)
exact_bin_complete [] pick i sum (suc j) h k = absurd (omega arith)
exact_bin_complete (mass ∷ biases) pick i sum zero h k = ground arith
exact_bin_complete (mass ∷ biases) pick i sum (suc j) h k =
    let rest = exact_bin_complete biases pick (suc i) (sum + mass) j (omega arith) (omega arith) in
    ground arith

exact_bin-total :
    (biases : List ℕ) (pick i sum : ℕ)
    → pick < sum + mass_sum biases
    → sum ≤ pick
    → (j : ℕ) × (exact_bin biases pick i sum ≡ some (i + j))
unfolding exact_bin mass_sum
exact_bin-total [] pick i sum h k = absurd (omega arith)
exact_bin-total (mass ∷ biases) pick i sum h k = elim (Bool-cases (ltb pick (sum + mass))) [
  | inl p ↦ (0, ground arith)
  | inr p ↦
      let (j, e) = exact_bin-total biases pick (suc i) (sum + mass) (omega arith) (ground arith) in
      (suc j, ground arith)
]

from_zero : (j : ℕ) → 0 + j ≡ j
from_zero j = omega arith

-- Where the sum of the biases and the pick are below 2 ^ 63, a pick falls into the bin of an
-- index exactly where it lies at or above the sum of the biases before the index, and below that
-- sum with the bias of the index: each index has as many picks as its bias.
pub bin_iff :
    (biases : List ℕ) (pick j : ℕ)
    → mass_sum biases < 2 ^ 63
    → pick < 2 ^ 63
    → (bin biases pick ≡ some j)
      ↔ ((mass_sum (take j biases) ≤ pick) × (pick < mass_sum (take (suc j) biases)))
unfolding bin
bin_iff biases pick j h k =
    let same = bin_from-exact_bin biases pick 0 0 (omega arith) k in
    (
      λ e.
          let (a, b, c) =
            exact_bin_sound biases pick 0 0 j (omega arith)
              (sym same ∙ e ∙ ap some (sym (from_zero j))) in
          (omega arith, omega arith),
      λ (a, b).
          same
          ∙ exact_bin_complete biases pick 0 0 j (omega arith) (omega arith)
          ∙ ap some (from_zero j),
    )

length-insert_choice : (c : Choice) (l : List Choice) → length (insert_choice c l) ≡ suc (length l)
unfolding insert_choice
length-insert_choice c [] = refl
length-insert_choice c (d ∷ l) = ground (arith, length-insert_choice c l)

selected :
    (random : ℕ → ℕ) (choices : List Choice) (max j : ℕ) (choice : Choice)
    → total (biases_from (sort_choices choices)) ≡ max
    → less_word 0 max ≡ true
    → bin_from (biases_from (sort_choices choices)) (random max) 0 0 ≡ some j
    → get_elem? (sort_choices choices) j ≡ some choice
    → select_weighted random choices ≡ some (reply choice)
unfolding select_weighted bin
selected random choices max j choice t p e f = rw (t, p, e, f, select_weighted, bin) refl

-- Where the sum of the weights is positive and below 2 ^ 63, and the random source stays below
-- its bound, the weighted selection gives one of the choices, without an error and without a
-- panic.
pub select_weighted-total :
    (random : ℕ → ℕ) (choices : List Choice)
    → ((n : ℕ) → 0 < n → random n < n)
    → 0 < mass_sum (biases_from (sort_choices choices))
    → mass_sum (biases_from (sort_choices choices)) < 2 ^ 63
    → (choice : Choice) × (j : ℕ) × (select_weighted random choices ≡ some (reply choice))
      × (get_elem? (sort_choices choices) j ≡ some choice)
unfolding select_weighted bin biases_from
select_weighted-total random choices below h small =
    let options = sort_choices choices in
    let max = mass_sum (biases_from options) in
    let bound = total-mass_sum (biases_from options) small in
    let picked = below max h in
    let (j, e) =
      exact_bin-total (biases_from options) (random max) 0 0 (omega arith) (omega arith) in
    let (a, b, lt) = exact_bin_sound (biases_from options) (random max) 0 0 j (omega arith) e in
    let (choice, f) =
      get_elem?-total options j (omega (arith, length-map options (λ c. mass_of c.weight))) in
    let same =
      bin_from-exact_bin (biases_from options) (random max) 0 0 (omega arith) (omega arith) in
    let e' : bin_from (biases_from options) (random max) 0 0 ≡ some j =
      same ∙ e ∙ ap some (from_zero j) in
    let positive : less_word 0 max ≡ true = ground arith in
    (choice, j, selected random choices max j choice bound positive e' f, f)
