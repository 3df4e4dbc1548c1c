-- ===== src/Selector.antt =====
-- pkg/plugin/instance/selector: plugins that pass a request on to one of several instance plugins.
pub mod Weighted
pub mod Spread
pub mod Tiered
mod Tests
use Prim.Native.String.{String}
use deploykit.Base.{
  ℕ, suc, ◌+◌, ◌-◌, ◌%◌, ◌^◌, Option, none, some, Bool, false, ◌||◌, List, [], ◌∷◌, map, get_elem?,
  if◌then◌else◌, ltb,
}
use deploykit.Base.Dict.{Dict, lookup}
use deploykit.Group.Text.{string_key, eqb_str, lt_str}
use deploykit.Group.Types.{Reply, failed, reply}

-- `selector.Choice`. `weight` is the weight that its affinity decodes to, if it does.
pub record Choice : Type 0 where
  pub name : String
  pub instances : List String
  pub weight : Option ℕ

-- `Choice.HasLogicalID`.
unfoldable pub has_id : List String → String → Bool
has_id [] id = false
has_id (x ∷ instances) id = eqb_str x id || has_id instances id

-- `sort.Sort` of the choices by name.
unfoldable pub insert_choice : Choice → List Choice → List Choice
insert_choice c [] = c ∷ []
insert_choice c (d ∷ l) = if lt_str d.name c.name then d ∷ insert_choice c l else c ∷ d ∷ l

unfoldable pub sort_choices : List Choice → List Choice
sort_choices [] = []
sort_choices (c ∷ l) = insert_choice c (sort_choices l)

-- An `int` is the word of 64 bits that holds it: 2 ^ 63 and above are the negative ones. `int` of a
-- weight keeps its word.
abbrev pub mass_of : Option ℕ → ℕ
mass_of none = 0
mass_of (some weight) = weight % 2 ^ 64

-- `a < b` on two `int`s.
abbrev pub less_word : ℕ → ℕ → Bool
less_word a b = ltb ((a + 2 ^ 63) % 2 ^ 64) ((b + 2 ^ 63) % 2 ^ 64)

-- `biasesFrom`, on choices that are sorted in place.
unfoldable pub biases_from : List Choice → List ℕ
biases_from choices = map (λ c. mass_of c.weight) choices

-- The sum in `roll`, which wraps.
unfoldable pub total : List ℕ → ℕ
total [] = 0
total (mass ∷ biases) = (mass + total biases) % 2 ^ 64

-- The loop of `bin`: `i` is the index and `sum` the mass before it.
unfoldable pub bin_from : List ℕ → ℕ → ℕ → ℕ → Option ℕ
bin_from [] pick i sum = none
bin_from (mass ∷ biases) pick i sum =
    let next = (sum + mass) % 2 ^ 64 in
    let rest = bin_from biases pick (suc i) next in if less_word pick next then some i else rest

-- `bin`, `none` for -1.
unfoldable pub bin : List ℕ → ℕ → Option ℕ
unfolding bin_from
bin biases pick = bin_from biases pick 0 0

-- `SelectOne` of weighted.go. `random` is `rand.Intn`; the outer `none` is its panic on
-- a bound that is not positive.
unfoldable pub select_weighted : (ℕ → ℕ) → List Choice → Option (Reply Choice)
unfolding biases_from total bin
select_weighted random choices =
    let options = sort_choices choices in
    let distribution = biases_from options in
    let max = total distribution in
    if less_word 0 max
    then elim (bin distribution (random max)) [
      | none ↦ some (failed "bad roll with distribution")
      | some index ↦ elim (get_elem? options index) [
        | none ↦ none
        | some choice ↦ some (reply choice)
      ]
    ]
    else none

abbrev pub largest : ℕ
largest = 2 ^ 63 - 1

-- The loop of `SelectOne` of spread.go, over how many instances the plugin of each choice reports, if it
-- answers. `none` stays where the match is the zero choice.
unfoldable pub fewest : List (Choice × Option ℕ) → ℕ → Option Choice → Option Choice
fewest [] min match = match
fewest ((choice, none) ∷ choices) min match = fewest choices min match
fewest ((choice, some n) ∷ choices) min match =
    let better = fewest choices n (some choice) in
    let rest = fewest choices min match in if ltb n min then better else rest

unfoldable pub select_spread : List (Choice × Option ℕ) → Option Choice
unfolding fewest
select_spread choices = fewest choices largest none

-- The choice of `Base.selectOne` by logical id, among those whose plugins are found: the last one that has
-- it.
unfoldable pub match_logical_id : String → List Choice → Option Choice → Option Choice
match_logical_id id [] match = match
match_logical_id id (c ∷ choices) match =
    match_logical_id id choices (if has_id c.instances id then some c else match)

-- The properties that `Base.Provision` passes on: `none` is nil. Where a choice has none of its own the code
-- asks whether there are default ones, and then reads those under the empty name.
unfoldable pub properties_for : {P : Type 0} → String → Dict String P → Reply (Option P)
properties_for name cprops = elim (lookup name cprops) [
  | some properties ↦ reply (some properties)
  | none ↦ elim (lookup "default" cprops) [
    | none ↦ failed "There is no Properties for choice"
    | some properties ↦ reply (lookup "" cprops)
  ]
]
