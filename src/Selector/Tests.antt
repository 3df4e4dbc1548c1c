-- ===== src/Selector/Tests.antt =====
-- The theorems about selectors, at two choices.
use deploykit.Base.{
  ℕ, ◌+◌, Option, if◌then◌else◌, ◌<◌, ◌≤◌, ◌≡◌, ◌↔◌, refl, none, some, [], ◌∷◌, arith, get_elem?,
  take,
}
use Prim.Native.String.{String}
use deploykit.Base.Dict.{Dict, lookup}
use deploykit.Group.Types.{Reply, failed, reply}
use deploykit.Group.Text.{lt_str, eqb_str, string_key, string_dec}
use deploykit.Selector.{
  Choice, sort_choices, insert_choice, biases_from, bin, select_weighted, select_spread, fewest,
  largest,
}
use deploykit.Selector.Weighted.{mass_sum, bin_iff, select_weighted-total}
use deploykit.Selector.Tiered.{Provisioner, provision_tiered, visit_choices, visit_tier}
use deploykit.Selector.Tiered.Choices.{Provides, provision_tiered_iff}
use deploykit.Selector.Spread.{IsFewest, select_spread-IsFewest}

abbrev east : Choice
east = record { name = "east"; instances = []; weight = some 3 }

abbrev west : Choice
west = record { name = "west"; instances = []; weight = some 7 }

bin_iff_example :
    (bin (3 ∷ 7 ∷ []) 5 ≡ some 1)
    ↔ ((mass_sum (take 1 (3 ∷ 7 ∷ [])) ≤ 5) × (5 < mass_sum (take 2 (3 ∷ 7 ∷ []))))
unfolding mass_sum
bin_iff_example = bin_iff (3 ∷ 7 ∷ []) 5 1 (omega arith) (omega arith)

select_weighted-total_example :
    (choice : Choice) × (j : ℕ) × (select_weighted (λ n. 0) (west ∷ east ∷ [])
      ≡ some (reply choice))
    × (get_elem? (sort_choices (west ∷ east ∷ [])) j ≡ some choice)
unfolding sort_choices insert_choice biases_from mass_sum lt_str
select_weighted-total_example =
    select_weighted-total (λ n. 0) (west ∷ east ∷ []) (λ n h. h) (ground arith) (ground arith)

select_spread-IsFewest_example :
    IsFewest largest west ((east, some 4) ∷ (west, some 2) ∷ (east, none) ∷ [])
unfolding select_spread fewest
select_spread-IsFewest_example =
    select_spread-IsFewest ((east, some 4) ∷ (west, some 2) ∷ (east, none) ∷ []) west refl

abbrev north : Choice
north = record { name = "north"; instances = []; weight = none }

-- The plugin of north is not reached, that of east has no room, and that of west counts its instances.
abbrev clients : String → Reply (Option (Provisioner ℕ ℕ))
clients name =
    if eqb_str name "north"
    then reply none
    else (if eqb_str name "east"
        then reply (some (λ size w. (failed "no room", w)))
        else reply (some (λ size w. (reply (some "i-1"), w + size))))

abbrev sizes : Dict String (Option ℕ)
sizes = ("east", some 1) ∷ ("west", some 2) ∷ []

provision_tiered_iff_example :
    (provision_tiered clients sizes (north ∷ east ∷ west ∷ []) 5 ≡ (reply "i-1", 7))
    ↔ Provides clients sizes (north ∷ east ∷ west ∷ []) 5 "i-1" 7
provision_tiered_iff_example =
    provision_tiered_iff clients sizes (north ∷ east ∷ west ∷ []) 5 "i-1" 7

provision_west : provision_tiered clients sizes (north ∷ east ∷ west ∷ []) 5 ≡ (reply "i-1", 7)
unfolding provision_tiered visit_choices visit_tier lookup string_dec
provision_west = refl
