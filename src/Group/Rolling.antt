-- ===== src/Group/Rolling.antt =====
-- pkg/controller/group/rollingupdate.go: the replacement of a group's instances, one at a time.
pub mod Safety
pub mod Fuel
use Prim.Native.String.{String}
use deploykit.Base.{
  ℕ, zero, suc, ◌+◌, ◌-◌, Option, none, some, Bool, true, false, List, [], ◌∷◌, not, length,
  if◌then◌else◌, ltb, leb, ◌==◌,
}
use deploykit.Base.Int.{pos, ltb_ℤ}
use deploykit.Base.Dict.{lookup}
use deploykit.Group.Text.{string_key, eqb_str}
use deploykit.Group.Types.{
  Updating, Description, Health, healthy, unhealthy, unknown, GroupSettings, rolling_update,
  config_sha_tag, Proc, give, fail, ◌>>=◌, ◌>>◌, Plugins, is_self, less_by_id, sort_by,
}
use deploykit.Group.Scaled.{ScaledGroup, destroy, health, label_and_list}

-- `minInt`.
unfoldable pub min_int : ℕ → ℕ → ℕ
min_int a b = if ltb a b then a else b

-- Whether the instance has the configuration.
unfoldable pub is_desired : String → Description → Bool
is_desired desired_hash inst = elim (lookup config_sha_tag inst.tags) [
  | none ↦ false
  | some actual ↦ eqb_str actual desired_hash
]

-- `desiredAndUndesiredInstances`.
unfoldable pub desired_and_undesired :
    String → List Description → List Description × List Description
desired_and_undesired hash [] = ([], [])
desired_and_undesired hash (inst ∷ instances) =
    let (desired, undesired) = desired_and_undesired hash instances in
    if is_desired hash inst then (inst ∷ desired, undesired) else (desired, inst ∷ undesired)

-- `updatingCount`, with times of the monotonic clock.
pub record UpdatingCount : Type 0 where
  pub healthy_ts : Option ℕ
  pub healthy_count : Option ℕ

abbrev pub no_counts : UpdatingCount
no_counts = record { healthy_ts = none; healthy_count = none }

abbrev pub next_count : Option ℕ → ℕ
next_count none = 1
next_count (some n) = n + 1

-- `exceedsHealthyThreshold`, with the counts that it leaves.
unfoldable pub exceeds_healthy_threshold : Updating → ℕ → ℕ → UpdatingCount → Bool × UpdatingCount
exceeds_healthy_threshold updating expected now counts =
    if expected == 0
    then (true, counts)
    else (if ltb_ℤ (pos 0) updating.count
        then (let n = next_count counts.healthy_count in
            (not (ltb_ℤ (pos n) updating.count), record counts { healthy_count = some n }))
        else (if ltb_ℤ (pos 0) updating.duration
            then elim counts.healthy_ts [
              | none ↦ (false, record counts { healthy_ts = some now })
              | some ts ↦ (not (ltb_ℤ (pos (now - ts)) updating.duration), counts)
            ]
            else (true, counts)))

-- The end of a tick of `waitUntilQuiesced`: `none` where it returns, else the counts for the next.
unfoldable pub after_tick : Updating → ℕ → ℕ → ℕ → UpdatingCount → Option UpdatingCount
unfolding exceeds_healthy_threshold
after_tick updating expected now num_healthy counts =
    if leb expected num_healthy
    then (let (exceeds, counts') = exceeds_healthy_threshold updating expected now counts in
        if exceeds then none else some counts')
    else some no_counts

-- What the select of `waitUntilQuiesced` receives: a tick, at a time, or the stop.
pub data Wake : Type 0 where
  tick : ℕ → Wake
  halted : Wake

-- How far a run of the update comes while the ticks that are listed arrive.
pub data Progress : Type 0 where
  waiting finished : Progress

-- How many instances the new configuration asks for.
unfoldable pub desired_size : GroupSettings → ℕ
desired_size to = if length to.logical_ids == 0 then to.size else length to.logical_ids

module _ {W : Type 0} (p : Plugins W) (g : ScaledGroup) where
  abbrev pub add_healthy : Health → ℕ → ℕ
  add_healthy healthy n = n + 1
  add_healthy unhealthy n = n
  add_healthy unknown n = n

  -- The healthy ones among the matching.
  unfoldable pub count_healthy : List Description → ℕ → Proc W ℕ
  count_healthy [] n = give n
  count_healthy (inst ∷ instances) n = do
    h ← health p g inst
    count_healthy instances (add_healthy h n)

  -- `waitUntilQuiesced`: the wakes that are left, or `none` where it still waits after all of them.
  unfoldable pub wait_until_quiesced :
      Updating → GroupSettings → ℕ → UpdatingCount → List Wake → Proc W (Option (List Wake))
  wait_until_quiesced updating to expected counts [] = give none
  wait_until_quiesced updating to expected counts (halted ∷ wakes) = fail "Update halted by user"
  wait_until_quiesced updating to expected counts (tick now ∷ wakes) = do
    instances ← label_and_list p g
    num_healthy ← count_healthy (desired_and_undesired to.config_hash instances).0 0
    elim (after_tick updating expected now num_healthy counts) [
      | none ↦ give (some wakes)
      | some counts' ↦ wait_until_quiesced updating to expected counts' wakes
    ]

  -- One instance is replaced: the first of the undesired, `self` being the last of them.
  unfoldable pub replace_first :
      GroupSettings → List Description → Proc W Progress → Proc W Progress
  replace_first from [] again = give finished
  replace_first from (first ∷ others) again = do
    destroy p g first rolling_update
    if is_self first from then give finished else again

  -- The loop of `rollingupdate.Run`. The fuel is above the number of wakes: a wait takes one at least.
  unfoldable pub roll :
      ℕ → Updating → GroupSettings → GroupSettings → ℕ → List Wake → Proc W Progress
  unfolding desired_size
  roll zero updating from to expected wakes = give waiting
  roll (suc fuel) updating from to expected wakes = do
    left ← wait_until_quiesced updating to (min_int expected (desired_size to)) no_counts wakes
    elim left [
      | none ↦ give waiting
      | some rest ↦ do
        instances ← label_and_list p g
        replace_first from
            (sort_by (less_by_id (some from)) (desired_and_undesired to.config_hash instances).1)
            (roll fuel updating from to (expected + 1) rest)
    ]

  -- `rollingupdate.Run`.
  unfoldable pub run_rolling_update :
      Updating → GroupSettings → GroupSettings → List Wake → Proc W Progress
  run_rolling_update updating from to wakes = do
    instances ← label_and_list p g
    roll (suc (length wakes)) updating from to
        (length (desired_and_undesired to.config_hash instances).0) wakes
