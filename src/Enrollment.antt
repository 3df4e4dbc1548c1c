-- ===== src/Enrollment.antt =====
-- pkg/spi/instance/description.go and pkg/controller/enrollment/set.go, sync.go: what is to be added
-- to a list of enrolled instances and removed from it, and a round of synchronization.
pub mod Sync
pub mod Keys
pub mod Rounds
mod Tests
use Prim.Native.String.{String}
use deploykit.Base.{
  ◌≡◌, Option, none, some, Bool, true, false, not, ◌&&◌, ◌||◌, List, [], ◌∷◌, if◌then◌else◌,
}
use deploykit.Base.Dict.{Dict, lookup, insert}
use deploykit.Group.Text.{eqb_str, lt_str, string_key}
use deploykit.Group.Types.{Description, sort_by}

abbrev pub contains : String → List String → Bool
contains k [] = false
contains k (j ∷ ks) = eqb_str j k || contains k ks

-- `mapset.Set` of the keys: what the code uses of the package.
pub record KeySets : Type 1 where
  pub Keys : Type 0
  pub new : Keys
  pub add : Keys → String → Keys
  pub difference : Keys → Keys → Keys
  pub iter : Keys → List String

-- What the package documents: which keys the iteration over a set gives, in whatever order.
pub record IsLawful (S : KeySets) : Type 0 where
  pub iter-new : S.iter S.new ≡ []
  pub contains-add :
      (s : S.Keys) (j k : String)
      → contains k (S.iter (S.add s j)) ≡ (eqb_str j k || contains k (S.iter s))
  pub contains-difference :
      (a b : S.Keys) (k : String)
      → contains k (S.iter (S.difference a b))
        ≡ (contains k (S.iter a) && not (contains k (S.iter b)))

-- `KeyFunc`; `none` is an error.
abbrev pub KeyFunc : Type 0
KeyFunc = Description → Option String

-- The value that a map gives for a missing key.
abbrev pub zero_description : Description
zero_description = record { id = ""; logical_id = none; tags = [] }

abbrev pub or_zero : Option Description → Description
or_zero none = zero_description
or_zero (some d) = d

-- `Description.Compare` below 0.
abbrev pub by_id : Description → Description → Bool
by_id a b = lt_str a.id b.id

-- `Options.SourceParseErrPolicy` and `EnrollmentParseErrPolicy`, by the values that the switches name.
pub record Policies : Type 0 where
  pub disable_destroy : Bool
  pub disable_provision : Bool

module _ (S : KeySets) where
  -- `DescriptionIndex`, and the error that `Index` returns beside it.
  pub record DescriptionIndex : Type 0 where
    pub keys : S.Keys
    pub map : Dict String Description
    pub error : Bool

  -- The loop of `Index`.
  unfoldable pub index_from : KeyFunc → DescriptionIndex → List Description → DescriptionIndex
  index_from key i [] = i
  index_from key i (d ∷ list) = elim (key d) [
    | none ↦ index_from key (record i { error = true }) list
    | some k ↦ index_from key (record i { keys = S.add i.keys k; map = insert k d i.map }) list
  ]

  unfoldable pub index : KeyFunc → List Description → DescriptionIndex
  unfolding index_from
  index key list = index_from key (record { keys = S.new; map = []; error = false }) list

  -- The loop of `Select` over the keys, and its sorting.
  unfoldable pub pick : Dict String Description → List String → List Description
  pick m [] = []
  pick m (k ∷ keys) = or_zero (lookup k m) ∷ pick m keys

  unfoldable pub select : DescriptionIndex → S.Keys → List Description
  unfolding pick
  select i keys = sort_by by_id (pick i.map (S.iter keys))

  -- `Difference`.
  unfoldable pub difference :
      List Description → KeyFunc → List Description → KeyFunc → List Description
  unfolding index select
  difference list list_key other other_key =
      let this = index list_key list in
      let that = index other_key other in select this (S.difference this.keys that.keys)

  -- `Delta`: the entries to add and those to remove.
  unfoldable pub delta :
      List Description
      → KeyFunc
      → List Description
      → KeyFunc
      → Policies
      → List Description × List Description
  unfolding index select
  delta list list_key other other_key p =
      let this = index list_key list in
      let that = index other_key other in
      (
        (if not that.error || not p.disable_provision
            then select this (S.difference this.keys that.keys)
            else []),
        (if not this.error || not p.disable_destroy
            then select that (S.difference that.keys this.keys)
            else []),
      )
