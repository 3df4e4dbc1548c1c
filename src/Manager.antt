-- ===== src/Manager.antt =====
-- pkg/manager/stored.go: the specs that the manager keeps in its store, and the order in which it
-- visits them.
pub mod Stored
pub mod Proxy
pub mod Adapter
pub mod Commit
pub mod Resize
pub mod Exec
pub mod Order
pub mod Planned
pub mod Leading
mod Tests
use Prim.Native.String.{String}
use deploykit.Base.{ℕ, ◌≡◌, ◌↔◌, Option, none, some, Bool, List, [], ◌∷◌, if◌then◌else◌, ltb, ◌==◌}
use deploykit.Base.Dict.{Dict, lookup, insert, erase}
use deploykit.Group.Text.{eqb_str, lt_str}
use deploykit.Group.Types.{Reply, failed, reply, Proc, give, ◌>>=◌, ◌>>◌}
use deploykit.Depends.{SpecKey, spec_key}
use mathlib.Core.List.{Memᴰ}

-- `types.Any`: a JSON text.
abbrev pub Any : Type 0
Any = String

-- `key`, the kind and the name.
abbrev pub StoredKey : Type 0
StoredKey = SpecKey

-- The fields of `types.Spec` that the manager reads and writes.
pub record StoredSpec : Type 0 where
  pub kind : String
  pub name : String
  pub properties : Option Any

-- `record`.
pub record StoredRecord : Type 0 where
  pub handler : String
  pub spec : StoredSpec

-- `entry`.
abbrev pub Entry : Type 0
Entry = StoredKey × StoredRecord

-- The index of `globalSpec`; a nil map is one without entries.
abbrev pub GlobalSpec : Type 0
GlobalSpec = Dict StoredKey StoredRecord

-- `group.Spec`.
pub record GroupSpec : Type 0 where
  pub id : String
  pub properties : Option Any

-- `store.Snapshot`.
pub record Snapshot (W : Type 0) : Type 0 where
  pub save : List Entry → Proc W (Unit {0})
  pub load : Proc W (List Entry)

-- `range` over an index gives exactly its entries, in an order of its own.
abbrev pub IsRange : (GlobalSpec → List Entry) → Type 0
IsRange range =
    (g : GlobalSpec) (k : StoredKey) (r : StoredRecord)
    → Memᴰ (k, r) (range g) ↔ (lookup k g ≡ some r)

-- The loop of `load`.
unfoldable pub load_from : GlobalSpec → List Entry → GlobalSpec
load_from g [] = g
load_from g ((k, r) ∷ entries) = load_from (insert k r g) entries

abbrev pub key_from_group_id : String → StoredKey
key_from_group_id id = ("group", id)

unfoldable pub update_spec : StoredSpec → String → GlobalSpec → GlobalSpec
update_spec spec handler g =
    insert (spec.kind, spec.name) (record { handler = handler; spec = spec }) g

unfoldable pub remove_spec : String → String → GlobalSpec → GlobalSpec
remove_spec kind name g = erase (kind, name) g

-- The messages of the errors leave out the key.
unfoldable pub get_spec : String → String → GlobalSpec → Reply StoredSpec
get_spec kind name g = elim (lookup (kind, name) g) [
  | none ↦ failed "not found"
  | some r ↦ reply r.spec
]

unfoldable pub remove_group : String → GlobalSpec → GlobalSpec
remove_group id g = erase (key_from_group_id id) g

unfoldable pub get_group_spec : String → GlobalSpec → Reply GroupSpec
get_group_spec id g = elim (lookup (key_from_group_id id) g) [
  | none ↦ failed "not found"
  | some r ↦ reply (record { id = id; properties = r.spec.properties })
]

-- The record of a group that has none yet.
abbrev pub new_record : String → String → StoredRecord
new_record id handler = record {
  handler = handler;
  spec = record { kind = "group"; name = id; properties = none };
}

abbrev pub or_new : String → String → Option StoredRecord → StoredRecord
or_new id handler none = new_record id handler
or_new id handler (some r) = r

abbrev pub with_properties : Option Any → StoredRecord → StoredRecord
with_properties p r = record r { spec = record r.spec { properties = p } }

unfoldable pub update_group_spec : GroupSpec → String → GlobalSpec → GlobalSpec
update_group_spec gspec handler g =
    let k = key_from_group_id gspec.id in
    insert k (with_properties gspec.properties (or_new gspec.id handler (lookup k g))) g

-- `kindRank`, 0 for a kind that it does not have.
abbrev pub kind_rank : String → ℕ
kind_rank kind =
    if eqb_str kind "group"
    then 100
    else (if eqb_str kind "ingress" then 200 else (if eqb_str kind "enrollment" then 300 else 0))

-- `keys.Less`.
abbrev pub less : StoredKey → StoredKey → Bool
less (kind_i, name_i) (kind_j, name_j) =
    if kind_rank kind_i == kind_rank kind_j
    then lt_str name_i name_j
    else ltb (kind_rank kind_i) (kind_rank kind_j)

-- `sort.Sort` by that order.
unfoldable pub insert_key : StoredKey → List StoredKey → List StoredKey
insert_key k [] = k ∷ []
insert_key k (j ∷ keys) = if less j k then j ∷ insert_key k keys else k ∷ j ∷ keys

unfoldable pub sort_keys : List Entry → List StoredKey
sort_keys [] = []
sort_keys ((k, r) ∷ entries) = insert_key k (sort_keys entries)

abbrev pub zero_record : StoredRecord
zero_record = record { handler = ""; spec = record { kind = ""; name = ""; properties = none } }

-- The value that a map gives, the zero record for a missing key.
abbrev pub or_zero : Option StoredRecord → StoredRecord
or_zero none = zero_record
or_zero (some r) = r

-- The loop of `visit`.
unfoldable pub visit_keys :
    {W : Type 0}
    → (StoredKey → StoredRecord → Proc W (Unit {0}))
    → GlobalSpec
    → List StoredKey
    → Proc W (Unit {0})
visit_keys f g [] = give tt
visit_keys f g (k ∷ keys) = f k (or_zero (lookup k g)) >> visit_keys f g keys

module _ (range : GlobalSpec → List Entry) where
  unfoldable pub ordered_keys : GlobalSpec → List StoredKey
  ordered_keys g = sort_keys (range g)

  unfoldable pub visit :
      {W : Type 0} → (StoredKey → StoredRecord → Proc W (Unit {0})) → GlobalSpec → Proc W (Unit {0})
  unfolding ordered_keys visit_keys
  visit f g = visit_keys f g (ordered_keys g)

  unfoldable pub store : {W : Type 0} → Snapshot W → GlobalSpec → Proc W (Unit {0})
  store S g = S.save (range g)

unfoldable pub load : {W : Type 0} → Snapshot W → Proc W GlobalSpec
unfolding load_from
load S = S.load >>= (λ entries. give (load_from [] entries))
