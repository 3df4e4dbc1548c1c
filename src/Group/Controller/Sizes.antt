-- ===== src/Group/Controller/Sizes.antt =====
-- pkg/controller/group/group.go: the operations that read a group's size from its document and commit a
-- changed document: Size, SetSize and DestroyInstances; and DescribeGroup.
use Prim.Native.String.{String}
use deploykit.Base.{
  ℕ, Option, none, some, Bool, false, not, List, [], ◌∷◌, length, if◌then◌else◌, ltb, is_some,
}
use deploykit.Base.Int.{ℤ, pos, sub_ℕ, ltb_ℤ, pos_part}
use deploykit.Base.Dict.{Dict, lookup, insert}
use deploykit.Group.Text.{string_key, eqb_str}
use deploykit.Group.Types.{
  Description, GroupSettings, termination, Reply, failed, reply, Proc, give, ◌>>=◌, ◌>>◌, Plugins,
}
use deploykit.Group.Scaled.{ScaledGroup, destroy, list}
use deploykit.Group.Controller.{
  GroupSpec, Checks, GroupContext, Controller, and_then, stop_updating, commit_group,
}

module _ {P : Type 0} (k : Checks P) where
  -- The loop of `InspectGroups`.
  unfoldable pub inspect_entries : Dict String GroupContext → Reply (List (GroupSpec P))
  inspect_entries [] = reply []
  inspect_entries ((id, context) ∷ entries) =
      and_then (k.unparse_properties context.settings) (λ document.
        and_then (inspect_entries entries)
          (λ specs. reply (record { id = id; properties = document } ∷ specs)))

  -- `InspectGroups`.
  unfoldable pub inspect_groups : Controller → Reply (List (GroupSpec P))
  unfolding inspect_entries
  inspect_groups c = inspect_entries c.groups

  unfoldable pub find_spec : String → List (GroupSpec P) → Option (GroupSpec P)
  find_spec gid [] = none
  find_spec gid (spec ∷ specs) = if eqb_str spec.id gid then some spec else find_spec gid specs

  abbrev pub parse_found : Option (GroupSpec P) → Reply (GroupSpec P × GroupSettings)
  parse_found none = failed "group not found"
  parse_found (some spec) = and_then (k.parse_properties spec.properties) (λ g. reply (spec, g))

  -- The document of a group, with what it is parsed to.
  unfoldable pub read_spec : String → Controller → Reply (GroupSpec P × GroupSettings)
  unfolding inspect_groups find_spec
  read_spec gid c = and_then (inspect_groups c) (λ all. parse_found (find_spec gid all))

  -- `Size`.
  unfoldable pub size_of : String → Controller → Reply ℕ
  unfolding read_spec
  size_of gid c = and_then (read_spec gid c) (λ found.
      let ids = length found.1.logical_ids in reply (if ltb 0 ids then ids else found.1.size))

module _ {W P : Type 0} (p : Plugins W) (k : Checks P) where
  -- The commit of the changed document; `none` is the panic where it cannot be encoded.
  unfoldable pub commit_size :
      GroupSpec P
      → GroupSettings
      → ℕ
      → Controller × W
      → Option (Reply (Unit {0}) × (Controller × W))
  commit_size spec g size s = elim (k.unparse_properties (record g { size = size })) [
    | failed e ↦ none
    | reply document ↦ commit_group p k (record spec { properties = document }) false s
  ]

  -- `SetSize`.
  unfoldable pub set_size :
      String → ℤ → Controller × W → Option (Reply (Unit {0}) × (Controller × W))
  unfolding commit_size
  set_size gid size (c, w) =
      if ltb_ℤ size (pos 0)
      then some (failed "size cannot be negative", (c, w))
      else elim (read_spec k gid c) [
        | failed e ↦ some (failed e, (c, w))
        | reply (spec, g) ↦
            if ltb 0 (length g.logical_ids)
            then some (failed "cannot set size if logic ids are explicitly set", (c, w))
            else commit_size spec g (pos_part size) (c, w)
      ]

  -- `DescribeGroup`: the instances, and whether no update is in progress.
  unfoldable pub describe_group : String → Controller → Proc W (List Description × Bool)
  describe_group gid c w = elim (lookup gid c.groups) [
    | none ↦ (failed "Group is not being watched", w)
    | some context ↦
        (list p context.scaled >>= (λ instances. give (instances, not (is_some context.update)))) w
  ]

  -- The index of `DestroyInstances`, by instance id.
  unfoldable pub index_by_id : List Description → Dict String Description → Dict String Description
  index_by_id [] index = index
  index_by_id (inst ∷ instances) index = index_by_id instances (insert inst.id inst index)

  unfoldable pub targets_of : Dict String Description → List String → List Description
  targets_of index [] = []
  targets_of index (id ∷ ids) =
      let rest = targets_of index ids in
      elim (lookup id index) [ none ↦ rest | some desc ↦ desc ∷ rest ]

  unfoldable pub destroy_targets : ScaledGroup → List Description → Proc W (Unit {0})
  destroy_targets g [] = give tt
  destroy_targets g (target ∷ targets) = destroy p g target termination >> destroy_targets g targets

  abbrev pub then_resize :
      String → ℕ → Controller → Reply (Unit {0}) × W → Option (Reply (Unit {0}) × (Controller × W))
  then_resize gid asked c (failed e, w) = some (failed e, (c, w))
  then_resize gid asked c (reply done, w) = elim (size_of k gid c) [
    | failed e ↦ some (failed e, (c, w))
    | reply size ↦ set_size gid (sub_ℕ size asked) (c, w)
  ]

  abbrev pub destroy_listed :
      String
      → GroupContext
      → List String
      → Controller
      → Reply (List Description) × W
      → Option (Reply (Unit {0}) × (Controller × W))
  destroy_listed gid context ids c (failed e, w) = some (failed e, (c, w))
  destroy_listed gid context ids c (reply instances, w) =
      then_resize gid (length ids) (stop_updating gid context c)
        (destroy_targets context.scaled (targets_of (index_by_id instances []) ids) w)

  -- `DestroyInstances`. The size is lowered by the number of ids, whether or not all were found.
  unfoldable pub destroy_instances :
      String → List String → Controller × W → Option (Reply (Unit {0}) × (Controller × W))
  unfolding set_size destroy_targets targets_of index_by_id
  destroy_instances gid ids (c, w) = elim (lookup gid c.groups) [
    | none ↦ some (failed "Group is not being watched", (c, w))
    | some context ↦ destroy_listed gid context ids c (list p context.scaled w)
  ]
