-- ===== src/Manager/Proxy.antt =====
-- pkg/manager/group_proxy.go: the operations on groups, which keep the stored specs in step.
use Prim.Native.String.{String}
use deploykit.Base.{
  ℕ, suc, ◌-◌, ◌%◌, ◌^◌, Option, some, Bool, false, List, [], ◌∷◌, if◌then◌else◌, ltb, length,
}
use deploykit.Base.Int.{ℤ, pos, negsuc}
use deploykit.Group.Types.{Reply, failed, Proc, give, fail, ◌>>=◌, ◌>>◌}
use deploykit.Manager.{
  Any, GlobalSpec, GroupSpec, Snapshot, Entry, get_group_spec, update_group_spec, remove_group,
  load, store,
}

-- The conversions between `int` and `uint`.
abbrev pub to_uint : ℤ → ℕ
to_uint (pos n) = n % 2 ^ 64
to_uint (negsuc n) = 2 ^ 64 - 1 - n % 2 ^ 64

abbrev pub to_int : ℕ → ℤ
to_int n = if ltb n (2 ^ 63) then pos n else negsuc (2 ^ 64 - 1 - n)

-- The properties of a group, of which the manager reads the allocation; `rest` is what it keeps.
pub record GroupProperties : Type 0 where
  pub size : ℕ
  pub logical_ids : List String
  pub rest : Any

-- `ParseProperties` and `AnyValueMust`, the JSON decoder and encoder.
pub record Codec : Type 0 where
  pub parse : Option Any → Reply GroupProperties
  pub print : GroupProperties → Any

-- The group plugin, for descriptions of a type `D`.
pub record GroupPlugin (W : Type 0) (D : Type 0) : Type 0 where
  pub commit_group : GroupSpec → Bool → Proc W String
  pub describe_group : String → Proc W D
  pub destroy_group : String → Proc W (Unit {0})
  pub free_group : String → Proc W (Unit {0})
  pub destroy_instances : String → List String → Proc W (Unit {0})

abbrev pub err_not_leader : String
err_not_leader = "not a leader"

-- The answer of a computation that cannot fail in itself.
abbrev pub from_reply : {W A : Type 0} → Reply A → Proc W A
from_reply r w = (r, w)

-- The test of the leadership with which each operation begins; the flag is a part of the world.
unfoldable pub as_leader : {W : Type 0} → (W → Bool) → {A : Type 0} → Proc W A → Proc W A
as_leader is_leader p w = if is_leader w then p w else (failed err_not_leader, w)

-- A manager, its store, and the group plugin with the name of that.
module _ (range : GlobalSpec → List Entry) (codec : Codec) {W D : Type 0} (is_leader : W → Bool)
    (S : Snapshot W) (plugin : GroupPlugin W D) (handler : String) where
  unfoldable pub load_group_spec : String → Proc W GroupSpec
  load_group_spec id = load S >>= (λ config. from_reply (get_group_spec id config))

  unfoldable pub update_config : GroupSpec → Proc W (Unit {0})
  update_config spec = load S >>= (λ stored. store range S (update_group_spec spec handler stored))

  unfoldable pub remove_config : String → Proc W (Unit {0})
  remove_config id = load S >>= (λ stored. store range S (remove_group id stored))

  -- `CommitGroup`; the text beside an error is left out.
  unfoldable pub commit_group : GroupSpec → Bool → Proc W String
  unfolding as_leader update_config
  commit_group grp pretend =
      as_leader is_leader
        ((if pretend then give tt else update_config grp) >> plugin.commit_group grp pretend)

  unfoldable pub describe_group : String → Proc W D
  unfolding as_leader
  describe_group id = as_leader is_leader (plugin.describe_group id)

  unfoldable pub destroy_group : String → Proc W (Unit {0})
  unfolding as_leader remove_config
  destroy_group id = as_leader is_leader (remove_config id >> plugin.destroy_group id)

  unfoldable pub free_group : String → Proc W (Unit {0})
  unfolding as_leader remove_config
  free_group id = as_leader is_leader (remove_config id >> plugin.free_group id)

  unfoldable pub destroy_instances : String → List String → Proc W (Unit {0})
  unfolding as_leader
  destroy_instances id instances = as_leader is_leader (plugin.destroy_instances id instances)

  -- `SetSize`, after the stored properties are parsed.
  unfoldable pub resize : GroupSpec → ℤ → GroupProperties → Proc W (Unit {0})
  unfolding commit_group
  resize spec size parsed = elim parsed.logical_ids [
    | [] ↦
        commit_group
          (record spec { properties = some (codec.print (record parsed { size = to_uint size })) })
          false
        >> give tt
    | id ∷ ids ↦ fail "cannot set size when logical ids are explicitly set"
  ]

  unfoldable pub set_size : String → ℤ → Proc W (Unit {0})
  unfolding as_leader load_group_spec resize
  set_size id size = as_leader is_leader (
      load_group_spec id
      >>= (λ spec. from_reply (codec.parse spec.properties) >>= resize spec size))

  -- The number of the logical ids, or the size where there are none.
  abbrev pub allocated : GroupProperties → ℤ
  allocated parsed = elim parsed.logical_ids [
    | [] ↦ to_int parsed.size
    | id ∷ ids ↦ pos (suc (length ids))
  ]

  unfoldable pub size : String → Proc W ℤ
  unfolding as_leader load_group_spec
  size id = as_leader is_leader (
      load_group_spec id >>= (λ spec.
        from_reply (codec.parse spec.properties) >>= (λ parsed. give (allocated parsed))))
