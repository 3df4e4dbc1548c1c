-- ===== src/Group/Scaled.antt =====
-- pkg/controller/group/scaled.go: the operations on the instances of one group, over its plugins.
use Prim.Native.String.{String}
use deploykit.Base.{
  ℕ, Option, none, some, Bool, true, false, List, [], ◌∷◌, ◌||◌, ◌&&◌, map, if◌then◌else◌,
}
use deploykit.Base.Dict.{Dict, lookup, insert}
use deploykit.Group.Text.{string_key, eqb_str}
use deploykit.Group.Types.{
  Description, InstanceSpec, Health, unknown, Context, rolling_update, logical_id_tag,
  config_sha_tag, bootstrap_config_tag, GroupSettings, Reply, failed, reply, Proc, give, ◌>>=◌,
  ◌>>◌, logged, Plugins, is_self,
}

-- `scaledGroup`.
pub record ScaledGroup : Type 0 where
  pub settings : GroupSettings
  pub member_tags : Dict String String

abbrev pub skip_drain : String
skip_drain = "drain"

abbrev is_string : Option String → String → Bool
is_string none s = false
is_string (some t) s = eqb_str t s

abbrev with_logical_id : Option String → Dict String String → Dict String String
with_logical_id none tags = tags
with_logical_id (some l) tags = insert logical_id_tag l tags

-- `instanceNeedsLabel`; a missing tag reads as the empty string.
unfoldable pub instance_needs_label : Description → Bool
instance_needs_label inst = is_string (lookup config_sha_tag inst.tags) bootstrap_config_tag

unfoldable pub needs_label : List Description → Bool
needs_label [] = false
needs_label (inst ∷ instances) = instance_needs_label inst || needs_label instances

-- The loop of `List`: the field is filled in from the tag.
unfoldable pub normalize : Description → Description
normalize d = elim d.logical_id [
  | some l ↦ d
  | none ↦ record d { logical_id = lookup logical_id_tag d.tags }
]

unfoldable pub is_skip_drain : ScaledGroup → Bool
is_skip_drain g = is_string g.settings.skip_before_destroy skip_drain

-- The spec that `CreateOne` prepares.
unfoldable pub creation : ScaledGroup → Option String → InstanceSpec
creation g logical_id = record {
  tags = insert config_sha_tag g.settings.config_hash (with_logical_id logical_id g.member_tags);
  logical_id = logical_id;
}

module _ {W : Type 0} (p : Plugins W) (g : ScaledGroup) where
  -- `CreateOne`, whose errors are logged. `size` is the size of the supervisor.
  unfoldable pub create_one : ℕ → Option String → Proc W (Unit {0})
  create_one size logical_id =
      logged tt (λ id. tt) (do spec ← p.prepare (creation g logical_id) size; p.provision spec)

  -- `Health`.
  unfoldable pub health : Description → Proc W Health
  health inst = logged unknown (λ h. h) (p.health_of inst)

  -- The end of `Destroy`, after the drain.
  unfoldable pub finish_destroy : Description → Context → Proc W (Unit {0})
  finish_destroy inst ctx =
      if eqb_str ctx.reason rolling_update.reason && is_self inst g.settings
      then give tt
      else p.destroy_instance inst.id ctx

  -- Where a drain fails, only a rolling update gives up.
  abbrev pub after_drain : Description → Context → Reply (Unit {0}) × W → Reply (Unit {0}) × W
  after_drain inst ctx (reply done, w) = finish_destroy inst ctx w
  after_drain inst ctx (failed e, w) =
      if eqb_str ctx.reason rolling_update.reason then (failed e, w) else finish_destroy inst ctx w

  -- `Destroy`.
  unfoldable pub destroy : Description → Context → Proc W (Unit {0})
  unfolding finish_destroy
  destroy inst ctx w =
      if eqb_str ctx.reason rolling_update.reason && is_skip_drain g
      then finish_destroy inst ctx w
      else after_drain inst ctx (p.drain inst w)

  -- `List`.
  unfoldable pub list : Proc W (List Description)
  list = do found ← p.describe_instances g.member_tags true; give (map normalize found)

  -- The loop of `Label`.
  unfoldable pub label_all : Dict String String → List Description → Proc W (Unit {0})
  label_all tags [] = give tt
  label_all tags (inst ∷ instances) =
      let rest = label_all tags instances in
      if instance_needs_label inst then p.label_instance inst.id tags >> rest else rest

  -- `Label`.
  unfoldable pub label : Proc W (Unit {0})
  label = do
    instances ← p.describe_instances g.member_tags false
    label_all (insert config_sha_tag g.settings.config_hash g.member_tags) instances

  -- `labelAndList`.
  unfoldable pub label_and_list : Proc W (List Description)
  label_and_list = do
    descriptions ← list
    if needs_label descriptions then (label >> list) else give descriptions
