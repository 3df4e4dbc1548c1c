-- ===== src/Group/Controller.antt =====
-- pkg/controller/group/group.go, with the update plans of scaler.go and quorum.go and the table of groups
-- of state.go.
pub mod Commit
pub mod Table
pub mod Sizes
pub mod Plans
pub mod Resize
mod Tests
use Prim.Native.String.{String}
use deploykit.Base.{
  ℕ, Option, none, some, Bool, true, false, List, [], ◌∷◌, ◌++◌, ◌&&◌, not, length, if◌then◌else◌,
  ltb, ◌==◌,
}
use deploykit.Base.Int.{pos, ltb_ℤ}
use deploykit.Base.Dict.{Dict, lookup, insert, erase}
use deploykit.Group.Text.{string_key, eqb_str}
use deploykit.Group.Types.{
  Updating, Description, GroupSettings, termination, Reply, failed, reply, Proc, give, fail, ◌>>=◌,
  ◌>>◌, logged, Plugins, less_by_id, sort_by,
}
use deploykit.Group.Scaled.{ScaledGroup, destroy, list, label_and_list}
use deploykit.Group.Rolling.{desired_and_undesired}

-- `group.Spec`, its properties a document that is parsed elsewhere.
pub record GroupSpec (P : Type 0) : Type 0 where
  pub id : String
  pub properties : P

-- What the controller calls to read documents and to have the plugins check them.
pub record Checks (P : Type 0) : Type 0 where
  pub parse_properties : P → Reply GroupSettings
  pub unparse_properties : GroupSettings → Reply P
  pub validate_flavor : GroupSettings → Reply (Unit {0})
  pub validate_instance : GroupSettings → Reply (Unit {0})

-- The supervisors: a scaler with its size, or a quorum with its ids.
pub data Supervisor : Type 0 where
  scaler : ℕ → Supervisor
  quorum : List String → Supervisor

-- The update plans; `scaler_plan` has the old size and the new one.
pub data UpdatePlan : Type 0 where
  noop_plan : UpdatePlan
  rolling_plan : GroupSettings → GroupSettings → UpdatePlan
  scaler_plan : ℕ → ℕ → UpdatePlan → UpdatePlan

abbrev pub group_tag : String
group_tag = "infrakit.group"

-- `groupContext`.
pub record GroupContext : Type 0 where
  pub settings : GroupSettings
  pub supervisor : Supervisor
  pub scaled : ScaledGroup
  pub update : Option UpdatePlan

-- The goroutines that are started, and the stops that are sent to them.
pub data Launch : Type 0 where
  run_supervisor stop_supervisor : String → Launch
  run_update stop_update : String → UpdatePlan → Launch

-- `gController`.
pub record Controller : Type 0 where
  pub self : Option String
  pub groups : Dict String GroupContext
  pub launches : List Launch

unfoldable pub same_ids : List String → List String → Bool
same_ids [] [] = true
same_ids (x ∷ xs) (y ∷ ys) = eqb_str x y && same_ids xs ys
same_ids _ _ = false

-- `validate`.
unfoldable pub check_parsed : GroupSettings → Reply GroupSettings
check_parsed parsed =
    let n = length parsed.logical_ids in
    if parsed.size == 0 && n == 0
    then failed "Allocation must not be blank"
    else (if ltb 0 parsed.size && ltb 0 n
        then failed "Only one Allocation method may be used"
        else (if ltb_ℤ (pos 0) parsed.updating.count && ltb_ℤ (pos 0) parsed.updating.duration
            then failed "Only one Updating method may be used"
            else reply parsed))

abbrev pub and_then : {A B : Type 0} → Reply A → (A → Reply B) → Reply B
and_then (failed e) f = failed e
and_then (reply a) f = f a

unfoldable pub validate : {P : Type 0} → Checks P → GroupSpec P → Reply GroupSettings
unfolding check_parsed
validate k spec =
    if eqb_str spec.id ""
    then failed "Group ID must not be blank"
    else and_then (k.parse_properties spec.properties) (λ read.
      and_then (check_parsed read) (λ parsed.
        and_then (k.validate_flavor parsed)
          (λ a. and_then (k.validate_instance parsed) (λ b. reply parsed))))

-- The supervisor of a new group; `none` is the panic on an empty allocation.
unfoldable pub new_supervisor : GroupSettings → Option Supervisor
new_supervisor settings =
    if not (settings.size == 0)
    then some (scaler settings.size)
    else (if ltb 0 (length settings.logical_ids) then some (quorum settings.logical_ids) else none)

-- `groupContext.stopUpdating`.
unfoldable pub stop_updating : String → GroupContext → Controller → Controller
stop_updating id context c = elim context.update [
  | none ↦ c
  | some plan ↦ record c {
    groups = insert id (record context { update = none }) c.groups;
    launches = c.launches ++ stop_update id plan ∷ [];
  }
]

-- `setUpdate` and `changeSettings` of `CommitGroup`, and the goroutine that it starts.
unfoldable pub start_update :
    String → GroupContext → UpdatePlan → GroupSettings → Controller → Controller
start_update id context plan settings c = record c {
  groups =
      insert id
        (record context {
          settings = settings;
          scaled = record (context.scaled) { settings = settings };
          update = some plan;
        })
        c.groups;
  launches = c.launches ++ run_update id plan ∷ [];
}

-- `doFree`: the update and the supervisor are stopped, and the group leaves the table.
unfoldable pub do_free : String → Controller → Option (GroupContext × Controller)
unfolding stop_updating
do_free id c = elim (lookup id c.groups) [
  | none ↦ none
  | some context ↦
      let c₁ = stop_updating id context c in
      some (
        context,
        record c₁ {
          groups = erase id c₁.groups;
          launches = c₁.launches ++ stop_supervisor id ∷ [];
        },
      )
]

module _ {W : Type 0} (p : Plugins W) where
  -- `PlanUpdate` of either supervisor.
  unfoldable pub plan_update : GroupContext → GroupSettings → Proc W UpdatePlan
  plan_update context new = elim context.supervisor [
    | scaler size ↦ label_and_list p context.scaled >>= (λ instances.
        if new.size == context.settings.size
          && length (desired_and_undesired new.config_hash instances).1 == 0
        then give noop_plan
        else give (scaler_plan context.settings.size new.size (rolling_plan context.settings new)))
    | quorum ids ↦
        if same_ids context.settings.logical_ids new.logical_ids
        then label_and_list p context.scaled >>= (λ instances.
          if length (desired_and_undesired new.config_hash instances).1 == 0
          then give noop_plan
          else give (rolling_plan context.settings new))
        else fail "Logical ID changes to a quorum is not currently supported"
  ]

  abbrev pub planned :
      String
      → GroupContext
      → GroupSettings
      → Bool
      → Controller
      → Reply UpdatePlan × W
      → Reply (Unit {0}) × (Controller × W)
  planned id context settings pretend c (failed e, w) = (failed e, (c, w))
  planned id context settings pretend c (reply plan, w) =
      (reply tt, (if pretend then c else start_update id context plan settings c, w))

  -- `CommitGroup` on a group that is watched. The plan is made after the update in progress has stopped.
  unfoldable pub commit_existing :
      String → GroupContext → GroupSettings → Bool → Proc (Controller × W) (Unit {0})
  unfolding stop_updating start_update plan_update
  commit_existing id context settings pretend (c, w) =
      let c₁ = if pretend then c else stop_updating id context c in
      planned id context settings pretend c₁ (plan_update context settings w)

  -- `CommitGroup` on a new group; `none` is a panic.
  unfoldable pub commit_new :
      String → GroupSettings → Bool → Controller × W → Option (Reply (Unit {0}) × (Controller × W))
  unfolding new_supervisor
  commit_new id settings pretend (c, w) = elim (new_supervisor settings) [
    | none ↦ none
    | some supervisor ↦
        let context : GroupContext = record {
          settings = settings;
          supervisor = supervisor;
          scaled = record { settings = settings; member_tags = (group_tag, id) ∷ [] };
          update = none;
        } in
        some (
          reply tt,
          (
            if pretend then c else record c {
              groups = insert id context c.groups;
              launches = c.launches ++ run_supervisor id ∷ [];
            },
            w,
          ),
        )
  ]

  abbrev pub commit_valid :
      String
      → Bool
      → Controller × W
      → Reply GroupSettings
      → Option (Reply (Unit {0}) × (Controller × W))
  commit_valid id pretend (c, w) (failed e) = some (failed e, (c, w))
  commit_valid id pretend (c, w) (reply parsed) =
      let settings = record parsed { self = c.self } in
      elim (lookup id c.groups) [
        | some context ↦ some (commit_existing id context settings pretend (c, w))
        | none ↦ commit_new id settings pretend (c, w)
      ]

  -- `CommitGroup`.
  unfoldable pub commit_group :
      {P : Type 0}
      → Checks P
      → GroupSpec P
      → Bool
      → Controller × W
      → Option (Reply (Unit {0}) × (Controller × W))
  unfolding validate commit_existing commit_new
  commit_group k spec pretend s = commit_valid spec.id pretend s (validate k spec)

  unfoldable pub destroy_all : ScaledGroup → List Description → Proc W (Unit {0})
  destroy_all g [] = give tt
  destroy_all g (d ∷ descriptions) =
      logged tt (λ done. tt) (destroy p g d termination) >> destroy_all g descriptions

  -- `DestroyGroup`: all instances, the controller's own last.
  unfoldable pub destroy_group : String → Controller × W → Reply (Unit {0}) × (Controller × W)
  unfolding do_free
  destroy_group id (c, w) = elim (do_free id c) [
    | none ↦ (failed "Group is not being watched", (c, w))
    | some (context, c') ↦
        let (r, w') =
          (list p context.scaled >>= (λ descriptions.
              destroy_all context.scaled
                (sort_by (less_by_id (some context.settings)) descriptions)))
            w in
        (r, (c', w'))
  ]
