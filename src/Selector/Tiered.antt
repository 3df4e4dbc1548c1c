-- ===== src/Selector/Tiered.antt =====
-- pkg/plugin/instance/selector/tiered/tiered.go, and the visit of internal/base.go: a request goes to the
-- choices one by one, until one provisions an instance.
pub mod Choices
use Prim.Native.String.{String}
use deploykit.Base.{Option, none, some, Bool, true, false, List, [], ◌∷◌}
use deploykit.Base.Dict.{Dict, lookup}
use deploykit.Group.Text.{string_key}
use deploykit.Group.Types.{Reply, failed, reply, Proc}
use deploykit.Selector.{Choice}

-- The instance plugin of a choice: what it answers to properties, nil being no id.
abbrev pub Provisioner : Type 0 → Type 0 → Type 0
Provisioner W P = P → Proc W (Option String)

module _ {W P : Type 0} (client : String → Reply (Option (Provisioner W P))) where
  -- `VisitChoices`, over a work function that says whether the visit goes on.
  abbrev after_visit :
      {V : Type 0} → (V → Reply (Unit {0}) × V) → Reply Bool × V → Reply (Unit {0}) × V
  after_visit more (failed e, v) = (failed e, v)
  after_visit more (reply true, v) = more v
  after_visit more (reply false, v) = (reply tt, v)

  unfoldable pub visit_choices :
      {V : Type 0} → (Choice → Provisioner W P → Proc V Bool) → List Choice → Proc V (Unit {0})
  visit_choices visit [] v = (reply tt, v)
  visit_choices visit (c ∷ choices) v = elim (client c.name) [
    | failed e ↦ (failed e, v)
    | reply none ↦ visit_choices visit choices v
    | reply (some p) ↦ after_visit (visit_choices visit choices) (visit c p v)
  ]

  -- What the function of the visit makes of the plugin's answer; `provisioned` is the variable that it sets.
  abbrev after_provision :
      Option String → Reply (Option String) × W → Reply Bool × (W × Option String)
  after_provision provisioned (failed e, w) = (reply true, (w, provisioned))
  after_provision provisioned (reply none, w) = (reply true, (w, provisioned))
  after_provision provisioned (reply (some id), w) = (reply false, (w, some id))

  -- The properties of a choice are missing, or nil, or there.
  unfoldable pub visit_tier :
      Dict String (Option P) → Choice → Provisioner W P → Proc (W × Option String) Bool
  visit_tier cprops c p (w, provisioned) = elim (lookup c.name cprops) [
    | none ↦ (failed "no config", (w, provisioned))
    | some none ↦ (failed "no config", (w, provisioned))
    | some (some properties) ↦ after_provision provisioned (p properties w)
  ]

  -- The error of the visit gives way where nothing was provisioned, and is nil where something was.
  abbrev finish : Reply (Unit {0}) × (W × Option String) → Reply String × W
  finish (result, (w, none)) = (failed "cannot provision instance", w)
  finish (result, (w, some id)) = (reply id, w)

  -- `Provision` of properties that are decoded.
  unfoldable pub provision_tiered : Dict String (Option P) → List Choice → Proc W String
  unfolding visit_choices visit_tier
  provision_tiered cprops choices w = finish (visit_choices (visit_tier cprops) choices (w, none))
