-- ===== src/Group/Types.antt =====
-- pkg/spi/instance/types.go, pkg/spi/flavor and pkg/controller/group/state.go: the data of the group
-- controller, and the plugins that it calls.
use Prim.Native.String.{String}
use deploykit.Base.{ℕ, Option, none, some, Bool, true, false, List, [], ◌∷◌, ◌||◌, if◌then◌else◌}
use deploykit.Base.Int.{ℤ}
use deploykit.Base.Dict.{Dict, lookup}
use deploykit.Group.Text.{string_key, eqb_str, lt_str}

-- `instance.Description`, without the opaque properties.
pub record Description : Type 0 where
  pub id : String
  pub logical_id : Option String
  pub tags : Dict String String

-- `instance.Spec`: what a new instance is asked to have.
pub record InstanceSpec : Type 0 where
  pub tags : Dict String String
  pub logical_id : Option String

-- `flavor.Health`.
pub data Health : Type 0 where
  unknown healthy unhealthy : Health

-- `instance.Context`.
pub record Context : Type 0 where
  pub reason : String

abbrev pub rolling_update : Context
rolling_update = record { reason = "rolling_update" }

abbrev pub termination : Context
termination = record { reason = "terminate" }

abbrev pub logical_id_tag : String
logical_id_tag = "infrakit.logical_id"

abbrev pub config_sha_tag : String
config_sha_tag = "infrakit.config.hash"

abbrev pub bootstrap_config_tag : String
bootstrap_config_tag = "bootstrap"

-- `Updating`. A duration counts nanoseconds.
pub record Updating : Type 0 where
  pub duration : ℤ
  pub count : ℤ

-- `groupSettings`, with the parts of the configuration that the code reads. `config_hash` is the
-- digest of the instance configuration.
pub record GroupSettings : Type 0 where
  pub self : Option String
  pub size : ℕ
  pub logical_ids : List String
  pub config_hash : String
  pub skip_before_destroy : Option String
  pub updating : Updating

-- An answer, or an error with its message.
pub data Reply (A : Type 0) : Type 0 where
  failed : String → Reply A
  reply : A → Reply A

-- A computation that talks to the plugins, whose state is a world `W`.
abbrev pub Proc : Type 0 → Type 0 → Type 0
Proc W A = W → Reply A × W

module _ {W : Type 0} where
  abbrev pub give : {A : Type 0} → A → Proc W A
  give a w = (reply a, w)

  abbrev pub fail : {A : Type 0} → String → Proc W A
  fail e w = (failed e, w)

  abbrev pub follow : {A B : Type 0} → (A → Proc W B) → Reply A × W → Reply B × W
  follow f (failed e, w) = (failed e, w)
  follow f (reply a, w) = f a w

  infixl 5 ◌>>=◌ ◌>>◌
  abbrev pub ◌>>=◌ : {A B : Type 0} → Proc W A → (A → Proc W B) → Proc W B
  (p >>= f) w = follow f (p w)

  abbrev pub ◌>>◌ : {A B : Type 0} → Proc W A → Proc W B → Proc W B
  p >> q = p >>= (λ a. q)

  -- The error that is only logged.
  abbrev pub logged_reply : {A B : Type 0} → B → (A → B) → Reply A × W → Reply B × W
  logged_reply b f (failed e, w) = (reply b, w)
  logged_reply b f (reply a, w) = (reply (f a), w)

  abbrev pub logged : {A B : Type 0} → B → (A → B) → Proc W A → Proc W B
  logged b f p w = logged_reply b f (p w)

-- The instance plugin and the flavor plugin of a group.
pub record Plugins (W : Type 0) : Type 0 where
  pub describe_instances : Dict String String → Bool → Proc W (List Description)
  pub label_instance : String → Dict String String → Proc W (Unit {0})
  pub destroy_instance : String → Context → Proc W (Unit {0})
  pub provision : InstanceSpec → Proc W String
  pub prepare : InstanceSpec → ℕ → Proc W InstanceSpec
  pub health_of : Description → Proc W Health
  pub drain : Description → Proc W (Unit {0})

-- The tag of a self that was set.
abbrev has_tag : String → Option String → Bool
has_tag self none = false
has_tag self (some v) = eqb_str self v

abbrev same_logical : Option String → String → Bool
same_logical none self = false
same_logical (some l) self = eqb_str l self

-- `isSelf`.
unfoldable pub is_self : Description → GroupSettings → Bool
is_self inst settings = elim settings.self [
  | none ↦ false
  | some self ↦ same_logical inst.logical_id self || has_tag self (lookup logical_id_tag inst.tags)
]

-- `sortByID.Less`.
unfoldable pub less_by_id : Option GroupSettings → Description → Description → Bool
less_by_id none a b = lt_str a.id b.id
less_by_id (some settings) a b =
    if is_self a settings then false else (if is_self b settings then true else lt_str a.id b.id)

-- `sort.Sort` by that order.
unfoldable pub insert_by :
    (Description → Description → Bool) → Description → List Description → List Description
insert_by less x [] = x ∷ []
insert_by less x (y ∷ l) = if less y x then y ∷ insert_by less x l else x ∷ y ∷ l

unfoldable pub sort_by : (Description → Description → Bool) → List Description → List Description
sort_by less [] = []
sort_by less (x ∷ l) = insert_by less x (sort_by less l)
