-- ===== src/Enrollment/Sync.antt =====
-- pkg/controller/enrollment/sync.go: a round of synchronization, and the end of all enrollments.
use Prim.Native.String.{String}
use deploykit.Base.{Option, none, some, Bool, true, List, [], ◌∷◌, is_some, if◌then◌else◌}
use deploykit.Base.Dict.{Dict, lookup, insert}
use deploykit.Group.Text.{string_key}
use deploykit.Group.Types.{
  Description, Plugins, termination, Reply, failed, reply, Proc, give, fail, ◌>>=◌, ◌>>◌, logged,
}
use deploykit.Enrollment.{KeySets, KeyFunc, Policies, delta}

abbrev pub source_id_tag : String
source_id_tag = "infrakit.enrollment.sourceID"

abbrev pub name_tag : String
name_tag = "infrakit.enrollment.name"

-- A template, once it is parsed, renders a description or fails; one that cannot be parsed fails.
abbrev pub Template : Type 0 → Type 0
Template A = Description → Reply A

-- The parts of `enroller` that a round reads. `labels` is the map in the properties, which may be
-- nil; `properties_template` is nil where the properties of an enrollment are the description.
pub record Enroller : Type 0 where
  pub name : String
  pub labels : Option (Dict String String)
  pub source_template : Option (Template String)
  pub enrollment_template : Option (Template String)
  pub properties_template : Option (Template String)
  pub policies : Policies

abbrev rendered : Reply String → Option String
rendered (failed e) = none
rendered (reply v) = some v

-- `sourceKeyFunc` and `enrolledKeyFunc`.
unfoldable pub source_key : Enroller → KeyFunc
source_key l d = elim l.source_template [ none ↦ some d.id | some t ↦ rendered (t d) ]

unfoldable pub enrolled_key : Enroller → KeyFunc
enrolled_key l d = elim l.enrollment_template [
  | none ↦ lookup source_id_tag d.tags
  | some t ↦ rendered (t d)
]

abbrev pub or_empty : Option (Dict String String) → Dict String String
or_empty none = []
or_empty (some labels) = labels

-- `labels`: the tags of an enrollment, and the enroller with the map of its properties as the
-- writes to it leave it.
unfoldable pub labels_of : Enroller → Description → Dict String String × Enroller
labels_of l n =
    let tags = insert name_tag l.name (insert source_id_tag n.id (or_empty l.labels)) in
    (tags, record l { labels = if is_some l.labels then some tags else none })

-- `buildProperties`, of which only the error matters here.
abbrev builds : Enroller → Description → Bool
builds l n = elim l.properties_template [ none ↦ true | some t ↦ is_some (rendered (t n)) ]

module _ (S : KeySets) {W : Type 0} (P : Plugins W) where
  -- A call whose error has a way on of its own.
  abbrev pub attempt_reply : {A B : Type 0} → (A → Proc W B) → Proc W B → Reply A × W → Reply B × W
  attempt_reply more otherwise (failed e, w) = otherwise w
  attempt_reply more otherwise (reply a, w) = more a w

  abbrev pub attempt : {A B : Type 0} → Proc W A → (A → Proc W B) → Proc W B → Proc W B
  attempt p more otherwise w = attempt_reply more otherwise (p w)

  -- The instances of the properties, the members of a group, or nothing that is configured.
  pub data Source : Type 0 where
    instances : List Description → Source
    members : Proc W (List Description) → Source
    unspecified : Source

  -- `getSourceInstances`.
  unfoldable pub get_source_instances : Source → Proc W (List Description)
  get_source_instances (instances list) = give list
  get_source_instances (members describe) = describe
  get_source_instances unspecified = fail "no list source specified"

  -- `getEnrolledInstances`.
  unfoldable pub get_enrolled_instances : Proc W (Unit {0}) → Enroller → Proc W (List Description)
  get_enrolled_instances connect l = connect >> P.describe_instances (or_empty l.labels) true

  -- The loop over what is to be added. The plugin reads the tags when it is called.
  unfoldable pub enroll_all : Enroller → List Description → Proc W Enroller
  unfolding labels_of
  enroll_all l [] = give l
  enroll_all l (n ∷ add) =
      let (tags, l') = labels_of l n in
      let skipped = enroll_all l add in
      let made =
        logged tt (λ id. tt) (P.provision (record { tags = tags; logical_id = none })) >>= λ u.
        enroll_all l' add in
      if builds l n then made else skipped

  unfoldable pub remove_all : List Description → Proc W (Unit {0})
  remove_all [] = give tt
  remove_all (n ∷ remove) =
      logged tt (λ u. tt) (P.destroy_instance n.id termination) >>= λ u. remove_all remove

  -- The calls for a delta.
  unfoldable pub carry_out :
      Proc W (Unit {0}) → Enroller → List Description × List Description → Proc W Enroller
  unfolding enroll_all remove_all
  carry_out connect l (add, remove) =
      connect >> (enroll_all l add >>= λ l'. remove_all remove >>= λ u. give l')

  -- The part of `sync` after the two listings.
  unfoldable pub apply_delta :
      Proc W (Unit {0}) → Enroller → List Description → List Description → Proc W Enroller
  unfolding source_key enrolled_key delta carry_out
  apply_delta connect l source enrolled =
      carry_out connect l (delta S source (source_key l) enrolled (enrolled_key l) l.policies)

  -- `sync`. Without both listings there is nothing to compare, and no error.
  unfoldable pub sync : Proc W (Unit {0}) → Source → Enroller → Proc W Enroller
  unfolding get_source_instances get_enrolled_instances apply_delta
  sync connect from l =
      attempt (get_source_instances from)
        (λ source.
          attempt (get_enrolled_instances connect l)
            (λ enrolled. apply_delta connect l source enrolled) (give l))
        (give l)

  -- `destroy`: every instance that is listed as enrolled.
  unfoldable pub destroy : Proc W (Unit {0}) → Enroller → Proc W (Unit {0})
  unfolding get_enrolled_instances remove_all
  destroy connect l =
      connect >> (get_enrolled_instances connect l >>= λ enrolled. remove_all enrolled)
