-- ===== src/Group/Scaler.antt =====
-- pkg/controller/group/scaler.go and quorum.go: the supervisors that keep a group at its size, or at
-- its list of logical ids.
pub mod Victims
pub mod Convergence
pub mod Quorum
use Prim.Native.String.{String}
use deploykit.Base.{
  ℕ, ◌-◌, Option, none, some, Bool, false, List, [], ◌∷◌, ◌++◌, map, ◌||◌, not, take, replicate,
  length, if◌then◌else◌, ltb, ◌==◌,
}
use deploykit.Group.Text.{eqb_str}
use deploykit.Group.Types.{
  Description, termination, Proc, give, ◌>>=◌, ◌>>◌, logged, Plugins, less_by_id, sort_by,
}
use deploykit.Group.Scaled.{ScaledGroup, create_one, destroy, label_and_list}

-- What a goroutine of `converge` does.
pub data Job : Type 0 where
  destroy_job : Description → Job
  create_job : Option String → Job

-- The jobs of `scaler.converge`.
unfoldable pub scaler_jobs : List Description → ℕ → List Job
scaler_jobs descriptions desired_size =
    let actual_size = length descriptions in
    if actual_size == desired_size
    then []
    else (if ltb desired_size actual_size
        then map destroy_job
            (take (actual_size - desired_size) (sort_by (less_by_id none) descriptions))
        else replicate (desired_size - actual_size) (create_job none))

-- Whether an instance has the logical id.
unfoldable pub has_logical_id : String → Description → Bool
has_logical_id expected d = elim d.logical_id [ none ↦ false | some l ↦ eqb_str expected l ]

unfoldable pub is_expected : List String → String → Bool
is_expected [] l = false
is_expected (expected ∷ ids) l = eqb_str expected l || is_expected ids l

-- The first loop of `quorum.converge`: an instance without a logical id is left alone.
unfoldable pub is_unknown : List String → Description → Bool
is_unknown ids d = elim d.logical_id [ none ↦ false | some l ↦ not (is_expected ids l) ]

unfoldable pub unknown_instances : List String → List Description → List Description
unknown_instances ids [] = []
unknown_instances ids (d ∷ descriptions) =
    let rest = unknown_instances ids descriptions in if is_unknown ids d then d ∷ rest else rest

unfoldable pub is_present : List Description → String → Bool
is_present [] expected = false
is_present (d ∷ descriptions) expected =
    has_logical_id expected d || is_present descriptions expected

-- The second loop.
unfoldable pub missing_ids : List Description → List String → List String
missing_ids descriptions [] = []
missing_ids descriptions (expected ∷ ids) =
    let rest = missing_ids descriptions ids in
    if is_present descriptions expected then rest else expected ∷ rest

-- The jobs of `quorum.converge`.
unfoldable pub quorum_jobs : List String → List Description → List Job
quorum_jobs ids descriptions =
    map destroy_job (unknown_instances ids descriptions)
    ++ map (λ l. create_job (some l)) (missing_ids descriptions ids)

module _ {W : Type 0} (p : Plugins W) (g : ScaledGroup) where
  -- A job; the error of a destroy is dropped.
  unfoldable pub run_job : ℕ → Job → Proc W (Unit {0})
  run_job size (destroy_job d) = logged tt (λ done. tt) (destroy p g d termination)
  run_job size (create_job l) = create_one p g size l

  unfoldable pub run_jobs : ℕ → List Job → Proc W (Unit {0})
  run_jobs size [] = give tt
  run_jobs size (j ∷ jobs) = run_job size j >> run_jobs size jobs

  -- `scaler.converge`, its goroutines in the order in which they are started; an error of the list is
  -- logged and ends the round.
  unfoldable pub scaler_converge : ℕ → Proc W (Unit {0})
  scaler_converge size =
      logged tt (λ done. tt)
        (do descriptions ← label_and_list p g; run_jobs size (scaler_jobs descriptions size))

  -- `quorum.converge`.
  unfoldable pub quorum_converge : List String → Proc W (Unit {0})
  quorum_converge ids =
      logged tt (λ done. tt)
        (do descriptions ← label_and_list p g; run_jobs (length ids) (quorum_jobs ids descriptions))
