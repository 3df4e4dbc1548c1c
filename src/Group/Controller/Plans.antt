-- ===== src/Group/Controller/Plans.antt =====
-- pkg/controller/group/scaler.go: the run of an update plan, which may change the size of the scaler before
-- or after it rolls the instances.
use deploykit.Base.{ℕ, ◌≡◌, refl, List, if◌then◌else◌, ltb, min, arith}
use deploykit.Group.Types.{Updating, Reply, failed, reply, Plugins, GroupSettings}
use deploykit.Group.Scaled.{ScaledGroup}
use deploykit.Group.Rolling.{Wake, Progress, waiting, finished, run_rolling_update}
use deploykit.Group.Controller.{UpdatePlan, noop_plan, rolling_plan, scaler_plan}

-- What comes after the rolling plan: only where it has finished, the size is raised.
abbrev pub raise_size : {W : Type 0} → ℕ → ℕ → Reply Progress × (ℕ × W) → Reply Progress × (ℕ × W)
raise_size original new (failed e, s) = (failed e, s)
raise_size original new (reply waiting, s) = (reply waiting, s)
raise_size original new (reply finished, (size, w)) =
    (reply finished, (if ltb original new then new else size, w))

module _ {W : Type 0} (p : Plugins W) (g : ScaledGroup) (updating : Updating) where
  abbrev with_size : ℕ → Reply Progress × W → Reply Progress × (ℕ × W)
  with_size size (r, w) = (r, (size, w))

  -- `Run` of each plan, on the size of the scaler and the world.
  unfoldable pub run_plan : UpdatePlan → List Wake → ℕ × W → Reply Progress × (ℕ × W)
  run_plan noop_plan wakes s = (reply finished, s)
  run_plan (rolling_plan from to) wakes (size, w) =
      with_size size (run_rolling_update p g updating from to wakes w)
  run_plan (scaler_plan original new plan) wakes (size, w) =
      raise_size original new (run_plan plan wakes (if ltb new original then new else size, w))

  -- The size that a plan is to leave.
  abbrev pub target_size : ℕ → ℕ → Reply Progress → ℕ
  target_size original new (failed e) = min original new
  target_size original new (reply waiting) = min original new
  target_size original new (reply finished) = new

  raise_size_lem :
      (original new size : ℕ) (x : Reply Progress × W)
      → size ≡ (if ltb new original then new else original)
      → let y = raise_size original new (with_size size x) in y.1.0 ≡ target_size original new y.0
  raise_size_lem original new size (failed e, w) h = ground arith
  raise_size_lem original new size (reply waiting, w) h = ground arith
  raise_size_lem original new size (reply finished, w) h = ground arith

  -- The plan of a scaler of the original size leaves the new size where its rolling update
  -- finishes, and the smaller of the two sizes where it fails or still waits: a group is shrunk
  -- before its instances are replaced, and grown only afterwards.
  pub run_plan-target_size :
      (original new : ℕ) (from to : GroupSettings) (wakes : List Wake) (w : W)
      → let y = run_plan (scaler_plan original new (rolling_plan from to)) wakes (original, w) in
        y.1.0 ≡ target_size original new y.0
  unfolding run_plan
  run_plan-target_size original new from to wakes w =
      raise_size_lem original new (if ltb new original then new else original)
        (run_rolling_update p g updating from to wakes w) refl
