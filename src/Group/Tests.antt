-- ===== src/Group/Tests.antt =====
-- The theorems about groups, at small groups of instances.
use Prim.Native.String.{String}
use mathlib.Core.List.{Permᴰ, Memᴰ}
use text.Mathlib.TextEquality.{eq_iff}
use deploykit.Base.{ℕ, ◌+◌, ◌≡◌, ◌↔◌, ◌⊎◌, refl, none, some, List, [], ◌∷◌}
use deploykit.Base.Int.{pos}
use deploykit.Group.Types.{Updating, Description, GroupSettings, Plugins, reply, healthy}
use deploykit.Group.Scaled.{ScaledGroup}
use deploykit.Group.Scaler.{scaler_jobs, quorum_jobs, destroy_job, create_job}
use deploykit.Group.Scaler.Quorum.{quorum_jobs_iff, IsStray, IsVacant}
use deploykit.Group.Scaler.Victims.{scaler_jobs-Permᴰ}
use deploykit.Group.Scaler.Convergence.{scaler_jobs_balance, creates, destroys}
use deploykit.Group.Rolling.{Wake, tick, run_rolling_update}
use deploykit.Group.Rolling.Safety.{run_rolling_update-Preserves}

abbrev pub twice : Updating
twice = record { duration = pos 0; count = pos 2 }

abbrev node_a : Description
node_a = record { id = "i-a"; logical_id = some "a"; tags = [] }

abbrev node_b : Description
node_b = record { id = "i-b"; logical_id = some "b"; tags = ("infrakit.config.hash", "old") ∷ [] }

abbrev node_c : Description
node_c = record { id = "i-c"; logical_id = some "c"; tags = ("infrakit.config.hash", "new") ∷ [] }

abbrev pub settings : GroupSettings
settings = record {
  self = some "a";
  size = 2;
  logical_ids = [];
  config_hash = "new";
  skip_before_destroy = none;
  updating = twice;
}

-- The world counts the instances that were provisioned, and lists two.
abbrev pub plugins : Plugins ℕ
plugins = record {
  describe_instances = λ tags all w. (reply (node_a ∷ node_b ∷ []), w);
  label_instance = λ id tags w. (reply tt, w);
  destroy_instance = λ id ctx w. (reply tt, w);
  provision = λ spec w. (reply "i-d", w + 1);
  prepare = λ spec size w. (reply spec, w);
  health_of = λ d w. (reply healthy, w);
  drain = λ d w. (reply tt, w);
}

abbrev pub group : ScaledGroup
group = record { settings = settings; member_tags = [] }

abbrev pub ticks : List Wake
ticks = tick 1 ∷ tick 2 ∷ []

run_rolling_update-Preserves_example :
    (run_rolling_update plugins group twice settings settings ticks 5).1 ≡ 5
run_rolling_update-Preserves_example =
    run_rolling_update-Preserves (λ w. w ≡ 5) plugins group settings settings (λ tags all w h. h)
      (λ id tags w h. h) (λ d w h. h) (λ d w h. h) (λ d u s w h. h) twice ticks 5 refl

scaler_jobs-Permᴰ_example :
    scaler_jobs (node_a ∷ node_b ∷ []) 1 ≡ scaler_jobs (node_b ∷ node_a ∷ []) 1
scaler_jobs-Permᴰ_example =
    scaler_jobs-Permᴰ (node_a ∷ node_b ∷ []) (node_b ∷ node_a ∷ []) 1 (Permᴰ.swap refl refl)
      ((λ p. absurd (cc ((eq_iff "i-a" "i-b").1 p)), tt), (tt, tt))

scaler_jobs_balance_example :
    (2 + creates (scaler_jobs (node_a ∷ node_b ∷ []) 1)
      ≡ 1 + destroys (scaler_jobs (node_a ∷ node_b ∷ []) 1))
    × ((creates (scaler_jobs (node_a ∷ node_b ∷ []) 1) ≡ 0)
        ⊎ (destroys (scaler_jobs (node_a ∷ node_b ∷ []) 1) ≡ 0))
scaler_jobs_balance_example = scaler_jobs_balance (node_a ∷ node_b ∷ []) 1

quorum_jobs_iff_example :
    ((d : Description)
      → Memᴰ (destroy_job d) (quorum_jobs ("a" ∷ "b" ∷ []) (node_a ∷ node_c ∷ []))
        ↔ (Memᴰ d (node_a ∷ node_c ∷ []) × IsStray ("a" ∷ "b" ∷ []) d))
    × ((x : String)
        → Memᴰ (create_job (some x)) (quorum_jobs ("a" ∷ "b" ∷ []) (node_a ∷ node_c ∷ []))
          ↔ IsVacant ("a" ∷ "b" ∷ []) (node_a ∷ node_c ∷ []) x)
quorum_jobs_iff_example = quorum_jobs_iff ("a" ∷ "b" ∷ []) (node_a ∷ node_c ∷ [])
