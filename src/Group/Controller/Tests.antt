-- ===== src/Group/Controller/Tests.antt =====
-- Commits and releases of a small group.
use deploykit.Base.{◌≡◌, refl, none, some, [], ◌∷◌}
use deploykit.Base.Dict.{lookup, insert}
use deploykit.Group.Text.{string_key, string_dec}
use deploykit.Group.Types.{reply}
use deploykit.Group.Tests.{settings, plugins}
use deploykit.Base.{sym, ap}
use deploykit.Group.Types.{GroupSettings}
use deploykit.Group.Scaled.{label_and_list, list, needs_label, instance_needs_label, normalize}
use deploykit.Group.Rolling.{desired_and_undesired, is_desired}
use deploykit.Group.Controller.{
  UpdatePlan, scaler_plan, rolling_plan, run_update, commit_existing, plan_update, start_update,
}
use deploykit.Group.Controller.Commit.{reply_inj}
use deploykit.Group.Controller.Sizes.{
  set_size, commit_size, read_spec, inspect_groups, inspect_entries, find_spec,
}
use deploykit.Group.Controller.Plans.{run_plan, target_size, run_plan-target_size}
use deploykit.Group.Tests.{group, twice, ticks}
use deploykit.Group.Controller.Resize.{Resized, set_size_lem}
use deploykit.Group.Controller.{
  GroupSpec, GroupSettings, Checks, scaler, GroupContext, Controller, run_supervisor, commit_group,
  commit_new, validate, check_parsed, new_supervisor, stop_updating, group_tag,
}
use deploykit.Group.Controller.Table.{Committed, commit_group-Committed}

-- A document is what it is parsed to, and both plugins accept it.
abbrev checks : Checks GroupSettings
checks = record {
  parse_properties = λ x. reply x;
  unparse_properties = λ x. reply (record x { self = none });
  validate_flavor = λ x. reply tt;
  validate_instance = λ x. reply tt;
}

abbrev spec : GroupSpec GroupSettings
spec = record { id = "workers"; properties = settings }

abbrev idle : Controller
idle = record { self = some "a"; groups = []; launches = [] }

abbrev context : GroupContext
context = record {
  settings = settings;
  supervisor = scaler 2;
  scaled = record { settings = settings; member_tags = (group_tag, "workers") ∷ [] };
  update = none;
}

abbrev busy : Controller
busy = record {
  self = some "a";
  groups = ("workers", context) ∷ [];
  launches = run_supervisor "workers" ∷ [];
}

commit_group-Committed_example : Committed checks spec idle (reply tt) busy
unfolding commit_group commit_new validate check_parsed new_supervisor lookup insert
commit_group-Committed_example =
    commit_group-Committed plugins checks spec idle 5 (reply tt) busy 5 refl

abbrev larger : GroupSettings
larger = record settings { size = 3 }

abbrev growth : UpdatePlan
growth = scaler_plan 2 3 (rolling_plan settings larger)

abbrev grown : Controller
grown = record busy {
  groups =
      (
        "workers",
        record context {
          settings = larger;
          scaled = record (context.scaled) { settings = larger };
          update = some growth;
        },
      )
      ∷ [];
  launches = run_supervisor "workers" ∷ run_update "workers" growth ∷ [];
}

set_size_lem_example : Resized "workers" 3 busy grown
unfolding set_size commit_size read_spec inspect_groups inspect_entries find_spec commit_group
    commit_existing validate check_parsed plan_update label_and_list list needs_label
    instance_needs_label normalize desired_and_undesired is_desired stop_updating start_update
    lookup insert string_dec
set_size_lem_example =
    set_size_lem plugins checks (λ g document e. ap (λ x. reply x) (sym (reply_inj e))) "workers" 3
      busy grown 5 5 refl

-- The update from two instances to three, while two ticks arrive.
run_plan-target_size_example :
    let y = run_plan plugins group twice growth ticks (2, 5) in
    y.1.0 ≡ target_size plugins group twice 2 3 y.0
run_plan-target_size_example = run_plan-target_size plugins group twice 2 3 settings larger ticks 5
