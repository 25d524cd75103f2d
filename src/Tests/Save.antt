-- ===== src/Tests/Save.antt =====
-- Tests of saving in toolbox/src/runtime_config.cpp.
use nx_reverse.Base.{◌≡◌, refl, arith, true, false, none, some, [], codes}
use nx_reverse.Toolbox.Config.{compiled_runtime_defaults}
use nx_reverse.Toolbox.Config.Parse.{drop_last_blanks}
use nx_reverse.Toolbox.Config.Validate.{validate_runtime_config}
use nx_reverse.Toolbox.Config.Load.{load_runtime_config}
use nx_reverse.Toolbox.Config.Save.{print_config}
use nx_reverse.Toolbox.Config.Save.Storable.{IsStorable}
use nx_reverse.Toolbox.Config.Replace.{
  Disk, Answers, made, already_there, save_runtime_config, save_checked, create_config,
  write_config, cleared, prepared, replaced, file_call, rename_call,
}
use nx_reverse.Toolbox.Config.Replace.Safe.{IsSaved, save_runtime_config_safe}
use nx_reverse.Toolbox.Config.Replace.Reload.{file_of, load_runtime_config-save}
use nx_reverse.Tests.Config.{limits, defaults_validate, defaults-IsValidConfig}

-- All calls do what they are asked to.
abbrev all_well : Answers
all_well = record {
  config_directory = already_there;
  toolbox_directory = made;
  open_error = none;
  misprinted = none;
  flush_failed = false;
  close_failed = false;
  keep_temporary = none;
  keep_backup = none;
  keep_old_backup = none;
  keep_current = none;
  keep_new = none;
  keep_moved = none;
}

-- A file and an older backup.
abbrev old_disk : Disk
old_disk = record { current = some (codes "old"); temporary = none; backup = some (codes "older") }

defaults-IsStorable : IsStorable compiled_runtime_defaults
defaults-IsStorable = record {
  workload_fits = omega arith;
  payload_fits = omega arith;
  flows_fit = omega arith;
  seed_fits = omega arith;
  kept = (
    record {
      profile = defaults-IsValidConfig.all_profiles.0;
      udp_fits = omega arith;
      tcp_fits = omega arith;
    },
    tt,
  );
  names =
      (record { clean = omega arith; front = refl; back = unfold drop_last_blanks in refl }, tt);
}

defaults_saved :
    (save_runtime_config false all_well limits compiled_runtime_defaults
      (record { now = old_disk; before = [] })).0
    ≡ none
unfolding save_runtime_config save_checked create_config write_config cleared prepared replaced
    file_call rename_call
defaults_saved = rw defaults_validate refl

save_runtime_config_safe_example :
    IsSaved (some (codes "old")) (print_config compiled_runtime_defaults) (
      save_runtime_config false all_well limits compiled_runtime_defaults
        (record { now = old_disk; before = [] }))
    × ((save_runtime_config false all_well limits compiled_runtime_defaults
            (record { now = old_disk; before = [] })).0
          ≡ none
        → validate_runtime_config limits compiled_runtime_defaults ≡ none)
save_runtime_config_safe_example =
    save_runtime_config_safe limits compiled_runtime_defaults false all_well old_disk refl

load_runtime_config-save_example :
    load_runtime_config limits compiled_runtime_defaults (
      file_of
        (save_runtime_config false all_well limits compiled_runtime_defaults
          (record { now = old_disk; before = [] })).1.now.current)
    ≡ record { config = compiled_runtime_defaults; loaded_from_file = true; diagnostics = [] }
load_runtime_config-save_example =
    load_runtime_config-save limits compiled_runtime_defaults compiled_runtime_defaults false
      all_well old_disk (omega arith) defaults-IsStorable refl defaults_saved
