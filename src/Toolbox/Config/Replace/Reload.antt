-- ===== src/Toolbox/Config/Replace/Reload.antt =====
-- Saving with toolbox/src/runtime_config.cpp and loading again.
use nx_reverse.Base.{◌<◌, ◌≡◌, ◌∙◌, ap, true, Bool, Option, none, some, [], Bytes, length}
use nx_reverse.Toolbox.Config.{RuntimeConfig}
use nx_reverse.Toolbox.Config.Validate.{Limits}
use nx_reverse.Toolbox.Config.Validate.Sound.{validate_runtime_config_iff}
use nx_reverse.Toolbox.Config.Load.{FileOpen, opened, missing, load_runtime_config}
use nx_reverse.Toolbox.Config.Save.{print_config}
use nx_reverse.Toolbox.Config.Save.Storable.{IsStorable}
use nx_reverse.Toolbox.Config.Save.Loaded.{load_runtime_config-print_config}
use nx_reverse.Toolbox.Config.Replace.{Disk, Answers, SaveError, save_runtime_config}
use nx_reverse.Toolbox.Config.Replace.Safe.{Tells, save_runtime_config_safe}

-- What `fopen` finds at `path`.
abbrev pub file_of : Option Bytes → FileOpen
file_of none = missing
file_of (some contents) = opened contents

placed :
    (old : Option Bytes) (new : Bytes) (o : Option SaveError) (d : Disk)
    → o ≡ none
    → Tells old new o d
    → d.current ≡ some new
placed old new none d e t = t.0
placed old new (some error) d e t = cc

-- When `SaveRuntimeConfig` has returned `true`, no `fprintf` having failed, `LoadRuntimeConfig` finds
-- the configuration that was saved, with no message, whatever was on the disk before and whatever the
-- compiled defaults are, as long as they have a profile. The values fit their types, and the profile
-- names have no end of a line, no NUL and no blank at their ends.
pub load_runtime_config-save :
    (limits : Limits) (defaults config : RuntimeConfig) (replaces : Bool) (answers : Answers)
    (disk : Disk)
    → 0 < length defaults.profiles
    → IsStorable config
    → answers.misprinted ≡ none
    → (save_runtime_config replaces answers limits config (record { now = disk; before = [] })).0
      ≡ none
    → load_runtime_config limits defaults (
        file_of
          (save_runtime_config replaces answers limits config
            (record { now = disk; before = [] })).1.now.current)
      ≡ record { config = config; loaded_from_file = true; diagnostics = [] }
load_runtime_config-save limits defaults config replaces answers disk some_default h whole done =
    let (saved, valid) = save_runtime_config_safe limits config replaces answers disk whole in
    let result =
      save_runtime_config replaces answers limits config (record { now = disk; before = [] }) in
    ap (λ file. load_runtime_config limits defaults (file_of file))
      (placed disk.current (print_config config) result.0 result.1.now done saved.tells)
    ∙ load_runtime_config-print_config limits defaults config some_default
        ((validate_runtime_config_iff limits config).0 (valid done)) h
