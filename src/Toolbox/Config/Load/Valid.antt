-- ===== src/Toolbox/Config/Load/Valid.antt =====
-- What `LoadRuntimeConfig` of toolbox/src/runtime_config.cpp hands to the rest of the program.
use nx_reverse.Base.{
  ℕ, ◌+◌, ◌≡◌, inl, inr, refl, true, Option, none, some, List, [], ◌∷◌, ◌++◌, Bytes, find, take,
  drop, is_empty, ◌||◌, Bool-cases,
}
use nx_reverse.Toolbox.Config.{RuntimeConfig}
use nx_reverse.Toolbox.Config.Parse.{trim}
use nx_reverse.Toolbox.Config.Validate.{Limits, ConfigError, validate_runtime_config}
use nx_reverse.Toolbox.Config.Validate.Sound.{IsValidConfig, validate_runtime_config_iff}
use nx_reverse.Toolbox.Config.Settings.Keeps.{HasProfiles}
use nx_reverse.Toolbox.Config.Apply.Keeps.{apply_setting-Leaves}
use nx_reverse.Toolbox.Config.Load.{
  FileOpen, opened, missing, failed, ConfigLoadReport, Loading, using_defaults, load_setting,
  load_trimmed, load_line, load_lines, finish_load, load_runtime_config, is_skipped, c_string,
  note_migrated,
}

load_setting-HasProfiles :
    (n : ℕ) (key value : Bytes) (l : Loading)
    → HasProfiles l.config
    → HasProfiles (load_setting n key value l).config
unfolding load_setting
load_setting-HasProfiles n key value l has =
    (apply_setting-Leaves l.config l.migrated_legacy key value has).profiles

load_trimmed-HasProfiles :
    (n : ℕ) (trimmed : Bytes) (o : Option ℕ) (l : Loading)
    → HasProfiles l.config
    → HasProfiles (load_trimmed n trimmed o l).config
unfolding load_trimmed
load_trimmed-HasProfiles n trimmed none l has = has
load_trimmed-HasProfiles n trimmed (some separator) l has =
    let key = trim (take separator trimmed) in
    let value = trim (drop (separator + 1) trimmed) in
    elim (Bool-cases (is_empty key || is_empty value)) [
      | inl bad ↦ rw bad has
      | inr good ↦ rw good (load_setting-HasProfiles n key value l has)
    ]

load_line-HasProfiles :
    (n : ℕ) (line : Bytes) (l : Loading)
    → HasProfiles l.config
    → HasProfiles (load_line n line l).config
unfolding load_line
load_line-HasProfiles n line l has =
    let trimmed = trim (c_string line) in
    elim (Bool-cases (is_skipped trimmed)) [
      | inl skip ↦ rw skip has
      | inr go ↦ rw go (load_trimmed-HasProfiles n trimmed (find b'=' trimmed) l has)
    ]

-- Whatever the lines are, the configuration keeps one to eight profiles while they are read, so the
-- profile that `ApplySetting` copies is there.
load_lines-HasProfiles :
    (n : ℕ) (lines : List Bytes) (l : Loading)
    → HasProfiles l.config
    → HasProfiles (load_lines n lines l).config
unfolding load_lines
load_lines-HasProfiles n [] l has = has
load_lines-HasProfiles n (line ∷ lines) l has =
    load_lines-HasProfiles (n + 1) lines _ (load_line-HasProfiles (n + 1) line l has)

finish_load-IsValidConfig :
    (limits : Limits) (defaults : RuntimeConfig) (l : Loading)
    → IsValidConfig limits defaults
    → IsValidConfig limits (finish_load limits defaults l).config
unfolding finish_load
finish_load-IsValidConfig limits defaults l ok = go _ refl
  where
    go :
        (o : Option ConfigError)
        → validate_runtime_config limits l.config ≡ o
        → IsValidConfig limits
            (elim o as (λ _. ConfigLoadReport) [
              | none ↦ record {
                config = l.config;
                loaded_from_file = true;
                diagnostics = (note_migrated l).diagnostics;
              }
              | some error ↦ record {
                config = defaults;
                loaded_from_file = true;
                diagnostics = (note_migrated l).diagnostics ++ using_defaults error ∷ [];
              }
            ]).config
    go none e = (validate_runtime_config_iff limits l.config).0 e
    go (some error) e = ok

-- Whatever the file holds, and whether or not it can be read, the configuration that is loaded is
-- valid, when the compiled defaults are.
pub load_runtime_config-IsValidConfig :
    (limits : Limits) (defaults : RuntimeConfig) (file : FileOpen)
    → IsValidConfig limits defaults
    → IsValidConfig limits (load_runtime_config limits defaults file).config
unfolding load_runtime_config
load_runtime_config-IsValidConfig limits defaults missing ok = ok
load_runtime_config-IsValidConfig limits defaults (failed errno) ok = ok
load_runtime_config-IsValidConfig limits defaults (opened content) ok =
    finish_load-IsValidConfig limits defaults _ ok
