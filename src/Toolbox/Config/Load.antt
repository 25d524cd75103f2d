-- ===== src/Toolbox/Config/Load.antt =====
-- `LoadRuntimeConfig` of toolbox/src/runtime_config.cpp. What `fopen` gives is a parameter: the
-- bytes of the file, no file, or an error number.
pub mod Valid
use nx_reverse.Base.{
  ℕ, ◌+◌, ◌-◌, Bool, true, false, not, ◌&&◌, ◌||◌, Option, none, some, List, [], ◌∷◌, ◌++◌, Bytes,
  find, take, drop, ◌==◌, if◌then◌else◌, is_empty,
}
use nx_reverse.Toolbox.Config.{RuntimeConfig}
use nx_reverse.Toolbox.Config.Parse.{trim}
use nx_reverse.Toolbox.Config.Validate.{Limits, ConfigError, validate_runtime_config}
use nx_reverse.Toolbox.Config.Apply.{SettingError, Applied, apply_setting}

pub data FileOpen : Type 0 where
  opened : Bytes → FileOpen
  missing : FileOpen
  failed : ℕ → FileOpen

-- A diagnostic, with the line number that it prints.
pub data Diagnostic : Type 0 where
  unable_to_read : ℕ → Diagnostic
  no_separator empty_key_or_value : ℕ → Diagnostic
  setting_refused : ℕ → SettingError → Diagnostic
  legacy_loaded : Diagnostic
  using_defaults : ConfigError → Diagnostic

pub record ConfigLoadReport : Type 0 where
  pub config : RuntimeConfig
  pub loaded_from_file : Bool
  pub diagnostics : List Diagnostic

-- What `fgets(line, sizeof(line), file)` can put in front of the terminator.
abbrev pub line_room : ℕ
line_room = 511

-- The lines that successive calls of `fgets` return: each ends at a newline, which it keeps, or
-- where the buffer is full. `room` is what is left of the buffer, and `line` what it holds.
unfoldable pub read_lines : ℕ → Bytes → Bytes → List Bytes
read_lines room line [] = if is_empty line then [] else line ∷ []
read_lines room line (c ∷ rest) =
    let full = (line ++ c ∷ []) ∷ read_lines line_room [] rest in
    let more = read_lines (room - 1) (line ++ c ∷ []) rest in
    if c == b'\n' || room == 1 then full else more

-- The text of a character array, up to its first NUL.
unfoldable pub c_string : Bytes → Bytes
c_string [] = []
c_string (c ∷ rest) = if c == 0 then [] else c ∷ c_string rest

-- The variables of the loop.
pub record Loading : Type 0 where
  pub config : RuntimeConfig
  pub migrated_legacy : Bool
  pub diagnostics : List Diagnostic

abbrev pub note : Loading → Diagnostic → Loading
note l d = record l { diagnostics = l.diagnostics ++ d ∷ [] }

-- The end of a round, with a key and a value.
unfoldable pub load_setting : ℕ → Bytes → Bytes → Loading → Loading
load_setting line_number key value l =
    let applied = apply_setting l.config l.migrated_legacy key value in
    record {
      config = applied.config;
      migrated_legacy = applied.migrated;
      diagnostics = elim applied.error [
        | none ↦ l.diagnostics
        | some error ↦ l.diagnostics ++ setting_refused line_number error ∷ []
      ];
    }

-- A round from the separator that was found.
unfoldable pub load_trimmed : ℕ → Bytes → Option ℕ → Loading → Loading
load_trimmed line_number trimmed none l = note l (no_separator line_number)
load_trimmed line_number trimmed (some separator) l =
    let key = trim (take separator trimmed) in
    let value = trim (drop (separator + 1) trimmed) in
    if is_empty key || is_empty value
    then note l (empty_key_or_value line_number)
    else load_setting line_number key value l

-- `trimmed.empty() || trimmed.front() == '#'`
abbrev pub is_skipped : Bytes → Bool
is_skipped [] = true
is_skipped (c ∷ rest) = c == b'#'

-- One round of the loop.
unfoldable pub load_line : ℕ → Bytes → Loading → Loading
unfolding load_trimmed
load_line line_number line l =
    let trimmed = trim (c_string line) in
    if is_skipped trimmed then l else load_trimmed line_number trimmed (find b'=' trimmed) l

unfoldable pub load_lines : ℕ → List Bytes → Loading → Loading
load_lines line_number [] l = l
load_lines line_number (line ∷ lines) l =
    load_lines (line_number + 1) lines (load_line (line_number + 1) line l)

abbrev pub note_migrated : Loading → Loading
note_migrated l = if l.migrated_legacy then note l legacy_loaded else l

-- The part behind the loop.
unfoldable pub finish_load : Limits → RuntimeConfig → Loading → ConfigLoadReport
finish_load limits defaults l = elim (validate_runtime_config limits l.config) [
  | none ↦ record {
    config = l.config;
    loaded_from_file = true;
    diagnostics = (note_migrated l).diagnostics;
  }
  | some error ↦ record {
    config = defaults;
    loaded_from_file = true;
    diagnostics = (note_migrated l).diagnostics ++ using_defaults error ∷ [];
  }
]

-- `LoadRuntimeConfig`
unfoldable pub load_runtime_config : Limits → RuntimeConfig → FileOpen → ConfigLoadReport
load_runtime_config limits defaults missing = record {
  config = defaults;
  loaded_from_file = false;
  diagnostics = [];
}
load_runtime_config limits defaults (failed errno) = record {
  config = defaults;
  loaded_from_file = false;
  diagnostics = unable_to_read errno ∷ [];
}
load_runtime_config limits defaults (opened content) = finish_load limits defaults (
    load_lines 0 (read_lines line_room [] content)
      (record { config = defaults; migrated_legacy = false; diagnostics = [] }))
