-- ===== src/Toolbox/Config/Replace.antt =====
-- `SaveRuntimeConfig` of toolbox/src/runtime_config.cpp: how it puts a new file in place of the one
-- before. What the system calls answer is a parameter.
pub mod Safe
pub mod Reload
use nx_reverse.Base.{
  ℕ, Bool, true, false, ◌||◌, ◌&&◌, Option, none, some, List, [], ◌∷◌, Bytes, if◌then◌else◌,
}
use nx_reverse.Toolbox.Config.{RuntimeConfig}
use nx_reverse.Toolbox.Config.Save.{print_config}
use nx_reverse.Toolbox.Config.Validate.{Limits, ConfigError, validate_runtime_config}

-- The contents of the files at `path`, `path.tmp` and `path.bak`, `none` where there is none.
pub record Disk : Type 0 where
  pub current : Option Bytes
  pub temporary : Option Bytes
  pub backup : Option Bytes

-- The disk and, newest first, the disks before it.
pub record History : Type 0 where
  pub now : Disk
  pub before : List Disk

abbrev pub step : Disk → History → History
step disk h = record { now = disk; before = h.now ∷ h.before }

pub data Errno : Type 0 where
  enoent : Errno
  other : ℕ → Errno

-- What `mkdir` answers.
pub data MadeDirectory : Type 0 where
  made already_there : MadeDirectory
  not_made : ℕ → MadeDirectory

-- `EnsureDirectory`
unfoldable pub ensure_directory : MadeDirectory → Bool
ensure_directory (not_made error) = false
ensure_directory _ = true

-- What the system answers: an error number where a call fails although the files are there.
-- `misprinted` has the bytes that a failed `fprintf` leaves in the file.
pub record Answers : Type 0 where
  pub config_directory : MadeDirectory
  pub toolbox_directory : MadeDirectory
  pub open_error : Option ℕ
  pub misprinted : Option Bytes
  pub flush_failed : Bool
  pub close_failed : Bool
  pub keep_temporary : Option ℕ
  pub keep_backup : Option ℕ
  pub keep_old_backup : Option ℕ
  pub keep_current : Option ℕ
  pub keep_new : Option ℕ
  pub keep_moved : Option ℕ

-- A call of `remove` on a file and the disk after it, with the error that it returns.
unfoldable pub file_call : Option ℕ → Option Bytes → Disk → History → Option Errno × History
file_call (some error) file after h = (some (other error), h)
file_call none none after h = (some enoent, h)
file_call none (some contents) after h = (none, step after h)

-- A call of `rename` likewise. Where the system does not replace files, a target that is there makes
-- it fail (EEXIST).
unfoldable pub rename_call :
    Bool → Option ℕ → Option Bytes → Option Bytes → Disk → History → Option Errno × History
rename_call false error file (some target) after h = file_call (some 17) file after h
rename_call false error file none after h = file_call error file after h
rename_call true error file target after h = file_call error file after h

abbrev pub remove_temporary : Option ℕ → History → History
remove_temporary error h =
    (file_call error h.now.temporary (record (h.now) { temporary = none }) h).1

abbrev pub remove_backup : Option ℕ → History → Option Errno × History
remove_backup error h = file_call error h.now.backup (record (h.now) { backup = none }) h

module _ (replaces : Bool) where
  -- `rename(path, backup_path)`
  abbrev pub move_current : Option ℕ → History → Option Errno × History
  move_current error h =
      rename_call replaces error h.now.current h.now.backup
        (record (h.now) { current = none; backup = h.now.current }) h

  -- `rename(temporary_path, path)`
  abbrev pub move_temporary : Option ℕ → History → Option Errno × History
  move_temporary error h =
      rename_call replaces error h.now.temporary h.now.current
        (record (h.now) { temporary = none; current = h.now.temporary }) h

  -- `rename(backup_path, path)`
  abbrev pub move_backup : Option ℕ → History → Option Errno × History
  move_backup error h =
      rename_call replaces error h.now.backup h.now.current
        (record (h.now) { backup = none; current = h.now.backup }) h

-- The messages; the last one tells whether the file before is back in its place.
pub data SaveError : Type 0 where
  invalid : ConfigError → SaveError
  unable_to_create_directory unable_to_write : SaveError
  unable_to_create unable_to_clear_backup unable_to_prepare : ℕ → SaveError
  unable_to_replace : Errno → Bool → SaveError

-- `none` is the result `true`.
abbrev pub Saving : Type 0
Saving = Option SaveError × History

module _ (replaces : Bool) (answers : Answers) where
  -- The end of a failed replacement.
  unfoldable pub restored : Errno → Option Errno × History → Saving
  restored error (none, h) =
      (some (unable_to_replace error true), remove_temporary answers.keep_temporary h)
  restored error (some _, h) =
      (some (unable_to_replace error false), remove_temporary answers.keep_temporary h)

  -- The new file has been moved to its place, or not; `moved` is `moved_previous_configuration`.
  unfoldable pub replaced : Bool → Option Errno × History → Saving
  unfolding restored
  replaced true (none, h) = (none, (remove_backup answers.keep_old_backup h).1)
  replaced false (none, h) = (none, h)
  replaced true (some error, h) = restored error (move_backup replaces answers.keep_moved h)
  replaced false (some error, h) = restored error (none, h)

  -- The file before has been moved to the backup, or not.
  unfoldable pub prepared : Option Errno × History → Saving
  unfolding replaced
  prepared (none, h) = replaced true (move_temporary replaces answers.keep_new h)
  prepared (some enoent, h) = replaced false (move_temporary replaces answers.keep_new h)
  prepared (some (other error), h) =
      (some (unable_to_prepare error), remove_temporary answers.keep_temporary h)

  -- An older backup has been removed, or not.
  unfoldable pub cleared : Option Errno × History → Saving
  unfolding prepared
  cleared (none, h) = prepared (move_current replaces answers.keep_current h)
  cleared (some enoent, h) = prepared (move_current replaces answers.keep_current h)
  cleared (some (other error), h) =
      (some (unable_to_clear_backup error), remove_temporary answers.keep_temporary h)

  -- From the opened temporary file on.
  unfoldable pub write_config : Bytes → History → Saving
  unfolding cleared
  write_config text h =
      let opened = step (record (h.now) { temporary = some [] }) h in
      let written = step (record (h.now) { temporary = some text }) opened in
      if answers.flush_failed || answers.close_failed
      then (some unable_to_write, remove_temporary answers.keep_temporary written)
      else cleared (remove_backup answers.keep_backup written)

  -- The bytes that the temporary file gets.
  abbrev pub printed : RuntimeConfig → Bytes
  printed config = elim answers.misprinted [ none ↦ print_config config | some text ↦ text ]

  -- `EnsureRuntimeConfigDirectories`
  unfoldable pub ensure_runtime_config_directories : Bool
  unfolding ensure_directory
  ensure_runtime_config_directories =
      ensure_directory answers.config_directory && ensure_directory answers.toolbox_directory

  unfoldable pub create_config : RuntimeConfig → History → Saving
  unfolding write_config ensure_runtime_config_directories
  create_config config h =
      if ensure_runtime_config_directories
      then elim answers.open_error [
        | some error ↦ (some (unable_to_create error), h)
        | none ↦ write_config (printed config) h
      ]
      else (some unable_to_create_directory, h)

  -- What follows the validation.
  unfoldable pub save_checked : RuntimeConfig → History → Option ConfigError → Saving
  unfolding create_config
  save_checked config h (some error) = (some (invalid error), h)
  save_checked config h none = create_config config h

  -- `SaveRuntimeConfig`
  unfoldable pub save_runtime_config : Limits → RuntimeConfig → History → Saving
  unfolding save_checked
  save_runtime_config limits config h =
      save_checked config h (validate_runtime_config limits config)
