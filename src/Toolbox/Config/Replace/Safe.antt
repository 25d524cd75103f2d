-- ===== src/Toolbox/Config/Replace/Safe.antt =====
-- What is on the disk while toolbox/src/runtime_config.cpp saves a configuration, and afterwards.
use nx_reverse.Base.{
  ℕ, ◌≡◌, ◌⊎◌, ◌∙◌, inl, inr, refl, Bool, true, false, Option, Option-cases, none, some, [], Bytes,
  All, ◌||◌, Bool-cases,
}
use nx_reverse.Toolbox.Config.{RuntimeConfig}
use nx_reverse.Toolbox.Config.Save.{print_config}
use nx_reverse.Toolbox.Config.Validate.{Limits, ConfigError, validate_runtime_config}
use nx_reverse.Toolbox.Config.Replace.{
  Disk, History, Answers, Errno, enoent, other, step, file_call, rename_call, remove_temporary,
  remove_backup, move_current, move_temporary, move_backup, SaveError, unable_to_replace, Saving,
  restored, replaced, prepared, cleared, write_config, create_config,
  ensure_runtime_config_directories, save_checked, save_runtime_config,
}

-- The cases of a call.
file_call-cases :
    (error : Option ℕ) (file : Option Bytes) (after : Disk) (h : History)
    (P : Option Errno × History → Type 0)
    → ((e : ℕ) → P (some (other e), h))
    → (file ≡ none → P (some enoent, h))
    → ((text : Bytes) → file ≡ some text → P (none, step after h))
    → P (file_call error file after h)
unfolding file_call
file_call-cases (some e) file after h P failed missing done = failed e
file_call-cases none none after h P failed missing done = missing refl
file_call-cases none (some text) after h P failed missing done = done text refl

rename_call-cases :
    (replaces : Bool) (error : Option ℕ) (file target : Option Bytes) (after : Disk) (h : History)
    (P : Option Errno × History → Type 0)
    → ((e : ℕ) → P (some (other e), h))
    → (file ≡ none → P (some enoent, h))
    → ((text : Bytes) → file ≡ some text → P (none, step after h))
    → P (rename_call replaces error file target after h)
unfolding rename_call
rename_call-cases false error file (some target) after h P failed missing done =
    file_call-cases (some 17) file after h P failed missing done
rename_call-cases false error file none after h P failed missing done =
    file_call-cases error file after h P failed missing done
rename_call-cases true error file target after h P failed missing done =
    file_call-cases error file after h P failed missing done

module _ (old : Option Bytes) (new : Bytes) where
  -- The file before or the whole new one is in its place, or the one before is in the backup.
  abbrev pub IsSafe : Disk → Type 0
  IsSafe d = (d.current ≡ old) ⊎ (d.current ≡ some new) ⊎ ((d.current ≡ none) × (d.backup ≡ old))

  abbrev pub AllSafe : History → Type 0
  AllSafe h = IsSafe h.now × All IsSafe h.before

  -- What a result says of the disk.
  abbrev pub Tells : Option SaveError → Disk → Type 0
  Tells none d = (d.current ≡ some new) × (d.temporary ≡ none)
  Tells (some (unable_to_replace error false)) d = d.backup ≡ old
  Tells (some error) d = d.current ≡ old

  pub record IsSaved (s : Saving) : Type 0 where
    pub safe : AllSafe s.1
    pub tells : Tells s.0 s.1.now

  remove_temporary-keeps :
      (error : Option ℕ) (h : History)
      → AllSafe h
      → AllSafe (remove_temporary error h)
        × ((remove_temporary error h).now.current ≡ h.now.current)
        × ((remove_temporary error h).now.backup ≡ h.now.backup)
  remove_temporary-keeps error h s =
      file_call-cases error h.now.temporary (record (h.now) { temporary = none }) h
        (λ r. AllSafe r.1 × (r.1.now.current ≡ h.now.current) × (r.1.now.backup ≡ h.now.backup))
        (λ e. (s, refl, refl)) (λ e. (s, refl, refl)) (λ text e. ((s.0, s), refl, refl))

module _ (old : Option Bytes) (new : Bytes) (replaces : Bool) (answers : Answers) where
  restored_back :
      (error : Errno) (h : History)
      → AllSafe old new h
      → h.now.current ≡ old
      → IsSaved old new (restored replaces answers error (none, h))
  unfolding restored
  restored_back error h s e =
      let k = remove_temporary-keeps old new answers.keep_temporary h s in
      record { safe = k.0; tells = k.1 ∙ e }

  restored_away :
      (error failure : Errno) (h : History)
      → AllSafe old new h
      → h.now.backup ≡ old
      → IsSaved old new (restored replaces answers error (some failure, h))
  unfolding restored
  restored_away error failure h s e =
      let k = remove_temporary-keeps old new answers.keep_temporary h s in
      record { safe = k.0; tells = k.2 ∙ e }

  -- Where the file before was moved away.
  replaced_moved :
      (h : History)
      → AllSafe old new h
      → h.now.temporary ≡ some new
      → h.now.current ≡ none
      → h.now.backup ≡ old
      → IsSaved old new
          (replaced replaces answers true (move_temporary replaces answers.keep_new h))
  unfolding replaced
  replaced_moved h s t c b =
      rename_call-cases replaces answers.keep_new h.now.temporary h.now.current
        (record (h.now) { temporary = none; current = h.now.temporary }) h
        (λ r. IsSaved old new (replaced replaces answers true r)) (λ e. put_back (other e))
        (λ missing. put_back enoent)
        (λ text there.
          let placed : IsSafe old new
              (record (h.now) { temporary = none; current = h.now.temporary }) =
            inr (inl t) in
          file_call-cases answers.keep_old_backup h.now.backup
            (record (h.now) { temporary = none; current = h.now.temporary; backup = none })
            (step (record (h.now) { temporary = none; current = h.now.temporary }) h)
            (λ r. IsSaved old new (none, r.1))
            (λ e. record { safe = (placed, s); tells = (t, refl) })
            (λ e. record { safe = (placed, s); tells = (t, refl) })
            (λ backup e. record { safe = (inr (inl t), (placed, s)); tells = (t, refl) }))
    where
      put_back :
          (error : Errno)
          → IsSaved old new
              (restored replaces answers error (move_backup replaces answers.keep_moved h))
      put_back error =
          rename_call-cases replaces answers.keep_moved h.now.backup h.now.current
            (record (h.now) { backup = none; current = h.now.backup }) h
            (λ r. IsSaved old new (restored replaces answers error r))
            (λ e. restored_away error (other e) h s b) (λ e. restored_away error enoent h s b)
            (λ text e.
              restored_back error
                (step (record (h.now) { backup = none; current = h.now.backup }) h) (inl b, s) b)

  -- Where there was no file before.
  replaced_fresh :
      (h : History)
      → AllSafe old new h
      → h.now.temporary ≡ some new
      → h.now.current ≡ old
      → IsSaved old new
          (replaced replaces answers false (move_temporary replaces answers.keep_new h))
  unfolding replaced
  replaced_fresh h s t c =
      rename_call-cases replaces answers.keep_new h.now.temporary h.now.current
        (record (h.now) { temporary = none; current = h.now.temporary }) h
        (λ r. IsSaved old new (replaced replaces answers false r))
        (λ e. restored_back (other e) h s c) (λ e. restored_back enoent h s c)
        (λ text e. record { safe = (inr (inl t), s); tells = (t, refl) })

  prepared-IsSaved :
      (h : History)
      → AllSafe old new h
      → h.now.temporary ≡ some new
      → h.now.current ≡ old
      → IsSaved old new (prepared replaces answers (move_current replaces answers.keep_current h))
  unfolding prepared
  prepared-IsSaved h s t c =
      rename_call-cases replaces answers.keep_current h.now.current h.now.backup
        (record (h.now) { current = none; backup = h.now.current }) h
        (λ r. IsSaved old new (prepared replaces answers r))
        (λ e.
          let k = remove_temporary-keeps old new answers.keep_temporary h s in
          record { safe = k.0; tells = k.1 ∙ c })
        (λ e. replaced_fresh h s t c)
        (λ text e.
          replaced_moved (step (record (h.now) { current = none; backup = h.now.current }) h)
            (inr (inr (refl, c)), s) t refl c)

  cleared-IsSaved :
      (h : History)
      → AllSafe old new h
      → h.now.temporary ≡ some new
      → h.now.current ≡ old
      → IsSaved old new (cleared replaces answers (remove_backup answers.keep_backup h))
  unfolding cleared
  cleared-IsSaved h s t c =
      file_call-cases answers.keep_backup h.now.backup (record (h.now) { backup = none }) h
        (λ r. IsSaved old new (cleared replaces answers r))
        (λ e.
          let k = remove_temporary-keeps old new answers.keep_temporary h s in
          record { safe = k.0; tells = k.1 ∙ c })
        (λ e. prepared-IsSaved h s t c)
        (λ text e. prepared-IsSaved (step (record (h.now) { backup = none }) h) (inl c, s) t c)

  write_config-IsSaved :
      (h : History)
      → AllSafe old new h
      → h.now.current ≡ old
      → IsSaved old new (write_config replaces answers new h)
  unfolding write_config
  write_config-IsSaved h s c =
      let opened = step (record (h.now) { temporary = some [] }) h in
      let written = step (record (h.now) { temporary = some new }) opened in
      let safe : AllSafe old new written = (inl c, (inl c, s)) in
      elim (Bool-cases (answers.flush_failed || answers.close_failed)) [
        | inl bad ↦
            let k = remove_temporary-keeps old new answers.keep_temporary written safe in
            rw bad (record { safe = k.0; tells = k.1 ∙ c })
        | inr good ↦ rw good (cleared-IsSaved written safe refl c)
      ]

create_config-IsSaved :
    (replaces : Bool) (answers : Answers) (config : RuntimeConfig) (disk : Disk)
    → answers.misprinted ≡ none
    → IsSaved disk.current
        (print_config config)
        (create_config replaces answers config (record { now = disk; before = [] }))
unfolding create_config
create_config-IsSaved replaces answers config disk whole =
    let h : History = record { now = disk; before = [] } in
    let unchanged : AllSafe disk.current (print_config config) h = (inl refl, tt) in
    elim (Bool-cases (ensure_runtime_config_directories replaces answers)) [
      | inr bad ↦ rw bad (record { safe = unchanged; tells = refl })
      | inl good ↦ elim (Option-cases answers.open_error) [
        | inr (e, failed) ↦ rw (good, failed) (record { safe = unchanged; tells = refl })
        | inl opened ↦
            rw (good, opened, whole)
              (write_config-IsSaved disk.current (print_config config) replaces answers h unchanged
                refl)
      ]
    ]

save_checked_safe :
    (config : RuntimeConfig) (replaces : Bool) (answers : Answers) (disk : Disk)
    → answers.misprinted ≡ none
    → (checked : Option ConfigError)
    → IsSaved disk.current
        (print_config config)
        (save_checked replaces answers config (record { now = disk; before = [] }) checked)
      × ((save_checked replaces answers config (record { now = disk; before = [] }) checked).0
            ≡ none
          → checked ≡ none)
unfolding save_checked
save_checked_safe config replaces answers disk whole none =
    (create_config-IsSaved replaces answers config disk whole, λ e. refl)
save_checked_safe config replaces answers disk whole (some error) =
    (record { safe = (inl refl, tt); tells = refl }, λ e. cc)

-- Whatever the system calls answer, as long as each `fprintf` prints all of its text, and whether or
-- not `rename` replaces files: at every moment of `SaveRuntimeConfig` the file at `path` is the one
-- before or the whole new one, or there is none and the one before is in the backup. A result `true`
-- means that the configuration is valid, its text is at `path` and the temporary file is gone; any other
-- means that the file at `path` is the one before, save that where the message says it could not be
-- put back it is in the backup.
pub save_runtime_config_safe :
    (limits : Limits) (config : RuntimeConfig) (replaces : Bool) (answers : Answers) (disk : Disk)
    → answers.misprinted ≡ none
    → IsSaved disk.current
        (print_config config)
        (save_runtime_config replaces answers limits config (record { now = disk; before = [] }))
      × ((save_runtime_config replaces answers limits config (record { now = disk; before = [] })).0
            ≡ none
          → validate_runtime_config limits config ≡ none)
unfolding save_runtime_config
save_runtime_config_safe limits config replaces answers disk whole =
    save_checked_safe config replaces answers disk whole (validate_runtime_config limits config)
