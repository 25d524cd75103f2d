-- ===== src/Toolbox/Config/Save/Lines.antt =====
-- The lines that toolbox/src/runtime_config.cpp saves are read back by its own reader.
use nx_reverse.Base.{
  ℕ, suc, ◌+◌, ◌-◌, ◌<◌, ◌≡◌, ◌≢◌, ◌∙◌, refl, ap, arith, Bool, true, false, some, List, [], ◌∷◌,
  ◌++◌, append_assoc, Bytes, length, length-append, take, drop, find, All, All-append, ◌==◌,
  is_empty, ◌&&◌,
}
use nx_reverse.Toolbox.Config.Parse.{is_blank, drop_blanks, drop_last_blanks, trim}
use nx_reverse.Toolbox.Config.Load.{
  read_lines, line_room, c_string, Loading, load_setting, load_trimmed, load_line, load_lines,
  is_skipped,
}
use nx_reverse.Toolbox.Config.Save.{Setting, setting_line, print_settings}

abbrev pub IsClean : ℕ → Type 0
IsClean c = (c ≢ 0) × (c ≢ b'\n')

abbrev pub StartsSolid : Bytes → Type 0
StartsSolid [] = ⊥
StartsSolid (c ∷ text) = is_blank c ≡ false

-- Text on one line with no blank at its ends.
pub record IsText (text : Bytes) : Type 0 where
  pub clean : All IsClean text
  pub front : StartsSolid text
  pub back : drop_last_blanks text ≡ text

abbrev pub IsUnmarked : Bytes → Type 0
IsUnmarked [] = Unit
IsUnmarked (c ∷ text) = c ≢ b'#'

-- A key and a value that are read back.
pub record IsSetting (s : Setting) : Type 0 where
  pub key : IsText s.0
  pub unmarked : IsUnmarked s.0
  pub no_separator : All (λ c. c ≢ b'=') s.0
  pub value : IsText s.1
  pub short : length s.0 + length s.1 < 500

-- A line that fits the buffer is read up to its end.
pub read_lines-line :
    (text rest line : Bytes) (room : ℕ)
    → All IsClean text
    → length text < room
    → read_lines room line (text ++ (b'\n' ∷ rest))
      ≡ (line ++ (text ++ (b'\n' ∷ []))) ∷ read_lines line_room [] rest
unfolding read_lines
read_lines-line [] rest line room _ fits = refl
read_lines-line (c ∷ text) rest line room (hc, h) fits =
    let inside : (c == b'\n') ≡ false = ground arith in
    let room_left : (room == 1) ≡ false = ground arith in
    rw (inside, room_left)
      (rw (read_lines-line text rest (line ++ c ∷ []) (room - 1) h (omega arith), append_assoc)
        refl)

c_string-line :
    (text rest : Bytes)
    → All IsClean text
    → c_string rest ≡ rest
    → c_string (text ++ rest) ≡ text ++ rest
unfolding c_string
c_string-line [] rest _ e = e
c_string-line (c ∷ text) rest (hc, h) e =
    let some_byte : (c == 0) ≡ false = ground arith in
    rw some_byte (ap (◌∷◌ c) (c_string-line text rest h e))

drop_last_blanks-newline :
    (text : Bytes) → drop_last_blanks (text ++ (b'\n' ∷ [])) ≡ drop_last_blanks text
unfolding drop_last_blanks
drop_last_blanks-newline [] = refl
drop_last_blanks-newline (c ∷ text) = rw (drop_last_blanks-newline text) refl

and_false : (b : Bool) → (b && false) ≡ false
and_false true = refl
and_false false = refl

drop_last_blanks-append :
    (text : Bytes) (c : ℕ) (rest : Bytes)
    → drop_last_blanks (c ∷ rest) ≡ c ∷ rest
    → drop_last_blanks (text ++ (c ∷ rest)) ≡ text ++ (c ∷ rest)
unfolding drop_last_blanks
drop_last_blanks-append [] c rest e = e
drop_last_blanks-append (x ∷ []) c rest e = rw (e, and_false (is_blank x)) refl
drop_last_blanks-append (x ∷ y ∷ text) c rest e =
    rw (drop_last_blanks-append (y ∷ text) c rest e) (rw (and_false (is_blank x)) refl)

drop_blanks-solid : (text : Bytes) → StartsSolid text → drop_blanks text ≡ text
unfolding drop_blanks
drop_blanks-solid [] h = refl
drop_blanks-solid (c ∷ text) h = rw h refl

trim-IsText : (text : Bytes) → IsText text → trim text ≡ text
unfolding trim
trim-IsText text h = rw (drop_blanks-solid text h.front) h.back

pub find_key :
    (c : ℕ) (key rest : Bytes)
    → All (λ k. k ≢ c) key
    → find c (key ++ (c ∷ rest)) ≡ some (length key)
unfolding find
find_key c [] rest _ = ground arith
find_key c (k ∷ key) rest (hk, h) = ground (arith, find_key c key rest h)

pub take_key : (key rest : Bytes) → take (length key) (key ++ rest) ≡ key
take_key [] rest = refl
take_key (k ∷ key) rest = ap (◌∷◌ k) (take_key key rest)

pub drop_key : (key rest : Bytes) (c : ℕ) → drop (length key + 1) (key ++ (c ∷ rest)) ≡ rest
drop_key [] rest c = refl
drop_key (k ∷ key) rest c =
    let e : suc (length key) + 1 ≡ suc (length key + 1) = omega arith in rw e (drop_key key rest c)

IsUnmarked-skipped : (text : Bytes) → text ≢ [] → IsUnmarked text → is_skipped text ≡ false
IsUnmarked-skipped [] some_text h = absurd (some_text refl)
IsUnmarked-skipped (c ∷ text) some_text h = ground arith

solid-ne : (text : Bytes) → StartsSolid text → text ≢ []
solid-ne [] h = absurd h
solid-ne (c ∷ text) h = cc

StartsSolid-append : (text rest : Bytes) → StartsSolid text → StartsSolid (text ++ rest)
StartsSolid-append [] rest h = absurd h
StartsSolid-append (c ∷ text) rest h = h

IsUnmarked-append : (text rest : Bytes) → text ≢ [] → IsUnmarked text → IsUnmarked (text ++ rest)
IsUnmarked-append [] rest some_text h = absurd (some_text refl)
IsUnmarked-append (c ∷ text) rest some_text h = h

-- The setting without its newline.
abbrev setting_text : Setting → Bytes
setting_text (key, value) = key ++ (b'=' ∷ value)

back-separator : (value : Bytes) → IsText value → drop_last_blanks (b'=' ∷ value) ≡ b'=' ∷ value
back-separator [] h = absurd h.front
back-separator (c ∷ value) h = drop_last_blanks-append (b'=' ∷ []) c value h.back

setting_text-IsText : (s : Setting) → IsSetting s → IsText (setting_text s)
setting_text-IsText (key, value) h = record {
  clean =
      All-append IsClean key (b'=' ∷ value) h.key.clean
        ((ground arith, ground arith), h.value.clean);
  front = StartsSolid-append key (b'=' ∷ value) h.key.front;
  back = drop_last_blanks-append key b'=' value (back-separator value h.value);
}

is_empty-solid : (text : Bytes) → StartsSolid text → is_empty text ≡ false
is_empty-solid [] h = absurd h
is_empty-solid (c ∷ text) h = refl

load_trimmed-setting :
    (n : ℕ) (s : Setting) (l : Loading)
    → IsSetting s
    → load_trimmed n (setting_text s) (find b'=' (setting_text s)) l ≡ load_setting n s.0 s.1 l
load_trimmed-setting n (key, value) l h =
    ap (λ o. load_trimmed n (setting_text (key, value)) o l)
      (find_key b'=' key value h.no_separator)
    ∙ (unfold load_trimmed in
        rw
          (
            take_key key (b'=' ∷ value),
            drop_key key value b'=',
            trim-IsText key h.key,
            trim-IsText value h.value,
            is_empty-solid key h.key.front,
            is_empty-solid value h.value.front,
          )
          refl)

trim-line : (text : Bytes) → IsText text → trim (text ++ (b'\n' ∷ [])) ≡ text
unfolding trim
trim-line text h =
    rw
      (
        drop_blanks-solid (text ++ (b'\n' ∷ [])) (StartsSolid-append text (b'\n' ∷ []) h.front),
        drop_last_blanks-newline text,
      )
      h.back

-- A line that was saved is one setting to the loader.
load_line-setting :
    (n : ℕ) (s : Setting) (l : Loading)
    → IsSetting s
    → load_line n (setting_text s ++ (b'\n' ∷ [])) l ≡ load_setting n s.0 s.1 l
unfolding load_line
load_line-setting n (key, value) l h =
    let text = setting_text (key, value) in
    let t = setting_text-IsText (key, value) h in
    let some_key = solid-ne key h.key.front in
    let shown =
      IsUnmarked-skipped text (solid-ne text t.front)
        (IsUnmarked-append key (b'=' ∷ value) some_key h.unmarked) in
    rw (c_string-line text (b'\n' ∷ []) t.clean (unfold c_string in refl), trim-line text t, shown)
      (load_trimmed-setting n (key, value) l h)

-- The settings one by one.
unfoldable pub load_settings : ℕ → List Setting → Loading → Loading
load_settings n [] l = l
load_settings n ((key, value) ∷ settings) l =
    load_settings (n + 1) settings (load_setting (n + 1) key value l)

-- The lines of settings are these settings to the loader.
pub load_lines-settings :
    (n : ℕ) (settings : List Setting) (l : Loading)
    → All IsSetting settings
    → load_lines n (read_lines line_room [] (print_settings settings)) l
      ≡ load_settings n settings l
unfolding load_lines print_settings load_settings
load_lines-settings n [] l _ = unfold read_lines in refl
load_lines-settings n ((key, value) ∷ settings) l (h, hs) =
    let text = setting_text (key, value) in
    let t = setting_text-IsText (key, value) h in
    let fits : length text < 511 = omega (arith, h.short, length-append key (b'=' ∷ value)) in
    let shape : setting_line (key, value) ++ print_settings settings
        ≡ text ++ (b'\n' ∷ print_settings settings) =
      simp append_assoc in
    ap (λ file. load_lines n (read_lines line_room [] file) l) shape
    ∙ ap (λ lines. load_lines n lines l)
        (read_lines-line text (print_settings settings) [] 511 t.clean fits)
    ∙ ap (λ next. load_lines (n + 1) (read_lines line_room [] (print_settings settings)) next)
        (load_line-setting (n + 1) (key, value) l h)
    ∙ load_lines-settings (n + 1) settings (load_setting (n + 1) key value l) hs
