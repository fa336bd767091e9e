-- ===== src/Config/Override/Lines.antt =====
-- What the lines of one section make of a dead zone, in `ParseControllerConfigLine`
-- (source/Sysmodule/source/config_handler.cpp).
use sys_con.Prelude.{
  ℕ, ◌≡◌, ◌⊎◌, refl, sym, ap, ◌∙◌, Bool, true, false, ◌&&◌, ◌||◌, inl, inr, List, [], ◌∷◌,
  Bool-cases, arith, if◌then◌else◌,
}
use sys_con.Prelude.Int.{wrap}
use sys_con.Prelude.Text.{Bytes, bytes_eq}
use sys_con.Config.Data.{AnalogBinding}
use sys_con.Config.Numbers.{atoi, convert_to_lowercase}
use sys_con.Config.Line.{Entry, IniData, parse_controller_config_line}
use sys_con.Config.Load.{handle_entries}
use sys_con.Config.Override.{has_key, deadzone_name, apply_setting-deadzone}

-- Does the line stand in section `s` (in lower case)?
abbrev in_section : Bytes → Entry → Bool
in_section s e = bytes_eq s (convert_to_lowercase e.section)

-- Does the text have a line of section `s`?
unfoldable pub mentions : Bytes → List Entry → Bool
mentions s [] = false
mentions s (e ∷ es) = in_section s e || mentions s es

abbrev sets : Bytes → Bytes → Entry → Bool
sets s n e = in_section s e && bytes_eq (convert_to_lowercase e.name) n

-- The number of the last line of section `s` with the name `n`, as a byte; `old` without one.
unfoldable pub last_byte : Bytes → Bytes → List Entry → ℕ → ℕ
last_byte s n [] old = old
last_byte s n (e ∷ es) old = last_byte s n es (if sets s n e then wrap 8 (atoi e.value) else old)

-- A section either keeps every value or decides it.
last_byte_cases :
    (s n : Bytes) (es : List Entry)
    → ((old : ℕ) → last_byte s n es old ≡ old) ⊎ ((v : ℕ) × ((old : ℕ) → last_byte s n es old ≡ v))
unfolding last_byte
last_byte_cases s n [] = inl (λ old. refl)
last_byte_cases s n (e ∷ es) = elim (last_byte_cases s n es) [
  | inl keeps ↦ elim (Bool-cases (sets s n e)) [
    | inl t ↦ inr (wrap 8 (atoi e.value), λ old. rw (keeps, t))
    | inr t ↦ inl (λ old. rw (keeps, t))
  ]
  | inr (v, decides) ↦ inr (v, λ old. decides _)
]

-- A section that is read again after others decides as if it had been read only then.
pub last_byte_again :
    (s n : Bytes) (es : List Entry) (between : ℕ → ℕ) (old : ℕ)
    → last_byte s n es (between (last_byte s n es old)) ≡ last_byte s n es (between old)
last_byte_again s n es between old = elim (last_byte_cases s n es) [
  | inl keeps ↦ ap (λ x. last_byte s n es (between x)) (keeps old)
  | inr (v, decides) ↦ decides _ ∙ sym (decides _)
]

pub section-handle_entries :
    (d : IniData) (es : List Entry) → (handle_entries d es).ini_section ≡ d.ini_section
unfolding handle_entries parse_controller_config_line
section-handle_entries d [] = refl
section-handle_entries d (e ∷ es) =
    section-handle_entries (parse_controller_config_line d e) es ∙ ground arith

pub found-handle_entries :
    (d : IniData) (es : List Entry)
    → (handle_entries d es).ini_section_found ≡ (d.ini_section_found || mentions d.ini_section es)
unfolding handle_entries parse_controller_config_line mentions
found-handle_entries d [] = ground arith
found-handle_entries d (e ∷ es) =
    found-handle_entries (parse_controller_config_line d e) es ∙ ground arith

parse_controller_config_line-deadzone :
    (d : IniData) (e : Entry) (i : AnalogBinding)
    → has_key i ≡ true
    → (parse_controller_config_line d e).config.analog_deadzone_percent i ≡ (
        if sets d.ini_section (deadzone_name i) e
        then wrap 8 (atoi e.value)
        else d.config.analog_deadzone_percent i)
unfolding parse_controller_config_line
parse_controller_config_line-deadzone d e i h = elim (Bool-cases (in_section d.ini_section e)) [
  | inl t ↦ rw t (apply_setting-deadzone d.config i (convert_to_lowercase e.name) e.value h)
  | inr f ↦ rw f refl
]

section-line :
    (d : IniData) (e : Entry) → (parse_controller_config_line d e).ini_section ≡ d.ini_section
unfolding parse_controller_config_line
section-line d e = ground arith

pub handle_entries-deadzone :
    (d : IniData) (es : List Entry) (i : AnalogBinding)
    → has_key i ≡ true
    → (handle_entries d es).config.analog_deadzone_percent i
      ≡ last_byte d.ini_section (deadzone_name i) es (d.config.analog_deadzone_percent i)
unfolding handle_entries last_byte
handle_entries-deadzone d [] i h = refl
handle_entries-deadzone d (e ∷ es) i h =
    handle_entries-deadzone (parse_controller_config_line d e) es i h
    ∙ ap
        (λ s.
          last_byte s (deadzone_name i) es
            ((parse_controller_config_line d e).config.analog_deadzone_percent i))
        (section-line d e)
    ∙ ap (last_byte d.ini_section (deadzone_name i) es)
        (parse_controller_config_line-deadzone d e i h)
