-- ===== src/Tests/Loader.antt =====
-- A load of source/Sysmodule/source/config_handler.cpp with a parser of lines.
use mathlib.Core.Option.{some-injective}
use mathlib.Core.Path.{subst}
use sys_con.Prelude.{
  ℕ, ◌<◌, ◌≡◌, ◌⊎◌, refl, Bool, true, false, not, ◌&&◌, ◌||◌, some, inl, inr, List, [], ◌∷◌, ◌++◌,
  length, ◌==◌, ltb, if◌then◌else◌, arith,
}
use sys_con.Prelude.Text.{Bytes, codes}
use sys_con.Config.Data.{initial_config}
use sys_con.Config.Numbers.{tokens, is_number}
use sys_con.Config.Binding.Pins.{IsShort}
use sys_con.Config.VidPid.{to_text}
use sys_con.Config.Line.{Entry}
use sys_con.Config.Load.{Ini, File, new_section, add_controller_to_config, load_controller_config}
use sys_con.Config.Valid.{IsValid, initial_config-IsValid}
use sys_con.Config.Valid.Reads.{AllEntries, InText}
use sys_con.Config.Valid.Load.{IsShortLine, load_controller_config-IsValid}
use sys_con.Tests.Config.{line, pad_id}

-- A parser that knows the sections and the lines of a text: `section` is the last one that began,
-- and `word` the line so far.
abbrev after_bracket : Bytes → Bytes
after_bracket [] = []
after_bracket (c ∷ cs) = if c == b']' then [] else c ∷ after_bracket cs

abbrev name_of : Bytes → Bytes
name_of [] = []
name_of (c ∷ cs) = if c == b'=' then [] else c ∷ name_of cs

abbrev value_of : Bytes → Bytes
value_of [] = []
value_of (c ∷ cs) = if c == b'=' then cs else value_of cs

abbrev entry_of : Bytes → Bytes → List Entry → List Entry
entry_of section [] rest = rest
entry_of section (c ∷ cs) rest = line section (name_of (c ∷ cs)) (value_of (c ∷ cs)) ∷ rest

abbrev section_of : Bytes → Bytes → Bytes
section_of section [] = section
section_of section (c ∷ cs) = if c == b'[' then after_bracket cs else section

abbrev begins_section : Bytes → Bool
begins_section [] = false
begins_section (c ∷ cs) = c == b'['

abbrev lines_from : Bytes → Bytes → Bytes → List Entry
lines_from section word [] = []
lines_from section word (c ∷ cs) =
    let ends = c == 10 in
    let named = begins_section word in
    let rest =
      lines_from (if ends && named then section_of section word else section)
        (if ends then [] else word ++ c ∷ []) cs in
    if ends && not named then entry_of section word rest else rest

abbrev line_ini : Ini
line_ini = record { entries = lines_from [] []; error = λ text. 0 }

-- The device of the file gets a section.
abbrev small_text : Bytes
small_text = codes "[default]\nb=1,40\ndeadzone_x=10\n"

abbrev small_file : File
small_file = record { content = some small_text; can_append = true }

-- A test of the condition on the numbers of a list of lines.
abbrev short_tokens : List Bytes → Bool
short_tokens [] = true
short_tokens (t ∷ ts) = (not (is_number t) || ltb (length t) 10) && short_tokens ts

abbrev short_lines : List Entry → Bool
short_lines [] = true
short_lines (e ∷ es) = short_tokens (tokens b',' e.value) && short_lines es

short_tokens-IsShort : (ts : List Bytes) → short_tokens ts ≡ true → IsShort ts
short_tokens-IsShort [] h = tt
short_tokens-IsShort (t ∷ ts) h =
    (one (is_number t) (length t) _ h, short_tokens-IsShort ts (ground arith))
  where
    one :
        (a : Bool) (n : ℕ) (more : Bool)
        → ((not a || ltb n 10) && more) ≡ true
        → (a ≡ false) ⊎ (n < 10)
    one false n more h = inl refl
    one true n more h = inr (ground arith)

short_lines-short : (es : List Entry) → short_lines es ≡ true → AllEntries IsShortLine es
short_lines-short [] h = tt
short_lines-short (e ∷ es) h =
    (short_tokens-IsShort (tokens b',' e.value) (ground arith), short_lines-short es (ground arith))

abbrev grown_text : Bytes
grown_text = small_text ++ new_section (codes "now") (to_text pad_id) (codes "pad")

small-short : InText IsShortLine line_ini small_file.content
unfolding tokens is_number
small-short = short_lines-short (line_ini.entries small_text) refl

grown-short : AllEntries IsShortLine (line_ini.entries grown_text)
unfolding tokens is_number new_section to_text
grown-short = short_lines-short (line_ini.entries grown_text) refl

added-short :
    (g : File)
    → add_controller_to_config (codes "now") small_file (to_text pad_id) (codes "pad") ≡ some g
    → InText IsShortLine line_ini g.content
unfolding add_controller_to_config
added-short g e =
    subst (λ (f : File). InText IsShortLine line_ini f.content)
      (some-injective (record { content = some grown_text; can_append = true }) g e) grown-short

load_controller_config-IsValid_example :
    IsValid
      (load_controller_config line_ini
        (codes "now")
        small_file
        initial_config
        pad_id
        true
        (codes "pad")).config
load_controller_config-IsValid_example =
    load_controller_config-IsValid line_ini (codes "now") small_file initial_config pad_id true
      (codes "pad") small-short added-short initial_config-IsValid

-- A file that the theorem does not speak of.
wide_line : short_lines (line_ini.entries (codes "b=4294967295\n")) ≡ false
unfolding tokens is_number
wide_line = refl
