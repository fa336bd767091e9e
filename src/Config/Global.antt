-- ===== src/Config/Global.antt =====
-- `LoadGlobalConfig` of source/Sysmodule/source/config_handler.cpp.
use sys_con.Prelude.{
  ◌≡◌, refl, ap, sym, ◌∙◌, true, false, none, some, List, [], ◌∷◌, Bool-cases, inl, inr,
  if◌then◌else◌,
}
use sys_con.Prelude.Int.{ℤ, pos, negsuc}
use sys_con.Prelude.Text.{Bytes, codes, bytes_eq}
use sys_con.Config.Numbers.{convert_to_lowercase}
use sys_con.Config.Line.{Entry, GlobalConfig, GlobalIniData, parse_global_config_line}
use sys_con.Config.Load.{Ini, File}

unfoldable pub handle_global : GlobalIniData → List Entry → GlobalIniData
unfolding parse_global_config_line
handle_global d [] = d
handle_global d (e ∷ es) = handle_global (parse_global_config_line d e) es

abbrev global_data : GlobalConfig → GlobalIniData
global_data config = record {
  ini_section = codes "global";
  ini_section_found = false;
  config = config;
}

-- The result, and the configuration that the lines read so far have left.
unfoldable pub load_global_config : Ini → File → GlobalConfig → ℤ × GlobalConfig
unfolding handle_global
load_global_config ini f config = elim f.content [
  | none ↦ (negsuc 0, config)
  | some text ↦
      (pos (ini.error text), (handle_global (global_data config) (ini.entries text)).config)
]

-- The lines of one section, in their order.
pub section_of : Bytes → List Entry → List Entry
section_of s [] = []
section_of s (e ∷ es) =
    let rest = section_of s es in
    if bytes_eq s (convert_to_lowercase e.section) then e ∷ rest else rest

keeps_section :
    (d : GlobalIniData) (e : Entry) → (parse_global_config_line d e).ini_section ≡ d.ini_section
unfolding parse_global_config_line
keeps_section d e = elim (Bool-cases (bytes_eq d.ini_section (convert_to_lowercase e.section))) [
  | inl h ↦ rw (h) refl
  | inr h ↦ rw (h) refl
]

other_section :
    (d : GlobalIniData) (e : Entry)
    → bytes_eq d.ini_section (convert_to_lowercase e.section) ≡ false
    → parse_global_config_line d e ≡ d
unfolding parse_global_config_line
other_section d e h = rw (h) refl

section_of_nil : (s : Bytes) → section_of s [] ≡ []
unfolding section_of
section_of_nil s = refl

taken :
    (s : Bytes) (e : Entry) (es : List Entry)
    → bytes_eq s (convert_to_lowercase e.section) ≡ true
    → section_of s (e ∷ es) ≡ e ∷ section_of s es
unfolding section_of
taken s e es h = rw (h) refl

left_out :
    (s : Bytes) (e : Entry) (es : List Entry)
    → bytes_eq s (convert_to_lowercase e.section) ≡ false
    → section_of s (e ∷ es) ≡ section_of s es
unfolding section_of
left_out s e es h = rw (h) refl

handle_global-section :
    (d : GlobalIniData) (es : List Entry)
    → handle_global d es ≡ handle_global d (section_of d.ini_section es)
unfolding handle_global
handle_global-section d [] = ap (handle_global d) (sym (section_of_nil d.ini_section))
handle_global-section d (e ∷ es) =
    elim (Bool-cases (bytes_eq d.ini_section (convert_to_lowercase e.section))) [
      | inl h ↦
          handle_global-section (parse_global_config_line d e) es
          ∙ ap (λ s. handle_global (parse_global_config_line d e) (section_of s es))
              (keeps_section d e)
          ∙ sym (ap (handle_global d) (taken d.ini_section e es h))
      | inr h ↦
          ap (λ g. handle_global g es) (other_section d e h)
          ∙ handle_global-section d es
          ∙ sym (ap (handle_global d) (left_out d.ini_section e es h))
    ]

-- For a file that can be read, the global configuration is what the lines of [global] alone make of
-- it, and the result is the parser's; no line of a controller's section has a part in it.
load_global_config-section :
    (ini : Ini) (f : File) (text : Bytes) (config : GlobalConfig)
    → f.content ≡ some text
    → load_global_config ini f config ≡ (
      pos (ini.error text),
      (handle_global (global_data config) (section_of (codes "global") (ini.entries text))).config,
    )
unfolding load_global_config
load_global_config-section ini f text config readable = rw (readable) (
    ap (λ (d : GlobalIniData). (pos (ini.error text), d.config))
      (handle_global-section (global_data config) (ini.entries text)))
