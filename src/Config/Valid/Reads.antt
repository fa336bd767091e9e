-- ===== src/Config/Valid/Reads.antt =====
-- What a load leaves true of a configuration (source/Sysmodule/source/config_handler.cpp): what every
-- line of the texts that it reads keeps.
use sys_con.Prelude.{
  ◌≡◌, zero, suc, Bool, not, ◌&&◌, Option, none, some, List, [], ◌∷◌, inl, inr, Bool-cases,
  Option-cases,
}
use sys_con.Prelude.Int.{ℤ, pos, negsuc}
use sys_con.Prelude.Text.{Bytes, codes, bytes_eq}
use sys_con.Config.Data.{ControllerConfig}
use sys_con.Config.Numbers.{convert_to_lowercase}
use sys_con.Config.VidPid.{VidPid, to_text}
use sys_con.Config.Keys.{apply_setting}
use sys_con.Config.Line.{Entry, IniData, ini_data, parse_controller_config_line}
use sys_con.Config.Load.{
  Ini, File, Loaded, handle_entries, read_from_config, after_read, loaded, reread, load_named,
  load_profile, load_added, load_missing, load_section, add_controller_to_config,
  load_controller_config,
}

-- All entries of a list.
abbrev pub AllEntries : (Entry → Type 0) → List Entry → Type 0
AllEntries E [] = Unit {0}
AllEntries E (e ∷ es) = E e × AllEntries E es

-- All entries of what a file contains, where it can be opened.
abbrev pub InText : (Entry → Type 0) → Ini → Option Bytes → Type 0
InText E ini none = Unit {0}
InText E ini (some text) = AllEntries E (ini.entries text)

-- `I` is kept by every line that `E` holds of.
module _ (E : Entry → Type 0) (I : ControllerConfig → Type 0)
    (keep : (c : ControllerConfig) (e : Entry)
      → E e
      → I c
      → I (apply_setting c (convert_to_lowercase e.name) e.value)) where
  parse_controller_config_line-keeps :
      (d : IniData) (e : Entry) → E e → I d.config → I (parse_controller_config_line d e).config
  unfolding parse_controller_config_line
  parse_controller_config_line-keeps d e s h =
      elim (Bool-cases (bytes_eq d.ini_section (convert_to_lowercase e.section))) [
        | inl t ↦ rw t (keep d.config e s h)
        | inr f ↦ rw f h
      ]

  handle_entries-keeps :
      (d : IniData) (es : List Entry)
      → AllEntries E es
      → I d.config
      → I (handle_entries d es).config
  unfolding handle_entries
  handle_entries-keeps d [] s h = h
  handle_entries-keeps d (e ∷ es) s h =
      handle_entries-keeps (parse_controller_config_line d e) es s.1
        (parse_controller_config_line-keeps d e s.0 h)

  module _ (ini : Ini) where
    -- A read leaves `d` alone or handles the entries of a text.
    read_from_config-keeps :
        (f : File) (d : IniData)
        → InText E ini f.content
        → I d.config
        → I (read_from_config ini f d).1.config
    unfolding read_from_config
    read_from_config-keeps f d s h = elim (Option-cases f.content) [
      | inl e ↦ rw (e, read_from_config) h
      | inr (text, e) ↦
          rw (e, read_from_config) (handle_entries-keeps d (ini.entries text) (rw e at s) h)
    ]

    read_then-keeps :
        (f : File) (d : IniData) (go : IniData → Loaded)
        → InText E ini f.content
        → I d.config
        → ((e : IniData) → I e.config → I (go e).config)
        → I (after_read (read_from_config ini f d) f go).config
    unfolding after_read
    read_then-keeps f d go s h k = go_on (read_from_config ini f d) (read_from_config-keeps f d s h)
      where
        go_on : (r : ℤ × IniData) → I r.1.config → I (after_read r f go).config
        go_on (pos zero, e) v = k e v
        go_on (pos (suc n), e) v = v
        go_on (negsuc n, e) v = v

    load_profile-keeps :
        (f : File) (d : IniData)
        → InText E ini f.content
        → I d.config
        → I (load_profile ini f d).config
    unfolding load_profile load_named reread
    load_profile-keeps f d s h = named d.config.profile
      where
        named : (p : Bytes) → I (load_named ini f d p).config
        named [] = h
        named (c ∷ cs) = read_then-keeps f (ini_data (c ∷ cs) d.config) (reread ini f d) s h (λ p v.
            read_then-keeps f (record d { config = p.config }) (λ q. loaded f q.config) s v
              (λ q w. w))

    -- The file, and the file with the section of the controller behind it, are all that is read.
    module _ (stamp : Bytes) (f : File) (v : VidPid) (profile : Bytes)
        (here : InText E ini f.content)
        (there : (g : File)
          → add_controller_to_config stamp f (to_text v) profile ≡ some g
          → InText E ini g.content) where
      load_added-keeps :
          (d : IniData) → I d.config → I (load_added ini stamp f d (to_text v) profile).config
      unfolding load_added
      load_added-keeps d h =
          elim (Option-cases (add_controller_to_config stamp f (to_text v) profile)) [
            | inl e ↦ rw (e, load_added) h
            | inr (g, e) ↦
                rw (e, load_added)
                  (read_then-keeps g d (load_profile ini g) (there g e) h
                    (λ p w. load_profile-keeps g p (there g e) w))
          ]

      load_missing-keeps :
          (auto : Bool) (e : IniData)
          → I e.config
          → I (load_missing ini stamp f auto (to_text v) profile e).config
      unfolding load_missing
      load_missing-keeps auto e h = elim (Bool-cases (not e.ini_section_found && auto)) [
        | inl t ↦ rw t (load_added-keeps e h)
        | inr t ↦ rw t (load_profile-keeps f e here h)
      ]

      -- What each line of these two texts keeps is kept by `LoadControllerConfig`.
      pub load_controller_config-keeps :
          (c : ControllerConfig) (auto : Bool)
          → I c
          → I (load_controller_config ini stamp f c v auto profile).config
      unfolding load_controller_config load_section
      load_controller_config-keeps c auto h =
          read_then-keeps f (ini_data (codes "default") c)
            (load_section ini stamp f auto (to_text v) profile) here h
            (λ d w.
              read_then-keeps f (ini_data (to_text v) d.config)
                (load_missing ini stamp f auto (to_text v) profile) here w
                (load_missing-keeps auto))
