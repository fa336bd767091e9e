-- ===== src/Config/Override/Loader.antt =====
-- The order of the sections in `LoadControllerConfig` (source/Sysmodule/source/config_handler.cpp).
use sys_con.Prelude.{ℕ, ◌≡◌, refl, sym, ap, ◌∙◌, Bool, true, false, not, ◌&&◌, some, List, [], ◌∷◌}
use sys_con.Prelude.Int.{pos}
use sys_con.Prelude.Text.{Bytes, codes}
use sys_con.Config.Data.{AnalogBinding, ControllerConfig}
use sys_con.Config.Numbers.{convert_to_lowercase}
use sys_con.Config.VidPid.{VidPid, to_text}
use sys_con.Config.Line.{Entry, IniData, ini_data}
use sys_con.Config.Load.{
  Ini, File, Loaded, handle_entries, read_from_config, after_read, reread, load_named, load_profile,
  load_missing, load_section, load_controller_config,
}
use sys_con.Config.Override.{has_key, deadzone_name}
use sys_con.Config.Override.Lines.{
  mentions, last_byte, last_byte_again, section-handle_entries, found-handle_entries,
  handle_entries-deadzone,
}

-- What the profile makes of a value; there may be none.
abbrev pub profile_byte : Bytes → Bytes → List Entry → ℕ → ℕ
profile_byte [] n es old = old
profile_byte (c ∷ cs) n es old = last_byte (convert_to_lowercase (c ∷ cs)) n es old

-- The configuration after one section, and after [default] and [vid-pid].
abbrev one_section : ControllerConfig → Bytes → List Entry → ControllerConfig
one_section c section es = (handle_entries (ini_data section c) es).config

abbrev pub two_sections : ControllerConfig → Bytes → List Entry → ControllerConfig
two_sections c section es = one_section (one_section c (codes "default") es) section es

module _ (ini : Ini) (f : File) (text : Bytes) (readable : f.content ≡ some text)
    (well_formed : ini.error text ≡ 0) where
  read_lem :
      (d : IniData) (go : IniData → Loaded)
      → after_read (read_from_config ini f d) f go ≡ go (handle_entries d (ini.entries text))
  unfolding read_from_config after_read
  read_lem d go = rw (readable, read_from_config, well_formed) refl

  -- Behind both sections, with the profile's name `p`.
  load_named-deadzone :
      (d : IniData) (p : Bytes) (i : AnalogBinding)
      → has_key i ≡ true
      → let n = deadzone_name i in
        let es = ini.entries text in
        let old = d.config.analog_deadzone_percent i in
        last_byte d.ini_section n es old ≡ old
        → ((load_named ini f d p).rc ≡ pos 0)
          × ((load_named ini f d p).config.analog_deadzone_percent i
              ≡ last_byte d.ini_section n es (profile_byte p n es old))
  unfolding load_named reread
  load_named-deadzone d [] i h again = (refl, sym again)
  load_named-deadzone d (c ∷ cs) i h again =
      let q = handle_entries (ini_data (c ∷ cs) d.config) (ini.entries text) in
      rw (read_lem, read_lem)
        (
          refl,
          handle_entries-deadzone (record d { config = q.config }) (ini.entries text) i h
              ∙ ap (last_byte d.ini_section (deadzone_name i) (ini.entries text))
                  (handle_entries-deadzone (ini_data (c ∷ cs) d.config) (ini.entries text) i h),
        )

  module _ (s : Bytes) (c : ControllerConfig) (i : AnalogBinding) (h : has_key i ≡ true) where
    abbrev read_section : IniData
    read_section = handle_entries (ini_data s c) (ini.entries text)

    section-read_section : read_section.ini_section ≡ convert_to_lowercase s
    unfolding ini_data
    section-read_section = section-handle_entries (ini_data s c) (ini.entries text)

    read_section-deadzone :
        read_section.config.analog_deadzone_percent i
        ≡ last_byte
            (convert_to_lowercase s)
            (deadzone_name i)
            (ini.entries text)
            (c.analog_deadzone_percent i)
    unfolding ini_data
    read_section-deadzone = handle_entries-deadzone (ini_data s c) (ini.entries text) i h

    -- Behind the section of the device, read over the configuration `c`.
    load_profile-deadzone :
        let n = deadzone_name i in
        let es = ini.entries text in
        let section = convert_to_lowercase s in
        let r = load_profile ini f read_section in
        (r.rc ≡ pos 0)
        × (r.config.analog_deadzone_percent i
            ≡ last_byte section n es
                (profile_byte read_section.config.profile n es (c.analog_deadzone_percent i)))
    unfolding load_profile
    load_profile-deadzone =
        let p = read_section.config.profile in
        let n = deadzone_name i in
        let es = ini.entries text in
        let section = convert_to_lowercase s in
        let again : last_byte read_section.ini_section n es
              (read_section.config.analog_deadzone_percent i)
            ≡ read_section.config.analog_deadzone_percent i =
          rw (section-read_section, read_section-deadzone)
            (last_byte_again section n es (λ x. x) _) in
        let r = load_named-deadzone read_section p i h again in
        (
          r.0,
          r.1
              ∙ ap
                  (λ t.
                    last_byte t n es
                      (profile_byte p n es (read_section.config.analog_deadzone_percent i)))
                  section-read_section
              ∙ ap (λ x. last_byte section n es (profile_byte p n es x)) read_section-deadzone
              ∙ last_byte_again section n es (profile_byte p n es) _,
        )

  default_read-deadzone :
      (c : ControllerConfig) (i : AnalogBinding)
      → has_key i ≡ true
      → (one_section c (codes "default") (ini.entries text)).analog_deadzone_percent i
        ≡ last_byte
            (codes "default")
            (deadzone_name i)
            (ini.entries text)
            (c.analog_deadzone_percent i)
  unfolding ini_data
  default_read-deadzone c i h =
      handle_entries-deadzone (ini_data (codes "default") c) (ini.entries text) i h

  -- With a section in the file, or none to be added, no section is added.
  load_missing_known :
      (stamp s : Bytes) (c : ControllerConfig) (auto : Bool) (profile : Bytes)
      → (not (mentions (convert_to_lowercase s) (ini.entries text)) && auto) ≡ false
      → let e = handle_entries (ini_data s c) (ini.entries text) in
        load_missing ini stamp f auto s profile e ≡ load_profile ini f e
  unfolding load_missing ini_data
  load_missing_known stamp s c auto profile known =
      rw (found-handle_entries (ini_data s c) (ini.entries text), known)

  -- For an axis whose dead zone has a key: if the file is readable and well formed, and the device has
  -- a section or none is to be added, the load succeeds, and the dead zone is that of the last line
  -- for it in the section of the device, or without one in the section of the profile that these name,
  -- or else in [default], or else what it was.
  pub load_controller_config-deadzone :
      (stamp : Bytes) (c : ControllerConfig) (v : VidPid) (auto : Bool) (profile : Bytes)
      → (i : AnalogBinding) → has_key i ≡ true
      → (not (mentions (convert_to_lowercase (to_text v)) (ini.entries text)) && auto) ≡ false
      → let n = deadzone_name i in
        let es = ini.entries text in
        let section = convert_to_lowercase (to_text v) in
        let named = (two_sections c (to_text v) es).profile in
        let r = load_controller_config ini stamp f c v auto profile in
        (r.rc ≡ pos 0)
        × (r.config.analog_deadzone_percent i
            ≡ last_byte section n es (
                profile_byte named n es
                  (last_byte (codes "default") n es (c.analog_deadzone_percent i))))
  unfolding load_controller_config load_section
  load_controller_config-deadzone stamp c v auto profile i h known =
      let d = one_section c (codes "default") (ini.entries text) in
      let es = ini.entries text in
      let section = convert_to_lowercase (to_text v) in
      let r = load_profile-deadzone (to_text v) d i h in
      rw (read_lem, read_lem, load_missing_known stamp (to_text v) d auto profile known)
        (
          r.0,
          r.1
              ∙ ap
                  (λ x.
                    last_byte section (deadzone_name i) es
                      (profile_byte (one_section d (to_text v) es).profile (deadzone_name i) es x))
                  (default_read-deadzone c i h),
        )
