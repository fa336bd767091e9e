-- ===== src/Tests/Config.antt =====
-- Concrete inputs for source/Sysmodule/source/config_handler.{h,cpp}.
use sys_con.Config.Line.{GlobalConfig}
use sys_con.Prelude.{◌≡◌, refl, true, none, some, inl, List, [], ◌∷◌, ◌++◌, arith}
use sys_con.Prelude.Int.{pos}
use sys_con.Prelude.Text.{Bytes, codes, bytes_eq, to_lower}
use sys_con.Config.Data.{AnalogBinding, initial_config}
use sys_con.Config.Numbers.{tokens, atoi, is_number, convert_to_lowercase}
use sys_con.Config.Names.{string_to_analog_config}
use sys_con.Config.Numbers.Decimal.{decimal}
use sys_con.Config.Binding.{parse_binding}
use sys_con.Config.Binding.Pins.{valid_pins, parse_binding-pins}
use sys_con.Config.Binding.Axis.{parse_binding-refused_word}
use sys_con.Config.VidPid.{VidPid, of_text, to_text}
use sys_con.Config.VidPid.RoundTrip.{of_text-to_text}
use sys_con.Config.Line.{Entry}
use sys_con.Config.Load.{Ini, File, load_controller_config}
use sys_con.Config.Override.{deadzone_name}
use sys_con.Config.Override.Lines.{mentions, last_byte}
use sys_con.Config.Override.Loader.{two_sections, profile_byte, load_controller_config-deadzone}
use sys_con.Config.Stream.{read_line, AllOther, read_line-lost}

abbrev pub line : Bytes → Bytes → Bytes → Entry
line s n v = record { section = s; name = n; value = v }

-- A file with a device that names a profile, which sets a dead zone and a combo.
abbrev pad_entries : List Entry
pad_entries =
    line (codes "default") (codes "deadzone_x") (codes "10")
    ∷ line (codes "045e-028e") (codes "profile") (codes "pad")
    ∷ line (codes "pad") (codes "deadzone_x") (codes "20")
    ∷ line (codes "pad") (codes "b") (codes "1,-x")
    ∷ line (codes "pad") (codes "simulate_home") (codes "minus+plus")
    ∷ []

abbrev pub pad_ini : Ini
pad_ini = record { entries = λ text. pad_entries; error = λ text. 0 }

abbrev pub pad_file : File
pad_file = record { content = some []; can_append = true }

abbrev pub pad_id : VidPid
pad_id = record { vid = 1118; pid = 654 }

load_controller_config-deadzone_example :
    let n = deadzone_name AnalogBinding.x in
    let named = (two_sections initial_config (to_text pad_id) pad_entries).profile in
    let r = load_controller_config pad_ini [] pad_file initial_config pad_id true [] in
    (r.rc ≡ pos 0)
    × (r.config.analog_deadzone_percent AnalogBinding.x
        ≡ last_byte (convert_to_lowercase (to_text pad_id)) n pad_entries (
            profile_byte named n pad_entries (
              last_byte
                (codes "default")
                n
                pad_entries
                (initial_config.analog_deadzone_percent AnalogBinding.x))))
unfolding mentions bytes_eq to_text convert_to_lowercase to_lower
load_controller_config-deadzone_example =
    load_controller_config-deadzone pad_ini pad_file [] refl refl [] initial_config pad_id true []
      AnalogBinding.x refl refl

parse_binding-pins_example : (parse_binding (codes "40,3,x,7,9")).pins ≡ 3 ∷ 7 ∷ []
unfolding valid_pins tokens is_number decimal
parse_binding-pins_example = parse_binding-pins (codes "40,3,x,7,9") (ground arith)

parse_binding-refused_word_example :
    (parse_binding (codes "x,left")).analog.bind ≡ AnalogBinding.unknown
unfolding tokens is_number string_to_analog_config
parse_binding-refused_word_example =
    parse_binding-refused_word (codes "x,left") (codes "left") (codes "x" ∷ []) [] refl refl tt refl

-- A number of ten digits that does not fit an `int` passes the test `pin < MAX_CONTROLLER_BUTTONS`.
wide_pin : (parse_binding (codes "4294967295")).pins ≡ 255 ∷ 0 ∷ []
unfolding parse_binding is_number atoi
wide_pin = refl

of_text-to_text_example : of_text (to_text pad_id) ≡ pad_id
of_text-to_text_example = of_text-to_text pad_id (omega arith) (omega arith)

pad_id_text : to_text pad_id ≡ codes "045e-028e"
unfolding to_text
pad_id_text = refl

read_line-lost_example : (read_line 200 (codes "a=2" ++ [])).0 ≡ none
unfolding AllOther
read_line-lost_example = read_line-lost 200 (codes "a=2") [] (ground arith) (inl refl)

abbrev any_global : GlobalConfig
any_global = record {
  polling_timeout_ms = 10;
  polling_thread_priority = pos 30;
  log_level = pos 3;
  discovery_mode = pos 0;
  discovery_vidpid = [];
  auto_add_controller = true;
}
