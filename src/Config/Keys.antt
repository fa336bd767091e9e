-- ===== src/Config/Keys.antt =====
-- The keys of a controller's section, and what each does with its value: the branches of
-- `ParseControllerConfigLine` (source/Sysmodule/source/config_handler.cpp).
use sys_con.Prelude.{
  Bool, true, false, Option, none, some, List, [], ◌∷◌, ◌==◌, drop, update, ite, if◌then◌else◌,
}
use sys_con.Prelude.Int.{wrap}
use sys_con.Prelude.Text.{Bytes, codes}
use sys_con.Config.Data.{
  Button, Button-discrete, AnalogBinding, AnalogBinding-discrete, ComboConfig, ControllerConfig,
}
use sys_con.Config.Numbers.{convert_to_lowercase, atoi}
use sys_con.Config.Names.{
  lookup_name, string_to_button, string_to_controller_type, hex_string_color_to_rgba,
}
use sys_con.Config.Binding.{parse_hot_key, parse_binding}

pub data Key : Type 0 where
  driver profile input_max_packet_size output_max_packet_size controller_type : Key
  deadzone factor : AnalogBinding → Key
  color_body color_buttons color_left_grip color_right_grip : Key

-- The keys that the code tries before `simulate_`, and those that it tries after.
abbrev pub first_keys : List (Bytes × Key)
first_keys =
    (codes "driver", driver)
    ∷ (codes "profile", profile)
    ∷ (codes "input_max_packet_size", input_max_packet_size)
    ∷ (codes "output_max_packet_size", output_max_packet_size)
    ∷ (codes "controller_type", controller_type)
    ∷ []

abbrev pub last_keys : List (Bytes × Key)
last_keys =
    (codes "deadzone_x", deadzone AnalogBinding.x)
    ∷ (codes "deadzone_y", deadzone AnalogBinding.y)
    ∷ (codes "deadzone_z", deadzone AnalogBinding.z)
    ∷ (codes "deadzone_rz", deadzone AnalogBinding.rz)
    ∷ (codes "deadzone_rx", deadzone AnalogBinding.rx)
    ∷ (codes "deadzone_ry", deadzone AnalogBinding.ry)
    ∷ (codes "deadzone_slider", deadzone AnalogBinding.slider)
    ∷ (codes "deadzone_dial", deadzone AnalogBinding.dial)
    ∷ (codes "factor_x", factor AnalogBinding.x)
    ∷ (codes "factor_y", factor AnalogBinding.y)
    ∷ (codes "factor_z", factor AnalogBinding.z)
    ∷ (codes "factor_rz", factor AnalogBinding.rz)
    ∷ (codes "factor_rx", factor AnalogBinding.rx)
    ∷ (codes "factor_ry", factor AnalogBinding.ry)
    ∷ (codes "factor_slider", factor AnalogBinding.slider)
    ∷ (codes "factor_dial", factor AnalogBinding.dial)
    ∷ (codes "color_body", color_body)
    ∷ (codes "color_buttons", color_buttons)
    ∷ (codes "color_leftgrip", color_left_grip)
    ∷ (codes "color_rightgrip", color_right_grip)
    ∷ []

-- `atoi` goes into a `uint32_t` or a `uint8_t`.
unfoldable pub apply_key : ControllerConfig → Key → Bytes → ControllerConfig
apply_key c driver v = record c { driver = convert_to_lowercase v }
apply_key c profile v = record c { profile = convert_to_lowercase v }
apply_key c input_max_packet_size v = record c { input_max_packet_size = wrap 32 (atoi v) }
apply_key c output_max_packet_size v = record c { output_max_packet_size = wrap 32 (atoi v) }
apply_key c controller_type v = record c { controller_type = string_to_controller_type v }
apply_key c (deadzone i) v = record c {
  analog_deadzone_percent =
      update AnalogBinding-discrete c.analog_deadzone_percent i (wrap 8 (atoi v));
}
apply_key c (factor i) v = record c {
  analog_factor_percent = update AnalogBinding-discrete c.analog_factor_percent i (wrap 8 (atoi v));
}
apply_key c color_body v = record c { body_color = hex_string_color_to_rgba v }
apply_key c color_buttons v = record c { buttons_color = hex_string_color_to_rgba v }
apply_key c color_left_grip v = record c { left_grip_color = hex_string_color_to_rgba v }
apply_key c color_right_grip v = record c { right_grip_color = hex_string_color_to_rgba v }

unfoldable pub bind_button : ControllerConfig → Button → Bytes → ControllerConfig
bind_button c i value =
    let b = parse_binding value in
    record c {
      buttons_pin = update Button-discrete c.buttons_pin i b.pins;
      buttons_analog_used = true;
      buttons_analog = update Button-discrete c.buttons_analog i b.analog;
    }

-- The first slot whose `buttonSimulated` is NONE takes the combo; with none free nothing changes.
unfoldable pub add_combo : List ComboConfig → Button → Bytes → List ComboConfig
add_combo [] i value = []
add_combo (c ∷ cs) i value =
    ite (Button-discrete c.button_simulated Button.none)
      (parse_hot_key (record c { button_simulated = i }) value ∷ cs) (c ∷ add_combo cs i value)

unfoldable pub simulate_button : ControllerConfig → Button → Bytes → ControllerConfig
unfolding add_combo
simulate_button c i value =
    ite (Button-discrete i Button.none) c
      (record c { simulate_combos = add_combo c.simulate_combos i value })

abbrev pub simulate_prefix : Bytes
simulate_prefix = codes "simulate_"

unfoldable pub starts_with : Bytes → Bytes → Bool
starts_with s [] = true
starts_with [] (p ∷ ps) = false
starts_with (c ∷ cs) (p ∷ ps) = let more = starts_with cs ps in if c == p then more else false

abbrev pub apply_known : ControllerConfig → Option Key → Bytes → ControllerConfig
apply_known c none v = c
apply_known c (some k) v = apply_key c k v

abbrev pub apply_other : ControllerConfig → Bytes → Bytes → ControllerConfig
apply_other c name v =
    if starts_with name simulate_prefix
    then simulate_button c (string_to_button (drop 9 name)) v
    else apply_known c (lookup_name name last_keys) v

abbrev pub apply_first : ControllerConfig → Option Key → Bytes → Bytes → ControllerConfig
apply_first c none name v = apply_other c name v
apply_first c (some k) name v = apply_key c k v

-- One line of the section, its name in lower case. An unknown name is logged and passed over.
unfoldable pub apply_setting : ControllerConfig → Bytes → Bytes → ControllerConfig
unfolding bind_button simulate_button apply_key starts_with
apply_setting c name v =
    ite (Button-discrete (string_to_button name) Button.none)
      (apply_first c (lookup_name name first_keys) name v) (bind_button c (string_to_button name) v)
