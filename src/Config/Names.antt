-- ===== src/Config/Names.antt =====
-- The words of source/Sysmodule/source/config_handler.cpp: buttons, axes, controller types, colours.
-- A chain of comparisons is a table that is searched in the chain's order.
use sys_con.Prelude.{
  ℕ, ◌+◌, ◌*◌, ◌^◌, ◌%◌, Bool, true, false, ◌||◌, Option, none, some, List, [], ◌∷◌, length, ◌==◌,
  if◌then◌else◌,
}
use sys_con.Prelude.Int.{wrap}
use sys_con.Prelude.Text.{Bytes, codes, bytes_eq}
use sys_con.Config.Data.{Button, AnalogBinding, ControllerType, Sign, AnalogConfig}
use sys_con.Config.Numbers.{convert_to_lowercase, strtol}

unfoldable pub lookup_name {ℓ} : {A : Type ℓ} → Bytes → List (Bytes × A) → Option A
unfolding bytes_eq
lookup_name s [] = none
lookup_name s ((k, v) ∷ rest) = if bytes_eq s k then some v else lookup_name s rest

abbrev button_names : List (Bytes × Button)
button_names =
    (codes "b", Button.b)
    ∷ (codes "a", Button.a)
    ∷ (codes "x", Button.x)
    ∷ (codes "y", Button.y)
    ∷ (codes "lstick_click", Button.lstick_click)
    ∷ (codes "lstick_left", Button.lstick_left)
    ∷ (codes "lstick_right", Button.lstick_right)
    ∷ (codes "lstick_up", Button.lstick_up)
    ∷ (codes "lstick_down", Button.lstick_down)
    ∷ (codes "rstick_click", Button.rstick_click)
    ∷ (codes "rstick_left", Button.rstick_left)
    ∷ (codes "rstick_right", Button.rstick_right)
    ∷ (codes "rstick_up", Button.rstick_up)
    ∷ (codes "rstick_down", Button.rstick_down)
    ∷ (codes "l", Button.l)
    ∷ (codes "r", Button.r)
    ∷ (codes "zl", Button.zl)
    ∷ (codes "zr", Button.zr)
    ∷ (codes "minus", Button.minus)
    ∷ (codes "plus", Button.plus)
    ∷ (codes "dpad_up", Button.dpad_up)
    ∷ (codes "dpad_right", Button.dpad_right)
    ∷ (codes "dpad_down", Button.dpad_down)
    ∷ (codes "dpad_left", Button.dpad_left)
    ∷ (codes "capture", Button.capture)
    ∷ (codes "home", Button.home)
    ∷ []

abbrev or_button : Option Button → Button
or_button none = Button.none
or_button (some i) = i

unfoldable pub string_to_button : Bytes → Button
unfolding lookup_name convert_to_lowercase
string_to_button name = or_button (lookup_name (convert_to_lowercase name) button_names)

abbrev axis_names : List (Bytes × AnalogBinding)
axis_names =
    (codes "x", AnalogBinding.x)
    ∷ (codes "y", AnalogBinding.y)
    ∷ (codes "z", AnalogBinding.z)
    ∷ (codes "rz", AnalogBinding.rz)
    ∷ (codes "rx", AnalogBinding.rx)
    ∷ (codes "ry", AnalogBinding.ry)
    ∷ (codes "slider", AnalogBinding.slider)
    ∷ (codes "dial", AnalogBinding.dial)
    ∷ (codes "brake", AnalogBinding.brake)
    ∷ (codes "accelerator", AnalogBinding.accelerator)
    ∷ (codes "none", AnalogBinding.unknown)
    ∷ []

-- The sign of a text that begins with this byte.
abbrev sign_of : ℕ → Sign
sign_of c = if c == b'-' then Sign.minus else Sign.plus

abbrev axis_sign : Bytes → Sign
axis_sign [] = Sign.plus
axis_sign (c ∷ cs) = sign_of c

abbrev without_sign : Bytes → Bytes
without_sign [] = []
without_sign (c ∷ cs) = if c == b'-' || c == b'+' then cs else c ∷ cs

abbrev named_axis : Sign → Option AnalogBinding → Bool × AnalogConfig
named_axis s none = (false, record { sign = s; bind = AnalogBinding.unknown })
named_axis s (some i) = (true, record { sign = s; bind = i })

-- The Boolean is the function's result. `*analogCfg` is written also where the result is false.
unfoldable pub string_to_analog_config : Bytes → Bool × AnalogConfig
unfolding lookup_name convert_to_lowercase
string_to_analog_config cfg =
    let stick = convert_to_lowercase cfg in
    named_axis (axis_sign stick) (lookup_name (without_sign stick) axis_names)

abbrev type_names : List (Bytes × ControllerType)
type_names =
    (codes "prowithbattery", ControllerType.pro_with_battery)
    ∷ (codes "tarragon", ControllerType.tarragon)
    ∷ (codes "snes", ControllerType.snes)
    ∷ (codes "pokeballplus", ControllerType.pokeball_plus)
    ∷ (codes "gamecube", ControllerType.gamecube)
    ∷ (codes "pro", ControllerType.pro)
    ∷ (codes "3rdpartypro", ControllerType.third_party_pro)
    ∷ (codes "n64", ControllerType.n64)
    ∷ (codes "sega", ControllerType.sega)
    ∷ (codes "nes", ControllerType.nes)
    ∷ (codes "famicom", ControllerType.famicom)
    ∷ []

abbrev or_unknown : Option ControllerType → ControllerType
or_unknown none = ControllerType.unknown
or_unknown (some t) = t

unfoldable pub string_to_controller_type : Bytes → ControllerType
unfolding lookup_name convert_to_lowercase
string_to_controller_type value = or_unknown (lookup_name (convert_to_lowercase value) type_names)

abbrev skip_hash : Bytes → Bytes
skip_hash [] = []
skip_hash (c ∷ cs) = if c == b'#' then cs else c ∷ cs

-- `rgbaValue` is a `uint32_t`; `x << 8 | 0xFF` adds, since the low byte of the shift is 0.
unfoldable pub hex_string_color_to_rgba : Bytes → ℕ
unfolding strtol
hex_string_color_to_rgba value =
    let hex = skip_hash value in
    if length hex == 8
    then wrap 32 (strtol 16 hex)
    else if length hex == 6
    then wrap 32 (strtol 16 hex) * 256 % 2 ^ 32 + 255
    else 255
