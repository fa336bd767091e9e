-- ===== src/Config/Data.antt =====
-- source/ControllerLib/ControllerConfig.h: the enumerations and records of a configuration.
use sys_con.Prelude.{ℕ, ◌*◌, ◌^◌, Bool, false, List, [], replicate, ite}
use sys_con.Prelude.Text.{Bytes}

pub data Button : Type 0 where
  none x a b y : Button
  lstick_click lstick_left lstick_right lstick_up lstick_down : Button
  rstick_click rstick_left rstick_right rstick_up rstick_down : Button
  l r zl zr minus plus : Button
  dpad_up dpad_right dpad_down dpad_left : Button
  capture home : Button

unfoldable pub Button-discrete : Discrete Button
Button-discrete = hlevel

pub data AnalogBinding : Type 0 where
  unknown x y z rz rx ry slider dial brake accelerator : AnalogBinding

unfoldable pub AnalogBinding-discrete : Discrete AnalogBinding
AnalogBinding-discrete = hlevel

pub data ControllerType : Type 0 where
  unknown pro pro_with_battery tarragon snes pokeball_plus gamecube : ControllerType
  third_party_pro n64 sega nes famicom : ControllerType

-- The three values that the code stores in the float `sign`: 1.0, -1.0 and 0.0.
pub data Sign : Type 0 where
  plus minus zero : Sign

pub record AnalogConfig : Type 0 where
  pub sign : Sign
  pub bind : AnalogBinding

pub record ComboConfig : Type 0 where
  pub button_simulated : Button
  pub first : Button
  pub second : Button

abbrev pub max_pin_by_buttons : ℕ
max_pin_by_buttons = 2

abbrev pub max_controller_buttons : ℕ
max_controller_buttons = 36

abbrev max_controller_combo : ℕ
max_controller_combo = 16

-- A colour is its `rgbaValue`; `a` is the byte of weight 2 ^ 24.
abbrev black : ℕ
black = 255 * 2 ^ 24

pub record ControllerConfig : Type 0 where
  pub driver : Bytes
  pub profile : Bytes
  pub input_max_packet_size : ℕ
  pub output_max_packet_size : ℕ
  pub controller_type : ControllerType
  pub analog_deadzone_percent : AnalogBinding → ℕ
  pub analog_factor_percent : AnalogBinding → ℕ
  pub buttons_pin : Button → List ℕ
  pub buttons_analog_used : Bool
  pub buttons_analog : Button → AnalogConfig
  pub simulate_combos : List ComboConfig
  pub body_color : ℕ
  pub buttons_color : ℕ
  pub left_grip_color : ℕ
  pub right_grip_color : ℕ

abbrev no_combo : ComboConfig
no_combo = record { button_simulated = none; first = none; second = none }

-- `buttonsAnalog[COUNT]{0}` puts 0.0 in the sign of element 0, which is that of `NONE`, and the
-- member's default 1.0 in the others.
abbrev initial_analog : Button → AnalogConfig
initial_analog i =
    ite (Button-discrete i none) (record { sign = zero; bind = unknown })
      (record { sign = plus; bind = unknown })

unfoldable pub initial_config : ControllerConfig
initial_config = record {
  driver = [];
  profile = [];
  input_max_packet_size = 0;
  output_max_packet_size = 0;
  controller_type = pro;
  analog_deadzone_percent = λ _. 0;
  analog_factor_percent = λ _. 100;
  buttons_pin = λ _. replicate max_pin_by_buttons 0;
  buttons_analog_used = false;
  buttons_analog = initial_analog;
  simulate_combos = replicate max_controller_combo no_combo;
  body_color = black;
  buttons_color = black;
  left_grip_color = black;
  right_grip_color = black;
}
