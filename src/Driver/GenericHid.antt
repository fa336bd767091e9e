-- ===== src/Driver/GenericHid.antt =====
-- Controllers with a HID report descriptor: source/ControllerLib/Controllers/GenericHIDController.cpp,
-- over the library that reads the descriptors.
pub mod Index
use sys_con.Prelude.{
  ℕ, zero, suc, ◌%◌, ◌^◌, Bool, true, false, min, leb, ◌==◌, if◌then◌else◌, Option, none, some,
  List, [], ◌∷◌,
}
use sys_con.Prelude.Int.{ℤ, pos}
use sys_con.Prelude.Text.{Bytes}
use sys_con.Config.Data.{AnalogBinding}
use sys_con.Controller.Float.{Float}
use sys_con.Controller.Analog.{normalize}
use sys_con.Controller.Mapping.{RawInput}
use sys_con.Controller.Result.{
  ControllerResult, success, unexpected_data, hid_is_not_joystick, is_success, Reply, report,
  failed,
}
use sys_con.Controller.Input.{Answer}
use sys_con.Driver.Report.{write_buttons}
use sys_con.Driver.Raw.{write_axes, axis16}

-- The values of `HIDJoystickHatSwitch` that the file names, and any other one.
pub data HatSwitch : Type 0 where
  up up_right right down_right down down_left left up_left other : HatSwitch

-- The fields of the library's `HIDJoystickData` that the file reads.
pub record JoystickData : Type 0 where
  pub index : ℕ
  pub button_count : ℕ
  pub buttons : ℕ → Bool
  pub x : ℤ
  pub y : ℤ
  pub z : ℤ
  pub rx : ℤ
  pub ry : ℤ
  pub rz : ℤ
  pub slider : ℤ
  pub dial : ℤ
  pub brake : ℤ
  pub accelerator : ℤ
  pub hat_switch : HatSwitch

-- The library: a `HIDJoystick` from the bytes of a descriptor, its `get_count` and its `parse_data`,
-- which gives nothing where it gives false.
pub record HidLibrary : Type 1 where
  pub Joystick : Type 0
  pub make_joystick : Bytes → Joystick
  pub get_count : Joystick → ℕ
  pub parse : Bytes → ℕ → Joystick → Option JoystickData × Joystick

-- `CONTROLLER_MAX_INPUTS`
abbrev pub max_inputs : ℕ
max_inputs = 4

-- The loop over the buttons.
unfoldable copy_buttons : ℕ → (ℕ → Bool) → (ℕ → Bool) → ℕ → Bool
copy_buttons zero from to = to
copy_buttons (suc n) from to = λ j. if j == n then from n else copy_buttons n from to j

abbrev is_up : HatSwitch → Bool
is_up up = true
is_up up_right = true
is_up up_left = true
is_up _ = false

abbrev is_right : HatSwitch → Bool
is_right right = true
is_right up_right = true
is_right down_right = true
is_right _ = false

abbrev is_down : HatSwitch → Bool
is_down down = true
is_down down_right = true
is_down down_left = true
is_down _ = false

abbrev is_left : HatSwitch → Bool
is_left left = true
is_left up_left = true
is_left down_left = true
is_left _ = false

module _ (hid : HidLibrary) where
  -- The driver behind `Initialize`.
  pub record Generic : Type 0 where
    pub joystick : hid.Joystick
    pub joystick_count : ℕ

  -- `GetInputCount`
  abbrev pub input_count : Generic → ℕ
  input_count s = min s.joystick_count max_inputs

  pub record Initialized : Type 0 where
    pub result : ControllerResult
    pub driver : Option Generic

  abbrev without_driver : ControllerResult → Initialized
  without_driver r = record { result = r; driver = none }

  -- Behind the request for the descriptor; the count is a `uint8_t`.
  unfoldable on_descriptor : Reply → Initialized
  on_descriptor (failed r) = without_driver r
  on_descriptor (report b) =
      let joystick = hid.make_joystick b in
      let count = hid.get_count joystick % 2 ^ 8 in
      record {
        result = if count == 0 then hid_is_not_joystick else success;
        driver = some (record { joystick = joystick; joystick_count = count });
      }

  -- `Initialize`, where the base class gave `opened` and the request for the descriptor `reply`. What
  -- SET_IDLE gives is only logged.
  unfoldable pub initialize : ControllerResult → Reply → Initialized
  unfolding on_descriptor
  initialize opened reply = if is_success opened then on_descriptor reply else without_driver opened

  module _ (fl : Float) where
    unfoldable pub fill : JoystickData → RawInput fl → RawInput fl
    unfolding normalize copy_buttons
    fill d raw = record {
      buttons =
          write_buttons
            ((32, is_up d.hat_switch)
              ∷ (35, is_right d.hat_switch)
              ∷ (33, is_down d.hat_switch)
              ∷ (34, is_left d.hat_switch)
              ∷ [])
            (copy_buttons d.button_count d.buttons raw.buttons);
      analog =
          write_axes fl
            (axis16 fl AnalogBinding.rx d.rx
              ∷ axis16 fl AnalogBinding.ry d.ry
              ∷ axis16 fl AnalogBinding.x d.x
              ∷ axis16 fl AnalogBinding.y d.y
              ∷ axis16 fl AnalogBinding.z d.z
              ∷ axis16 fl AnalogBinding.rz d.rz
              ∷ axis16 fl AnalogBinding.slider d.slider
              ∷ axis16 fl AnalogBinding.dial d.dial
              ∷ axis16 fl AnalogBinding.brake d.brake
              ∷ axis16 fl AnalogBinding.accelerator d.accelerator
              ∷ [])
            raw.analog;
    }

    abbrev pub refused : ℕ → RawInput fl → Generic → Answer fl Generic
    refused input_idx raw s = record {
      result = unexpected_data;
      raw = raw;
      input_idx = input_idx;
      state = s;
    }

    -- Behind the parser of the library.
    unfoldable pub on_data : ℕ → RawInput fl → Option JoystickData → Generic → Answer fl Generic
    unfolding fill
    on_data input_idx raw none s = refused input_idx raw s
    on_data input_idx raw (some d) s =
        if leb (input_count s) d.index then refused input_idx raw s else record {
          result = success;
          raw = fill d raw;
          input_idx = if input_idx == 0 then d.index else input_idx;
          state = s;
        }

    -- `ParseData`
    unfoldable pub parse_data : Bytes → ℕ → ℕ → RawInput fl → Generic → Answer fl Generic
    unfolding on_data
    parse_data b size input_idx raw s =
        let p = hid.parse b (size % 2 ^ 16) s.joystick in
        on_data input_idx raw p.0 (record s { joystick = p.1 })
