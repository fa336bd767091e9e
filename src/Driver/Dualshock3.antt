-- ===== src/Driver/Dualshock3.antt =====
-- DualShock 3 controllers: source/ControllerLib/Controllers/Dualshock3Controller.cpp.
use sys_con.Prelude.{ℕ, ◌*◌, ◌%◌, ◌==◌, if◌then◌else◌, ltb, List, [], ◌∷◌, ◌++◌, replicate}
use sys_con.Prelude.Text.{Bytes}
use sys_con.Config.Data.{AnalogBinding}
use sys_con.Controller.Float.{Float}
use sys_con.Controller.Analog.{normalize}
use sys_con.Controller.Mapping.{RawInput}
use sys_con.Controller.Result.{ControllerResult, success, unexpected_data, is_success}
use sys_con.Driver.Report.{byte, bit, write_buttons}
use sys_con.Driver.Raw.{Decoded, write_axes, axis8}

-- The size of `Dualshock3ButtonData`.
abbrev pub button_data_size : ℕ
button_data_size = 49

-- A feature report of `SendCommand`: the `Dualshock3FeatureValue` and the bytes.
pub record Command : Type 0 where
  pub feature : ℕ
  pub bytes : Bytes

-- `OpenInterfaces` sends the first one, `Initialize` the second one.
abbrev start_device : Command
start_device = record { feature = 0x03f4; bytes = 0x42 ∷ 0x0c ∷ 0 ∷ 0 ∷ [] }

abbrev led_permanent : Bytes
led_permanent = 0xff ∷ 0x27 ∷ 0 ∷ 0 ∷ 0x32 ∷ []

abbrev led : ℕ → Command
led value = record {
  feature = 0x0201;
  bytes =
      replicate 9 0
      ++ (value * 2 % 256 ∷ led_permanent ++ led_permanent ++ led_permanent ++ led_permanent);
}

-- What was sent, and the result.
pub record Started : Type 0 where
  pub sent : List Command
  pub result : ControllerResult

-- `OpenInterfaces`, where the base class gave `opened`; `send` is what a transfer gives.
unfoldable pub open_interfaces : (Command → ControllerResult) → ControllerResult → Started
open_interfaces send opened =
    if is_success opened
    then record { sent = start_device ∷ []; result = send start_device }
    else record { sent = []; result = opened }

-- `Initialize`, which does not look at what `SetLED` gives.
unfoldable pub initialize : (Command → ControllerResult) → ControllerResult → Started
unfolding open_interfaces
initialize send opened =
    let o = open_interfaces send opened in
    if is_success o.result then record { sent = o.sent ++ led 1 ∷ []; result = success } else o

module _ (fl : Float) where
  unfoldable pub button_data : Bytes → RawInput fl → RawInput fl
  unfolding normalize
  button_data b raw = record {
    buttons =
        write_buttons
          ((1, bit b 3 4)
            ∷ (2, bit b 3 5)
            ∷ (3, bit b 3 6)
            ∷ (4, bit b 3 7)
            ∷ (5, bit b 3 0)
            ∷ (6, bit b 3 1)
            ∷ (7, bit b 3 2)
            ∷ (8, bit b 3 3)
            ∷ (9, bit b 2 0)
            ∷ (10, bit b 2 1)
            ∷ (11, bit b 2 2)
            ∷ (12, bit b 2 3)
            ∷ (13, bit b 4 0)
            ∷ (32, bit b 2 4)
            ∷ (35, bit b 2 5)
            ∷ (33, bit b 2 6)
            ∷ (34, bit b 2 7)
            ∷ [])
          raw.buttons;
    analog =
        write_axes fl
          (axis8 fl AnalogBinding.rx (byte b 18)
            ∷ axis8 fl AnalogBinding.ry (byte b 19)
            ∷ axis8 fl AnalogBinding.x (byte b 6)
            ∷ axis8 fl AnalogBinding.y (byte b 7)
            ∷ axis8 fl AnalogBinding.z (byte b 8)
            ∷ axis8 fl AnalogBinding.rz (byte b 9)
            ∷ [])
          raw.analog;
  }

  -- `ParseData`; the type of button data is 1.
  unfoldable pub parse_data : Bytes → ℕ → RawInput fl → Decoded fl
  unfolding button_data
  parse_data b size raw =
      if ltb size button_data_size
      then record { result = unexpected_data; raw = raw }
      else if byte b 0 == 1
      then record { result = success; raw = button_data b raw }
      else record { result = unexpected_data; raw = raw }
