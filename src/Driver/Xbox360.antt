-- ===== src/Driver/Xbox360.antt =====
-- Wired Xbox 360 controllers: source/ControllerLib/Controllers/Xbox360Controller.cpp.
use sys_con.Prelude.{ℕ, ◌==◌, if◌then◌else◌, ltb, [], ◌∷◌}
use sys_con.Prelude.Text.{Bytes}
use sys_con.Config.Data.{AnalogBinding}
use sys_con.Controller.Float.{Float}
use sys_con.Controller.Analog.{normalize}
use sys_con.Controller.Mapping.{RawInput}
use sys_con.Controller.Result.{success, unexpected_data}
use sys_con.Driver.Report.{byte, bit, le16s, negated, write_buttons}
use sys_con.Driver.Raw.{Decoded, write_axes, axis8, axis16}

-- The size of `Xbox360ButtonData`.
abbrev pub button_data_size : ℕ
button_data_size = 14

module _ (fl : Float) where
  unfoldable pub button_data : Bytes → RawInput fl → RawInput fl
  unfolding normalize
  button_data b raw = record {
    buttons =
        write_buttons
          ((1, bit b 3 4)
            ∷ (2, bit b 3 5)
            ∷ (3, bit b 3 6)
            ∷ (4, bit b 3 7)
            ∷ (5, bit b 3 0)
            ∷ (6, bit b 3 1)
            ∷ (7, bit b 2 4)
            ∷ (8, bit b 2 5)
            ∷ (9, bit b 2 6)
            ∷ (10, bit b 2 7)
            ∷ (11, bit b 3 2)
            ∷ (32, bit b 2 0)
            ∷ (35, bit b 2 3)
            ∷ (33, bit b 2 1)
            ∷ (34, bit b 2 2)
            ∷ [])
          raw.buttons;
    analog =
        write_axes fl
          (axis8 fl AnalogBinding.rx (byte b 4)
            ∷ axis8 fl AnalogBinding.ry (byte b 5)
            ∷ axis16 fl AnalogBinding.x (le16s b 6)
            ∷ axis16 fl AnalogBinding.y (negated (le16s b 8))
            ∷ axis16 fl AnalogBinding.z (le16s b 10)
            ∷ axis16 fl AnalogBinding.rz (negated (le16s b 12))
            ∷ [])
          raw.analog;
  }

  -- `ParseData`; the type of button data is 0.
  unfoldable pub parse_data : Bytes → ℕ → RawInput fl → Decoded fl
  unfolding button_data
  parse_data b size raw =
      if ltb size button_data_size
      then record { result = unexpected_data; raw = raw }
      else if byte b 0 == 0
      then record { result = success; raw = button_data b raw }
      else record { result = unexpected_data; raw = raw }
