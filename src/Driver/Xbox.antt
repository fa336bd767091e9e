-- ===== src/Driver/Xbox.antt =====
-- Controllers of the first Xbox: source/ControllerLib/Controllers/XboxController.cpp.
use sys_con.Prelude.{ℕ, Bool, if◌then◌else◌, ltb, [], ◌∷◌}
use sys_con.Prelude.Text.{Bytes}
use sys_con.Config.Data.{AnalogBinding}
use sys_con.Controller.Float.{Float}
use sys_con.Controller.Analog.{normalize}
use sys_con.Controller.Mapping.{RawInput}
use sys_con.Controller.Result.{success, unexpected_data}
use sys_con.Driver.Report.{byte, bit, le16s, negated, write_buttons}
use sys_con.Driver.Raw.{Decoded, write_axes, axis8, axis16}

-- The size of `XboxButtonData`.
abbrev pub button_data_size : ℕ
button_data_size = 20

-- A button that is reported by how hard it is pressed.
abbrev is_pressed : Bytes → ℕ → Bool
is_pressed b i = ltb 0 (byte b i)

module _ (fl : Float) where
  unfoldable pub button_data : Bytes → RawInput fl → RawInput fl
  unfolding normalize
  button_data b raw = record {
    buttons =
        write_buttons
          ((1, is_pressed b 4)
            ∷ (2, is_pressed b 5)
            ∷ (3, is_pressed b 6)
            ∷ (4, is_pressed b 7)
            ∷ (5, is_pressed b 8)
            ∷ (6, is_pressed b 9)
            ∷ (7, bit b 2 4)
            ∷ (8, bit b 2 5)
            ∷ (9, bit b 2 6)
            ∷ (10, bit b 2 7)
            ∷ (32, bit b 2 0)
            ∷ (35, bit b 2 3)
            ∷ (33, bit b 2 1)
            ∷ (34, bit b 2 2)
            ∷ [])
          raw.buttons;
    analog =
        write_axes fl
          (axis8 fl AnalogBinding.rx (byte b 10)
            ∷ axis8 fl AnalogBinding.ry (byte b 11)
            ∷ axis16 fl AnalogBinding.x (le16s b 12)
            ∷ axis16 fl AnalogBinding.y (negated (le16s b 14))
            ∷ axis16 fl AnalogBinding.z (le16s b 16)
            ∷ axis16 fl AnalogBinding.rz (negated (le16s b 18))
            ∷ [])
          raw.analog;
  }

  -- `ParseData`
  unfoldable pub parse_data : Bytes → ℕ → RawInput fl → Decoded fl
  unfolding button_data
  parse_data b size raw =
      if ltb size button_data_size
      then record { result = unexpected_data; raw = raw }
      else record { result = success; raw = button_data b raw }
