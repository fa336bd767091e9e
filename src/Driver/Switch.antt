-- ===== src/Driver/Switch.antt =====
-- Pro controllers of the Switch on USB: source/ControllerLib/Controllers/SwitchController.cpp, with
-- `ReadBitsLE` of BaseController.cpp beside it.
pub mod Bits
pub mod Ranges
pub mod Flush
use Prim.Native.Nat.{max}
use mathlib.Core.Option
use sys_con.Prelude.{
  ℕ, zero, suc, ◌+◌, ◌-◌, ◌*◌, ◌/◌, ◌%◌, ◌^◌, min, ◌==◌, if◌then◌else◌, ltb, Option, none, some,
  List, [], ◌∷◌, ◌++◌, drop, replicate, not,
}
use sys_con.Prelude.Int.{pos}
use sys_con.Prelude.Text.{Bytes}
use sys_con.Config.Data.{AnalogBinding}
use sys_con.Controller.Float.{Float, one}
use sys_con.Controller.Analog.{normalize_about}
use sys_con.Controller.Mapping.{RawInput}
use sys_con.Controller.Result.{
  ControllerResult, success, unexpected_data, nothing_todo, invalid_endpoint, is_success,
}
use sys_con.Driver.Report.{byte, bit, write_buttons}
use sys_con.Driver.Raw.{write_axes}

-- `GetMaxInputBufferSize`, which is also the size of the packets that are sent.
abbrev pub input_buffer_size : ℕ
input_buffer_size = 64

-- The loop of `ReadBitsLE`, with `left` bits to go. The result is a `uint32_t`. The shift of an `int`
-- by `i` is defined for `i` below 32; there the bit `i` of the result is still 0 when it is set, so
-- that `|=` adds it.
unfoldable pub bits_from : Bytes → ℕ → ℕ → ℕ → ℕ → ℕ → ℕ
bits_from b zero i byte_index bit_index result = result
bits_from b (suc left) i byte_index bit_index result =
    let wraps = ltb 7 bit_index in
    let at = if wraps then byte_index + 1 else byte_index in
    let shift = if wraps then 0 else bit_index in
    bits_from b left (i + 1) at (shift + 1) ((result + byte b at / 2 ^ shift % 2 * 2 ^ i) % 2 ^ 32)

unfoldable pub read_bits_le : Bytes → ℕ → ℕ → ℕ
unfolding bits_from
read_bits_le b bit_offset bit_length = bits_from b bit_length 0 (bit_offset / 8) (bit_offset % 8) 0

-- `SwitchCalibration`
pub record Calibration : Type 0 where
  pub min : ℕ
  pub max : ℕ

pub record Switch : Type 0 where
  pub cal_left_x : Calibration
  pub cal_left_y : Calibration
  pub cal_right_x : Calibration
  pub cal_right_y : Calibration

abbrev initial_calibration : Calibration
initial_calibration = record { min = 600; max = 3400 }

-- The constructor.
abbrev pub initial_switch : Switch
initial_switch = record {
  cal_left_x = initial_calibration;
  cal_left_y = initial_calibration;
  cal_right_x = initial_calibration;
  cal_right_y = initial_calibration;
}

unfoldable pub widen : ℕ → Calibration → Calibration
widen value c = record { min = min value c.min; max = max value c.max }

-- `stick_left` and `stick_right` of `SwitchButtonData`.
abbrev pub stick_left : Bytes → Bytes
stick_left b = drop 6 b

abbrev pub stick_right : Bytes → Bytes
stick_right b = drop 9 b

unfoldable pub calibrate : Bytes → Switch → Switch
unfolding widen
calibrate b s = record {
  cal_left_x = widen (read_bits_le (stick_left b) 0 12) s.cal_left_x;
  cal_left_y = widen (read_bits_le (stick_left b) 12 12) s.cal_left_y;
  cal_right_x = widen (read_bits_le (stick_right b) 0 12) s.cal_right_x;
  cal_right_y = widen (read_bits_le (stick_right b) 12 12) s.cal_right_y;
}

-- The size of `SwitchButtonData`.
abbrev pub button_data_size : ℕ
button_data_size = 12

module _ (fl : Float) where
  open fl use {F, mul, neg}

  pub record Parsed : Type 0 where
    pub result : ControllerResult
    pub raw : RawInput fl
    pub switch : Switch

  abbrev axis : ℕ → Calibration → F
  axis value c = normalize_about fl (pos value) (pos c.min) (pos c.max) (pos 2000)

  abbrev inverted : F → F
  inverted x = mul (neg (one fl)) x

  -- The fields of the report, with the calibration `s`.
  unfoldable pub button_data : Bytes → Switch → RawInput fl → RawInput fl
  button_data b s raw = record {
    buttons =
        write_buttons
          ((1, bit b 3 0)
            ∷ (2, bit b 3 1)
            ∷ (3, bit b 3 2)
            ∷ (4, bit b 3 3)
            ∷ (5, bit b 3 4)
            ∷ (6, bit b 3 5)
            ∷ (7, bit b 3 6)
            ∷ (8, bit b 3 7)
            ∷ (9, bit b 4 0)
            ∷ (10, bit b 4 1)
            ∷ (11, bit b 4 2)
            ∷ (12, bit b 4 3)
            ∷ (13, bit b 4 4)
            ∷ (14, bit b 4 5)
            ∷ (15, bit b 4 6)
            ∷ (16, bit b 5 4)
            ∷ (17, bit b 5 5)
            ∷ (18, bit b 5 6)
            ∷ (19, bit b 5 7)
            ∷ (32, bit b 5 1)
            ∷ (35, bit b 5 2)
            ∷ (33, bit b 5 0)
            ∷ (34, bit b 5 3)
            ∷ [])
          raw.buttons;
    analog =
        write_axes fl
          ((AnalogBinding.x, axis (read_bits_le (stick_left b) 0 12) s.cal_left_x)
            ∷ (AnalogBinding.y, inverted (axis (read_bits_le (stick_left b) 12 12) s.cal_left_y))
            ∷ (AnalogBinding.z, axis (read_bits_le (stick_right b) 0 12) s.cal_right_x)
            ∷ (AnalogBinding.rz, inverted (axis (read_bits_le (stick_right b) 12 12) s.cal_right_y))
            ∷ [])
          raw.analog;
  }

  -- `ParseData`; the report of buttons has the number 48.
  unfoldable pub parse_data : Bytes → ℕ → RawInput fl → Switch → Parsed
  unfolding button_data calibrate
  parse_data b size raw s =
      if ltb size button_data_size
      then record { result = unexpected_data; raw = raw; switch = s }
      else if byte b 0 == 48
      then record {
        result = success;
        raw = button_data b (calibrate b s) raw;
        switch = calibrate b s;
      }
      else record { result = nothing_todo; raw = raw; switch = s }

-- The flush in `Initialize`: `reads i` is what the read `i` gives, and the result the number of reads
-- made, or none where the fuel ran out.
unfoldable pub flush : (ℕ → ControllerResult) → ℕ → ℕ → Option ℕ
flush reads zero i = none
flush reads (suc fuel) i =
    let rest = flush reads fuel (i + 1) in if is_success (reads i) then rest else some (i + 1)

abbrev init_packet : ℕ → Bytes
init_packet command = 128 ∷ command ∷ replicate (input_buffer_size - 2) 0

-- The reads of the input endpoint, the packets written, and the result.
pub record Initialized : Type 0 where
  pub read_count : ℕ
  pub written : List Bytes
  pub result : ControllerResult

-- What follows the flush. What the writes and the read give is not looked at.
abbrev pub handshake : ℕ → Initialized
handshake read_count = record {
  read_count = read_count + 1;
  written = init_packet 2 ∷ init_packet 4 ∷ [];
  result = success;
}

-- `Initialize`, where the base class gave `opened` and there are `out_count` output endpoints.
unfoldable pub initialize : (ℕ → ControllerResult) → ControllerResult → ℕ → ℕ → Option Initialized
unfolding flush
initialize reads opened out_count fuel =
    if not (is_success opened)
    then some (record { read_count = 0; written = []; result = opened })
    else if out_count == 0
    then some (record { read_count = 0; written = []; result = invalid_endpoint })
    else Option.map handshake (flush reads fuel 0)
