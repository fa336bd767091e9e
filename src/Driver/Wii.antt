-- ===== src/Driver/Wii.antt =====
-- The GameCube adapter: source/ControllerLib/Controllers/WiiController.cpp.
pub mod Turns
use sys_con.Prelude.{
  ℕ, zero, suc, ◌+◌, ◌*◌, ◌%◌, Bool, true, false, not, ◌||◌, List, [], ◌∷◌, length, get_or, set,
  take, drop, replicate, update, ltb, ◌==◌, if◌then◌else◌,
}
use sys_con.Prelude.Int.{pos}
use sys_con.Prelude.Text.{Bytes}
use sys_con.Config.Data.{AnalogBinding, AnalogBinding-discrete}
use sys_con.Controller.Float.{Float}
use sys_con.Controller.Analog.{normalize}
use sys_con.Controller.Mapping.{RawInput}
use sys_con.Driver.Raw.{write_axes}
use sys_con.Controller.Result.{ControllerResult, success, nothing_todo, unexpected_data, is_success}
use sys_con.Controller.Endpoints.{Pipes, Next}
use sys_con.Controller.Endpoints
use sys_con.Driver.Report.{byte, bit, write_buttons}

abbrev pub input_buffer_size : ℕ
input_buffer_size = 37

abbrev pub max_inputs : ℕ
max_inputs = 4

-- The state of the driver, with that of its base class. `buffer` is the part of `m_buffer` that the
-- last read filled; a shorter read is refused before any of it is used.
pub record Wii : Type 0 where
  pub current_wii_controller_idx : ℕ
  pub buffer : Bytes
  pub is_connected : List Bool
  pub rumble_supported : List Bool
  pub pipes : Pipes

-- What a read gives: the bytes and the index count where it succeeds.
pub record Delivered : Type 0 where
  pub result : ControllerResult
  pub bytes : Bytes
  pub input_idx : ℕ

abbrev pub error : ControllerResult → Delivered
error r = record { result = r; bytes = []; input_idx = 0 }

-- The nine bytes of one of the four controllers.
abbrev pub part : ℕ → Bytes → Bytes
part i b = take 9 (drop (1 + i * 9) b)

unfoldable deliver : Wii → Delivered × Wii
deliver w = (
  record {
    result = success;
    bytes = part w.current_wii_controller_idx w.buffer;
    input_idx = w.current_wii_controller_idx;
  },
  record w { current_wii_controller_idx = (w.current_wii_controller_idx + 1) % max_inputs },
)

-- The tests of a report that was read.
unfoldable check_report : Wii → Delivered × Wii
unfolding deliver
check_report w =
    if not (byte w.buffer 0 == 33) || ltb (length w.buffer) input_buffer_size
    then (error unexpected_data, w)
    else deliver w

-- The part for the first controller, behind the read of the base class.
unfoldable after_base : Wii → Next → Delivered × Wii
unfolding check_report
after_base w n =
    if is_success n.result
    then check_report (record w { buffer = n.bytes; pipes = n.pipes })
    else (error n.result, record w { pipes = n.pipes })

-- `ReadNextBuffer`
unfoldable pub read_next_buffer : Wii → Delivered × Wii
unfolding after_base deliver
read_next_buffer w =
    if w.current_wii_controller_idx == 0
    then after_base w (Endpoints.read_next_buffer input_buffer_size 0 w.pipes)
    else deliver w

module _ (fl : Float) where
  open fl use {F}

  pub record Parsed : Type 0 where
    pub result : ControllerResult
    pub raw : RawInput fl
    pub wii : Wii

  abbrev axis : AnalogBinding → ℕ → AnalogBinding × F
  axis a v = (a, normalize fl (pos v) (pos 0) (pos 255))

  unfoldable pub button_data : Bytes → RawInput fl → RawInput fl
  unfolding normalize
  button_data b raw = record {
    buttons =
        write_buttons
          ((1, bit b 1 0)
            ∷ (2, bit b 1 1)
            ∷ (3, bit b 1 2)
            ∷ (4, bit b 1 3)
            ∷ (5, bit b 1 4)
            ∷ (6, bit b 1 5)
            ∷ (7, bit b 1 6)
            ∷ (8, bit b 1 7)
            ∷ (9, bit b 2 0)
            ∷ (10, bit b 2 1)
            ∷ (11, bit b 2 2)
            ∷ (12, bit b 2 3)
            ∷ (13, bit b 2 4)
            ∷ (14, bit b 2 5)
            ∷ (15, bit b 2 6)
            ∷ (16, bit b 2 7)
            ∷ [])
          raw.buttons;
    analog =
        write_axes fl
          (axis AnalogBinding.x (byte b 3)
            ∷ axis AnalogBinding.y (byte b 4)
            ∷ axis AnalogBinding.rx (byte b 5)
            ∷ axis AnalogBinding.ry (byte b 6)
            ∷ axis AnalogBinding.z (byte b 7)
            ∷ axis AnalogBinding.rz (byte b 8)
            ∷ [])
          raw.analog;
  }

  -- The two bits of the status that mean a controller, and the one for its extra power.
  abbrev is_present : Bytes → Bool
  is_present b = bit b 0 4 || bit b 0 5

  unfoldable pub parse_data : Bytes → ℕ → ℕ → RawInput fl → Wii → Parsed
  unfolding button_data
  parse_data b size input_idx raw w =
      let seen = record w {
        rumble_supported = set w.rumble_supported input_idx (bit b 0 2);
        is_connected = set w.is_connected input_idx (is_present b);
      } in
      if ltb size 9
      then record { result = unexpected_data; raw = raw; wii = w }
      else if is_present b
      then record { result = success; raw = button_data b raw; wii = seen }
      else record { result = nothing_todo; raw = raw; wii = seen }
