-- ===== src/Driver/Xbox360w.antt =====
-- The receiver of wireless Xbox 360 controllers:
-- source/ControllerLib/Controllers/Xbox360WirelessController.cpp.
pub mod Link
use sys_con.Prelude.{
  ℕ, zero, suc, ◌+◌, ◌%◌, Bool, true, false, not, ◌&&◌, ◌||◌, List, [], ◌∷◌, ◌++◌, length, get_or,
  set, replicate, update, ltb, ◌==◌, if◌then◌else◌,
}
use sys_con.Prelude.Int.{ℤ, pos, negsuc}
use sys_con.Prelude.Text.{Bytes}
use sys_con.Config.Data.{AnalogBinding, AnalogBinding-discrete}
use sys_con.Controller.Float.{Float}
use sys_con.Controller.Analog.{normalize}
use sys_con.Controller.Mapping.{RawInput}
use sys_con.Driver.Raw.{write_axes}
use sys_con.Controller.Result.{
  ControllerResult, success, nothing_todo, unexpected_data, invalid_endpoint,
}
use sys_con.Driver.Report.{byte, bit, le16s, negated, write_buttons}

abbrev pub max_inputs : ℕ
max_inputs = 4

-- A packet that was written to the output endpoint of an input.
pub record Write : Type 0 where
  pub input_idx : ℕ
  pub bytes : Bytes

-- `m_is_connected`, the size of `m_outPipe`, and the packets written so far, the last one last. What
-- the writes return is not looked at.
pub record Receiver : Type 0 where
  pub is_connected : List Bool
  pub out_count : ℕ
  pub written : List Write

abbrev pub initial_receiver : ℕ → Receiver
initial_receiver out_count = record {
  is_connected = replicate max_inputs false;
  out_count = out_count;
  written = [];
}

-- `OpenInterfaces`, behind the one of the base class.
abbrev pub check_pipes : ℕ → ControllerResult
check_pipes in_count = if ltb in_count max_inputs then invalid_endpoint else success

abbrev zeros : ℕ → Bytes
zeros n = replicate n 0

abbrev reconnect_packet : Bytes
reconnect_packet = 8 ∷ 0 ∷ 15 ∷ 192 ∷ zeros 8

abbrev poweroff_packet : Bytes
poweroff_packet = 0 ∷ 0 ∷ 8 ∷ 192 ∷ zeros 8

abbrev init_driver_packet : Bytes
init_driver_packet = 0 ∷ 0 ∷ 2 ∷ 128 ∷ zeros 8

-- The values of `SetLED`'s packet; the LED of input `i` is `XBOX360LED_TOPLEFT + i`, which is 6 + i.
abbrev led_packet : ℕ → Bytes
led_packet i = 0 ∷ ((i + 1) % 256) ∷ 8 ∷ ((6 + i) % 64 + 64) ∷ zeros 8

-- Writes of packets to an input, where it has an output endpoint.
unfoldable pub write_to : ℕ → List Write → Receiver → Receiver
write_to i ws s = if ltb i s.out_count then record s { written = s.written ++ ws } else s

abbrev pub connect_packets : ℕ → List Write
connect_packets i =
    record { input_idx = i; bytes = reconnect_packet }
    ∷ record { input_idx = i; bytes = init_driver_packet }
    ∷ record { input_idx = i; bytes = led_packet i }
    ∷ []

abbrev pub disconnect_packets : ℕ → List Write
disconnect_packets i = record { input_idx = i; bytes = poweroff_packet } ∷ []

abbrev mark : ℕ → Bool → Receiver → Receiver
mark i b s = record s { is_connected = set s.is_connected i b }

-- `OnControllerConnect` with `SetLED`, which makes the same test of the output endpoint.
unfoldable pub on_controller_connect : ℕ → Receiver → Receiver
unfolding write_to
on_controller_connect i s = mark i true (write_to i (connect_packets i) s)

unfoldable pub on_controller_disconnect : ℕ → Receiver → Receiver
unfolding write_to
on_controller_disconnect i s = mark i false (write_to i (disconnect_packets i) s)

abbrev pub is_controller_connected : ℕ → Receiver → Bool
is_controller_connected i s = get_or s.is_connected i false

-- The part "Connect/Disconnect"; the second argument is the state that the packet tells.
unfoldable pub on_link : ℕ → Bool → Receiver → Receiver
unfolding on_controller_connect on_controller_disconnect
on_link i true s = if is_controller_connected i s then s else on_controller_connect i s
on_link i false s = if is_controller_connected i s then on_controller_disconnect i s else s

-- `CloseInterfaces`, the loop over the inputs from `i` on.
unfoldable close_from : ℕ → ℕ → Receiver → Receiver
unfolding on_controller_disconnect
close_from zero i s = s
close_from (suc n) i s =
    close_from n (suc i) (if is_controller_connected i s then on_controller_disconnect i s else s)

unfoldable close_interfaces : Receiver → Receiver
unfolding close_from
close_interfaces s = close_from max_inputs 0 s

-- The size of `Xbox360ButtonData`.
abbrev pub button_data_size : ℕ
button_data_size = 14

-- The packets that this driver takes for button data.
unfoldable pub is_controller_data : Bytes → Bool
is_controller_data b = byte b 0 == 0 && (byte b 1 == 1 && (byte b 2 == 0 && byte b 3 == 240))

module _ (fl : Float) where
  open fl use {F}

  -- The fields of the button data at the offset 4.
  unfoldable pub button_data : Bytes → RawInput fl → RawInput fl
  unfolding normalize
  button_data b raw = record {
    buttons =
        write_buttons
          ((1, bit b 7 4)
            ∷ (2, bit b 7 5)
            ∷ (3, bit b 7 6)
            ∷ (4, bit b 7 7)
            ∷ (5, bit b 7 0)
            ∷ (6, bit b 7 1)
            ∷ (7, bit b 6 4)
            ∷ (8, bit b 6 5)
            ∷ (9, bit b 6 6)
            ∷ (10, bit b 6 7)
            ∷ (11, bit b 7 2)
            ∷ (32, bit b 6 0)
            ∷ (35, bit b 6 3)
            ∷ (33, bit b 6 1)
            ∷ (34, bit b 6 2)
            ∷ [])
          raw.buttons;
    analog =
        write_axes fl
          ((AnalogBinding.rx, normalize fl (pos (byte b 8)) (pos 0) (pos 255))
            ∷ (AnalogBinding.ry, normalize fl (pos (byte b 9)) (pos 0) (pos 255))
            ∷ (AnalogBinding.x, normalize fl (le16s b 10) (negsuc 32767) (pos 32767))
            ∷ (AnalogBinding.y, normalize fl (negated (le16s b 12)) (negsuc 32767) (pos 32767))
            ∷ (AnalogBinding.z, normalize fl (le16s b 14) (negsuc 32767) (pos 32767))
            ∷ (AnalogBinding.rz, normalize fl (negated (le16s b 16)) (negsuc 32767) (pos 32767))
            ∷ [])
          raw.analog;
  }

  pub record Parsed : Type 0 where
    pub result : ControllerResult
    pub raw : RawInput fl
    pub receiver : Receiver

  unfoldable pub parse_controller_data : Bytes → ℕ → RawInput fl → Receiver → Parsed
  unfolding button_data
  parse_controller_data b size raw s =
      if ltb size button_data_size
      then record { result = unexpected_data; raw = raw; receiver = s }
      else if byte b 4 == 0
      then record { result = success; raw = button_data b raw; receiver = s }
      else record { result = nothing_todo; raw = raw; receiver = s }

  -- `ParseData`
  unfoldable pub parse_data : Bytes → ℕ → ℕ → RawInput fl → Receiver → Parsed
  unfolding on_link is_controller_data parse_controller_data
  parse_data b size input_idx raw s =
      if bit b 0 3
      then record { result = nothing_todo; raw = raw; receiver = on_link input_idx (bit b 1 7) s }
      else if is_controller_data b
      then parse_controller_data b size raw s
      else record { result = nothing_todo; raw = raw; receiver = s }
