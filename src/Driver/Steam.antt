-- ===== src/Driver/Steam.antt =====
-- The 2026 Steam controller and its dongle:
-- source/ControllerLib/Controllers/SteamController2026.{h,cpp}.
pub mod Status
use sys_con.Prelude.{
  ℕ, ◌+◌, ◌*◌, Bool, true, false, not, ◌&&◌, ◌||◌, List, [], ◌∷◌, ◌++◌, get_or, set, replicate,
  update, ltb, leb, ◌==◌, if◌then◌else◌,
}
use sys_con.Prelude.Int.{ℤ, pos, negsuc}
use sys_con.Prelude.Text.{Bytes}
use sys_con.Config.Data.{AnalogBinding, AnalogBinding-discrete}
use sys_con.Controller.Float.{Float}
use sys_con.Controller.Analog.{normalize}
use sys_con.Controller.Mapping.{RawInput}
use sys_con.Driver.Raw.{write_axes}
use sys_con.Controller.Result.{
  ControllerResult, success, nothing_todo, unexpected_data, invalid_index,
}
use sys_con.Driver.Report.{byte, bit, le16s, negated, write_buttons}

abbrev pub max_inputs : ℕ
max_inputs = 4

-- The connected inputs, the count that `GetInputCount` gives, the number of open interfaces, and the
-- interfaces that were told to leave the lizard mode, the last one last.
pub record Steam : Type 0 where
  pub is_connected : List Bool
  pub controller_count : ℕ
  pub interface_count : ℕ
  pub updated : List ℕ

-- The constructor, where `open_interfaces` is the size of `m_interfaces`.
unfoldable pub make_steam : ℕ → Steam
make_steam open_interfaces = record {
  is_connected = replicate max_inputs false;
  controller_count = if ltb 1 open_interfaces then max_inputs else 1;
  interface_count = open_interfaces;
  updated = [];
}

abbrev pub is_controller_connected : ℕ → Steam → Bool
is_controller_connected i s = get_or s.is_connected i false

-- The feature report of `UpdateLizard`: its number, the message, two settings of three bytes.
abbrev lizard_report : Bytes
lizard_report = 1 ∷ 135 ∷ 6 ∷ 9 ∷ 0 ∷ 0 ∷ 71 ∷ 0 ∷ 0 ∷ replicate 55 0

-- `UpdateLizard` sends `lizard_report` to the interface of the input.
unfoldable pub update_lizard : ℕ → Steam → Steam
update_lizard i s =
    if not (is_controller_connected i s) || leb s.interface_count i
    then s
    else record s { updated = s.updated ++ i ∷ [] }

abbrev mark : ℕ → Bool → Steam → Steam
mark i b s = record s { is_connected = set s.is_connected i b }

unfoldable pub on_controller_connect : ℕ → Steam → Steam
unfolding update_lizard
on_controller_connect i s = update_lizard i (mark i true s)

abbrev pub on_controller_disconnect : ℕ → Steam → Steam
on_controller_disconnect i s = mark i false s

-- The branch of a wireless status; the second argument is the state that it tells.
unfoldable pub on_status : ℕ → Bool → Steam → Steam
unfolding on_controller_connect
on_status i true s = if is_controller_connected i s then s else on_controller_connect i s
on_status i false s = if is_controller_connected i s then on_controller_disconnect i s else s

-- REPORT_INPUT and REPORT_INPUT_BLE, REPORT_WIRELESS_STATUS_X and REPORT_WIRELESS_STATUS.
unfoldable pub is_input : Bytes → Bool
is_input b = byte b 0 == 66 || byte b 0 == 69

unfoldable pub is_status : Bytes → Bool
is_status b = byte b 0 == 70 || byte b 0 == 121

-- The size of `Steam2026InputReport`.
abbrev pub input_report_size : ℕ
input_report_size = 46

module _ (fl : Float) where
  open fl use {F}

  -- `m_rawInput` behind the call is `raw`; it is also what the caller gets on success.
  pub record Parsed : Type 0 where
    pub result : ControllerResult
    pub raw : RawInput fl
    pub steam : Steam

  abbrev axis : AnalogBinding → ℤ → AnalogBinding × F
  axis a v = (a, normalize fl v (negsuc 32767) (pos 32767))

  unfoldable pub button_data : Bytes → RawInput fl → RawInput fl
  unfolding normalize
  button_data b raw = record {
    buttons =
        write_buttons
          ((1, bit b 2 0)
            ∷ (2, bit b 2 1)
            ∷ (3, bit b 2 3)
            ∷ (4, bit b 2 2)
            ∷ (5, bit b 4 3)
            ∷ (6, bit b 3 1)
            ∷ (7, bit b 5 3)
            ∷ (8, bit b 4 7)
            ∷ (9, bit b 3 6)
            ∷ (10, bit b 2 6)
            ∷ (11, bit b 2 4)
            ∷ (12, bit b 4 0)
            ∷ (13, bit b 3 7)
            ∷ (14, bit b 2 5)
            ∷ (32, bit b 3 5)
            ∷ (35, bit b 3 3)
            ∷ (33, bit b 3 2)
            ∷ (34, bit b 3 4)
            ∷ [])
          raw.buttons;
    analog =
        write_axes fl
          (axis AnalogBinding.x (le16s b 10)
            ∷ axis AnalogBinding.y (negated (le16s b 12))
            ∷ axis AnalogBinding.z (le16s b 14)
            ∷ axis AnalogBinding.rz (negated (le16s b 16))
            ∷ [])
          raw.analog;
  }

  -- The branch of an input report.
  unfoldable pub on_input : Bytes → ℕ → ℕ → RawInput fl → Steam → Parsed
  unfolding button_data on_status
  on_input b size i raw s =
      if ltb size input_report_size
      then record { result = unexpected_data; raw = raw; steam = s }
      else record { result = success; raw = button_data b raw; steam = on_status i true s }

  -- `ParseData`
  unfoldable pub parse_data : Bytes → ℕ → ℕ → RawInput fl → Steam → Parsed
  unfolding on_input is_input is_status
  parse_data b size i raw s =
      if leb max_inputs i
      then record { result = invalid_index; raw = raw; steam = s }
      else if is_input b
      then on_input b size i raw s
      else record {
        result = nothing_todo;
        raw = raw;
        steam = if is_status b then on_status i (not (byte b 1 == 1)) s else s;
      }
