-- ===== src/Hid/Virtual/Hdl.antt =====
-- The handler of source/ControllerSwitch/SwitchHDLHandler.cpp as the functions that `UpdateInput`
-- calls.
pub mod Turns
use sys_con.Prelude.{
  ℕ, ◌<◌, ◌≡◌, refl, ap, ◌∙◌, sym, Bool, true, false, not, ◌&&◌, ◌||◌, List, length, set,
  length-set, get_or, get_or-set_self, ◌==◌, if◌then◌else◌, Bool-cases, inl, inr, arith,
}
use mathlib.Core.Path.{subst}
use sys_con.Config.Data.{Button}
use sys_con.Controller.Result.{ControllerResult, is_success}
use sys_con.Hid.Lifo.{Stick}
use sys_con.Hid.Gamepad.{InputState, Input, initial_input}
use sys_con.Hid.Hdl.{
  HdlsState, Devices, Attached, HandlerData, reset, attach_controller, detach_controller,
  update_controller_state, is_controller_attached,
}
use sys_con.Hid.Hdl
use sys_con.Hid.Hdl.Update.{update_controller_state-Updates}
use sys_con.Hid.Virtual.{
  Operations, connection, attached, updated, report_input, after_connection, update_input,
}

-- The data of the inputs, and their devices.
pub record Hdls : Type 0 where
  pub controller_data : List InputState
  pub devices : Devices

-- The result of the driver, or that of the console.
pub data Outcome : Type 0 where
  returned : ControllerResult → Outcome
  answered : ℕ → Outcome

abbrev pub data_at : ℕ → Hdls → InputState
data_at i s = get_or s.controller_data i initial_input

abbrev pub state_of : ℕ → Stick → Stick → HdlsState
state_of w l r = record { buttons = w; analog_stick_l = l; analog_stick_r = r }

abbrev with_devices : Hdls → ℕ × Devices → Outcome × Hdls
with_devices s r = (answered r.0, record s { devices = r.1 })

-- `attach` and `set_hdls_state` are what hiddbg answers during the turn.
abbrev pub hdl : Attached → (ℕ → HdlsState → ℕ) → Operations
hdl attach set_hdls_state = record {
  State = Hdls;
  Outcome = Outcome;
  returned = returned;
  data_at = data_at;
  put_data = λ i d s. record s { controller_data = set s.controller_data i d };
  is_attached = λ i s. is_controller_attached i s.devices;
  attach = λ i s. record s { devices = (attach_controller attach i s.devices).1 };
  detach = λ i s. record s { devices = (detach_controller i s.devices).1 };
  update_state = λ w l r i s.
      with_devices s (update_controller_state set_hdls_state (state_of w l r) i s.devices);
}
