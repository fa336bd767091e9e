-- ===== src/Hid/Virtual.antt =====
-- `UpdateInput` of source/ControllerSwitch/SwitchVirtualGamepadHandler.cpp over the functions that
-- SwitchMITMHandler.cpp and SwitchHDLHandler.cpp override.
pub mod Mitm
pub mod Hdl
use sys_con.Prelude.{ℕ, Bool, true, false, not, ◌&&◌, ◌||◌, if◌then◌else◌}
use sys_con.Config.Data.{Button}
use sys_con.Controller.Result.{ControllerResult, is_success}
use sys_con.Hid.Lifo.{Stick}
use sys_con.Hid.Gamepad.{InputState, Input}

-- What a handler is: its state with the data of its inputs, the virtual functions, and how a result
-- is returned. The results of attaching and detaching are not looked at.
pub record Operations : Type 1 where
  pub State : Type 0
  pub Outcome : Type 0
  pub returned : ControllerResult → Outcome
  pub data_at : ℕ → State → InputState
  pub put_data : ℕ → InputState → State → State
  pub is_attached : ℕ → State → Bool
  pub attach : ℕ → State → State
  pub detach : ℕ → State → State
  pub update_state : ℕ → Stick → Stick → ℕ → State → Outcome × State

module _ (ops : Operations) where
  open ops use {State, Outcome, returned, data_at, put_data, attach, detach}

  unfoldable pub connection : ℕ → Bool → State → State
  connection i true s =
      if (data_at i s).is_connected
      then s
      else put_data i (record { reattach_controller = true; is_connected = true }) s
  connection i false s =
      if (data_at i s).is_connected
      then detach i (put_data i (record (data_at i s) { is_connected = false }) s)
      else s

  module _ (word : (Button → Bool) → ℕ) where
    abbrev pub wants_attach : Input → State → Bool
    wants_attach i s =
        (data_at i.input_idx s).reattach_controller
        || (not (ops.is_attached i.input_idx s) && (i.buttons Button.l && i.buttons Button.r))

    abbrev pub attached : ℕ → Bool → State → State
    attached idx wants s =
        if wants
        then put_data idx (record (data_at idx s) { reattach_controller = false }) (attach idx s)
        else s

    abbrev pub updated : Input → State → Outcome × State
    updated i s = ops.update_state (word i.buttons) i.stick_l i.stick_r i.input_idx s

    unfoldable pub report_input : Input → State → Outcome × State
    report_input i s = updated i (attached i.input_idx (wants_attach i s) s)

    unfoldable pub after_connection : Input → State → Outcome × State
    unfolding report_input
    after_connection i s =
        if (data_at i.input_idx s).is_connected && is_success i.read_rc
        then report_input i s
        else (returned i.read_rc, s)

    unfoldable pub update_input : Input → State → Outcome × State
    unfolding connection after_connection
    update_input i s = after_connection i (connection i.input_idx i.is_connected s)
