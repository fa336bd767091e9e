-- ===== src/Hid/Virtual/Mitm.antt =====
-- The handler of source/ControllerSwitch/SwitchMITMHandler.cpp as the functions that `UpdateInput`
-- calls.
use sys_con.Prelude.{
  ℕ, ◌≡◌, refl, ap, ◌∙◌, Bool, true, false, Option, none, some, ◌&&◌, if◌then◌else◌,
}
use sys_con.Config.Data.{Button}
use sys_con.Controller.Result.{success, is_success}
use sys_con.Hid.Slots.{Player}
use sys_con.Hid.Lifo.{Flags, Stick}
use sys_con.Hid.Gamepad.{Input, Outcome, System, returned, controller_at}
use sys_con.Hid.Gamepad
use sys_con.Hid.Virtual.{
  Operations, connection, attached, wants_attach, report_input, after_connection, update_input,
}

abbrev stored : ℕ → Stick → Stick → ℕ → Input
stored w l r i = record {
  read_rc = success;
  input_idx = i;
  is_connected = true;
  buttons = λ b. false;
  stick_l = l;
  stick_r = r;
}

abbrev pub mitm : Flags → Operations
mitm flags = record {
  State = System;
  Outcome = Outcome;
  returned = returned;
  data_at = λ i s. Gamepad.data_at i s.handler;
  put_data = Gamepad.put_data;
  is_attached = λ i s. Gamepad.is_attached (controller_at i s.handler);
  attach = Gamepad.attach;
  detach = Gamepad.detach;
  update_state = λ w l r i s.
      Gamepad.update_state flags (λ b. w) (stored w l r i) (controller_at i s.handler) s;
}

module _ (flags : Flags) (word : (Button → Bool) → ℕ) where
  same_update :
      (i : Input) (p : Option Player) (s : System)
      → Gamepad.update_state flags
          (λ b. word i.buttons)
          (stored (word i.buttons) i.stick_l i.stick_r i.input_idx)
          p
          s
        ≡ Gamepad.update_state flags word i p s
  unfolding Gamepad.update_state
  same_update i none s = refl
  same_update i (some p) s = refl

  same_connection :
      (i : ℕ) (b : Bool) (s : System) → connection (mitm flags) i b s ≡ Gamepad.connection i b s
  unfolding connection Gamepad.connection
  same_connection i true s = refl
  same_connection i false s = refl

  same_report :
      (i : Input) (s : System)
      → report_input (mitm flags) word i s ≡ Gamepad.report_input flags word i s
  unfolding report_input Gamepad.report_input
  same_report i s =
      let a = attached (mitm flags) word i.input_idx (wants_attach (mitm flags) word i s) s in
      same_update i (controller_at i.input_idx a.handler) a

  same_after :
      (i : Input) (s : System)
      → after_connection (mitm flags) word i s ≡ Gamepad.after_connection flags word i s
  unfolding after_connection Gamepad.after_connection
  same_after i s =
      ap
        (λ (r : Outcome × System).
          if (Gamepad.data_at i.input_idx s.handler).is_connected && is_success i.read_rc
          then r
          else (returned i.read_rc, s))
        (same_report i s)

  -- Over the functions of SwitchMITMHandler, `UpdateInput` is the turn of a handler of Hid.Gamepad.
  update_input-mitm :
      (i : Input) (s : System)
      → update_input (mitm flags) word i s ≡ Gamepad.update_input flags word i s
  unfolding update_input Gamepad.update_input
  update_input-mitm i s =
      ap (after_connection (mitm flags) word i) (same_connection i.input_idx i.is_connected s)
      ∙ same_after i (Gamepad.connection i.input_idx i.is_connected s)
