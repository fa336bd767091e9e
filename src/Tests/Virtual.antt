-- ===== src/Tests/Virtual.antt =====
-- Concrete turns of the handler of source/ControllerSwitch/SwitchHDLHandler.cpp, and a copy by
-- SwitchMITMManager.cpp beside it.
use sys_con.Prelude.{ℕ, ◌≡◌, refl, Bool, true, false, [], ◌∷◌, ◌++◌, take, drop, replicate, arith}
use sys_con.Config.Data.{Button}
use sys_con.Controller.Result.{success}
use sys_con.Hid.Lifo.{no_stick}
use sys_con.Hid.Gamepad.{Input}
use sys_con.Hid.Hdl.{HdlsState, Attached}
use sys_con.Hid.Copy.{memcpy_64, memcpy_64-take}
use sys_con.Hid.Hdl
use sys_con.Hid.Virtual.{update_input}
use sys_con.Hid.Virtual
use sys_con.Hid.Virtual.Hdl.{Hdls, hdl}
use sys_con.Hid.Virtual.Hdl.Turns.{Shows, update_input-Shows}

abbrev l_and_r : Button → Bool
l_and_r Button.l = true
l_and_r Button.r = true
l_and_r _ = false

abbrev pressed : (Button → Bool) → Input
pressed b = record {
  read_rc = success;
  input_idx = 0;
  is_connected = true;
  buttons = b;
  stick_l = no_stick;
  stick_r = no_stick;
}

abbrev no_word : (Button → Bool) → ℕ
no_word b = 0

abbrev given : Attached
given = record { rc = 0; handle = 6 }

abbrev accepts : ℕ → HdlsState → ℕ
accepts h s = 0

abbrev refuses : ℕ → HdlsState → ℕ
refuses h s = 5

-- A connected input, whose device has a handle or 0.
abbrev device : ℕ → Hdls
device h = record {
  controller_data = record { reattach_controller = false; is_connected = true } ∷ [];
  devices = record {
    hdls_data =
        record {
          handle = h;
          state = record { buttons = 0; analog_stick_l = no_stick; analog_stick_r = no_stick };
        }
        ∷ [];
    detached = [];
  };
}

update_input-Shows_example :
    Shows given accepts no_word
      (pressed l_and_r)
      (device 0)
      (update_input (hdl given accepts) no_word (pressed l_and_r) (device 0))
update_input-Shows_example =
    update_input-Shows given accepts no_word (pressed l_and_r) (device 0)
      (record { known = refl; device_lt = omega arith; data_lt = omega arith }) refl refl

-- The first report after an input was connected attaches its device, without L and R.
abbrev requested : Hdls
requested = record (device 0) {
  controller_data = record { reattach_controller = true; is_connected = true } ∷ [];
}

attached_on_request :
    (Hdl.data_at 0
      (update_input (hdl given accepts) no_word (pressed (λ b. false)) requested).1.devices).handle
    ≡ 6
unfolding update_input Virtual.connection Virtual.after_connection Virtual.report_input
    Hdl.attach_controller Hdl.update_controller_state
attached_on_request = refl

-- L and R attach the device again.
attached_again :
    (Hdl.data_at 0
      (update_input (hdl given accepts) no_word (pressed l_and_r) (device 0)).1.devices).handle
    ≡ 6
unfolding update_input Virtual.connection Virtual.after_connection Virtual.report_input
    Hdl.attach_controller Hdl.update_controller_state
attached_again = refl

-- A state that the console refuses detaches it.
refused_detaches :
    (Hdl.data_at 0
      (update_input (hdl given refuses) no_word (pressed (λ b. false)) (device 6)).1.devices).handle
    ≡ 0
unfolding update_input Virtual.connection Virtual.after_connection Virtual.report_input
    Hdl.update_controller_state Hdl.detach_controller
refused_detaches = refl

memcpy_64-take_example :
    memcpy_64 4096 8192 8 (replicate 10 7) (replicate 9 1)
    ≡ take 8 (replicate 9 1) ++ drop 8 (replicate 10 7)
memcpy_64-take_example =
    memcpy_64-take 4096 8192 8 (replicate 10 7) (replicate 9 1) (omega arith) (omega arith)
