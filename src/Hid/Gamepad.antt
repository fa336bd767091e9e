-- ===== src/Hid/Gamepad.antt =====
-- `UpdateInput` of source/ControllerSwitch/SwitchVirtualGamepadHandler.cpp with the operations of
-- source/ControllerSwitch/SwitchMITMHandler.cpp: one turn of a controller's input thread.
pub mod Connection
pub mod Exit
pub mod Wireless
use sys_con.Prelude.{
  ℕ, zero, suc, ◌+◌, Bool, true, false, not, ◌&&◌, ◌||◌, Option, none, some, List, [], ◌∷◌, set,
  get_or, ◌==◌, if◌then◌else◌,
}
use sys_con.Config.Data.{Button}
use sys_con.Controller.Result.{ControllerResult, success, is_success}
use sys_con.Hid.Slots.{Player, Manager, attach_controller, detach_controller}
use sys_con.Hid.Lifo.{Stick, Report, Flags, Entry, update_entries}

-- `SwitchVirtualGamepadHandlerData`
pub record InputState : Type 0 where
  pub reattach_controller : Bool
  pub is_connected : Bool

abbrev pub initial_input : InputState
initial_input = record { reattach_controller = false; is_connected = false }

-- A handler: its inputs, and the controller of each, which may be null.
pub record Handler : Type 0 where
  pub controller_data : List InputState
  pub controller_list : List (Option Player)

-- What all handlers share: the players, the processes, and the sampling number of each controller.
pub record Shared : Type 0 where
  pub manager : Manager
  pub entries : List Entry
  pub numbers : ℕ → ℕ

pub record System : Type 0 where
  pub handler : Handler
  pub shared : Shared

-- What `ReadInput` gives, and whether the driver says that the input is connected.
pub record Input : Type 0 where
  pub read_rc : ControllerResult
  pub input_idx : ℕ
  pub is_connected : Bool
  pub buttons : Button → Bool
  pub stick_l : Stick
  pub stick_r : Stick

-- The result that is returned, or a call on a null controller.
pub data Outcome : Type 0 where
  returned : ControllerResult → Outcome
  null_controller : Outcome

abbrev pub data_at : ℕ → Handler → InputState
data_at i h = get_or h.controller_data i initial_input

abbrev pub controller_at : ℕ → Handler → Option Player
controller_at i h = get_or h.controller_list i none

abbrev pub is_attached : Option Player → Bool
is_attached none = false
is_attached (some p) = true

abbrev pub put_data : ℕ → InputState → System → System
put_data i d s = record s {
  handler = record s.handler { controller_data = set s.handler.controller_data i d };
}

abbrev put_controller : ℕ → Option Player → Manager → System → System
put_controller i c m s = record {
  handler = record s.handler { controller_list = set s.handler.controller_list i c };
  shared = record s.shared { manager = m };
}

-- `SwitchMITMHandler::DetachController`
unfoldable pub detach : ℕ → System → System
unfolding detach_controller
detach i s =
    if is_attached (controller_at i s.handler)
    then put_controller i none (detach_controller s.shared.manager (controller_at i s.handler)) s
    else s

abbrev new_number : Option Player → System → System
new_number none s = s
new_number (some p) s = record s {
  shared = record s.shared { numbers = λ k. if k == p.id then 0 else s.shared.numbers k };
}

-- `SwitchMITMHandler::AttachController`; a new controller's sampling number is 0.
unfoldable pub attach : ℕ → System → System
unfolding attach_controller
attach i s =
    let (c, m) = attach_controller s.shared.manager in
    if is_attached (controller_at i s.handler) then s else new_number c (put_controller i c m s)

-- The part "State changed ?".
unfoldable pub connection : ℕ → Bool → System → System
unfolding detach
connection i true s =
    if (data_at i s.handler).is_connected
    then s
    else put_data i (record { reattach_controller = true; is_connected = true }) s
connection i false s =
    if (data_at i s.handler).is_connected
    then detach i (put_data i (record (data_at i s.handler) { is_connected = false }) s)
    else s

-- `UpdateControllerState`, a call through the pointer of the input. `word` is the `u64` of a set of
-- flags.
module _ (flags : Flags) (word : (Button → Bool) → ℕ) where
  unfoldable pub update_state : Input → Option Player → System → Outcome × System
  unfolding update_entries
  update_state i none s = (null_controller, s)
  update_state i (some p) s =
      let (entries, n) =
        update_entries flags p.player_idx (s.shared.numbers p.id)
          (record { buttons = word i.buttons; stick_l = i.stick_l; stick_r = i.stick_r })
          s.shared.entries in
      (
        returned success,
        record s {
          shared = record s.shared {
            entries = entries;
            numbers = λ k. if k == p.id then n else s.shared.numbers k;
          };
        },
      )

  -- The flag after the test of L and R.
  abbrev wants_attach : Input → System → Bool
  wants_attach i s =
      (data_at i.input_idx s.handler).reattach_controller
      || (not (is_attached (controller_at i.input_idx s.handler))
          && (i.buttons Button.l && i.buttons Button.r))

  -- The part behind the conversion of buttons and sticks.
  unfoldable pub report_input : Input → System → Outcome × System
  unfolding attach update_state
  report_input i s =
      let idx = i.input_idx in
      let attached =
        if wants_attach i s
        then put_data idx (record (data_at idx s.handler) { reattach_controller = false })
            (attach idx s)
        else s in
      update_state i (controller_at idx attached.handler) attached

  -- The two early returns, and what follows them.
  unfoldable pub after_connection : Input → System → Outcome × System
  unfolding report_input
  after_connection i s =
      if (data_at i.input_idx s.handler).is_connected && is_success i.read_rc
      then report_input i s
      else (returned i.read_rc, s)

  unfoldable pub update_input : Input → System → Outcome × System
  unfolding connection after_connection
  update_input i s = after_connection i (connection i.input_idx i.is_connected s)

-- The loop of `Exit`, over `n` inputs from `i` on; `GetInputCount` gives how many there are.
unfoldable pub detach_from : ℕ → ℕ → System → System
unfolding detach
detach_from zero i s = s
detach_from (suc n) i s = detach_from n (suc i) (detach i s)

unfoldable pub exit : ℕ → System → System
unfolding detach_from
exit input_count s = detach_from input_count 0 s
