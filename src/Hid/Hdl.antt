-- ===== src/Hid/Hdl.antt =====
-- The virtual devices of source/ControllerSwitch/SwitchHDLHandler.cpp, which a handler may use
-- instead of the memory of the processes.
pub mod Update
pub mod Setup
use sys_con.Prelude.{ℕ, Bool, not, List, [], ◌∷◌, ◌==◌, if◌then◌else◌, set, get_or}
use sys_con.Hid.Lifo.{Stick, no_stick}

-- `HiddbgHdlsState`, as far as the handler writes it.
pub record HdlsState : Type 0 where
  pub buttons : ℕ
  pub analog_stick_l : Stick
  pub analog_stick_r : Stick

-- `SwitchHDLHandlerData`, without the information on the device, which only `Initialize` writes.
pub record HandlerData : Type 0 where
  pub handle : ℕ
  pub state : HdlsState

-- The inputs, and the handles that `hiddbgDetachHdlsVirtualDevice` was called with, the last first.
pub record Devices : Type 0 where
  pub hdls_data : List HandlerData
  pub detached : List ℕ

-- What `hiddbgAttachHdlsVirtualDevice` gives.
pub record Attached : Type 0 where
  pub rc : ℕ
  pub handle : ℕ

abbrev pub reset : HandlerData
reset = record {
  handle = 0;
  state = record { buttons = 0; analog_stick_l = no_stick; analog_stick_r = no_stick };
}

abbrev pub data_at : ℕ → Devices → HandlerData
data_at i s = get_or s.hdls_data i reset

abbrev pub put : ℕ → HandlerData → Devices → Devices
put i d s = record s { hdls_data = set s.hdls_data i d }

-- `IsControllerAttached`.
abbrev pub is_controller_attached : ℕ → Devices → Bool
is_controller_attached i s = not ((data_at i s).handle == 0)

-- `AttachController`.
unfoldable pub attach_controller : Attached → ℕ → Devices → ℕ × Devices
attach_controller a i s =
    if is_controller_attached i s
    then (0, s)
    else if a.rc == 0
    then (0, put i (record (data_at i s) { handle = a.handle }) s)
    else (a.rc, s)

-- `DetachController`.
unfoldable pub detach_controller : ℕ → Devices → ℕ × Devices
detach_controller i s =
    if is_controller_attached i s
    then (
      0,
      record {
        hdls_data = set s.hdls_data i (record (data_at i s) { handle = 0 });
        detached = (data_at i s).handle ∷ s.detached;
      },
    )
    else (0, s)

-- `UpdateControllerState`, where `set_hdls_state` is what `hiddbgSetHdlsState` returns.
unfoldable pub update_controller_state : (ℕ → HdlsState → ℕ) → HdlsState → ℕ → Devices → ℕ × Devices
unfolding detach_controller
update_controller_state set_hdls_state new i s =
    let stored = put i (record (data_at i s) { state = new }) s in
    let rc = set_hdls_state (data_at i stored).handle (data_at i stored).state in
    if is_controller_attached i stored
    then (if rc == 0 then (0, stored) else (rc, (detach_controller i stored).1))
    else (0, stored)
