-- ===== src/Tests/Memory.antt =====
-- Concrete inputs for the list of processes of source/ControllerSwitch/SwitchMITMManager.cpp and for
-- source/ControllerSwitch/SwitchHDLHandler.cpp.
use sys_con.Prelude.{ℕ, ◌≡◌, refl, none, some, List, [], ◌∷◌, ◌==◌, if◌then◌else◌, inl}
use sys_con.Hid.Memory.{
  Process, Pmdmnt, mitm_config, get, run_garbage_collector, create_if_not_exists,
}
use sys_con.Hid.Memory.Lookup.{create_if_not_exists-get}
use sys_con.Hid.Lifo.{no_stick}
use sys_con.Hid.Hdl.{
  HdlsState, Devices, reset, attach_controller, detach_controller, update_controller_state,
}

abbrev made : ℕ → ℕ → ℕ → Process
made id p g = record { id = id; process_id = p; program_id = g; status = 0 }

-- The program 7 runs as the process 81.
abbrev one_game : Pmdmnt
one_game g = if g == 7 then some 81 else none

abbrev known : List Process
known = made 1 81 7 ∷ made 2 82 8 ∷ []

-- As it is built, a second entry of a process is hidden behind its first one.
create_if_not_exists-get_example :
    let r = create_if_not_exists mitm_config one_game (made 3 81 7) known in
    (r.0 ≡ made 3 81 7) × (get 81 7 r.1 ≡ some (made 1 81 7))
unfolding get
create_if_not_exists-get_example =
    create_if_not_exists-get mitm_config one_game (made 3 81 7) known 81 7 refl (inl refl)

collected : run_garbage_collector one_game known ≡ made 1 81 7 ∷ []
unfolding run_garbage_collector
collected = refl

-- The second input is attached, with the handle 5.
abbrev attached : Devices
attached = record { hdls_data = reset ∷ record reset { handle = 5 } ∷ []; detached = [] }

abbrev pressed : HdlsState
pressed = record { buttons = 3; analog_stick_l = no_stick; analog_stick_r = no_stick }

abbrev refused : ℕ → HdlsState → ℕ
refused handle state = 17

attached_again :
    attach_controller
      (record { rc = 0; handle = 6 })
      1
      (update_controller_state refused pressed 1 attached).1
    ≡ (
      0,
      record { hdls_data = reset ∷ record { handle = 6; state = pressed } ∷ []; detached = 5 ∷ [] },
    )
unfolding attach_controller update_controller_state detach_controller
attached_again = refl
