-- ===== src/Tests/Input.antt =====
-- Concrete inputs for `ReadInput` of source/ControllerLib/Controllers/BaseController.cpp, and for the
-- turns of source/ControllerSwitch/SwitchVirtualGamepadHandler.cpp that read by it.
use sys_con.Prelude.{◌≡◌, refl, [], ◌∷◌, replicate, arith}
use sys_con.Prelude.Int.{ℤ, pos, negsuc}
use sys_con.Prelude.Text.{Bytes}
use sys_con.Config.Data.{initial_config}
use sys_con.Controller.Result.{timeout, failed, report}
use sys_con.Controller.Endpoints.Latest.{queued, AllFull}
use sys_con.Controller.Input.{read_input}
use sys_con.Controller.Input.Bounds.{Keeps, read_input-Keeps}
use sys_con.Driver.Input.{xbox360}
use sys_con.Hid.Slots.{attach_controller}
use sys_con.Hid.Gamepad.Connection.{Connects}
use sys_con.Hid.Turn.{Libnx, word, no_input, turn}
use sys_con.Hid.Turn.Newest.{with_replies, always, meant, turn-newest}
use sys_con.Tests.Controller.{Tri, tri, tri_laws}
use sys_con.Tests.Hid.{some_flags, plugged_in}

-- A report of a wired controller with its first button down, and one with none.
abbrev pressed : Bytes
pressed = 0 ∷ 20 ∷ 0 ∷ 16 ∷ replicate 10 0

abbrev idle : Bytes
idle = 0 ∷ 20 ∷ replicate 12 0

abbrev nx : Libnx
nx = record { npad_button = λ i. 1; joystick_min = negsuc 32766; joystick_max = pos 32767 }

abbrev whole_turn : Tri → ℤ
whole_turn v = pos 0

turn-newest_example :
    let t =
      turn tri nx
        (xbox360 tri)
        initial_config
        whole_turn
        always
        some_flags
        (with_replies 32 (queued (pressed ∷ idle ∷ []) (failed timeout ∷ [])))
        plugged_in in
    Connects some_flags
      (word nx)
      (meant tri nx initial_config whole_turn idle (with_replies 32 []))
      plugged_in
      (attach_controller plugged_in.shared.manager)
      (t.outcome, t.system)
    × (t.driver ≡ with_replies 32 [])
unfolding AllFull
turn-newest_example =
    turn-newest tri nx initial_config whole_turn some_flags 32 pressed (idle ∷ []) timeout []
      plugged_in (omega arith) (omega arith) (omega arith) refl
      (record { unknown = refl; data_lt = omega arith; list_lt = omega arith; empty = refl })

read_input-Keeps_example : Keeps tri tri_laws (xbox360 tri) initial_config (no_input tri nx) (
    read_input tri
      (xbox360 tri)
      initial_config
      (no_input tri nx)
      0
      (with_replies 32 (report pressed ∷ [])))
read_input-Keeps_example =
    read_input-Keeps tri tri_laws (xbox360 tri) initial_config (no_input tri nx) 0
      (with_replies 32 (report pressed ∷ [])) (λ a. (refl, refl))
