-- ===== src/Tests/Drivers.antt =====
-- Concrete inputs for what the drivers of source/ControllerLib/Controllers/ look at, and for
-- SwitchController.cpp beside them.
use sys_con.Prelude.{
  ℕ, ◌/◌, ◌%◌, ◌^◌, ◌<◌, ◌≡◌, ◌⊎◌, refl, some, true, false, [], ◌∷◌, ◌++◌, take, replicate, zero,
  suc, arith,
}
use sys_con.Prelude.Text.{Bytes}
use sys_con.Prelude.Int.{pos}
use sys_con.Config.Data.{AnalogBinding, initial_config}
use sys_con.Controller.Mapping.{Normalized}
use sys_con.Controller.Endpoints
use sys_con.Controller.Input.{read_input}
use sys_con.Controller.Result.{ControllerResult, success, timeout, is_success, report, failed}
use sys_con.Driver.Report.{byte}
use sys_con.Driver.Input.{Based, generic_hid}
use sys_con.Driver.GenericHid.{HidLibrary, HatSwitch, Generic}
use sys_con.Driver.GenericHid
use sys_con.Driver.GenericHid.Index.{InBounds, read_input-InBounds}
use sys_con.Driver.Locality.{parse_data-received}
use sys_con.Driver.Xbox
use sys_con.Driver.Xbox360
use sys_con.Driver.Dualshock3
use sys_con.Driver.XboxOne
use sys_con.Driver.Switch
use sys_con.Driver.Switch.{read_bits_le, initial_switch, initialize, handshake}
use sys_con.Driver.Switch.Bits.{number, read_bits_le-number}
use sys_con.Driver.Switch.Ranges.{IsCalibrated, Tracks, parse_data-IsCalibrated}
use sys_con.Driver.Switch.Flush.{initialize-ends}
use sys_con.Tests.Controller.{Tri, tri, raw_pad}

-- A report of sixteen bytes in a longer buffer.
abbrev long : Bytes
long = 0 ∷ 20 ∷ 0 ∷ 16 ∷ replicate 28 9

abbrev written : Bytes → ControllerResult
written b = success

parse_data-received_example :
    (Xbox.parse_data tri (take 16 long) 16 raw_pad ≡ Xbox.parse_data tri long 16 raw_pad)
    × (Xbox360.parse_data tri (take 16 long) 16 raw_pad ≡ Xbox360.parse_data tri long 16 raw_pad)
    × (Dualshock3.parse_data tri (take 16 long) 16 raw_pad
        ≡ Dualshock3.parse_data tri long 16 raw_pad)
    × (Switch.parse_data tri (take 16 long) 16 raw_pad initial_switch
        ≡ Switch.parse_data tri long 16 raw_pad initial_switch)
    × (XboxOne.parse_data written tri 1 0 (take 16 long) 16 raw_pad
        ≡ XboxOne.parse_data written tri 1 0 long 16 raw_pad)
parse_data-received_example =
    parse_data-received tri long 16 raw_pad initial_switch written 1 0 (omega arith)

-- Two sticks at 2748 and 1110.
abbrev stick : Bytes
stick = 188 ∷ 106 ∷ 69 ∷ []

read_bits_le-number_example : read_bits_le stick 12 12 ≡ number stick / 2 ^ 12 % 2 ^ 12
read_bits_le-number_example = read_bits_le-number stick 12 12 (omega arith) (omega arith)

stick_values : (read_bits_le stick 0 12 ≡ 2748) × (read_bits_le stick 12 12 ≡ 1110)
unfolding read_bits_le
stick_values = (refl, refl)

-- A report with its left stick far to the left.
abbrev far_left : Bytes
far_left = 48 ∷ replicate 5 0 ++ 1 ∷ 0 ∷ 120 ∷ 188 ∷ 106 ∷ 69 ∷ []

parse_data-IsCalibrated_example :
    let s = (Switch.parse_data tri far_left 12 raw_pad initial_switch).switch in
    IsCalibrated s × ((s ≡ initial_switch) ⊎ Tracks far_left s)
parse_data-IsCalibrated_example =
    parse_data-IsCalibrated tri far_left 12 raw_pad initial_switch (omega arith) (record {
      left_x = omega arith;
      left_y = omega arith;
      right_x = omega arith;
      right_y = omega arith;
    })

-- The minimum that this report teaches.
far_left_learnt :
    (Switch.parse_data tri far_left 12 raw_pad initial_switch).switch.cal_left_x.min ≡ 1
unfolding Switch.parse_data Switch.calibrate read_bits_le
far_left_learnt = refl

-- Two reports wait before the endpoint is empty.
abbrev two_reports : ℕ → ControllerResult
two_reports zero = success
two_reports (suc zero) = success
two_reports (suc (suc i)) = timeout

two_succeed : (i : ℕ) → i < 2 → is_success (two_reports i) ≡ true
two_succeed zero h = refl
two_succeed (suc zero) h = refl
two_succeed (suc (suc i)) h = absurd (omega arith)

initialize-ends_example : initialize two_reports success 1 8 ≡ some (handshake 3)
initialize-ends_example =
    initialize-ends two_reports success 1 2 8 refl (omega arith)
      (record { succeeds = two_succeed; fails = refl }) (omega arith)

-- A library that reads a first byte as the index and no buttons.
abbrev one_joystick : HidLibrary
one_joystick = record {
  Joystick = Unit {0};
  make_joystick = λ b. tt;
  get_count = λ j. 2;
  parse = λ b n j. (
    some (record {
      index = byte b 0;
      button_count = 1;
      buttons = λ i. true;
      x = pos 0;
      y = pos 0;
      z = pos 0;
      rx = pos 0;
      ry = pos 0;
      rz = pos 0;
      slider = pos 0;
      dial = pos 0;
      brake = pos 0;
      accelerator = pos 0;
      hat_switch = HatSwitch.up;
    }),
    j,
  );
}

abbrev idle_pad : Normalized tri
idle_pad = record { buttons = λ i. false; sticks = λ a. raw_pad.analog AnalogBinding.x }

-- Two endpoints, the second of which has a report, whose turn it is.
abbrev two_endpoints : Based (Generic one_joystick)
two_endpoints = record {
  driver = record { joystick = tt; joystick_count = 2 };
  pipes = record {
    in_pipe =
        record { max_packet = 8; replies = [] }
        ∷ record { max_packet = 8; replies = report (0 ∷ []) ∷ failed timeout ∷ [] }
        ∷ [];
    current_controller_idx = 1;
  };
}

read_input-InBounds_example :
    InBounds tri one_joystick initial_config 2
      (omega arith)
      (read_input tri (generic_hid tri one_joystick) initial_config idle_pad 0 two_endpoints)
read_input-InBounds_example =
    read_input-InBounds tri one_joystick initial_config 2 (omega arith) idle_pad 0 two_endpoints
      (omega arith) (record { count = refl; turn_lt = omega arith })

-- The report is that of the input of its endpoint.
second_input :
    (read_input tri
      (generic_hid tri one_joystick)
      initial_config
      idle_pad
      0
      two_endpoints).input_idx
    ≡ 1
unfolding read_input GenericHid.parse_data Endpoints.read_next_buffer
second_input = refl

abbrev to_u8 : Tri → ℕ
to_u8 v = 7

abbrev written_to : ℕ → Bytes → ControllerResult
written_to i b = success
