-- ===== src/Hid/Turn.antt =====
-- `UpdateInput` of source/ControllerSwitch/SwitchVirtualGamepadHandler.cpp as a whole: what the driver
-- reads, the words for it, and the turn of the handler.
pub mod Newest
use Prim.Native.Nat.{bit_or}
use sys_con.Prelude.{ℕ, ◌*◌, ◌/◌, Bool, false, List, [], ◌∷◌, if◌then◌else◌}
use sys_con.Prelude.Int.{ℤ, pos, ◌-ℤ◌}
use sys_con.Config.Data.{Button, ControllerConfig}
use sys_con.Controller.Result.{ControllerResult, success, timeout, nothing_todo}
use sys_con.Controller.Float.{Float, one, zero}
use sys_con.Controller.Mapping.{Axis, Normalized}
use sys_con.Controller.Input.{Operations, read_input}
use sys_con.Controller.Input as ReadInput
use sys_con.Hid.Lifo.{Flags, Stick}
use sys_con.Hid.Gamepad.{Input, System, Outcome, update_input}

-- What the file uses of libnx: the bits of `HidNpadButton` and `HiddbgNpadButton` and the range of a
-- stick.
pub record Libnx : Type 0 where
  pub npad_button : Button → ℕ
  pub joystick_min : ℤ
  pub joystick_max : ℤ

-- The tests of the buttons, in their order. Each sets the bit that libnx has for the button.
abbrev npad_buttons : List Button
npad_buttons =
    Button.x ∷ Button.a ∷ Button.b ∷ Button.y ∷ Button.lstick_click ∷ Button.rstick_click ∷ Button.l
    ∷ Button.r ∷ Button.zl ∷ Button.zr ∷ Button.minus ∷ Button.plus ∷ Button.dpad_up
    ∷ Button.dpad_right ∷ Button.dpad_down ∷ Button.dpad_left ∷ Button.capture ∷ Button.home ∷ []

unfoldable word_from : Libnx → List Button → (Button → Bool) → ℕ → ℕ
word_from nx [] pressed buttons = buttons
word_from nx (i ∷ is) pressed buttons =
    word_from nx is pressed (if pressed i then bit_or buttons (nx.npad_button i) else buttons)

unfoldable pub word : Libnx → (Button → Bool) → ℕ
unfolding word_from
word nx pressed = word_from nx npad_buttons pressed 0

-- The time that `OnRun` gives each turn, from the number of interfaces of the device.
abbrev pub polling_timeout_us : ℕ → ℕ → ℕ
polling_timeout_us polling_timeout_ms interface_count = polling_timeout_ms * 1000 / interface_count

-- How long `OnRun` sleeps after a turn, in nanoseconds.
unfoldable pub pause_ns : ControllerResult → ℕ
pause_ns success = 0
pause_ns timeout = 0
pause_ns nothing_todo = 0
pause_ns _ = 100000

module _ (fl : Float) (nx : Libnx) where
  open fl use {F, of_ℤ, add, mul, div, neg}

  -- The position on the scale of the console, before it is cut to an integer.
  abbrev scaled : F → F
  scaled v =
      add (div (mul (add v (one fl)) (of_ℤ (nx.joystick_max -ℤ nx.joystick_min))) (of_ℤ (pos 2)))
        (of_ℤ nx.joystick_min)

  -- `ConvertAxisToSwitchAxis`; `to_ℤ` is the conversion of a `float` to `int32_t`.
  unfoldable pub convert_axis_to_switch_axis : (F → ℤ) → F → F → Stick
  convert_axis_to_switch_axis to_ℤ x y = record { x = to_ℤ (scaled x); y = to_ℤ (neg (scaled y)) }

  -- `NormalizedButtonData buttonData = {0};`
  abbrev pub no_input : Normalized fl
  no_input = record { buttons = λ i. false; sticks = λ a. zero fl }

  module _ (ops : Operations fl) (c : ControllerConfig) (to_ℤ : F → ℤ)
      (is_controller_connected : ℕ → ops.State → Bool) where
    -- What the handler takes over from `ReadInput`.
    abbrev pub taken : ReadInput.Input fl ops c → Input
    taken r = record {
      read_rc = r.result;
      input_idx = r.input_idx;
      is_connected = is_controller_connected r.input_idx r.state;
      buttons = r.normal.buttons;
      stick_l =
          convert_axis_to_switch_axis to_ℤ (r.normal.sticks Axis.left_x)
            (r.normal.sticks Axis.left_y);
      stick_r =
          convert_axis_to_switch_axis to_ℤ (r.normal.sticks Axis.right_x)
            (r.normal.sticks Axis.right_y);
    }

    -- One turn: the outcome, the handler with what it shares, and the driver.
    pub record Turn : Type 0 where
      pub outcome : Outcome
      pub system : System
      pub driver : ops.State

    -- The part behind `ReadInput`.
    abbrev pub handled : Flags → System → ReadInput.Input fl ops c → Turn
    handled flags s r =
        let u = update_input flags (word nx) (taken r) s in
        record { outcome = u.0; system = u.1; driver = r.state }

    unfoldable pub turn : Flags → ops.State → System → Turn
    turn flags driver s = handled flags s (read_input fl ops c no_input 0 driver)
