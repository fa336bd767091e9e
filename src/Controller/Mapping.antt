-- ===== src/Controller/Mapping.antt =====
-- `MapRawInputToNormalized` of source/ControllerLib/Controllers/BaseController.cpp, without its log.
pub mod Sticks
pub mod Buttons
pub mod Loaded
use sys_con.Prelude.{
  ℕ, ◌+◌, Bool, true, false, ◌&&◌, ◌||◌, List, [], ◌∷◌, get_or, update, ite, if◌then◌else◌,
}
use sys_con.Config.Data.{
  Button, Button-discrete, AnalogBinding, Sign, ComboConfig, ControllerConfig,
}
use sys_con.Controller.Float.{Float, zero, one}
use sys_con.Controller.Analog.{apply_deadzone, percent}

-- The four places that `value_addr` can lead to: two sticks with two axes each.
pub data Axis : Type 0 where
  left_x left_y right_x right_y : Axis

unfoldable pub Axis-discrete : Discrete Axis
Axis-discrete = hlevel

-- An index that is not below 36 is out of bounds in C: `Config.Valid` rules it out for the pins.
abbrev RawButtons : Type 0
RawButtons = ℕ → Bool

-- `normalData->buttons`, which the code indexes by `ControllerButton`.
abbrev pub NormalizedButtons : Type 0
NormalizedButtons = Button → Bool

unfoldable pub pressed : ControllerConfig → RawButtons → Button → Bool
pressed c raw i = raw (get_or (c.buttons_pin i) 0 0) || raw (get_or (c.buttons_pin i) 1 0)

-- `controllerButtonList`
abbrev pub controller_button_list : List Button
controller_button_list =
    Button.x ∷ Button.a ∷ Button.b ∷ Button.y ∷ Button.lstick_click ∷ Button.rstick_click ∷ Button.l
    ∷ Button.r ∷ Button.zl ∷ Button.zr ∷ Button.minus ∷ Button.plus ∷ Button.capture ∷ Button.home
    ∷ Button.dpad_up ∷ Button.dpad_down ∷ Button.dpad_right ∷ Button.dpad_left ∷ []

-- `for (b : list) buttons[b] = value(b)`
unfoldable pub assign_all : List Button → (Button → Bool) → NormalizedButtons → NormalizedButtons
assign_all [] value buttons = buttons
assign_all (i ∷ is) value buttons = assign_all is value (update Button-discrete buttons i (value i))

-- `for (b : list) buttons[b] |= value(b)`
unfoldable pub or_all : List Button → (Button → Bool) → NormalizedButtons → NormalizedButtons
or_all [] value buttons = buttons
or_all (i ∷ is) value buttons =
    or_all is value (update Button-discrete buttons i (buttons i || value i))

-- The body of the loop over the combos, behind its `break`.
unfoldable pub combo_step : ComboConfig → NormalizedButtons → NormalizedButtons
combo_step c buttons =
    if buttons c.first && buttons c.second
    then update Button-discrete
        (update Button-discrete (update Button-discrete buttons c.button_simulated true) c.first
          false)
        c.second false
    else buttons

unfoldable pub simulate_buttons : List ComboConfig → NormalizedButtons → NormalizedButtons
unfolding combo_step
simulate_buttons [] buttons = buttons
simulate_buttons (c ∷ cs) buttons =
    let rest = simulate_buttons cs (combo_step c buttons) in
    ite (Button-discrete c.button_simulated Button.none) buttons rest

module _ (fl : Float) where
  open fl use {F, mul, neg, lt}

  pub record RawInput : Type 0 where
    pub buttons : RawButtons
    pub analog : AnalogBinding → F

  pub record Normalized : Type 0 where
    pub buttons : NormalizedButtons
    pub sticks : Axis → F

  pub record StickButton : Type 0 where
    pub button : Button
    pub value_addr : Axis
    pub sign : F

  abbrev pub sticks_list : List StickButton
  sticks_list =
      record { button = Button.lstick_left; value_addr = left_x; sign = neg (one fl) }
      ∷ record { button = Button.lstick_right; value_addr = left_x; sign = one fl }
      ∷ record { button = Button.lstick_up; value_addr = left_y; sign = one fl }
      ∷ record { button = Button.lstick_down; value_addr = left_y; sign = neg (one fl) }
      ∷ record { button = Button.rstick_left; value_addr = right_x; sign = neg (one fl) }
      ∷ record { button = Button.rstick_right; value_addr = right_x; sign = one fl }
      ∷ record { button = Button.rstick_up; value_addr = right_y; sign = one fl }
      ∷ record { button = Button.rstick_down; value_addr = right_y; sign = neg (one fl) }
      ∷ []

  -- The float that a sign stands for.
  abbrev sign_value : Sign → F
  sign_value Sign.plus = one fl
  sign_value Sign.minus = neg (one fl)
  sign_value Sign.zero = zero fl

  unfoldable pub apply_deadzones : ControllerConfig → (AnalogBinding → F) → AnalogBinding → F
  apply_deadzones c analog AnalogBinding.unknown = zero fl
  apply_deadzones c analog i = apply_deadzone fl (c.analog_deadzone_percent i) (analog i)

  abbrev pub at_most_one : F → F
  at_most_one value = if lt (one fl) value then one fl else value

  unfoldable pub stick_value : ControllerConfig → (AnalogBinding → F) → Button → F
  stick_value c analog i =
      let cfg = c.buttons_analog i in
      at_most_one (
        mul (mul (sign_value cfg.sign) (analog cfg.bind))
          (percent fl (c.analog_factor_percent cfg.bind)))

  unfoldable pub stick_step : ControllerConfig → RawInput → StickButton → (Axis → F) → Axis → F
  unfolding stick_value pressed
  stick_step c raw s sticks =
      let value = stick_value c raw.analog s.button in
      if pressed c raw.buttons s.button
      then update Axis-discrete sticks s.value_addr (mul s.sign (one fl))
      else if lt (zero fl) value
      then update Axis-discrete sticks s.value_addr (mul s.sign value)
      else sticks

  unfoldable pub move_sticks :
      ControllerConfig → RawInput → List StickButton → (Axis → F) → Axis → F
  unfolding stick_step
  move_sticks c raw [] sticks = sticks
  move_sticks c raw (s ∷ ss) sticks = move_sticks c raw ss (stick_step c raw s sticks)

  -- Is the axis that is bound to the button deflected the button's way?
  unfoldable pub analog_pressed : ControllerConfig → (AnalogBinding → F) → Button → Bool
  analog_pressed c analog i =
      lt (zero fl) (mul (sign_value (c.buttons_analog i).sign) (analog (c.buttons_analog i).bind))

  unfoldable pub map_buttons : ControllerConfig → RawInput → NormalizedButtons → NormalizedButtons
  unfolding assign_all or_all pressed analog_pressed
  map_buttons c raw buttons =
      let digital = assign_all controller_button_list (pressed c raw.buttons) buttons in
      if c.buttons_analog_used
      then or_all controller_button_list (analog_pressed c raw.analog) digital
      else digital

  unfoldable pub map_raw_input_to_normalized : ControllerConfig → RawInput → Normalized → Normalized
  unfolding map_buttons move_sticks simulate_buttons apply_deadzones
  map_raw_input_to_normalized c raw normal =
      let input = record raw { analog = apply_deadzones c raw.analog } in
      record {
        buttons = simulate_buttons c.simulate_combos (map_buttons c input normal.buttons);
        sticks = move_sticks c input sticks_list normal.sticks;
      }
