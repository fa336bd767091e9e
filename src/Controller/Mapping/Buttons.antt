-- ===== src/Controller/Mapping/Buttons.antt =====
-- The buttons that `MapRawInputToNormalized` (source/ControllerLib/Controllers/BaseController.cpp) reports.
use mathlib.Core.Logic.{if_pos, if_neg}
use sys_con.Prelude.{
  ◌≡◌, refl, sym, ap, ◌∙◌, Bool, true, false, ◌&&◌, ◌||◌, List, [], ◌∷◌, update, ite, arith,
  if◌then◌else◌,
}
use sys_con.Config.Data.{Button, Button-discrete, ComboConfig, ControllerConfig}
use sys_con.Config.Combos.{AllFree, IsPacked, free, used}
use sys_con.Controller.Float.{Float}
use sys_con.Controller.Mapping.{
  RawInput, NormalizedButtons, pressed, controller_button_list, assign_all, or_all, combo_step,
  simulate_buttons, analog_pressed, map_buttons,
}

pub listed : Button → List Button → Bool
listed i [] = false
listed i (j ∷ js) = ite (Button-discrete i j) true (listed i js)

module _ (value : Button → Bool) (i : Button) where
  assign_all_lem :
      (js : List Button) (b : NormalizedButtons)
      → assign_all js value b i ≡ (if listed i js then value i else b i)
  unfolding assign_all listed update
  assign_all_lem [] b = refl
  assign_all_lem (j ∷ js) b =
      assign_all_lem js (update Button-discrete b j (value j)) ∙ ground arith

  or_all_lem :
      (js : List Button) (b : NormalizedButtons)
      → or_all js value b i ≡ (b i || (listed i js && value i))
  unfolding or_all listed update
  or_all_lem [] b = ground arith
  or_all_lem (j ∷ js) b = or_all_lem js (update Button-discrete b j (b j || value j)) ∙ ground arith

map_buttons_cases :
    (used_analog : Bool) (digital analog : Button → Bool) (b : NormalizedButtons) (i : Button)
    → let list = controller_button_list in
      (if used_analog
          then or_all list analog (assign_all list digital b)
          else assign_all list digital b)
        i
      ≡ (if listed i list then digital i || (used_analog && analog i) else b i)
map_buttons_cases true digital analog b i =
    or_all_lem analog i controller_button_list (assign_all controller_button_list digital b)
    ∙ ap (λ x. x || (listed i controller_button_list && analog i))
        (assign_all_lem digital i controller_button_list b)
    ∙ ground arith
map_buttons_cases false digital analog b i =
    assign_all_lem digital i controller_button_list b ∙ ground arith

-- Before the combos run, a button of the list is reported down if one of its pins is, or, where some
-- button is bound by the file, if the axis bound to it is deflected its way; no other entry changes.
pub map_buttons_lem :
    (fl : Float) (c : ControllerConfig) (raw : RawInput fl) (b : NormalizedButtons) (i : Button)
    → map_buttons fl c raw b i ≡ (
        if listed i controller_button_list
        then pressed c raw.buttons i || (c.buttons_analog_used && analog_pressed fl c raw.analog i)
        else b i)
unfolding map_buttons
map_buttons_lem fl c raw b i =
    map_buttons_cases c.buttons_analog_used (pressed c raw.buttons) (analog_pressed fl c raw.analog)
      b i

-- Every slot in use runs, also one behind an empty slot.
pub run_all : List ComboConfig → NormalizedButtons → NormalizedButtons
run_all [] b = b
run_all (c ∷ cs) b =
    run_all cs (ite (Button-discrete c.button_simulated Button.none) b (combo_step c b))

run_all-free : (cs : List ComboConfig) (b : NormalizedButtons) → AllFree cs → run_all cs b ≡ b
unfolding run_all
run_all-free [] b h = refl
run_all-free (c ∷ cs) b h = rw (if_pos _ h.0) (run_all-free cs b h.1)

simulate_buttons-free :
    (cs : List ComboConfig) (b : NormalizedButtons) → AllFree cs → simulate_buttons cs b ≡ b
unfolding simulate_buttons
simulate_buttons-free [] b h = refl
simulate_buttons-free (c ∷ cs) b h = if_pos (Button-discrete c.button_simulated Button.none) h.0 b _

-- Where the combo slots in use stand before all empty ones, the loop over them, which stops at the
-- first empty slot, gives the same buttons as one over all of the slots in use.
pub simulate_buttons-run_all :
    {cs : List ComboConfig} (b : NormalizedButtons)
    → IsPacked cs
    → simulate_buttons cs b ≡ run_all cs b
unfolding simulate_buttons run_all
simulate_buttons-run_all b (free {cs = cs} f) =
    simulate_buttons-free cs b f ∙ sym (run_all-free cs b f)
simulate_buttons-run_all b (used {c = c} {cs = cs} n p) =
    if_neg (Button-discrete c.button_simulated Button.none) n b _
    ∙ rw (if_neg (Button-discrete c.button_simulated Button.none) n)
        (simulate_buttons-run_all (combo_step c b) p)
