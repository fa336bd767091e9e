-- ===== src/Controller/Mapping/Sticks.antt =====
-- The sticks that `MapRawInputToNormalized` (source/ControllerLib/Controllers/BaseController.cpp) reports.
use sys_con.Prelude.{
  ◌≡◌, refl, ◌⊎◌, true, false, inl, inr, List, [], ◌∷◌, update, update_self, update_ne, Bool-cases,
}
use sys_con.Config.Data.{Button, AnalogBinding, ControllerConfig}
use sys_con.Controller.Float.{Float, FloatLaws, zero, one}
use sys_con.Controller.Analog.{InUnit}
use sys_con.Controller.Mapping.{
  Axis, Axis-discrete, RawInput, Normalized, StickButton, sticks_list, at_most_one, stick_value,
  stick_step, move_sticks, pressed, map_raw_input_to_normalized, apply_deadzones,
}

module _ (fl : Float) (laws : FloatLaws fl) where
  open fl use {F, mul, neg, lt}

  abbrev IsUnitSign : F → Type 0
  IsUnitSign s = (s ≡ one fl) ⊎ (s ≡ neg (one fl))

  mul-InUnit :
      (s v : F) → IsUnitSign s → lt (zero fl) v ≡ true → lt (one fl) v ≡ false → InUnit fl (mul s v)
  mul-InUnit s v (inl e) p h = rw (e, laws.one_mul) (h, laws.positive_above v p)
  mul-InUnit s v (inr e) p h = rw (e, laws.neg_one_mul) (laws.neg_positive v p, rw laws.neg_lt h)

  at_most_one_le : (v : F) → lt (one fl) (at_most_one fl v) ≡ false
  at_most_one_le v = elim (Bool-cases (lt (one fl) v)) [
    | inl above ↦ rw above laws.one_le_one
    | inr fits ↦ rw fits fits
  ]

  stick_value_le :
      (c : ControllerConfig) (analog : AnalogBinding → F) (i : Button)
      → lt (one fl) (stick_value fl c analog i) ≡ false
  unfolding stick_value
  stick_value_le c analog i = at_most_one_le _

  update-InUnit :
      (sticks : Axis → F) (a : Axis) (v : F)
      → ((b : Axis) → InUnit fl (sticks b))
      → InUnit fl v
      → (b : Axis) → InUnit fl (update Axis-discrete sticks a v b)
  update-InUnit sticks a v h hv b = elim (Axis-discrete b a) [
    | yes e ↦ rw (e, update_self Axis-discrete sticks a v) hv
    | no n ↦ rw (update_ne Axis-discrete sticks a b v n) (h b)
  ]

  stick_step-InUnit :
      (c : ControllerConfig) (raw : RawInput fl) (s : StickButton fl) (sticks : Axis → F)
      → IsUnitSign s.sign
      → ((b : Axis) → InUnit fl (sticks b))
      → (b : Axis) → InUnit fl (stick_step fl c raw s sticks b)
  unfolding stick_step
  stick_step-InUnit c raw s sticks u h b = elim (Bool-cases (pressed c raw.buttons s.button)) [
    | inl down ↦ rw down (
        update-InUnit sticks s.value_addr _ h
          (mul-InUnit s.sign (one fl) u laws.zero_lt_one laws.one_le_one) b)
    | inr up ↦ elim (Bool-cases (lt (zero fl) (stick_value fl c raw.analog s.button))) [
      | inl out ↦
          rw (up, out)
            (update-InUnit sticks s.value_addr _ h
              (mul-InUnit s.sign _ u out (stick_value_le c raw.analog s.button)) b)
      | inr rest ↦ rw (up, rest) (h b)
    ]
  ]

  abbrev AllUnit : List (StickButton fl) → Type 0
  AllUnit [] = Unit {0}
  AllUnit (s ∷ ss) = IsUnitSign s.sign × AllUnit ss

  move_sticks-InUnit :
      (c : ControllerConfig) (raw : RawInput fl) (ss : List (StickButton fl)) (sticks : Axis → F)
      → AllUnit ss
      → ((b : Axis) → InUnit fl (sticks b))
      → (b : Axis) → InUnit fl (move_sticks fl c raw ss sticks b)
  unfolding move_sticks
  move_sticks-InUnit c raw [] sticks u h b = h b
  move_sticks-InUnit c raw (s ∷ ss) sticks u h b =
      move_sticks-InUnit c raw ss (stick_step fl c raw s sticks) u.1
        (stick_step-InUnit c raw s sticks u.0 h) b

  sticks_list-AllUnit : AllUnit (sticks_list fl)
  sticks_list-AllUnit = (
    inr refl,
    (inl refl, (inl refl, (inr refl, (inr refl, (inl refl, (inl refl, (inr refl, tt))))))),
  )

  -- With numbers that meet the laws of IEEE 754 in `FloatLaws`, and whatever the configuration and the
  -- raw input, sticks within [-1, 1] stay within it: no factor and no dead zone can push a reported
  -- axis out of range.
  pub map_raw_input_to_normalized-InUnit :
      (c : ControllerConfig) (raw : RawInput fl) (normal : Normalized fl)
      → ((b : Axis) → InUnit fl (normal.sticks b))
      → (b : Axis) → InUnit fl ((map_raw_input_to_normalized fl c raw normal).sticks b)
  unfolding map_raw_input_to_normalized
  map_raw_input_to_normalized-InUnit c raw normal h =
      move_sticks-InUnit c (record raw { analog = apply_deadzones fl c raw.analog })
        (sticks_list fl) normal.sticks sticks_list-AllUnit h
