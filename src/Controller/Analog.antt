-- ===== src/Controller/Analog.antt =====
-- `Normalize` and `ApplyDeadzone` of source/ControllerLib/Controllers/BaseController.cpp.
use sys_con.Prelude.{ℕ, ◌≡◌, false, inl, inr, Bool-cases, if◌then◌else◌}
use sys_con.Prelude.Int.{ℤ, pos, ltb_ℤ, ◌+ℤ◌, ◌-ℤ◌, half}
use sys_con.Controller.Float.{Float, FloatLaws, zero, one}

module _ (fl : Float) where
  open fl use {F, of_ℤ, add, sub, mul, div, neg, abs, lt}

  -- The two `if`s at the end of `Normalize`.
  unfoldable clamp_unit : F → F
  clamp_unit ret =
      if lt (one fl) ret then one fl else if lt ret (neg (one fl)) then neg (one fl) else ret

  unfoldable pub normalize_about : ℤ → ℤ → ℤ → ℤ → F
  unfolding clamp_unit
  normalize_about value min max center = clamp_unit (
      if ltb_ℤ value center
      then sub (div (sub (of_ℤ value) (of_ℤ min)) (of_ℤ (center -ℤ min))) (one fl)
      else div (sub (of_ℤ value) (of_ℤ center)) (of_ℤ (max -ℤ center)))

  unfoldable pub normalize : ℤ → ℤ → ℤ → F
  unfolding normalize_about
  normalize value min max = normalize_about value min max (half (max +ℤ min))

  unfoldable pub percent : ℕ → F
  percent p = div (of_ℤ (pos p)) (of_ℤ (pos 100))

  unfoldable pub apply_deadzone : ℕ → F → F
  unfolding percent
  apply_deadzone deadzone_percent value =
      let deadzone = percent deadzone_percent in
      let scale = div (one fl) (sub (one fl) deadzone) in
      if lt (abs value) deadzone
      then zero fl
      else if lt (zero fl) value
      then mul (sub value deadzone) scale
      else mul (add value deadzone) scale

  -- No number of the interval [-1, 1] is outside it, by the tests of the code.
  abbrev pub InUnit : F → Type 0
  InUnit x = (lt (one fl) x ≡ false) × (lt x (neg (one fl)) ≡ false)

  clamp_unit-InUnit : (laws : FloatLaws fl) (x : F) → InUnit (clamp_unit x)
  unfolding clamp_unit
  clamp_unit-InUnit laws x = elim (Bool-cases (lt (one fl) x)) [
    | inl above ↦ rw above (laws.one_le_one, laws.neg_one_lt_one)
    | inr fits ↦ elim (Bool-cases (lt x (neg (one fl)))) [
      | inl below ↦ rw (fits, below) (laws.neg_one_lt_one, laws.neg_one_le)
      | inr inside ↦ rw (fits, inside) (fits, inside)
    ]
  ]
