-- ===== src/Driver/Switch/Ranges.antt =====
-- The ranges of the sticks that source/ControllerLib/Controllers/SwitchController.cpp learns.
use sys_con.Prelude.{
  ℕ, zero, suc, ◌≤◌, ◌<◌, ◌≡◌, ◌⊎◌, refl, inl, inr, Bool, if◌then◌else◌, ltb, ◌==◌, true, false, [],
  ◌∷◌, drop, arith,
}
use sys_con.Prelude.Text.{Bytes}
use sys_con.Controller.Float.{Float}
use sys_con.Controller.Mapping.{RawInput}
use sys_con.Driver.Report.{byte}
use sys_con.Driver.Switch.{
  Calibration, Switch, Parsed, widen, calibrate, read_bits_le, stick_left, stick_right,
  button_data_size, parse_data,
}
use sys_con.Driver.Switch.Bits.{AreBytes, read_bits_le-number}

-- A range of values of 12 bits around the one of the constructor.
pub record IsRange (c : Calibration) : Type 0 where
  pub min_le : c.min ≤ 600
  pub le_max : 3400 ≤ c.max
  pub max_lt : c.max < 4096

pub record IsCalibrated (s : Switch) : Type 0 where
  pub left_x : IsRange s.cal_left_x
  pub left_y : IsRange s.cal_left_y
  pub right_x : IsRange s.cal_right_x
  pub right_y : IsRange s.cal_right_y

pub record Holds (value : ℕ) (c : Calibration) : Type 0 where
  pub above : c.min ≤ value
  pub below : value ≤ c.max

-- The ranges hold the sticks of the report.
pub record Tracks (b : Bytes) (s : Switch) : Type 0 where
  pub left_x : Holds (read_bits_le (stick_left b) 0 12) s.cal_left_x
  pub left_y : Holds (read_bits_le (stick_left b) 12 12) s.cal_left_y
  pub right_x : Holds (read_bits_le (stick_right b) 0 12) s.cal_right_x
  pub right_y : Holds (read_bits_le (stick_right b) 12 12) s.cal_right_y

AreBytes-drop : (n : ℕ) (b : Bytes) → AreBytes b → AreBytes (drop n b)
AreBytes-drop zero b h = h
AreBytes-drop (suc n) [] h = h
AreBytes-drop (suc n) (c ∷ cs) h = AreBytes-drop n cs h.1

twelve_bits : (b : Bytes) (offset : ℕ) → AreBytes b → read_bits_le b offset 12 < 4096
twelve_bits b offset h = omega (arith, read_bits_le-number b offset 12 h (omega arith))

widen-IsRange : (v : ℕ) (c : Calibration) → v < 4096 → IsRange c → IsRange (widen v c)
unfolding widen
widen-IsRange v c h r = ground arith

widen-Holds : (v : ℕ) (c : Calibration) → Holds v (widen v c)
unfolding widen
widen-Holds v c = ground arith

calibrate-IsCalibrated :
    (b : Bytes) (s : Switch) → AreBytes b → IsCalibrated s → IsCalibrated (calibrate b s)
unfolding calibrate
calibrate-IsCalibrated b s h c =
    let left = AreBytes-drop 6 b h in
    let right = AreBytes-drop 9 b h in
    record {
      left_x = widen-IsRange _ s.cal_left_x (twelve_bits (stick_left b) 0 left) c.left_x;
      left_y = widen-IsRange _ s.cal_left_y (twelve_bits (stick_left b) 12 left) c.left_y;
      right_x = widen-IsRange _ s.cal_right_x (twelve_bits (stick_right b) 0 right) c.right_x;
      right_y = widen-IsRange _ s.cal_right_y (twelve_bits (stick_right b) 12 right) c.right_y;
    }

calibrate-Tracks : (b : Bytes) (s : Switch) → Tracks b (calibrate b s)
unfolding calibrate
calibrate-Tracks b s = record {
  left_x = widen-Holds _ s.cal_left_x;
  left_y = widen-Holds _ s.cal_left_y;
  right_x = widen-Holds _ s.cal_right_x;
  right_y = widen-Holds _ s.cal_right_y;
}

-- What holds of the ranges on each branch of two tests.
branches :
    (fl : Float) (P : Switch → Type 0) (x y : Bool) (p q r : Parsed fl)
    → P p.switch
    → P q.switch
    → P r.switch
    → P (if x then p else if y then q else r).switch
branches fl P true y p q r hp hq hr = hp
branches fl P false true p q r hp hq hr = hq
branches fl P false false p q r hp hq hr = hr

-- If the range of each stick axis stays around 600 to 3400 and within 12 bits, so that `Normalize` has
-- no empty side about 2000, it does so after `ParseData` of any report of bytes; and the ranges then
-- hold the sticks of the report, or stay as they were.
pub parse_data-IsCalibrated :
    (fl : Float) (b : Bytes) (size : ℕ) (raw : RawInput fl) (s : Switch)
    → AreBytes b
    → IsCalibrated s
    → let s' = (parse_data fl b size raw s).switch in IsCalibrated s' × ((s' ≡ s) ⊎ Tracks b s')
unfolding parse_data
parse_data-IsCalibrated fl b size raw s h c =
    branches fl (λ s'. IsCalibrated s' × ((s' ≡ s) ⊎ Tracks b s')) (ltb size button_data_size)
      (byte b 0 == 48) _ _ _ (c, inl refl)
      (calibrate-IsCalibrated b s h c, inr (calibrate-Tracks b s)) (c, inl refl)
