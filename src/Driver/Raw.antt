-- ===== src/Driver/Raw.antt =====
-- What the drivers of source/ControllerLib/Controllers/ share in filling a `RawInputData`.
use sys_con.Prelude.{ℕ, List, [], ◌∷◌, update}
use sys_con.Prelude.Int.{ℤ, pos, negsuc}
use sys_con.Config.Data.{AnalogBinding, AnalogBinding-discrete}
use sys_con.Controller.Float.{Float}
use sys_con.Controller.Analog.{normalize}
use sys_con.Controller.Mapping.{RawInput}
use sys_con.Controller.Result.{ControllerResult}

module _ (fl : Float) where
  open fl use {F}

  -- Writes of axes, the first one first.
  abbrev pub write_axes : List (AnalogBinding × F) → (AnalogBinding → F) → AnalogBinding → F
  write_axes [] f = f
  write_axes ((a, v) ∷ rest) f = write_axes rest (update AnalogBinding-discrete f a v)

  -- An axis of a byte, and one of an `int16_t`.
  abbrev pub axis8 : AnalogBinding → ℕ → AnalogBinding × F
  axis8 a v = (a, normalize fl (pos v) (pos 0) (pos 255))

  abbrev pub axis16 : AnalogBinding → ℤ → AnalogBinding × F
  axis16 a v = (a, normalize fl v (negsuc 32767) (pos 32767))

  -- What `ParseData` of a driver without a state of its own gives.
  pub record Decoded : Type 0 where
    pub result : ControllerResult
    pub raw : RawInput fl
