-- ===== src/Controller/Input/Bounds.antt =====
-- What `ReadInput` of source/ControllerLib/Controllers/BaseController.cpp leaves of the input that it
-- is to fill.
use sys_con.Prelude.{ℕ, ◌≡◌, ◌⊎◌, refl, Bool-cases, inl, inr, true, min}
use sys_con.Config.Data.{ControllerConfig}
use sys_con.Controller.Float.{Float, FloatLaws}
use sys_con.Controller.Analog.{InUnit}
use sys_con.Controller.Mapping.{Axis, Normalized}
use sys_con.Controller.Mapping.Sticks.{map_raw_input_to_normalized-InUnit}
use sys_con.Controller.Result.{is_success}
use sys_con.Controller.Input.{
  Answer, Operations, Input, Buffered, mapped, parsed, read_input, cleared, input_buffer_size,
}

module _ (fl : Float) (laws : FloatLaws fl) (ops : Operations fl) (c : ControllerConfig) where
  abbrev pub Keeps : Normalized fl → Input fl ops c → Type 0
  Keeps normal r =
      ((is_success r.result ≡ true) ⊎ (r.normal ≡ normal))
      × ((b : Axis) → InUnit fl (r.normal.sticks b))

  mapped-Keeps :
      (normal : Normalized fl) (a : Answer fl ops.State)
      → ((b : Axis) → InUnit fl (normal.sticks b))
      → Keeps normal (mapped fl ops c normal a)
  mapped-Keeps normal a h = elim (Bool-cases (is_success a.result)) [
    | inl t ↦ rw (t) (inl refl, map_raw_input_to_normalized-InUnit fl laws c a.raw normal h)
    | inr f ↦ rw (f) (inr refl, h)
  ]

  parsed-Keeps :
      (normal : Normalized fl) (n : Buffered × ops.State)
      → ((b : Axis) → InUnit fl (normal.sticks b))
      → Keeps normal (parsed fl ops c normal n)
  parsed-Keeps normal (b, s) h = elim (Bool-cases (is_success b.result)) [
    | inl t ↦ rw (t) (mapped-Keeps normal (ops.parse_data b.bytes b.input_idx (cleared fl) s) h)
    | inr f ↦ rw (f) (inr refl, h)
  ]

  -- For any driver, and numbers that meet the laws of IEEE 754 in `FloatLaws`: if the sticks are within
  -- [-1, 1], they are so after `ReadInput`; and it succeeds or leaves the whole input as it was.
  pub read_input-Keeps :
      (normal : Normalized fl) (input_idx : ℕ) (s : ops.State)
      → ((b : Axis) → InUnit fl (normal.sticks b))
      → Keeps normal (read_input fl ops c normal input_idx s)
  unfolding read_input
  read_input-Keeps normal input_idx s h =
      parsed-Keeps normal
        (ops.read_next_buffer (min input_buffer_size ops.max_input_buffer_size) input_idx s) h
