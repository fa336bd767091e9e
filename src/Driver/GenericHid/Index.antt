-- ===== src/Driver/GenericHid/Index.antt =====
-- Which input a controller with a HID report descriptor reports:
-- source/ControllerLib/Controllers/GenericHIDController.cpp over BaseController.cpp.
use sys_con.Prelude.{
  ℕ, ◌%◌, ◌^◌, ◌≤◌, ◌<◌, ◌≡◌, Bool, true, false, Bool-cases, inl, inr, Option, none, some, length,
  leb, min, ◌==◌, if◌then◌else◌, arith,
}
use sys_con.Prelude.Text.{Bytes}
use sys_con.Config.Data.{ControllerConfig}
use sys_con.Controller.Float.{Float}
use sys_con.Controller.Mapping.{RawInput, Normalized}
use sys_con.Controller.Result.{is_success}
use sys_con.Controller.Endpoints.{Pipes, read_next_buffer}
use sys_con.Controller.Endpoints.Turn.{HasTurn, read_next_buffer-Served}
use sys_con.Controller.Input.{Answer, Input, cleared, mapped, read_input, input_buffer_size}
use sys_con.Driver.GenericHid.{
  HidLibrary, Generic, JoystickData, max_inputs, input_count, on_data, parse_data,
}
use sys_con.Driver.Input.{Based, generic_hid, answered}

module _ (fl : Float) (hid : HidLibrary) (c : ControllerConfig) (n : ℕ) (few : n ≤ max_inputs) where
  -- The index that is reported, and the turn that is left.
  pub record InBounds (r : Input fl (generic_hid fl hid) c) : Type 0 where
    pub idx_lt : r.input_idx < max_inputs
    pub turn : HasTurn n r.state.pipes

  chosen_lt :
      (b : Bool) (d i count : ℕ)
      → leb (min count max_inputs) d ≡ false
      → i < max_inputs
      → (if b then d else i) < max_inputs
  chosen_lt true d i count e h = ground arith
  chosen_lt false d i count e h = h

  on_data-lt :
      (i : ℕ) (raw : RawInput fl) (d : Option JoystickData) (s : Generic hid)
      → i < max_inputs
      → (on_data hid fl i raw d s).input_idx < max_inputs
  unfolding on_data
  on_data-lt i raw none s h = h
  on_data-lt i raw (some d) s h = elim (Bool-cases (leb (input_count hid s) d.index)) [
    | inl t ↦ rw (t) h
    | inr f ↦ rw (f) (chosen_lt (i == 0) d.index i s.joystick_count f h)
  ]

  parse_data-lt :
      (b : Bytes) (size i : ℕ) (raw : RawInput fl) (s : Generic hid)
      → i < max_inputs
      → (parse_data hid fl b size i raw s).input_idx < max_inputs
  unfolding parse_data
  parse_data-lt b size i raw s h =
      let p = hid.parse b (size % 2 ^ 16) s.joystick in
      on_data-lt i raw p.0 (record s { joystick = p.1 }) h

  mapped-InBounds :
      (normal : Normalized fl) (p : Pipes) (a : Answer fl (Generic hid))
      → a.input_idx < max_inputs
      → HasTurn n p
      → InBounds (mapped fl (generic_hid fl hid) c normal (answered fl p a))
  mapped-InBounds normal p a h t = elim (Bool-cases (is_success a.result)) [
    | inl e ↦ rw (e) (record { idx_lt = h; turn = t })
    | inr e ↦ rw (e) (record { idx_lt = h; turn = t })
  ]

  -- Where a controller with a HID report descriptor has at most four input endpoints and the turn is
  -- that of one of them, `ReadInput` reports one of the four inputs that a handler has data for,
  -- whatever the library of descriptors gives, and leaves the turn so.
  pub read_input-InBounds :
      (normal : Normalized fl) (input_idx : ℕ) (s : Based (Generic hid))
      → input_idx < max_inputs
      → HasTurn n s.pipes
      → InBounds (read_input fl (generic_hid fl hid) c normal input_idx s)
  unfolding read_input
  read_input-InBounds normal input_idx s h t =
      let next = read_next_buffer input_buffer_size input_idx s.pipes in
      let served = read_next_buffer-Served input_buffer_size n input_idx s.pipes t in
      elim (Bool-cases (is_success next.result)) [
        | inl e ↦ rw (e) (
            mapped-InBounds normal next.pipes
              (parse_data hid fl next.bytes (length next.bytes) next.input_idx (cleared fl)
                s.driver)
              (parse_data-lt next.bytes (length next.bytes) next.input_idx (cleared fl) s.driver
                (omega (arith, served.idx_lt e, few)))
              served.turn)
        | inr e ↦
            rw (e) (record { idx_lt = omega (arith, served.idx_kept e, h); turn = served.turn })
      ]
