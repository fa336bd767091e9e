-- ===== src/Driver/Output.antt =====
-- What the drivers of source/ControllerLib/Controllers/ write beside their handshakes: `SetRumble`,
-- `SetLED`, and the `Initialize` that uses them.
pub mod Rumble
use sys_con.Prelude.{
  ℕ, ◌+◌, ◌%◌, List, [], ◌∷◌, ◌++◌, leb, ltb, ◌==◌, set, get_or, replicate, if◌then◌else◌,
}
use sys_con.Prelude.Int.{pos}
use sys_con.Prelude.Text.{Bytes}
use sys_con.Controller.Float.{Float}
use sys_con.Controller.Result.{
  ControllerResult, success, invalid_index, invalid_endpoint, not_implemented, is_success,
}
use sys_con.Driver.Xbox360w.{Write}
use sys_con.Driver.XboxOne.{Sent, send_init_bytes}

-- The writes, in their order, and the result.
pub record Output : Type 0 where
  pub written : List Write
  pub result : ControllerResult

abbrev pub nothing : ControllerResult → Output
nothing r = record { written = []; result = r }

-- The driver's output endpoints: how many, and what a write of bytes to one of them gives.
module _ (out_count : ℕ) (write : ℕ → Bytes → ControllerResult) where
  abbrev pub one_write : ℕ → Bytes → Output
  one_write i b = record { written = record { input_idx = i; bytes = b } ∷ []; result = write i b }

  -- A write to an endpoint, or a result where there is none.
  abbrev pub write_or : ControllerResult → ℕ → Bytes → Output
  write_or missing i b = if leb out_count i then nothing missing else one_write i b

  -- `Xbox360Controller::SetLED`, and `Initialize` behind the one of the base class, which does not look
  -- at what `SetLED` gives; `XBOX360LED_TOPLEFT` is 6.
  unfoldable xbox360_set_led : ℕ → ℕ → Output
  xbox360_set_led i value = write_or success i (1 ∷ 3 ∷ value ∷ [])

  unfoldable xbox360_initialize : ControllerResult → Output
  unfolding xbox360_set_led
  xbox360_initialize opened =
      if is_success opened
      then record { written = (xbox360_set_led 0 6).written; result = success }
      else nothing opened

  -- `WiiController::Initialize`, which does not look at what the write gives.
  unfoldable wii_initialize : ControllerResult → Output
  wii_initialize opened =
      if is_success opened
      then if out_count == 0
        then nothing invalid_endpoint
        else record { written = (one_write 0 (19 ∷ [])).written; result = success }
      else nothing opened

  -- `XboxOneController::Initialize`, by what its `SendInitBytes` gives for endpoint 0.
  unfoldable xbox_one_initialize : ℕ → ℕ → ControllerResult → Sent
  xbox_one_initialize vendor product opened =
      if is_success opened
      then send_init_bytes (write 0) out_count 0 vendor product
      else record { written = []; result = opened }

  module _ (fl : Float) (to_u8 : fl.F → ℕ) where
    open fl use {F, of_ℤ, mul}

    -- `(uint8_t)(amp * 255)`; `to_u8` is the conversion of a `float`.
    abbrev pub amplitude : F → ℕ
    amplitude amp = to_u8 (mul amp (of_ℤ (pos 255)))

    unfoldable pub xbox360_set_rumble : ℕ → F → F → Output
    xbox360_set_rumble i high low =
        write_or invalid_index i (0 ∷ 8 ∷ 0 ∷ amplitude high ∷ amplitude low ∷ 0 ∷ 0 ∷ 0 ∷ [])

    unfoldable pub xbox_set_rumble : ℕ → F → F → Output
    xbox_set_rumble i high low =
        write_or invalid_index i (0 ∷ 6 ∷ 0 ∷ amplitude high ∷ amplitude low ∷ 0 ∷ 0 ∷ 0 ∷ [])

    unfoldable pub xbox360w_set_rumble : ℕ → F → F → Output
    xbox360w_set_rumble i high low =
        write_or invalid_index i
          (0 ∷ ((i + 1) % 256) ∷ 15 ∷ 192 ∷ 0 ∷ amplitude high ∷ amplitude low ∷ replicate 5 0)

    unfoldable pub xbox_one_set_rumble : ℕ → F → F → Output
    xbox_one_set_rumble i high low =
        write_or invalid_index i
          (9 ∷ 0 ∷ 0 ∷ 9 ∷ 0 ∷ 15 ∷ 0 ∷ 0 ∷ amplitude high ∷ amplitude low ∷ 255 ∷ 0 ∷ 0 ∷ [])

    -- `WiiController::SetRumble`, with `rumbleData` before and after.
    unfoldable pub wii_set_rumble : ℕ → F → Bytes → Output × Bytes
    wii_set_rumble i high rumble_data =
        let filled = set rumble_data (1 + i) (amplitude high) in
        if leb 4 i then (nothing invalid_index, rumble_data) else (one_write 0 filled, filled)

-- `rumbleData` of a new driver.
abbrev pub initial_rumble : Bytes
initial_rumble = 17 ∷ 0 ∷ 0 ∷ 0 ∷ 0 ∷ []

-- `SetRumble` of the base class, which the other drivers do not override.
abbrev base_set_rumble : Output
base_set_rumble = nothing not_implemented
