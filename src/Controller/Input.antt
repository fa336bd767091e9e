-- ===== src/Controller/Input.antt =====
-- `ReadInput` of source/ControllerLib/Controllers/BaseController.cpp, without its log, over the
-- functions that a driver overrides.
pub mod Bounds
use sys_con.Prelude.{ℕ, Bool, min, length, if◌then◌else◌, false}
use sys_con.Prelude.Text.{Bytes}
use sys_con.Config.Data.{ControllerConfig}
use sys_con.Controller.Float.{Float, zero}
use sys_con.Controller.Mapping.{RawInput, Normalized, map_raw_input_to_normalized}
use sys_con.Controller.Result.{ControllerResult, success, is_success}

-- What `ReadNextBuffer` gives; the bytes count where it succeeds.
pub record Buffered : Type 0 where
  pub result : ControllerResult
  pub bytes : Bytes
  pub input_idx : ℕ

-- The size of `input_bytes`.
abbrev pub input_buffer_size : ℕ
input_buffer_size = 256

module _ (fl : Float) where
  -- `RawInputData rawData;`, which its initializers clear.
  abbrev pub cleared : RawInput fl
  cleared = record { buttons = λ i. false; analog = λ a. zero fl }

  -- What `ParseData` gives, with the driver afterwards.
  pub record Answer (State : Type 0) : Type 0 where
    pub result : ControllerResult
    pub raw : RawInput fl
    pub input_idx : ℕ
    pub state : State

  -- The virtual functions. `ReadNextBuffer` takes the size of the buffer and the index, `ParseData`
  -- the bytes, the index and the input to fill.
  pub record Operations : Type 1 where
    pub State : Type 0
    pub max_input_buffer_size : ℕ
    pub read_next_buffer : ℕ → ℕ → State → Buffered × State
    pub parse_data : Bytes → ℕ → RawInput fl → State → Answer State

  module _ (ops : Operations) (c : ControllerConfig) where
    open ops use {State, max_input_buffer_size, read_next_buffer, parse_data}

    pub record Input : Type 0 where
      pub result : ControllerResult
      pub normal : Normalized fl
      pub input_idx : ℕ
      pub state : State

    abbrev pub mapped : Normalized fl → Answer State → Input
    mapped normal a =
        if is_success a.result
        then record {
          result = success;
          normal = map_raw_input_to_normalized fl c a.raw normal;
          input_idx = a.input_idx;
          state = a.state;
        }
        else record { result = a.result; normal = normal; input_idx = a.input_idx; state = a.state }

    abbrev pub parsed : Normalized fl → Buffered × State → Input
    parsed normal (b, s) =
        if is_success b.result
        then mapped normal (parse_data b.bytes b.input_idx cleared s)
        else record { result = b.result; normal = normal; input_idx = b.input_idx; state = s }

    unfoldable pub read_input : Normalized fl → ℕ → State → Input
    read_input normal input_idx s =
        parsed normal (read_next_buffer (min input_buffer_size max_input_buffer_size) input_idx s)
