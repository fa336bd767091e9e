-- ===== src/Driver/Input.antt =====
-- The drivers of source/ControllerLib/Controllers/ as what `ReadInput` of their base class calls.
pub mod Newest
use sys_con.Prelude.{ℕ, length, if◌then◌else◌}
use sys_con.Prelude.Text.{Bytes}
use sys_con.Controller.Float.{Float}
use sys_con.Controller.Mapping.{RawInput}
use sys_con.Controller.Result.{is_success}
use sys_con.Controller.Endpoints.{Pipes, Next}
use sys_con.Controller.Endpoints
use sys_con.Controller.Input.{Buffered, Answer, Operations, input_buffer_size}
use sys_con.Driver.Raw.{Decoded}
use sys_con.Driver.Xbox
use sys_con.Driver.Xbox360
use sys_con.Driver.Dualshock3
use sys_con.Driver.GenericHid.{HidLibrary, Generic}
use sys_con.Driver.GenericHid
use sys_con.Driver.Switch
use sys_con.Driver.Xbox360w
use sys_con.Driver.XboxOne
use sys_con.Driver.Steam
use sys_con.Driver.Wii

-- A driver that reads its endpoints as the base class does: its own state, and the endpoints.
pub record Based (S : Type 0) : Type 0 where
  pub driver : S
  pub pipes : Pipes

abbrev buffered : {S : Type 0} → Based S → Next → Buffered × Based S
buffered s n = (
  record { result = n.result; bytes = n.bytes; input_idx = n.input_idx },
  record { driver = s.driver; pipes = n.pipes },
)

module _ (fl : Float) where
  abbrev pub answered : {S : Type 0} → Pipes → Answer fl S → Answer fl (Based S)
  answered p a = record {
    result = a.result;
    raw = a.raw;
    input_idx = a.input_idx;
    state = record { driver = a.state; pipes = p };
  }

  -- The operations of such a driver, by its size of a buffer and its `ParseData`.
  abbrev over_pipes : {S : Type 0} → ℕ → (Bytes → ℕ → RawInput fl → S → Answer fl S) → Operations fl
  over_pipes {S} size parse = record {
    State = Based S;
    max_input_buffer_size = size;
    read_next_buffer = λ n i s. buffered s (Endpoints.read_next_buffer n i s.pipes);
    parse_data = λ b i raw s. answered s.pipes (parse b i raw s.driver);
  }

  -- A driver without a state, which leaves the index.
  abbrev stateless : (Bytes → ℕ → RawInput fl → Decoded fl) → Operations fl
  stateless parse = over_pipes {S = Unit {0}} input_buffer_size (λ b i raw s. record {
    result = (parse b (length b) raw).result;
    raw = (parse b (length b) raw).raw;
    input_idx = i;
    state = s;
  })

  abbrev pub xbox : Operations fl
  xbox = stateless (Xbox.parse_data fl)

  abbrev pub xbox360 : Operations fl
  xbox360 = stateless (Xbox360.parse_data fl)

  abbrev pub dualshock3 : Operations fl
  dualshock3 = stateless (Dualshock3.parse_data fl)

  abbrev switch_answer : ℕ → Switch.Parsed fl → Answer fl Switch.Switch
  switch_answer i p = record { result = p.result; raw = p.raw; input_idx = i; state = p.switch }

  abbrev pub switch : Operations fl
  switch =
      over_pipes Switch.input_buffer_size
        (λ b i raw s. switch_answer i (Switch.parse_data fl b (length b) raw s))

  -- A controller with a descriptor, which the library `hid` reads.
  abbrev pub generic_hid : HidLibrary → Operations fl
  generic_hid hid =
      over_pipes {S = Generic hid} input_buffer_size
        (λ b i raw s. GenericHid.parse_data hid fl b (length b) i raw s)

  abbrev receiver_answer : ℕ → Xbox360w.Parsed fl → Answer fl Xbox360w.Receiver
  receiver_answer i p = record { result = p.result; raw = p.raw; input_idx = i; state = p.receiver }

  abbrev pub xbox360w : Operations fl
  xbox360w =
      over_pipes input_buffer_size
        (λ b i raw s. receiver_answer i (Xbox360w.parse_data fl b (length b) i raw s))

  abbrev wii_answer : ℕ → Wii.Parsed fl → Answer fl Wii.Wii
  wii_answer i p = record { result = p.result; raw = p.raw; input_idx = i; state = p.wii }

  abbrev wii_buffered : ℕ → Wii.Delivered × Wii.Wii → Buffered × Wii.Wii
  wii_buffered i (d, w) = (
    record {
      result = d.result;
      bytes = d.bytes;
      input_idx = if is_success d.result then d.input_idx else i;
    },
    w,
  )

  -- The adapter overrides `ReadNextBuffer`.
  abbrev pub wii : Operations fl
  wii = record {
    State = Wii.Wii;
    max_input_buffer_size = input_buffer_size;
    read_next_buffer = λ n i w. wii_buffered i (Wii.read_next_buffer w);
    parse_data = λ b i raw w. wii_answer i (Wii.parse_data fl b (length b) i raw w);
  }
