-- ===== src/Driver/Input/Newest.antt =====
-- From the endpoint of a wired Xbox 360 controller to the input that its handler gets:
-- source/ControllerLib/Controllers/BaseController.cpp with Xbox360Controller.cpp.
use sys_con.Prelude.{
  ℕ, ◌≤◌, ◌≡◌, refl, ltb, false, min, List, [], ◌∷◌, length, take, length-take, arith,
}
use sys_con.Prelude.Text.{Bytes}
use sys_con.Config.Data.{ControllerConfig}
use sys_con.Controller.Float.{Float}
use sys_con.Controller.Mapping.{RawInput, Normalized, map_raw_input_to_normalized}
use sys_con.Controller.Result.{ControllerResult, Reply, success, failed}
use sys_con.Controller.Endpoints.{Endpoint, Pipes, read_endpoint_latest, read_next_buffer}
use sys_con.Controller.Endpoints.Latest.{queued, newest, AllFull, read_endpoint_latest-newest}
use sys_con.Controller.Input.{cleared, read_input}
use sys_con.Driver.Report.{byte}
use sys_con.Driver.Xbox360.{button_data, parse_data}
use sys_con.Driver.Fields.{byte-take, xbox360_fields}
use sys_con.Driver.Input.{Based, xbox360}

abbrev pub one_endpoint : Endpoint → Pipes
one_endpoint e = record { in_pipe = e ∷ []; current_controller_idx = 0 }

read_only_endpoint :
    (size : ℕ) (e e' : Endpoint) (bytes : Bytes)
    → read_endpoint_latest size e ≡ record { result = success; bytes = bytes; endpoint = e' }
    → read_next_buffer size 0 (one_endpoint e)
      ≡ record { result = success; bytes = bytes; input_idx = 0; pipes = one_endpoint e' }
unfolding read_next_buffer
read_only_endpoint size e e' bytes h = rw (h) refl

-- The part of a report that the buffer holds is parsed as the report is.
parse_data-take :
    (fl : Float) (n : ℕ) (y : Bytes) (raw : RawInput fl)
    → 14 ≤ n
    → 14 ≤ length y
    → byte y 0 ≡ 0
    → parse_data fl (take n y) (length (take n y)) raw
      ≡ record { result = success; raw = button_data fl y raw }
unfolding parse_data
parse_data-take fl n y raw h k kind =
    let whole : ltb (length (take n y)) 14 ≡ false = ground (arith, length-take n y) in
    rw (whole, byte-take n y 0 (omega arith), kind, xbox360_fields fl y n raw h) refl

-- Where a wired Xbox 360 controller has one input endpoint, with packets of 14 bytes or more, at which
-- reports wait that are not empty, until a read fails: if the newest one is whole and a report of
-- buttons, `ReadInput` succeeds with the mapping of its fields, and no report is left to be read later.
pub read_input-newest :
    (fl : Float) (c : ControllerConfig) (normal : Normalized fl) (max_packet : ℕ)
    → (x : Bytes) (xs : List Bytes) (r : ControllerResult) (rest : List Reply) → 14 ≤ max_packet
    → AllFull (x ∷ xs)
    → 14 ≤ length (newest x xs)
    → byte (newest x xs) 0 ≡ 0
    → let at = λ (l : List Reply).
      let s : Based (Unit {0}) = record {
        driver = tt;
        pipes = one_endpoint (record { max_packet = max_packet; replies = l });
      } in
      s in
      read_input fl (xbox360 fl) c normal 0 (at (queued (x ∷ xs) (failed r ∷ rest))) ≡ record {
        result = success;
        normal =
            map_raw_input_to_normalized fl c (button_data fl (newest x xs) (cleared fl)) normal;
        input_idx = 0;
        state = at rest;
      }
unfolding read_input
read_input-newest fl c normal max_packet x xs r rest h full whole kind =
    let e =
      read_only_endpoint 256 _ _ _
        (read_endpoint_latest-newest 256 max_packet x xs r rest (omega arith) (omega arith) full) in
    rw
      (
        e,
        parse_data-take fl (min max_packet 256) (newest x xs) (cleared fl) (omega arith) whole kind,
      )
      refl
