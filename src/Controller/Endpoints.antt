-- ===== src/Controller/Endpoints.antt =====
-- `ReadEndpointLatest`, `ReadNextBuffer` and `ReadInput` of
-- source/ControllerLib/Controllers/BaseController.cpp: how a driver reads its input endpoints.
pub mod Latest
pub mod Rotation
pub mod Turn
use sys_con.Prelude.{
  ℕ, zero, suc, ◌+◌, ◌%◌, min, Bool, true, false, Option, none, some, List, [], ◌∷◌, length, get_or,
  set, take, ◌==◌, if◌then◌else◌,
}
use sys_con.Prelude.Text.{Bytes}
use sys_con.Controller.Result.{
  ControllerResult, Reply, success, nothing_todo, timeout, report, failed, is_success,
}

-- An input endpoint: its `wMaxPacketSize`, and the replies that its next reads give, in order. When
-- they are used up a read times out.
pub record Endpoint : Type 0 where
  pub max_packet : ℕ
  pub replies : List Reply

abbrev pub no_endpoint : Endpoint
no_endpoint = record { max_packet = 0; replies = [] }

-- The drain loop: the bytes of the last report, and the replies that are left.
unfoldable pub drain : ℕ → Bytes → List Reply → Bytes × List Reply
drain capacity latest [] = (latest, [])
drain capacity latest (failed r ∷ rest) = (latest, rest)
drain capacity latest (report bytes ∷ rest) =
    let later = drain capacity (take capacity bytes) rest in
    if length (take capacity bytes) == 0 then (latest, rest) else later

-- What a read of one endpoint gives, and the endpoint afterwards.
pub record Got : Type 0 where
  pub result : ControllerResult
  pub bytes : Bytes
  pub endpoint : Endpoint

unfoldable pub first_report : ℕ → Endpoint → Bytes → List Reply → Got
unfolding drain
first_report capacity e bytes rest =
    let later = drain capacity (take capacity bytes) rest in
    if length (take capacity bytes) == 0
    then record { result = nothing_todo; bytes = []; endpoint = record e { replies = rest } }
    else record { result = success; bytes = later.0; endpoint = record e { replies = later.1 } }

unfoldable pub first_reply : ℕ → Endpoint → List Reply → Got
unfolding first_report
first_reply capacity e [] = record { result = timeout; bytes = []; endpoint = e }
first_reply capacity e (failed r ∷ rest) = record {
  result = r;
  bytes = [];
  endpoint = record e { replies = rest };
}
first_reply capacity e (report bytes ∷ rest) = first_report capacity e bytes rest

unfoldable pub read_endpoint_latest : ℕ → Endpoint → Got
unfolding first_reply
read_endpoint_latest size e = first_reply (min e.max_packet size) e e.replies

-- `m_inPipe` and `m_current_controller_idx`.
pub record Pipes : Type 0 where
  pub in_pipe : List Endpoint
  pub current_controller_idx : ℕ

-- What `ReadNextBuffer` gives; the buffer and the index count where it succeeds.
pub record Next : Type 0 where
  pub result : ControllerResult
  pub bytes : Bytes
  pub input_idx : ℕ
  pub pipes : Pipes

-- A read of the endpoint `idx`; out of bounds it would read past the vector.
unfoldable pub read_at : ℕ → ℕ → List Endpoint → Got
unfolding read_endpoint_latest
read_at size idx in_pipe = read_endpoint_latest size (get_or in_pipe idx no_endpoint)

abbrev pub after_read : ℕ → List Endpoint → Got → List Endpoint
after_read idx in_pipe got = set in_pipe idx got.endpoint

-- The blocking read at the end, which also moves on.
unfoldable pub wait : ℕ → ℕ → ℕ → Pipes → Next
unfolding read_at
wait size count input_idx p =
    let got = read_at size p.current_controller_idx p.in_pipe in
    record {
      result = got.result;
      bytes = got.bytes;
      input_idx = if is_success got.result then p.current_controller_idx else input_idx;
      pipes = record {
        in_pipe = after_read p.current_controller_idx p.in_pipe got;
        current_controller_idx = (p.current_controller_idx + 1) % count;
      };
    }

abbrev pub served : ℕ → ℕ → Pipes → Got → Next
served count idx p got = record {
  result = success;
  bytes = got.bytes;
  input_idx = idx;
  pipes = record {
    in_pipe = after_read idx p.in_pipe got;
    current_controller_idx = (idx + 1) % count;
  };
}

-- The fast pass over the endpoints, from the `i`th on, with `left` of them to go.
unfoldable pub probe : ℕ → ℕ → ℕ → ℕ → ℕ → Pipes → Next
unfolding wait read_at
probe size count input_idx zero i p = wait size count input_idx p
probe size count input_idx (suc left) i p =
    let idx = (p.current_controller_idx + i) % count in
    let got = read_at size idx p.in_pipe in
    let later =
      probe size count input_idx left (suc i)
        (record p { in_pipe = after_read idx p.in_pipe got }) in
    if is_success got.result then served count idx p got else later

unfoldable pub read_next_buffer : ℕ → ℕ → Pipes → Next
unfolding probe
read_next_buffer size input_idx p =
    let count = length p.in_pipe in
    let swept = probe size count input_idx count 0 p in
    if count == 0
    then record { result = nothing_todo; bytes = []; input_idx = input_idx; pipes = p }
    else swept
