-- ===== src/Usb/Endpoint.antt =====
-- Endpoints: source/ControllerSwitch/SwitchUSBEndpoint.cpp over libnx.
pub mod Pending
use sys_con.Prelude.{
  ℕ, zero, suc, ◌+◌, ◌-◌, ◌++◌, ◌*◌, ◌^◌, Bool, true, false, not, ◌||◌, Option, none, some, List,
  [], ◌∷◌, length, ◌==◌, if◌then◌else◌,
}
use sys_con.Prelude.Text.{Bytes}
use sys_con.Controller.Result.{
  ControllerResult, success, read_failed, write_failed, usb_endpoint_open, timeout,
  no_data_available,
}

-- A `UsbHsXferReport`, with the count that `usbHsEpGetXferReport` gives and the bytes that the
-- transfer left in the buffer, as many as `transferredSize`.
pub record XferReport : Type 0 where
  pub count : ℕ
  pub xfer_id : ℕ
  pub bytes : Bytes
  pub res_ok : Bool

-- What libnx answers to the calls of one read: the id of a new transfer or an error, whether the
-- event comes in time, and the report or an error.
pub record Answers : Type 0 where
  pub posted : Option ℕ
  pub event : Bool
  pub reported : Option XferReport

-- `m_xferIdRead`, 0 where no transfer is waited for.
pub record Reader : Type 0 where
  pub xfer_id_read : ℕ

abbrev pub initial_reader : Reader
initial_reader = record { xfer_id_read = 0 }

-- The calls of libnx that a read makes: to post a transfer, with its id or an error, to wait for the
-- event, which comes or not, and to ask for the report.
pub data Call : Type 0 where
  post : Option ℕ → Call
  wait : Bool → Call
  report : Call
  post_sync : Call

-- The result, the bytes that the caller sees, the state, and the calls in their order.
pub record Read : Type 0 where
  pub result : ControllerResult
  pub bytes : Bytes
  pub reader : Reader
  pub calls : List Call

abbrev no_bytes : ControllerResult → Reader → List Call → Read
no_bytes r s calls = record { result = r; bytes = []; reader = s; calls = calls }

-- Behind the report; `id` is the transfer that was waited for.
unfoldable pub on_report : ℕ → XferReport → Reader → List Call → Read
on_report id r s calls =
    if r.count == 0 || not (id == r.xfer_id)
    then no_bytes no_data_available s calls
    else if length r.bytes == 0
    then no_bytes no_data_available s calls
    else record {
      result = if r.res_ok then success else read_failed;
      bytes = r.bytes;
      reader = s;
      calls = calls;
    }

abbrev reported_as : ℕ → Option XferReport → Reader → List Call → Read
reported_as id none s calls = no_bytes read_failed s calls
reported_as id (some r) s calls = on_report id r s calls

-- Behind the post; `calls` are those before.
unfoldable pub await_event : Answers → Reader → List Call → Read
unfolding on_report
await_event a s calls =
    if a.event
    then reported_as s.xfer_id_read a.reported (record { xfer_id_read = 0 })
        (calls ++ wait true ∷ report ∷ [])
    else no_bytes timeout s (calls ++ wait false ∷ [])

abbrev posted_as : Answers → Option ℕ → Reader → Read
posted_as a none s = no_bytes read_failed s (post none ∷ [])
posted_as a (some id) s = await_event a (record { xfer_id_read = id }) (post (some id) ∷ [])

-- `ReadAsync`
unfoldable pub read_async : Answers → Reader → Read
unfolding await_event
read_async a s = if s.xfer_id_read == 0 then posted_as a a.posted s else await_event a s []

-- `ReadSync` with the bytes of its transfer, or an error.
unfoldable read_sync : Option Bytes → Reader → Read
read_sync none s = no_bytes read_failed s (post_sync ∷ [])
read_sync (some b) s =
    if length b == 0
    then no_bytes no_data_available s (post_sync ∷ [])
    else record { result = success; bytes = b; reader = s; calls = post_sync ∷ [] }

-- `Read`
unfoldable pub read : ℕ → Answers → Option Bytes → Reader → Read
unfolding read_async read_sync
read timeout_us a sync s = if timeout_us == 2 ^ 64 - 1 then read_sync sync s else read_async a s

-- The fields of `usb_endpoint_descriptor` that the file and SwitchUSBInterface.cpp read.
pub record Descriptor : Type 0 where
  pub length : ℕ
  pub address : ℕ
  pub max_packet_size : ℕ
  pub interval : ℕ

-- The size that `Open` asks for.
abbrev packet_size : ℕ → Descriptor → ℕ
packet_size max_packet_size d = if max_packet_size == 0 then d.max_packet_size else max_packet_size

-- `Open`; `opens` is whether libnx opens an endpoint for packets of a size.
unfoldable pub open_endpoint : (Descriptor → ℕ → Bool) → ℕ → Descriptor → ControllerResult
open_endpoint opens max_packet_size d =
    if opens d (packet_size max_packet_size d) then success else usb_endpoint_open

-- What `Write` gives, the bytes that it posted, and how long it sleeps then, in nanoseconds.
pub record Written : Type 0 where
  pub result : ControllerResult
  pub posted : Bytes
  pub slept_ns : ℕ

-- `Write`; `posts` is whether the transfer succeeds.
unfoldable pub write : (Bytes → Bool) → Descriptor → Bytes → Written
write posts d b =
    if posts b
    then record { result = success; posted = b; slept_ns = d.interval * 1000000 }
    else record { result = write_failed; posted = b; slept_ns = 0 }
