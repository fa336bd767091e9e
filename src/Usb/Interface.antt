-- ===== src/Usb/Interface.antt =====
-- Interfaces and devices: source/ControllerSwitch/SwitchUSBInterface.cpp and SwitchUSBDevice.cpp over
-- libnx.
pub mod Pipes
pub mod Transfer
use sys_con.Prelude.{
  ℕ, zero, suc, ◌/◌, ◌%◌, Bool, true, false, not, ◌&&◌, ◌||◌, Option, none, some, List, [], ◌∷◌,
  ◌++◌, map, length, get_or, take, drop, replicate, ltb, leb, ◌==◌, if◌then◌else◌,
}
use sys_con.Prelude.Text.{Bytes}
use sys_con.Controller.Result.{
  ControllerResult, success, no_interfaces, usb_interface_acquire, invalid_argument, unknown_error,
}
use sys_con.Controller.Interfaces.{UsbEndpoint, UsbInterface}
use sys_con.Usb.Endpoint.{Descriptor, open_endpoint}

-- `SWITCH_USB_MAX_ENDPOINTS`
abbrev pub max_endpoints : ℕ
max_endpoints = 15

-- What libnx gives for an acquired interface: the descriptors of both directions.
pub record Session : Type 0 where
  pub input_descs : List Descriptor
  pub output_descs : List Descriptor

-- The two arrays of endpoints. An endpoint is its descriptor.
pub record Interface : Type 0 where
  pub in_endpoints : List (Option Descriptor)
  pub out_endpoints : List (Option Descriptor)

abbrev initial_interface : Interface
initial_interface = record {
  in_endpoints = replicate max_endpoints none;
  out_endpoints = replicate max_endpoints none;
}

-- A loop over the descriptors of one direction.
unfoldable pub fill : List Descriptor → List (Option Descriptor) → List (Option Descriptor)
fill [] es = es
fill (d ∷ ds) [] = []
fill (d ∷ ds) (e ∷ es) = (if d.length == 0 then e else some d) ∷ fill ds es

-- `Open`, where libnx gives a session or an error.
unfoldable pub open_interface : Option Session → Interface → ControllerResult × Interface
unfolding fill
open_interface none i = (usb_interface_acquire, i)
open_interface (some s) i = (
  success,
  record {
    in_endpoints = fill s.input_descs i.in_endpoints;
    out_endpoints = fill s.output_descs i.out_endpoints;
  },
)

-- `GetEndpoint`, with the array of the direction.
unfoldable get_endpoint : List (Option Descriptor) → ℕ → Option Descriptor
get_endpoint es index = if leb max_endpoints index then none else get_or es index none

abbrev closed : Option Descriptor → List ℕ
closed none = []
closed (some d) = d.address ∷ []

-- `Close`: the addresses of the endpoints that it closes, before the session.
unfoldable close : List (Option Descriptor) → List (Option Descriptor) → List ℕ
close (i ∷ is) (o ∷ os) = closed i ++ closed o ++ close is os
close [] os = []
close (i ∷ is) [] = []

-- `SwitchUSBDevice::Open`, for as many interfaces.
unfoldable pub open_device : ℕ → ControllerResult
open_device count = if count == 0 then no_interfaces else success

-- `GetEndpoint` for `left` indices from `index` on.
unfoldable pub by_index : ℕ → ℕ → List (Option Descriptor) → List (Option Descriptor)
unfolding get_endpoint
by_index zero index es = []
by_index (suc left) index es = get_endpoint es index ∷ by_index left (suc index) es

-- An interface as `OpenInterfaces` of a driver meets it: what its `Open` gives, and then what
-- `GetEndpoint` and `Open` of an endpoint give. `opens` is whether libnx opens an endpoint.
module _ (opens : Descriptor → ℕ → Bool) where
  abbrev pub met : ℕ → Option Descriptor → Option UsbEndpoint
  met max_packet_size none = none
  met max_packet_size (some d) =
      some (record { id = d.address; open_rc = open_endpoint opens max_packet_size d })

  abbrev pub met_all : ℕ → List (Option Descriptor) → List (Option UsbEndpoint)
  met_all max_packet_size es = map (met max_packet_size) (by_index max_endpoints 0 es)

  unfoldable pub as_interface : ℕ → ℕ → Option Session → UsbInterface
  unfolding open_interface by_index
  as_interface in_max out_max session =
      let o = open_interface session initial_interface in
      record {
        open_rc = o.0;
        in_endpoints = met_all in_max o.1.in_endpoints;
        out_endpoints = met_all out_max o.1.out_endpoints;
      }

-- `bmRequestType & USB_ENDPOINT_IN`
abbrev pub is_input : ℕ → Bool
is_input request_type = request_type / 128 % 2 == 1

-- What a control transfer gives: the result, the bytes that the caller gets, whether libnx was called,
-- what it was given, and `m_usb_buffer` afterwards.
pub record Transferred : Type 0 where
  pub result : ControllerResult
  pub bytes : Bytes
  pub called : Bool
  pub sent : Bytes
  pub usb_buffer : Bytes

abbrev not_called : Bytes → Transferred
not_called usb_buffer = record {
  result = invalid_argument;
  bytes = [];
  called = false;
  sent = [];
  usb_buffer = usb_buffer;
}

-- The first bytes of a buffer overwritten.
abbrev pub over : Bytes → Bytes → Bytes
over b usb_buffer = b ++ drop (length b) usb_buffer

-- The copy before a transfer to the device.
abbrev copied : Option Bytes → ℕ → Bytes → Bytes
copied none len usb_buffer = usb_buffer
copied (some b) len usb_buffer = over (take len b) usb_buffer

unfoldable pub on_answer : Bool → ℕ → Bytes → Option Bytes → Transferred
on_answer has_buffer len usb_buffer none = record {
  result = unknown_error;
  bytes = [];
  called = true;
  sent = [];
  usb_buffer = usb_buffer;
}
on_answer has_buffer len usb_buffer (some b) =
    let fits = has_buffer && leb (length b) len in
    record {
      result = if fits then success else invalid_argument;
      bytes = if fits then b else [];
      called = true;
      sent = [];
      usb_buffer = over b usb_buffer;
    }

-- `ControlTransferInput`, where `answer` is what the transfer brings, or an error.
unfoldable pub control_transfer_input : ℕ → Bool → ℕ → Option Bytes → Bytes → Transferred
unfolding on_answer
control_transfer_input request_type has_buffer len answer usb_buffer =
    if is_input request_type
    then on_answer has_buffer len usb_buffer answer
    else not_called usb_buffer

-- `ControlTransferOutput` of a buffer, which may be null; `accepts` is whether the transfer succeeds.
unfoldable pub control_transfer_output : ℕ → Option Bytes → ℕ → (Bytes → Bool) → Bytes → Transferred
control_transfer_output request_type buffer len accepts usb_buffer =
    if is_input request_type then not_called usb_buffer else record {
      result = if accepts (take len (copied buffer len usb_buffer)) then success else unknown_error;
      bytes = [];
      called = true;
      sent = take len (copied buffer len usb_buffer);
      usb_buffer = copied buffer len usb_buffer;
    }
