-- ===== src/Controller/Interfaces.antt =====
-- `OpenInterfaces` of source/ControllerLib/Controllers/BaseController.cpp.
pub mod Pipes
use sys_con.Prelude.{
  ℕ, Bool, true, false, Option, none, some, List, [], ◌∷◌, ◌++◌, take, if◌then◌else◌,
}
use sys_con.Controller.Result.{ControllerResult, success, invalid_endpoint, is_success}

-- An endpoint, and what its `Open` gives.
pub record UsbEndpoint : Type 0 where
  pub id : ℕ
  pub open_rc : ControllerResult

-- An interface: what its `Open` gives, and its endpoints by their index, which may be missing.
pub record UsbInterface : Type 0 where
  pub open_rc : ControllerResult
  pub in_endpoints : List (Option UsbEndpoint)
  pub out_endpoints : List (Option UsbEndpoint)

-- `m_inPipe`, `m_outPipe`, and how many entries `m_interfaces` has.
pub record Opened : Type 0 where
  pub in_pipe : List ℕ
  pub out_pipe : List ℕ
  pub interfaces : List UsbInterface

abbrev pub nothing_open : Opened
nothing_open = record { in_pipe = []; out_pipe = []; interfaces = [] }

abbrev pub max_index : ℕ
max_index = 15

-- The loop over the indices of one direction.
unfoldable pub open_endpoints : List (Option UsbEndpoint) → List ℕ → ControllerResult × List ℕ
open_endpoints [] pipe = (success, pipe)
open_endpoints (none ∷ rest) pipe = open_endpoints rest pipe
open_endpoints (some e ∷ rest) pipe =
    let more = open_endpoints rest (pipe ++ e.id ∷ []) in
    if is_success e.open_rc then more else (e.open_rc, pipe)

abbrev after_out : UsbInterface → Opened → ControllerResult × List ℕ → ControllerResult × Opened
after_out i o (r, pipe) =
    if is_success r
    then (success, record o { out_pipe = pipe; interfaces = o.interfaces ++ i ∷ [] })
    else (r, record o { out_pipe = pipe })

abbrev after_in : UsbInterface → Opened → ControllerResult × List ℕ → ControllerResult × Opened
after_in i o (r, pipe) =
    if is_success r
    then after_out i (record o { in_pipe = pipe })
        (open_endpoints (take max_index i.out_endpoints) o.out_pipe)
    else (r, record o { in_pipe = pipe })

-- The body of the loop over the interfaces.
unfoldable pub open_interface : UsbInterface → Opened → ControllerResult × Opened
unfolding open_endpoints
open_interface i o =
    if is_success i.open_rc
    then after_in i o (open_endpoints (take max_index i.in_endpoints) o.in_pipe)
    else (i.open_rc, o)

unfoldable pub open_all : List UsbInterface → Opened → ControllerResult × Opened
unfolding open_interface
open_all [] o = (success, o)
open_all (i ∷ rest) o =
    let first = open_interface i o in
    let more = open_all rest first.1 in if is_success first.0 then more else first

abbrev pub pipe_result : List ℕ → ControllerResult
pipe_result [] = invalid_endpoint
pipe_result (e ∷ es) = success

-- The test for an input endpoint at the end.
abbrev pub check_pipes : ControllerResult × Opened → ControllerResult × Opened
check_pipes (r, o) = if is_success r then (pipe_result o.in_pipe, o) else (r, o)

-- `OpenInterfaces`, where `device_rc` is what the device's `Open` gives.
unfoldable pub open_interfaces : ControllerResult → List UsbInterface → ControllerResult × Opened
unfolding open_all
open_interfaces device_rc interfaces =
    if is_success device_rc
    then check_pipes (open_all interfaces nothing_open)
    else (device_rc, nothing_open)
