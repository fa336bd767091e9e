-- ===== src/Controller/Result.antt =====
-- `ControllerResult` of source/ControllerLib/ControllerResult.h, the interfaces that a driver reads
-- its endpoints by, and what a read gives.
use sys_con.Prelude.{Bool, true, false}
use sys_con.Prelude.Text.{Bytes}

pub data ControllerResult : Type 0 where
  success : ControllerResult
  invalid_endpoint : ControllerResult
  buffer_empty : ControllerResult
  nothing_todo : ControllerResult
  not_implemented : ControllerResult
  unexpected_data : ControllerResult
  invalid_argument : ControllerResult
  invalid_report_descriptor : ControllerResult
  hid_is_not_joystick : ControllerResult
  no_interfaces : ControllerResult
  no_data_available : ControllerResult
  out_of_memory : ControllerResult
  usb_interface_acquire : ControllerResult
  open_failed : ControllerResult
  write_failed : ControllerResult
  read_failed : ControllerResult
  timeout : ControllerResult
  usb_endpoint_open : ControllerResult
  invalid_index : ControllerResult
  unknown_error : ControllerResult

abbrev pub is_success : ControllerResult → Bool
is_success success = true
is_success _ = false

-- What one `Read` of an endpoint gives: a report, or an error.
pub data Reply : Type 0 where
  report : Bytes → Reply
  failed : ControllerResult → Reply
