-- ===== src/Usb/Discovery.antt =====
-- `AddEvent` and `Initialize` of source/Sysmodule/source/usb_module.cpp: which devices the module
-- asks to be told of.
pub mod Events
use sys_con.Prelude.{
  ℕ, zero, suc, ◌+◌, Bool, true, false, ◌||◌, not, Option, none, some, List, [], ◌∷◌, ◌++◌, length,
  leb, ◌==◌, if◌then◌else◌,
}
use sys_con.Prelude.Int.{ℤ, pos, negsuc}
use sys_con.Config.VidPid.{VidPid}

-- The fields of a `UsbHsInterfaceFilter` that its flags select.
pub record Filter : Type 0 where
  pub vendor : Option ℕ
  pub product : Option ℕ
  pub bcd_device_min : Option ℕ
  pub interface_class : Option ℕ

abbrev pub usb_class_hid : ℕ
usb_class_hid = 3

abbrev pub max_usb_events : ℕ
max_usb_events = 3

-- `g_usbEvent`; past the limit nothing is added.
unfoldable pub add_event : Filter → List Filter → List Filter
add_event f events = if leb max_usb_events (length events) then events else events ++ f ∷ []

unfoldable pub add_events : List Filter → List Filter → List Filter
unfolding add_event
add_events [] events = events
add_events (f ∷ rest) events = add_events rest (add_event f events)

abbrev pub xbox_filter : Filter
xbox_filter = record {
  vendor = none;
  product = none;
  bcd_device_min = some 0;
  interface_class = none;
}

abbrev pub hid_filter : Filter
hid_filter = record xbox_filter { interface_class = some usb_class_hid }

abbrev known_device : VidPid → Filter
known_device v = record {
  vendor = some v.vid;
  product = if v.pid == 0 then none else some v.pid;
  bcd_device_min = none;
  interface_class = none;
}

abbrev pub known_devices : List VidPid → List Filter
known_devices [] = []
known_devices (v ∷ vs) = known_device v ∷ known_devices vs

-- `discovery_mode == n`
abbrev is_mode : ℤ → ℕ → Bool
is_mode (pos m) n = m == n
is_mode (negsuc m) n = false

abbrev when : Bool → List Filter → List Filter
when b l = if b then l else []

-- The events after `Initialize`; the modes are HID_AND_XBOX, VIDPID_AND_XBOX and VIDPID.
unfoldable pub initialize : ℤ → List VidPid → List Filter
unfolding add_events
initialize discovery_mode discovery_vidpid =
    let xbox =
      add_events (when (is_mode discovery_mode 0 || is_mode discovery_mode 1) (xbox_filter ∷ []))
        [] in
    let hid = add_events (when (is_mode discovery_mode 0) (hid_filter ∷ [])) xbox in
    add_events
      (when (is_mode discovery_mode 2 || is_mode discovery_mode 1) (known_devices discovery_vidpid))
      hid
