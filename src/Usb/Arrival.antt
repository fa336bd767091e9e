-- ===== src/Usb/Arrival.antt =====
-- `UsbEventThreadFunc` of source/Sysmodule/source/usb_module.cpp: from a device that was plugged to a
-- controller in use.
pub mod Chosen
pub mod Limit
use sys_con.Prelude.{
  ℕ, zero, suc, ◌+◌, Bool, true, false, Option, none, some, List, [], ◌∷◌, length, take, ◌==◌,
  if◌then◌else◌,
}
use sys_con.Prelude.Text.{Bytes, codes, bytes_eq}
use sys_con.Config.Data.{ControllerConfig, initial_config}
use sys_con.Config.VidPid.{VidPid}
use sys_con.Config.Names.{lookup_name}
use sys_con.Config.Load.{Ini, File, load_controller_config}
use sys_con.Usb.Discovery.{usb_class_hid}
use sys_con.Usb.Handlers.{Handler, is_at_controller_limit, insert}

-- What the module uses of a `UsbHsInterface`.
pub record Interface : Type 0 where
  pub id : ℕ
  pub id_vendor : ℕ
  pub id_product : ℕ

-- The filter of a query: a class, and for the vendor ones a subclass and a protocol.
pub record Query : Type 0 where
  pub class : ℕ
  pub subclass_protocol : Option (ℕ × ℕ)

-- `usbHsQueryAvailableInterfaces`: the interfaces, or an error.
abbrev pub Available : Type 0
Available = Query → Option (List Interface)

abbrev usb_class_vendor_spec : ℕ
usb_class_vendor_spec = 255

abbrev by_class : ℕ → Query
by_class c = record { class = c; subclass_protocol = none }

abbrev by_protocol : ℕ → ℕ → ℕ → Query
by_protocol c s p = record { class = c; subclass_protocol = some (s, p) }

-- `QueryAvailableInterfacesByClass` and `QueryAvailableInterfacesByClassSubClassProtocol`.
abbrev pub query : Available → Query → List Interface
query available q = elim (available q) [ none ↦ [] | some l ↦ l ]

-- The queries in the order that the condition makes them, each with the profile of its devices.
abbrev pub queries : List (Query × Bytes)
queries =
    (by_protocol usb_class_vendor_spec 93 1, codes "xbox360")
    ∷ (by_protocol usb_class_vendor_spec 93 129, codes "xbox360w")
    ∷ (by_protocol usb_class_vendor_spec 71 208, codes "xboxone")
    ∷ (by_protocol 88 66 0, codes "xbox")
    ∷ (by_class usb_class_hid, [])
    ∷ []

-- The interfaces of a device that was found, and the profile for it.
pub record Found : Type 0 where
  pub first : Interface
  pub others : List Interface
  pub default_profile : Bytes

abbrev pub found_in : List Interface → Bytes → Option Found → Option Found
found_in [] profile later = later
found_in (i ∷ is) profile later =
    some (record { first = i; others = is; default_profile = profile })

-- The condition, whose `||` stops at the first query with an interface.
unfoldable pub find_device : Available → List (Query × Bytes) → Option Found
find_device available [] = none
find_device available ((q, profile) ∷ rest) =
    found_in (query available q) profile (find_device available rest)

pub data Driver : Type 0 where
  dualshock3 xbox360w xbox360 xboxone xbox switch wii steam2026 generic : Driver

abbrev driver_names : List (Bytes × Driver)
driver_names =
    (codes "dualshock3", dualshock3)
    ∷ (codes "xbox360w", xbox360w)
    ∷ (codes "xbox360", xbox360)
    ∷ (codes "xboxone", xboxone)
    ∷ (codes "xbox", xbox)
    ∷ (codes "switch", switch)
    ∷ (codes "wii", wii)
    ∷ (codes "steam2026", steam2026)
    ∷ []

abbrev or_generic : Option Driver → Driver
or_generic none = generic
or_generic (some d) = d

-- The chain of tests of `config.driver`.
unfoldable driver_of : Bytes → Driver
unfolding lookup_name
driver_of name = or_generic (lookup_name name driver_names)

-- A generic device takes one interface only, the others all that were found.
unfoldable interfaces_of : Driver → Found → List Interface
interfaces_of generic f = f.first ∷ []
interfaces_of _ f = f.first ∷ f.others

abbrev ids : List Interface → List ℕ
ids [] = []
ids (i ∷ is) = i.id ∷ ids is

-- A controller that the module makes.
pub record Made : Type 0 where
  pub driver : Driver
  pub interfaces : List Interface
  pub config : ControllerConfig

-- How long the next wait is: one millisecond, or for ever.
pub data Wait : Type 0 where
  one_ms : Wait
  until_event : Wait

-- One turn of the thread: the controller that it makes, its next wait, and the handlers.
pub record Turn : Type 0 where
  pub made : Option Made
  pub timeout : Wait
  pub handlers : List Handler
  pub file : File

module _ (ini : Ini) (stamp : Bytes) (auto_add_controller : Bool) where
  -- The device as the configuration file wants it. The result of the load is not looked at.
  unfoldable make_controller : Found → File → Made × File
  unfolding load_controller_config driver_of interfaces_of
  make_controller d f =
      let l =
        load_controller_config ini stamp f initial_config
          (record { vid = d.first.id_vendor; pid = d.first.id_product }) auto_add_controller
          d.default_profile in
      let driver = driver_of l.config.driver in
      (record { driver = driver; interfaces = interfaces_of driver d; config = l.config }, l.file)

  -- The body behind the limit test; `initialized` is what the handler's `Initialize` gives.
  unfoldable pub add_device : (Made → Bool) → Found → File → List Handler → Turn
  unfolding make_controller insert
  add_device initialized d f handlers =
      let (m, g) = make_controller d f in
      record {
        made = some m;
        timeout = one_ms;
        handlers = insert (initialized m) (record { interface_ids = ids m.interfaces }) handlers;
        file = g;
      }

  unfoldable pub on_found : (Made → Bool) → Option Found → File → List Handler → Turn
  unfolding add_device is_at_controller_limit
  on_found initialized none f handlers = record {
    made = none;
    timeout = until_event;
    handlers = handlers;
    file = f;
  }
  on_found initialized (some d) f handlers =
      if is_at_controller_limit handlers
      then record { made = none; timeout = one_ms; handlers = handlers; file = f }
      else add_device initialized d f handlers

  unfoldable pub on_event : Available → (Made → Bool) → File → List Handler → Turn
  unfolding on_found find_device
  on_event available initialized f handlers =
      on_found initialized (find_device available queries) f handlers
