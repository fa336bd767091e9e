-- ===== src/Lib.antt =====
-- sys-con: a system module of the Nintendo Switch that makes USB controllers work as Switch ones.
--
-- The program's parts, and the files that model them. Every path is one of the repository.
--
--   A USB device arrives. `UsbEventThreadFunc` (source/Sysmodule/source/usb_module.cpp) finds it
--   by five queries, loads its configuration, chooses a driver by name and inserts a handler for
--   it (controller_handler.cpp beside it); another thread removes the handlers of unplugged
--   devices. Usb: Discovery is `AddEvent` and `Initialize`, Arrival the turns of the event
--   thread, Removal those of the other one, Handlers the list of handlers; Endpoint and Interface
--   are SwitchUSBEndpoint.cpp, SwitchUSBInterface.cpp and SwitchUSBDevice.cpp of
--   source/ControllerSwitch/, over what libnx answers; a read also gives the calls of libnx that
--   it makes. `available` stands for the console's
--   queries, `initialized` for what the handler's `Initialize` gives; Limit has the steps of the
--   threads as a relation.
--
--   The configuration (source/Sysmodule/source/config_handler.{h,cpp},
--   source/ControllerLib/ControllerConfig.h). Config: Data is the class and its enumerations,
--   Numbers, Names and Binding are the parsers of values, VidPid the class `ControllerVidPid`,
--   Keys and Line the handlers of a line, Stream the reader of lines, Load the loader with the
--   section that it adds. A table of names stands for a chain of comparisons, in its order. An
--   array indexed by an enumeration is a function. The handlers cut values up with `strtok_r`; a
--   value is a list of bytes.
--
--   The driver's base class (source/ControllerLib/Controllers/BaseController.{h,cpp}).
--   Controller: Interfaces is `OpenInterfaces`, over the results of opening; Endpoints is
--   `ReadEndpointLatest` and `ReadNextBuffer`, where an endpoint is the list of replies that its
--   next reads give; Analog is `Normalize` and `ApplyDeadzone`; Mapping is
--   `MapRawInputToNormalized`, without its log; Input is `ReadInput` over the functions that a
--   driver overrides, `Operations`. Float holds the operations of `float` that they use, as a
--   parameter, and the laws of IEEE 754 that the proofs need. `ReadBitsLE` is in Driver.Switch.
--
--   The nine drivers (source/ControllerLib/Controllers/). Driver: Xbox, Xbox360, Dualshock3,
--   Switch, Xbox360w, XboxOne, Wii, Steam and GenericHid are XboxController.cpp,
--   Xbox360Controller.cpp, Dualshock3Controller.cpp, SwitchController.cpp,
--   Xbox360WirelessController.cpp, XboxOneController.cpp, WiiController.cpp,
--   SteamController2026.cpp and GenericHIDController.cpp; Report and Raw how they read a packed
--   report and fill a `RawInputData`; Output their `SetRumble` and `SetLED`, and the `Initialize`
--   of some. What a write or a transfer returns is a parameter where the code looks at it, and so
--   is the library that reads HID descriptors, `HidLibrary`. Input gives drivers as what
--   `ReadInput` calls.
--
--   The way to the games (source/ControllerSwitch/). Hid: Slots is the eight players of
--   SwitchMITMManager.cpp, Lifo the ring of states of a player in the memory of each process,
--   Gamepad what `UpdateInput` of SwitchVirtualGamepadHandler.cpp does with an input, and its
--   `Exit`, with the operations of SwitchMITMHandler.cpp; Turn `UpdateInput` as a whole, over a
--   driver, where `Libnx` stands for the bits and ranges of libnx; Touch the copy of touch screen
--   states in `OnRun`, Copy its `memcpy_64`, Memory the list of processes that were given a
--   memory, where `Pmdmnt` stands for what the console knows of running programs, Service what
--   hid_mitm_service.cpp and hid_mitm_module.cpp decide, Hdl the operations of
--   SwitchHDLHandler.cpp over what the hiddbg service answers, Virtual `UpdateInput` over the
--   functions that the handlers of both files override. A `shared_ptr` is an identity or null; a
--   call through a null one is an outcome of its own.
--
--   Beside the controllers (source/Sysmodule/source/). Sysmodule: Power is the thread of
--   psc_module.cpp over the requests that it gets, Log is logger.cpp over the bytes of its file.
--
-- Machine integers: a conversion to an unsigned type of w bits is `% 2 ^ w` on the value, written
-- `wrap w`; `atoi` and `strtol` clamp and convert as on the target, where `long` has 64 bits and
-- `int` has 32. The loops go over a list, over the text, or a fixed number of times, and the loop
-- that drains an endpoint over its replies. The rows of a logged buffer have as many turns as it
-- has bytes, which are more than it needs. Only the flush of the Switch driver, which has no
-- bound, runs on fuel: one more than the reads that succeed is enough, and `none` is a flush that
-- did not end yet.
--
-- Not modelled: the parser of ini files (source/Ini, a copy of inih; its entries and its error
-- are a parameter), files, clocks, threads and locks, the text of log messages, the framework
-- under the service that replaces hid, the start-up, and the companion application and tools. The
-- threads are modelled by their turns, each as one step.
--
-- Tests holds concrete inputs and the theorems applied to them.
pub mod Prelude
pub mod Config
pub mod Controller
pub mod Driver
pub mod Hid
pub mod Usb
pub mod Sysmodule
pub mod Tests
