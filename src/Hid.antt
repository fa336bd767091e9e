-- ===== src/Hid.antt =====
-- The shared memory that the module shows to games instead of the system's:
-- source/ControllerSwitch/SwitchMITMManager.{h,cpp}.
pub mod Slots
pub mod Lifo
pub mod Gamepad
pub mod Touch
pub mod Copy
pub mod Memory
pub mod Service
pub mod Hdl
pub mod Turn
pub mod Virtual
