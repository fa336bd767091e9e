-- ===== src/Usb.antt =====
-- Devices that come and go: source/Sysmodule/source/{usb_module,controller_handler}.cpp.
pub mod Handlers
pub mod Discovery
pub mod Arrival
pub mod Removal
pub mod Endpoint
pub mod Interface
