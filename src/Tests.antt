-- ===== src/Tests.antt =====
-- Concrete inputs: tests of the definitions, and the theorems applied.
mod Config
mod Controller
mod Hid
mod Usb
mod Sysmodule
mod Driver
mod Memory
mod Virtual
mod Input
mod Loader
mod Drivers
