-- ===== src/Driver.antt =====
-- The drivers of single devices, source/ControllerLib/Controllers/.
pub mod Locality
pub mod Fields
pub mod Report
pub mod Raw
pub mod Output
pub mod Input
pub mod Xbox
pub mod Xbox360
pub mod Dualshock3
pub mod GenericHid
pub mod Steam
pub mod Switch
pub mod Wii
pub mod Xbox360w
pub mod XboxOne
