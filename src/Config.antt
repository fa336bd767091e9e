-- ===== src/Config.antt =====
-- The configuration: source/ControllerLib/ControllerConfig.h (the data) and
-- source/Sysmodule/source/config_handler.{h,cpp} (the parser of its lines, and the loader).
pub mod Data
pub mod Numbers
pub mod Names
pub mod Binding
pub mod VidPid
pub mod Keys
pub mod Line
pub mod Load
pub mod Global
pub mod Combos
pub mod Valid
pub mod Override
pub mod Stream
