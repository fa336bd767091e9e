-- ===== src/Controller.antt =====
-- The platform-independent driver: source/ControllerLib/Controllers/BaseController.{h,cpp}.
pub mod Float
pub mod Analog
pub mod Mapping
pub mod Result
pub mod Endpoints
pub mod Interfaces
pub mod Input
