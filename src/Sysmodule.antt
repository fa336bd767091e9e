-- ===== src/Sysmodule.antt =====
-- What the system module runs beside the controllers: source/Sysmodule/source/{psc_module,logger}.cpp.
pub mod Power
pub mod Log
