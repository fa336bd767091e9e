-- ===== src/Controller/Mapping/Loaded.antt =====
-- The combos of a configuration that source/Sysmodule/source/config_handler.cpp loads, as
-- source/ControllerLib/Controllers/BaseController.cpp runs them.
use sys_con.Prelude.{◌≡◌, Bool}
use sys_con.Prelude.Text.{Bytes}
use sys_con.Config.Data.{initial_config}
use sys_con.Config.VidPid.{VidPid}
use sys_con.Config.Load.{Ini, File, load_controller_config}
use sys_con.Config.Valid.{initial_config-IsValid}
use sys_con.Config.Valid.Packed.{HasPacked, load_controller_config-HasPacked}
use sys_con.Controller.Mapping.{NormalizedButtons, simulate_buttons}
use sys_con.Controller.Mapping.Buttons.{run_all, simulate_buttons-run_all}

-- For a device whose configuration was loaded from any file, with any answers of the parser, every
-- combo of the configuration runs: none stands behind the empty slot at which the driver stops.
pub simulate_buttons-loaded :
    (ini : Ini) (stamp : Bytes) (f : File) (v : VidPid) (auto : Bool) (profile : Bytes)
    (b : NormalizedButtons)
    → let c = (load_controller_config ini stamp f initial_config v auto profile).config in
      simulate_buttons c.simulate_combos b ≡ run_all c.simulate_combos b
unfolding HasPacked
simulate_buttons-loaded ini stamp f v auto profile b = simulate_buttons-run_all b (
    load_controller_config-HasPacked ini stamp f initial_config v auto profile
      initial_config-IsValid.packed)
