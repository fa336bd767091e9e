-- ===== src/Config/Valid/Load.antt =====
-- The invariant of a configuration over a load (source/Sysmodule/source/config_handler.cpp).
use sys_con.Prelude.{◌≡◌, Bool, some}
use sys_con.Prelude.Text.{Bytes}
use sys_con.Config.Data.{ControllerConfig}
use sys_con.Config.Numbers.{tokens, convert_to_lowercase}
use sys_con.Config.Binding.Pins.{IsShort}
use sys_con.Config.VidPid.{VidPid, to_text}
use sys_con.Config.Line.{Entry}
use sys_con.Config.Load.{Ini, File, add_controller_to_config, load_controller_config}
use sys_con.Config.Valid.{IsValid, apply_setting-IsValid}
use sys_con.Config.Valid.Reads.{InText, load_controller_config-keeps}

-- No number among the tokens of a line's value has ten digits or more.
abbrev pub IsShortLine : Entry → Type 0
IsShortLine e = IsShort (tokens b',' e.value)

-- Where the file, as it is and with the section that the load may add behind it, has no line whose
-- value has a number of ten digits or more: if in a configuration every button has two pins that are
-- indices of the raw buttons, the percentages are bytes, and the sixteen combo slots are filled from
-- the first on, this is so after `LoadControllerConfig`, also where it stops at an error.
pub load_controller_config-IsValid :
    (ini : Ini) (stamp : Bytes) (f : File) (c : ControllerConfig) (v : VidPid) (auto : Bool)
    (profile : Bytes)
    → InText IsShortLine ini f.content
    → ((g : File)
        → add_controller_to_config stamp f (to_text v) profile ≡ some g
        → InText IsShortLine ini g.content)
    → IsValid c
    → IsValid (load_controller_config ini stamp f c v auto profile).config
load_controller_config-IsValid ini stamp f c v auto profile here there h =
    load_controller_config-keeps IsShortLine IsValid
      (λ c e s k. apply_setting-IsValid c (convert_to_lowercase e.name) e.value s k) ini stamp f v
      profile here there c auto h
