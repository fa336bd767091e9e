-- ===== src/Config/Line.antt =====
-- The two handlers of source/Sysmodule/source/config_handler.cpp that the ini parser calls once for
-- each line. Both always return 1.
use sys_con.Prelude.{
  ℕ, Bool, true, false, not, Option, none, some, List, [], ◌∷◌, ◌++◌, map, ◌-◌, ltb, ◌==◌,
  if◌then◌else◌,
}
use sys_con.Prelude.Int.{ℤ, pos, negsuc, wrap}
use sys_con.Prelude.Text.{Bytes, codes, bytes_eq}
use sys_con.Config.Data.{ControllerConfig}
use sys_con.Config.Numbers.{convert_to_lowercase, atoi, tokens}
use sys_con.Config.Names.{lookup_name}
use sys_con.Config.VidPid.{VidPid, of_text}
use sys_con.Config.Keys.{apply_setting}

-- What the ini parser hands to a handler.
pub record Entry : Type 0 where
  pub section : Bytes
  pub name : Bytes
  pub value : Bytes

-- `ConfigINIData` over a controller's configuration.
pub record IniData : Type 0 where
  pub ini_section : Bytes
  pub ini_section_found : Bool
  pub config : ControllerConfig

unfoldable pub ini_data : Bytes → ControllerConfig → IniData
unfolding convert_to_lowercase
ini_data section config = record {
  ini_section = convert_to_lowercase section;
  ini_section_found = false;
  config = config;
}

unfoldable pub parse_controller_config_line : IniData → Entry → IniData
parse_controller_config_line d e =
    if bytes_eq d.ini_section (convert_to_lowercase e.section)
    then record d {
      ini_section_found = true;
      config = apply_setting d.config (convert_to_lowercase e.name) e.value;
    }
    else d

-- 0, 1 and 2 are the enumerators; the cast keeps any other number.
abbrev DiscoveryMode : Type 0
DiscoveryMode = ℤ

pub record GlobalConfig : Type 0 where
  pub polling_timeout_ms : ℕ
  pub polling_thread_priority : ℤ
  pub log_level : ℤ
  pub discovery_mode : DiscoveryMode
  pub discovery_vidpid : List VidPid
  pub auto_add_controller : Bool

pub record GlobalIniData : Type 0 where
  pub ini_section : Bytes
  pub ini_section_found : Bool
  pub config : GlobalConfig

pub data GlobalKey : Type 0 where
  polling_timeout_ms polling_thread_priority log_level discovery_mode : GlobalKey
  auto_add_controller discovery_vidpid : GlobalKey

abbrev global_keys : List (Bytes × GlobalKey)
global_keys =
    (codes "polling_timeout_ms", polling_timeout_ms)
    ∷ (codes "polling_thread_priority", polling_thread_priority)
    ∷ (codes "log_level", log_level)
    ∷ (codes "discovery_mode", discovery_mode)
    ∷ (codes "auto_add_controller", auto_add_controller)
    ∷ (codes "discovery_vidpid", discovery_vidpid)
    ∷ []

-- The integer that a pattern of 8 bits stands for.
abbrev signed8 : ℕ → ℤ
signed8 w = if ltb w 128 then pos w else negsuc (255 - w)

abbrev is_zero : ℤ → Bool
is_zero (pos n) = n == 0
is_zero (negsuc n) = false

unfoldable apply_global_key : GlobalConfig → Option GlobalKey → Bytes → GlobalConfig
unfolding tokens
apply_global_key c none v = c
apply_global_key c (some polling_timeout_ms) v = record c { polling_timeout_ms = wrap 16 (atoi v) }
apply_global_key c (some polling_thread_priority) v = record c {
  polling_thread_priority = signed8 (wrap 8 (atoi v));
}
apply_global_key c (some log_level) v = record c { log_level = atoi v }
apply_global_key c (some discovery_mode) v = record c { discovery_mode = atoi v }
apply_global_key c (some auto_add_controller) v = record c {
  auto_add_controller = not (is_zero (atoi v));
}
apply_global_key c (some discovery_vidpid) v = record c {
  discovery_vidpid = c.discovery_vidpid ++ map of_text (tokens b',' v);
}

unfoldable pub parse_global_config_line : GlobalIniData → Entry → GlobalIniData
unfolding apply_global_key lookup_name
parse_global_config_line d e =
    if bytes_eq d.ini_section (convert_to_lowercase e.section)
    then record d {
      ini_section_found = true;
      config =
          apply_global_key d.config (lookup_name (convert_to_lowercase e.name) global_keys) e.value;
    }
    else d
