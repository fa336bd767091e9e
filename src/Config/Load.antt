-- ===== src/Config/Load.antt =====
-- `ReadFromConfig`, `AddControllerToConfig` and `LoadControllerConfig` of
-- source/Sysmodule/source/config_handler.cpp. The ini parser (source/Ini, a copy of inih) and the
-- text of the current time are parameters; the file is a value, written only by an append.
use sys_con.Prelude.{
  zero, ℕ, Bool, not, ◌&&◌, Option, none, some, List, [], ◌∷◌, ◌++◌, if◌then◌else◌,
}
use sys_con.Prelude.Int.{ℤ, pos, negsuc}
use sys_con.Prelude.Text.{Bytes, codes}
use sys_con.Config.Data.{ControllerConfig}
use sys_con.Config.VidPid.{VidPid, to_text}
use sys_con.Config.Line.{Entry, IniData, ini_data, parse_controller_config_line}

-- `ini_parse_stream` calls its handler with the entries of the text in their order, and returns 0 or
-- the number of the first line that it could not read; as no handler returns 0 and it does not stop
-- at an error, neither depends on the handler.
pub record Ini : Type 0 where
  pub entries : Bytes → List Entry
  pub error : Bytes → ℕ

-- `content` is `none` where the file cannot be opened, and `can_append` false where it cannot be
-- written.
pub record File : Type 0 where
  pub content : Option Bytes
  pub can_append : Bool

unfoldable pub handle_entries : IniData → List Entry → IniData
unfolding parse_controller_config_line
handle_entries d [] = d
handle_entries d (e ∷ es) = handle_entries (parse_controller_config_line d e) es

pub record Loaded : Type 0 where
  pub rc : ℤ
  pub file : File
  pub config : ControllerConfig

abbrev line_end : Bytes
line_end = codes "\n"

abbrev new_body : Bytes → Bytes
new_body [] =
    codes "b=1\na=2\nx=3\ny=4\nl=5\nr=6\nzl=7\nzr=8\nminus=9\nplus=10\ncapture=11\nhome=12\n"
new_body (c ∷ cs) = codes "profile=" ++ ((c ∷ cs) ++ line_end)

-- The text that is appended for a controller that the file does not name.
unfoldable pub new_section : Bytes → Bytes → Bytes → Bytes
new_section stamp section profile =
    codes "\n["
    ++ (section
        ++ (codes "] ; Automatically added on " ++ (stamp ++ (line_end ++ new_body profile))))

unfoldable pub add_controller_to_config : Bytes → File → Bytes → Bytes → Option File
unfolding new_section
add_controller_to_config stamp f section profile = elim f.content [
  | none ↦ none
  | some text ↦
      if f.can_append
      then some (record f { content = some (text ++ new_section stamp section profile) })
      else none
]

-- `if (rc) return rc;`: the loader goes on only after a read with no error.
unfoldable pub after_read : ℤ × IniData → File → (IniData → Loaded) → Loaded
after_read (pos zero, d) f go = go d
after_read (rc, d) f go = record { rc = rc; file = f; config = d.config }

abbrev pub loaded : File → ControllerConfig → Loaded
loaded f c = record { rc = pos 0; file = f; config = c }

module _ (ini : Ini) where
  unfoldable pub read_from_config : File → IniData → ℤ × IniData
  unfolding handle_entries
  read_from_config f d = elim f.content [
    | none ↦ (negsuc 0, d)
    | some text ↦ (pos (ini.error text), handle_entries d (ini.entries text))
  ]

  -- Reads the section of `d` again, over the configuration that the profile's has left.
  unfoldable pub reread : File → IniData → IniData → Loaded
  unfolding read_from_config after_read
  reread f d p =
      after_read (read_from_config f (record d { config = p.config })) f (λ q. loaded f q.config)

  unfoldable pub load_named : File → IniData → Bytes → Loaded
  unfolding reread ini_data
  load_named f d [] = loaded f d.config
  load_named f d (c ∷ cs) =
      after_read (read_from_config f (ini_data (c ∷ cs) d.config)) f (reread f d)

  -- The part behind the comment "Check if have a profile"; `d` is `cfg_controller`.
  unfoldable pub load_profile : File → IniData → Loaded
  unfolding load_named
  load_profile f d = load_named f d d.config.profile

module _ (ini : Ini) (stamp : Bytes) where
  unfoldable pub load_added : File → IniData → Bytes → Bytes → Loaded
  unfolding load_profile add_controller_to_config
  load_added f d section profile = elim (add_controller_to_config stamp f section profile) [
    | none ↦ record { rc = negsuc 0; file = f; config = d.config }
    | some g ↦ after_read (read_from_config ini g d) g (load_profile ini g)
  ]

  unfoldable pub load_missing : File → Bool → Bytes → Bytes → IniData → Loaded
  unfolding load_added
  load_missing f auto_add_controller section profile d =
      if not d.ini_section_found && auto_add_controller
      then load_added f d section profile
      else load_profile ini f d

  -- Behind the read of the section [default].
  unfoldable pub load_section : File → Bool → Bytes → Bytes → IniData → Loaded
  unfolding load_missing ini_data
  load_section f auto_add_controller section profile d =
      after_read (read_from_config ini f (ini_data section d.config)) f
        (load_missing f auto_add_controller section profile)

  unfoldable pub load_controller_config : File → ControllerConfig → VidPid → Bool → Bytes → Loaded
  unfolding load_section
  load_controller_config f config vidpid auto_add_controller default_profile =
      after_read (read_from_config ini f (ini_data (codes "default") config)) f
        (load_section f auto_add_controller (to_text vidpid) default_profile)
