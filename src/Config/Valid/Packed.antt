-- ===== src/Config/Valid/Packed.antt =====
-- The combo slots of a configuration that source/Sysmodule/source/config_handler.cpp loads, from any
-- file.
use mathlib.Core.Logic.{if_pos, if_neg}
use sys_con.Prelude.{
  ◌≡◌, ◌≢◌, refl, sym, Bool, Option, none, some, List, [], ◌∷◌, drop, inl, inr, Bool-cases,
}
use mathlib.Core.Path.{subst}
use sys_con.Prelude.Text.{Bytes}
use sys_con.Config.Data.{Button, Button-discrete, ControllerConfig}
use sys_con.Config.Names.{lookup_name, string_to_button}
use sys_con.Config.Numbers.{convert_to_lowercase}
use sys_con.Config.Combos.{IsPacked, add_combo-IsPacked}
use sys_con.Config.Keys.{
  Key, deadzone, factor, last_keys, first_keys, apply_key, add_combo, bind_button, simulate_button,
  apply_setting, apply_known, apply_other, apply_first, simulate_prefix, starts_with,
}
use sys_con.Config.VidPid.{VidPid}
use sys_con.Config.Line.{Entry}
use sys_con.Config.Load.{Ini, File, load_controller_config}
use sys_con.Config.Valid.Reads.{AllEntries, InText, load_controller_config-keeps}

unfoldable pub HasPacked : ControllerConfig → Type 0
HasPacked c = IsPacked c.simulate_combos

apply_key-combos :
    (c : ControllerConfig) (k : Key) (v : Bytes)
    → (apply_key c k v).simulate_combos ≡ c.simulate_combos
unfolding apply_key
apply_key-combos c (deadzone i) v = refl
apply_key-combos c (factor i) v = refl
apply_key-combos c _ v = refl

apply_known-HasPacked :
    (c : ControllerConfig) (k : Option Key) (v : Bytes)
    → HasPacked c
    → HasPacked (apply_known c k v)
unfolding HasPacked
apply_known-HasPacked c none v h = h
apply_known-HasPacked c (some k) v h = subst IsPacked (sym (apply_key-combos c k v)) h

added-HasPacked :
    (c : ControllerConfig) (i : Button) (v : Bytes)
    → i ≢ Button.none
    → HasPacked c
    → HasPacked (record c { simulate_combos = add_combo c.simulate_combos i v })
unfolding HasPacked
added-HasPacked c i v n h = add_combo-IsPacked i v n h

bind_button-HasPacked :
    (c : ControllerConfig) (i : Button) (v : Bytes) → HasPacked c → HasPacked (bind_button c i v)
unfolding HasPacked bind_button
bind_button-HasPacked c i v h = h

simulate_button-HasPacked :
    (c : ControllerConfig) (i : Button) (v : Bytes)
    → HasPacked c
    → HasPacked (simulate_button c i v)
unfolding simulate_button
simulate_button-HasPacked c i v h = elim (Button-discrete i Button.none) [
  | yes e ↦ rw (if_pos _ e) h
  | no n ↦ rw (if_neg _ n) (added-HasPacked c i v n h)
]

apply_other-HasPacked :
    (c : ControllerConfig) (name v : Bytes) → HasPacked c → HasPacked (apply_other c name v)
apply_other-HasPacked c name v h = elim (Bool-cases (starts_with name simulate_prefix)) [
  | inl e ↦ rw e (simulate_button-HasPacked c (string_to_button (drop 9 name)) v h)
  | inr e ↦ rw e (apply_known-HasPacked c (lookup_name name last_keys) v h)
]

apply_first-HasPacked :
    (c : ControllerConfig) (k : Option Key) (name v : Bytes)
    → HasPacked c
    → HasPacked (apply_first c k name v)
apply_first-HasPacked c none name v h = apply_other-HasPacked c name v h
apply_first-HasPacked c (some k) name v h = apply_known-HasPacked c (some k) v h

apply_setting-HasPacked :
    (c : ControllerConfig) (name v : Bytes) → HasPacked c → HasPacked (apply_setting c name v)
unfolding apply_setting
apply_setting-HasPacked c name v h = elim (Button-discrete (string_to_button name) Button.none) [
  | yes e ↦ rw (if_pos _ e) (apply_first-HasPacked c (lookup_name name first_keys) name v h)
  | no n ↦ rw (if_neg _ n) (bind_button-HasPacked c (string_to_button name) v h)
]

-- Any line.
abbrev AnyLine : Entry → Type 0
AnyLine e = Unit {0}

all_any : (es : List Entry) → AllEntries AnyLine es
all_any [] = tt
all_any (e ∷ es) = (tt, all_any es)

any_text : (ini : Ini) (o : Option Bytes) → InText AnyLine ini o
any_text ini none = tt
any_text ini (some text) = all_any (ini.entries text)

-- If the combo slots in use stand before all empty ones, they do so after `LoadControllerConfig` from
-- any file.
pub load_controller_config-HasPacked :
    (ini : Ini) (stamp : Bytes) (f : File) (c : ControllerConfig) (v : VidPid) (auto : Bool)
    (default_profile : Bytes)
    → HasPacked c
    → HasPacked (load_controller_config ini stamp f c v auto default_profile).config
load_controller_config-HasPacked ini stamp f c v auto default_profile h =
    load_controller_config-keeps AnyLine HasPacked
      (λ d e _ k. apply_setting-HasPacked d (convert_to_lowercase e.name) e.value k) ini stamp f v
      default_profile (any_text ini f.content) (λ g _. any_text ini g.content) c auto h
