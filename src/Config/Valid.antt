-- ===== src/Config/Valid.antt =====
-- The invariant of a controller's configuration over the lines and the loads of
-- source/Sysmodule/source/config_handler.cpp.
pub mod Load
pub mod Packed
pub mod Reads
use mathlib.Core.Logic.{if_pos, if_neg}
use sys_con.Prelude.{
  ℕ, zero, suc, ◌+◌, ◌^◌, ◌≤◌, ◌<◌, ◌≡◌, ◌≢◌, refl, sym, ◌∙◌, Bool, true, false, not, ◌&&◌, Option,
  none, some, inl, inr, List, [], ◌∷◌, length, drop, update, update_self, update_ne, Bool-cases,
  arith, if◌then◌else◌,
}
use sys_con.Prelude.Int.{ℤ, pos, negsuc, wrap}
use sys_con.Prelude.Text.{Bytes, codes, bytes_eq}
use sys_con.Config.Data.{
  Button, Button-discrete, AnalogBinding, AnalogBinding-discrete, ControllerConfig, initial_config,
}
use sys_con.Config.Numbers.{tokens, atoi}
use sys_con.Config.Names.{lookup_name, string_to_button}
use sys_con.Config.Binding.{parse_binding}
use sys_con.Config.Binding.Pins.{InRange, IsShort, parse_binding-InRange}
use sys_con.Config.Combos.{IsPacked, free, used, add_combo-IsPacked, length-add_combo}
use sys_con.Config.Keys.{
  Key, deadzone, factor, driver, profile, input_max_packet_size, output_max_packet_size,
  controller_type, color_body, color_buttons, color_left_grip, color_right_grip, last_keys,
  first_keys, apply_key, bind_button, add_combo, simulate_button, apply_setting, apply_known,
  apply_other, apply_first, simulate_prefix, starts_with,
}
use sys_con.Config.Line.{Entry, IniData, parse_controller_config_line}

-- Two pins to a button, each an index of the raw buttons; the percentages are bytes; sixteen combo
-- slots, filled from the first on.
pub record IsValid (c : ControllerConfig) : Type 0 where
  pub pins : (i : Button) → InRange (c.buttons_pin i) × (length (c.buttons_pin i) ≡ 2)
  pub deadzone_byte : (i : AnalogBinding) → c.analog_deadzone_percent i < 256
  pub factor_byte : (i : AnalogBinding) → c.analog_factor_percent i < 256
  pub packed : IsPacked c.simulate_combos
  pub slots : length c.simulate_combos ≡ 16

wrap8-lt : (v : ℤ) → wrap 8 v < 256
wrap8-lt (pos n) = omega arith
wrap8-lt (negsuc n) = omega arith

update-byte :
    (f : AnalogBinding → ℕ) (i : AnalogBinding) (v : ℤ)
    → ((j : AnalogBinding) → f j < 256)
    → (j : AnalogBinding) → update AnalogBinding-discrete f i (wrap 8 v) j < 256
update-byte f i v h j = elim (AnalogBinding-discrete j i) [
  | yes e ↦ rw (e, update_self AnalogBinding-discrete f i (wrap 8 v)) (wrap8-lt v)
  | no n ↦ rw (update_ne AnalogBinding-discrete f i j (wrap 8 v) n) (h j)
]

apply_key-IsValid :
    (c : ControllerConfig) (k : Key) (v : Bytes) → IsValid c → IsValid (apply_key c k v)
unfolding apply_key
apply_key-IsValid c (deadzone i) v h = record {
  pins = h.pins;
  deadzone_byte = update-byte c.analog_deadzone_percent i (atoi v) h.deadzone_byte;
  factor_byte = h.factor_byte;
  packed = h.packed;
  slots = h.slots;
}
apply_key-IsValid c (factor i) v h = record {
  pins = h.pins;
  deadzone_byte = h.deadzone_byte;
  factor_byte = update-byte c.analog_factor_percent i (atoi v) h.factor_byte;
  packed = h.packed;
  slots = h.slots;
}
apply_key-IsValid c _ v h = record {
  pins = h.pins;
  deadzone_byte = h.deadzone_byte;
  factor_byte = h.factor_byte;
  packed = h.packed;
  slots = h.slots;
}

bind_button-IsValid :
    (c : ControllerConfig) (i : Button) (v : Bytes)
    → IsShort (tokens b',' v)
    → IsValid c
    → IsValid (bind_button c i v)
unfolding bind_button
bind_button-IsValid c i v s h = record {
  pins = λ j. elim (Button-discrete j i) [
    | yes e ↦
        rw (e, update_self Button-discrete c.buttons_pin i (parse_binding v).pins)
          (parse_binding-InRange v s)
    | no n ↦ rw (update_ne Button-discrete c.buttons_pin i j (parse_binding v).pins n) (h.pins j)
  ];
  deadzone_byte = h.deadzone_byte;
  factor_byte = h.factor_byte;
  packed = h.packed;
  slots = h.slots;
}

simulate_button-IsValid :
    (c : ControllerConfig) (i : Button) (v : Bytes) → IsValid c → IsValid (simulate_button c i v)
unfolding simulate_button
simulate_button-IsValid c i v h = elim (Button-discrete i Button.none) [
  | yes e ↦ rw (if_pos _ e) h
  | no n ↦ rw (if_neg _ n) (record {
    pins = h.pins;
    deadzone_byte = h.deadzone_byte;
    factor_byte = h.factor_byte;
    packed = add_combo-IsPacked i v n h.packed;
    slots = length-add_combo c.simulate_combos i v ∙ h.slots;
  })
]

apply_other-IsValid :
    (c : ControllerConfig) (name v : Bytes) → IsValid c → IsValid (apply_other c name v)
apply_other-IsValid c name v h = elim (Bool-cases (starts_with name simulate_prefix)) [
  | inl e ↦ rw e (simulate_button-IsValid c (string_to_button (drop 9 name)) v h)
  | inr e ↦ rw e (known (lookup_name name last_keys))
]
  where
    known : (k : Option Key) → IsValid (apply_known c k v)
    known none = h
    known (some k) = apply_key-IsValid c k v h

apply_first-IsValid :
    (c : ControllerConfig) (k : Option Key) (name v : Bytes)
    → IsValid c
    → IsValid (apply_first c k name v)
apply_first-IsValid c none name v h = apply_other-IsValid c name v h
apply_first-IsValid c (some k) name v h = apply_key-IsValid c k v h

-- If no number among the tokens of a line's value has ten digits or more, the line, whatever its
-- name, keeps two pins to each button that are indices of the raw buttons, percentages that are
-- bytes, and sixteen combo slots filled from the first on.
pub apply_setting-IsValid :
    (c : ControllerConfig) (name v : Bytes)
    → IsShort (tokens b',' v)
    → IsValid c
    → IsValid (apply_setting c name v)
unfolding apply_setting
apply_setting-IsValid c name v s h = elim (Button-discrete (string_to_button name) Button.none) [
  | yes e ↦ rw (if_pos _ e) (apply_first-IsValid c (lookup_name name first_keys) name v h)
  | no n ↦ rw (if_neg _ n) (bind_button-IsValid c (string_to_button name) v s h)
]

pub initial_config-IsValid : IsValid initial_config
unfolding initial_config
initial_config-IsValid = record {
  pins = λ i. (omega arith, refl);
  deadzone_byte = λ i. omega arith;
  factor_byte = λ i. omega arith;
  packed = free (search tt);
  slots = refl;
}
