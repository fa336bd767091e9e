-- ===== src/Config/Binding.antt =====
-- `parseHotKey` and `parseBinding` of source/Sysmodule/source/config_handler.cpp.
-- The code writes through pointers into the configuration; here the new contents are returned.
pub mod Pins
pub mod Axis
use sys_con.Prelude.{ℕ, ◌+◌, Bool, true, false, List, [], ◌∷◌, set, replicate, ltb, if◌then◌else◌}
use sys_con.Prelude.Int.{ℤ, pos, wrap, ltb_ℤ}
use sys_con.Prelude.Text.{Bytes}
use sys_con.Config.Data.{
  Button, AnalogBinding, Sign, AnalogConfig, ComboConfig, max_pin_by_buttons,
  max_controller_buttons,
}
use sys_con.Config.Numbers.{tokens, is_number, atoi}
use sys_con.Config.Names.{string_to_button, string_to_analog_config}

-- The loop makes two rounds at most, and stops where the tokens end.
abbrev pub hot_keys : ComboConfig → List Bytes → ComboConfig
hot_keys c [] = c
hot_keys c (t ∷ []) = record c { first = string_to_button t }
hot_keys c (t ∷ u ∷ _) = record c { first = string_to_button t; second = string_to_button u }

unfoldable pub parse_hot_key : ComboConfig → Bytes → ComboConfig
unfolding tokens
parse_hot_key c value = hot_keys c (tokens b'+' value)

pub record Binding : Type 0 where
  pub pins : List ℕ
  pub analog : AnalogConfig

-- The locals of the loop: `button_pin_idx`, and what the pointers lead to.
pub record BindState : Type 0 where
  pub idx : ℕ
  pub binding : Binding
  pub open binding use *

-- A number that is no pin, or one pin too many, is logged and passed over.
unfoldable pub bind_pin : BindState → ℤ → BindState
bind_pin s pin =
    if ltb s.idx max_pin_by_buttons
    then if ltb_ℤ pin (pos max_controller_buttons)
      then record {
        idx = s.idx + 1;
        binding = record { pins = set s.pins s.idx (wrap 8 pin); analog = s.analog };
      }
      else s
    else s

abbrev bind_axis : BindState → AnalogConfig → BindState
bind_axis s a = record { idx = s.idx; binding = record { pins = s.pins; analog = a } }

-- The result of `stringToAnalogConfig` only decides on a log line.
unfoldable pub bind_token : BindState → Bytes → BindState
unfolding bind_pin
bind_token s tok =
    if is_number tok then bind_pin s (atoi tok) else bind_axis s (string_to_analog_config tok).1

unfoldable pub bind_tokens : BindState → List Bytes → BindState
bind_tokens s [] = s
bind_tokens s (t ∷ ts) = bind_tokens (bind_token s t) ts

abbrev pub unbound : Binding
unbound = record {
  pins = replicate max_pin_by_buttons 0;
  analog = record { sign = Sign.zero; bind = AnalogBinding.unknown };
}

unfoldable pub parse_binding : Bytes → Binding
unfolding bind_tokens bind_token tokens
parse_binding value =
    (bind_tokens (record { idx = 0; binding = unbound }) (tokens b',' value)).binding
