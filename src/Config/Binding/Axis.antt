-- ===== src/Config/Binding/Axis.antt =====
-- The axis that `parseBinding` of source/Sysmodule/source/config_handler.cpp leaves.
use sys_con.Prelude.{◌≡◌, refl, true, false, List, [], ◌∷◌, ◌++◌, arith}
use sys_con.Prelude.Text.{Bytes}
use sys_con.Config.Data.{AnalogBinding}
use sys_con.Config.Numbers.{tokens, is_number}
use sys_con.Config.Names.{string_to_analog_config}
use sys_con.Config.Binding.{BindState, bind_token, bind_tokens, unbound, parse_binding}

abbrev AllNumbers : List Bytes → Type 0
AllNumbers [] = Unit {0}
AllNumbers (t ∷ ts) = (is_number t ≡ true) × AllNumbers ts

bind_tokens-numbers :
    (s : BindState) (ts : List Bytes) → AllNumbers ts → (bind_tokens s ts).analog ≡ s.analog
unfolding bind_tokens bind_token
bind_tokens-numbers s [] h = refl
bind_tokens-numbers s (t ∷ ts) h = ground (arith, bind_tokens-numbers (bind_token s t) ts h.1)

bind_tokens-word :
    (s : BindState) (before after : List Bytes) (w : Bytes)
    → is_number w ≡ false
    → AllNumbers after
    → (bind_tokens s (before ++ w ∷ after)).analog ≡ (string_to_analog_config w).1
unfolding bind_tokens bind_token
bind_tokens-word s [] after w h n = ground (arith, bind_tokens-numbers (bind_token s w) after n)
bind_tokens-word s (t ∷ before) after w h n = bind_tokens-word (bind_token s t) before after w h n

refused_axis :
    (w : Bytes)
    → (string_to_analog_config w).0 ≡ false
    → (string_to_analog_config w).1.bind ≡ AnalogBinding.unknown
unfolding string_to_analog_config
refused_axis w h = ground arith

module _ (value w : Bytes) (before after : List Bytes) where
  -- The last token of a binding that is no number decides the axis, whatever stands before it.
  parse_binding-last_word :
      tokens b',' value ≡ before ++ w ∷ after
      → is_number w ≡ false
      → AllNumbers after
      → (parse_binding value).analog ≡ (string_to_analog_config w).1
  unfolding parse_binding
  parse_binding-last_word e h n =
      rw (e, parse_binding)
        (bind_tokens-word (record { idx = 0; binding = unbound }) before after w h n)

  -- If the last token that is no number names no axis, the button is left bound to no axis, also where
  -- an earlier token of the value had bound it to one.
  pub parse_binding-refused_word :
      tokens b',' value ≡ before ++ w ∷ after
      → is_number w ≡ false
      → AllNumbers after
      → (string_to_analog_config w).0 ≡ false
      → (parse_binding value).analog.bind ≡ AnalogBinding.unknown
  parse_binding-refused_word e h n r = rw (parse_binding-last_word e h n) (refused_axis w r)
