-- ===== src/Config/Combos.antt =====
-- The slots of `simulateCombos`: `ParseControllerConfigLine` of
-- source/Sysmodule/source/config_handler.cpp fills them from the first one on.
use mathlib.Core.Logic.{if_pos, if_neg}
use sys_con.Prelude.{sym, ◌∙◌, suc, ◌≡◌, ◌≢◌, refl, List, [], ◌∷◌, ap, length}
use sys_con.Prelude.Text.{Bytes}
use sys_con.Config.Data.{Button, Button-discrete, ComboConfig}
use sys_con.Config.Numbers.{tokens}
use sys_con.Config.Binding.{parse_hot_key, hot_keys}
use sys_con.Config.Keys.{add_combo}

abbrev IsFree : ComboConfig → Type 0
IsFree c = c.button_simulated ≡ Button.none

abbrev pub AllFree : List ComboConfig → Type 0
AllFree [] = Unit {0}
AllFree (c ∷ cs) = IsFree c × AllFree cs

-- Behind a free slot there are only free ones.
pub data IsPacked : List ComboConfig → Type 0 where
  free : {cs : List ComboConfig} → AllFree cs → IsPacked cs
  used : {c : ComboConfig} {cs : List ComboConfig} → ¬ (IsFree c) → IsPacked cs → IsPacked (c ∷ cs)

button_simulated-parse_hot_key :
    (c : ComboConfig) (value : Bytes)
    → (parse_hot_key c value).button_simulated ≡ c.button_simulated
unfolding parse_hot_key
button_simulated-parse_hot_key c value = go (tokens b'+' value)
  where
    go : (ts : List Bytes) → (hot_keys c ts).button_simulated ≡ c.button_simulated
    go [] = refl
    go (t ∷ []) = refl
    go (t ∷ u ∷ ts) = refl

pub length-add_combo :
    (cs : List ComboConfig) (i : Button) (value : Bytes) → length (add_combo cs i value) ≡ length cs
unfolding add_combo
length-add_combo [] i value = refl
length-add_combo (c ∷ cs) i value = elim (Button-discrete c.button_simulated Button.none) [
  | yes p ↦ rw (if_pos _ p) refl
  | no p ↦ rw (if_neg _ p) (ap suc (length-add_combo cs i value))
]

taken :
    (i : Button) (value : Bytes) (c : ComboConfig)
    → i ≢ Button.none
    → ¬ (IsFree (parse_hot_key (record c { button_simulated = i }) value))
taken i value c h f = h (sym (button_simulated-parse_hot_key _ value) ∙ f)

add_combo-free :
    (cs : List ComboConfig) (i : Button) (value : Bytes)
    → i ≢ Button.none
    → AllFree cs
    → IsPacked (add_combo cs i value)
unfolding add_combo
add_combo-free [] i value h f = free tt
add_combo-free (c ∷ cs) i value h f = rw (if_pos _ f.0) (used (taken i value c h) (free f.1))

-- If the combo slots in use stand before all empty ones, they do so after a combo of a button, not
-- the button NONE, was added.
pub add_combo-IsPacked :
    {cs : List ComboConfig} (i : Button) (value : Bytes)
    → i ≢ Button.none
    → IsPacked cs
    → IsPacked (add_combo cs i value)
unfolding add_combo
add_combo-IsPacked i value h (free f) = add_combo-free _ i value h f
add_combo-IsPacked i value h (used n p) = rw (if_neg _ n) (used n (add_combo-IsPacked i value h p))
