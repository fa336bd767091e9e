-- ===== src/Config/Binding/Pins.antt =====
-- The pins that `parseBinding` of source/Sysmodule/source/config_handler.cpp leaves.
use mathlib.Core.List.{append-nil, append_assoc}
use sys_con.Prelude.{
  ℕ, ◌<◌, ◌≡◌, ◌⊎◌, refl, true, false, List, [], ◌∷◌, ◌++◌, length, inl, inr, Bool-cases, arith,
  min, ltb, ◌∙◌, ap, if◌then◌else◌,
}
use sys_con.Prelude.Int.{ℤ, pos, wrap, ltb_ℤ}
use sys_con.Prelude.Text.{Bytes}
use sys_con.Config.Data.{max_controller_buttons}
use sys_con.Config.Numbers.{tokens, is_number, atoi}
use sys_con.Config.Numbers.Decimal.{decimal, atoi-decimal}
use sys_con.Config.Binding.{BindState, bind_pin, bind_token, bind_tokens, parse_binding}

-- What the loop stores for a token: also a number that is too large for an `int` and becomes a
-- negative one.
abbrev pin_of : ℤ → List ℕ
pin_of p = if ltb_ℤ p (pos max_controller_buttons) then wrap 8 p ∷ [] else []

abbrev pins_of : Bytes → List ℕ
pins_of t = if is_number t then pin_of (atoi t) else []

unfoldable pub stored_pins : List Bytes → List ℕ
stored_pins [] = []
stored_pins (t ∷ ts) = pins_of t ++ stored_pins ts

-- Two places, the free ones 0.
abbrev two_places : List ℕ → List ℕ
two_places [] = 0 ∷ 0 ∷ []
two_places (p ∷ []) = p ∷ 0 ∷ []
two_places (p ∷ q ∷ _) = p ∷ q ∷ []

-- What the loop has filled after the pins `done`, and where it writes next.
abbrev Holds : BindState → List ℕ → Type 0
Holds s done = (s.pins ≡ two_places done) × (s.idx ≡ min 2 (length done))

bind_pin-Holds :
    (s : BindState) (done : List ℕ) (p : ℤ) → Holds s done → Holds (bind_pin s p) (done ++ pin_of p)
unfolding bind_pin
bind_pin-Holds s [] p h = ground arith
bind_pin-Holds s (q ∷ []) p h = ground arith
bind_pin-Holds s (q ∷ r ∷ more) p h = ground arith

bind_token-Holds :
    (s : BindState) (done : List ℕ) (t : Bytes)
    → Holds s done
    → Holds (bind_token s t) (done ++ pins_of t)
unfolding bind_token
bind_token-Holds s done t h = elim (Bool-cases (is_number t)) [
  | inl number ↦ rw number (bind_pin-Holds s done (atoi t) h)
  | inr word ↦ rw (word, append-nil) h
]

bind_tokens-Holds :
    (s : BindState) (done : List ℕ) (ts : List Bytes)
    → Holds s done
    → Holds (bind_tokens s ts) (done ++ stored_pins ts)
unfolding bind_tokens stored_pins
bind_tokens-Holds s done [] h = rw append-nil h
bind_tokens-Holds s done (t ∷ ts) h =
    rw (← append_assoc)
      (bind_tokens-Holds (bind_token s t) (done ++ pins_of t) ts (bind_token-Holds s done t h))

parse_binding-stored :
    (value : Bytes) → (parse_binding value).pins ≡ two_places (stored_pins (tokens b',' value))
unfolding parse_binding
parse_binding-stored value = (bind_tokens-Holds _ [] (tokens b',' value) (refl, refl)).0

-- Every token that is a number has fewer than ten digits.
abbrev pub IsShort : List Bytes → Type 0
IsShort [] = Unit {0}
IsShort (t ∷ ts) = ((is_number t ≡ false) ⊎ (length t < 10)) × IsShort ts

-- The specification: the numbers below 36 among the tokens, in order.
abbrev below : ℕ → List ℕ
below n = if ltb n max_controller_buttons then n ∷ [] else []

unfoldable pub valid_pins : List Bytes → List ℕ
valid_pins [] = []
valid_pins (t ∷ ts) = if is_number t then below (decimal t) ++ valid_pins ts else valid_pins ts

few_digits :
    (t : Bytes) → is_number t ≡ true → (is_number t ≡ false) ⊎ (length t < 10) → length t < 10
few_digits t number (inl word) = cc
few_digits t number (inr few) = few

pin_of-pos : (n : ℕ) → pin_of (pos n) ≡ below n
pin_of-pos n = ground arith

stored_pins-valid : (ts : List Bytes) → IsShort ts → stored_pins ts ≡ valid_pins ts
unfolding stored_pins valid_pins
stored_pins-valid [] h = refl
stored_pins-valid (t ∷ ts) h = elim (Bool-cases (is_number t)) [
  | inl number ↦
      rw
        (
          number,
          atoi-decimal t number (few_digits t number h.0),
          pin_of-pos (decimal t),
          stored_pins-valid ts h.1,
        )
        refl
  | inr word ↦ rw (word, stored_pins-valid ts h.1) refl
]

-- If no number among the tokens has ten digits or more, the pins of a binding are its first two
-- numbers below 36, in order, and 0 in a place that is left.
pub parse_binding-pins :
    (value : Bytes)
    → IsShort (tokens b',' value)
    → (parse_binding value).pins ≡ two_places (valid_pins (tokens b',' value))
parse_binding-pins value h =
    parse_binding-stored value ∙ ap two_places (stored_pins-valid (tokens b',' value) h)

abbrev pub InRange : List ℕ → Type 0
InRange [] = Unit {0}
InRange (p ∷ ps) = (p < max_controller_buttons) × InRange ps

below-InRange : (n : ℕ) (rest : List ℕ) → InRange rest → InRange (below n ++ rest)
below-InRange n rest h = ground arith

valid_pins-InRange : (ts : List Bytes) → InRange (valid_pins ts)
unfolding valid_pins
valid_pins-InRange [] = tt
valid_pins-InRange (t ∷ ts) = elim (Bool-cases (is_number t)) [
  | inl number ↦ rw number (below-InRange (decimal t) (valid_pins ts) (valid_pins-InRange ts))
  | inr word ↦ rw word (valid_pins-InRange ts)
]

two_places-InRange : (ps : List ℕ) → InRange ps → InRange (two_places ps)
two_places-InRange [] h = omega arith
two_places-InRange (p ∷ []) h = omega arith
two_places-InRange (p ∷ q ∷ more) h = omega arith

length-two_places : (ps : List ℕ) → length (two_places ps) ≡ 2
length-two_places [] = refl
length-two_places (p ∷ []) = refl
length-two_places (p ∷ q ∷ more) = refl

-- If no number among the tokens has ten digits or more, a binding has two pins and each is an index of the raw buttons.
pub parse_binding-InRange :
    (value : Bytes)
    → IsShort (tokens b',' value)
    → InRange (parse_binding value).pins × (length (parse_binding value).pins ≡ 2)
parse_binding-InRange value h =
    let ps = valid_pins (tokens b',' value) in
    rw (parse_binding-pins value h)
      (two_places-InRange ps (valid_pins-InRange (tokens b',' value)), length-two_places ps)
