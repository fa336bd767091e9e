-- ===== src/Config/Override.antt =====
-- Which line of the file decides a value: `ParseControllerConfigLine` and `LoadControllerConfig` of
-- source/Sysmodule/source/config_handler.cpp, seen at the dead zones.
pub mod Lines
pub mod Loader
use mathlib.Core.Path.{subst₂}
use mathlib.Core.Option.{some-injective}
use mathlib.Core.Logic.{if_pos, if_neg}
use sys_con.Prelude.{
  ℕ, ◌≡◌, ◌≢◌, refl, sym, ap, ◌∙◌, Bool, true, false, ◌&&◌, ◌||◌, Option, none, some, inl, inr,
  List, [], ◌∷◌, ◌++◌, drop, update, update_self, update_ne, Bool-cases, Option-cases, arith,
  if◌then◌else◌,
}
use sys_con.Prelude.Int.{wrap}
use sys_con.Prelude.Text.{Bytes, codes, bytes_eq, bytes_eq_refl, bytes_eq_sound}
use sys_con.Config.Data.{
  Button, Button-discrete, AnalogBinding, AnalogBinding-discrete, ControllerConfig,
}
use sys_con.Config.Numbers.{atoi, convert_to_lowercase}
use sys_con.Config.Names.{lookup_name, string_to_button}
use sys_con.Config.Keys.{
  Key, deadzone, factor, driver, profile, input_max_packet_size, output_max_packet_size,
  controller_type, color_body, color_buttons, color_left_grip, color_right_grip, last_keys,
  first_keys, apply_key, bind_button, simulate_button, apply_setting, apply_known, apply_other,
  apply_first, simulate_prefix, starts_with,
}

-- The axes whose dead zone has a key.
abbrev pub has_key : AnalogBinding → Bool
has_key AnalogBinding.unknown = false
has_key AnalogBinding.brake = false
has_key AnalogBinding.accelerator = false
has_key _ = true

abbrev axis_name : AnalogBinding → Bytes
axis_name AnalogBinding.unknown = codes "none"
axis_name AnalogBinding.x = codes "x"
axis_name AnalogBinding.y = codes "y"
axis_name AnalogBinding.z = codes "z"
axis_name AnalogBinding.rz = codes "rz"
axis_name AnalogBinding.rx = codes "rx"
axis_name AnalogBinding.ry = codes "ry"
axis_name AnalogBinding.slider = codes "slider"
axis_name AnalogBinding.dial = codes "dial"
axis_name AnalogBinding.brake = codes "brake"
axis_name AnalogBinding.accelerator = codes "accelerator"

abbrev pub deadzone_name : AnalogBinding → Bytes
deadzone_name i = codes "deadzone_" ++ axis_name i

-- A key that writes the dead zone of `i` is looked up under the name of `i`.
abbrev Fits : AnalogBinding → Bytes → Key → Type 0
Fits i s (deadzone j) = j ≡ i → s ≡ deadzone_name i
Fits i s _ = Unit {0}

abbrev AllFit : AnalogBinding → List (Bytes × Key) → Type 0
AllFit i [] = Unit {0}
AllFit i ((s, k) ∷ rest) = Fits i s k × AllFit i rest

fits : (j i : AnalogBinding) → j ≡ i → deadzone_name j ≡ deadzone_name i
fits j i e = ap deadzone_name e

last_keys-AllFit : (i : AnalogBinding) → AllFit i last_keys
last_keys-AllFit i = (
  fits AnalogBinding.x i,
  (
    fits AnalogBinding.y i,
    (
      fits AnalogBinding.z i,
      (
        fits AnalogBinding.rz i,
        (
          fits AnalogBinding.rx i,
          (
            fits AnalogBinding.ry i,
            (
              fits AnalogBinding.slider i,
              (
                fits AnalogBinding.dial i,
                (tt, (tt, (tt, (tt, (tt, (tt, (tt, (tt, (tt, (tt, (tt, (tt, tt)))))))))))),
              ),
            ),
          ),
        ),
      ),
    ),
  ),
)

first_keys-AllFit : (i : AnalogBinding) → AllFit i first_keys
first_keys-AllFit i = (tt, (tt, (tt, (tt, (tt, tt)))))

Fits-subst : (i : AnalogBinding) {s n : Bytes} {j k : Key} → s ≡ n → j ≡ k → Fits i n j → Fits i s k
Fits-subst i p q f = subst₂ (Fits i) (sym p) q f

lookup_name-Fits :
    (i : AnalogBinding) (s : Bytes) (t : List (Bytes × Key)) (k : Key)
    → AllFit i t
    → lookup_name s t ≡ some k
    → Fits i s k
unfolding lookup_name
lookup_name-Fits i s [] k f h = cc
lookup_name-Fits i s ((n, j) ∷ t) k f h = elim (Bool-cases (bytes_eq s n)) [
  | inl e ↦ Fits-subst i (bytes_eq_sound s n e) (some-injective j k (rw e at h)) f.0
  | inr e ↦ lookup_name-Fits i s t k f.1 (rw e at h)
]

module _ (c : ControllerConfig) (i : AnalogBinding) (name v : Bytes) where
  apply_key-other :
      (k : Key)
      → Fits i name k
      → name ≢ deadzone_name i
      → (apply_key c k v).analog_deadzone_percent i ≡ c.analog_deadzone_percent i
  unfolding apply_key
  apply_key-other (deadzone j) f h =
      update_ne AnalogBinding-discrete c.analog_deadzone_percent j i (wrap 8 (atoi v))
        (λ e. h (f (sym e)))
  apply_key-other _ f h = refl

  simulate_button-deadzone :
      (button : Button)
      → (simulate_button c button v).analog_deadzone_percent i ≡ c.analog_deadzone_percent i
  unfolding simulate_button
  simulate_button-deadzone button = ground arith

  apply_known-other :
      (k : Option Key)
      → lookup_name name last_keys ≡ k
      → name ≢ deadzone_name i
      → (apply_known c k v).analog_deadzone_percent i ≡ c.analog_deadzone_percent i
  apply_known-other none e h = refl
  apply_known-other (some k) e h =
      apply_key-other k (lookup_name-Fits i name last_keys k (last_keys-AllFit i) e) h

  apply_other-other :
      name ≢ deadzone_name i
      → (apply_other c name v).analog_deadzone_percent i ≡ c.analog_deadzone_percent i
  apply_other-other h = elim (Bool-cases (starts_with name simulate_prefix)) [
    | inl e ↦ rw e (simulate_button-deadzone (string_to_button (drop 9 name)))
    | inr e ↦ rw e (apply_known-other (lookup_name name last_keys) refl h)
  ]

  apply_first-other :
      (k : Option Key)
      → lookup_name name first_keys ≡ k
      → name ≢ deadzone_name i
      → (apply_first c k name v).analog_deadzone_percent i ≡ c.analog_deadzone_percent i
  apply_first-other none e h = apply_other-other h
  apply_first-other (some k) e h =
      apply_key-other k (lookup_name-Fits i name first_keys k (first_keys-AllFit i) e) h

  apply_setting-other :
      name ≢ deadzone_name i
      → (apply_setting c name v).analog_deadzone_percent i ≡ c.analog_deadzone_percent i
  unfolding apply_setting
  apply_setting-other h = elim (Button-discrete (string_to_button name) Button.none) [
    | yes e ↦
        ap (λ (r : ControllerConfig). r.analog_deadzone_percent i)
          (if_pos (Button-discrete (string_to_button name) Button.none) e first bound)
        ∙ apply_first-other (lookup_name name first_keys) refl h
    | no n ↦
        ap (λ (r : ControllerConfig). r.analog_deadzone_percent i)
          (if_neg (Button-discrete (string_to_button name) Button.none) n first bound)
  ]
    where
      first : ControllerConfig
      first = apply_first c (lookup_name name first_keys) name v

      bound : ControllerConfig
      bound = bind_button c (string_to_button name) v

apply_setting-named :
    (c : ControllerConfig) (i : AnalogBinding) (v : Bytes)
    → has_key i ≡ true
    → apply_setting c (deadzone_name i) v ≡ apply_key c (deadzone i) v
unfolding apply_setting string_to_button lookup_name Button-discrete
apply_setting-named c AnalogBinding.unknown v h = cc
apply_setting-named c AnalogBinding.brake v h = cc
apply_setting-named c AnalogBinding.accelerator v h = cc
apply_setting-named c _ v h = refl

apply_key_self :
    (c : ControllerConfig) (i : AnalogBinding) (v : Bytes)
    → (apply_key c (deadzone i) v).analog_deadzone_percent i ≡ wrap 8 (atoi v)
unfolding apply_key
apply_key_self c i v =
    update_self AnalogBinding-discrete c.analog_deadzone_percent i (wrap 8 (atoi v))

-- For an axis whose dead zone has a key: a line of a section makes it the line's number as a byte if
-- it has the axis's name, and else leaves it as it was.
pub apply_setting-deadzone :
    (c : ControllerConfig) (i : AnalogBinding) (name v : Bytes)
    → has_key i ≡ true
    → (apply_setting c name v).analog_deadzone_percent i
      ≡ (if bytes_eq name (deadzone_name i) then wrap 8 (atoi v) else c.analog_deadzone_percent i)
apply_setting-deadzone c i name v h = elim (Bool-cases (bytes_eq name (deadzone_name i))) [
  | inl e ↦ rw e (
      ap (λ n. (apply_setting c n v).analog_deadzone_percent i) (bytes_eq_sound name _ e)
      ∙ ap (λ (r : ControllerConfig). r.analog_deadzone_percent i) (apply_setting-named c i v h)
      ∙ apply_key_self c i v)
  | inr e ↦ rw e (
      apply_setting-other c i name v (λ p.
        cc (sym e ∙ ap (λ n. bytes_eq n (deadzone_name i)) p ∙ bytes_eq_refl (deadzone_name i))))
]
