-- ===== src/Driver/Steam/Status.antt =====
-- Which inputs of source/ControllerLib/Controllers/SteamController2026.cpp are connected.
use sys_con.Prelude.{
  ℕ, ◌<◌, ◌≡◌, refl, ap, sym, Bool, true, false, not, ◌&&◌, List, [], ◌∷◌, ◌++◌, length,
  get_or-set_self, set, set-get_or, ltb, leb, ◌==◌, if◌then◌else◌, Bool-cases, inl, inr, arith,
}
use sys_con.Prelude.Text.{Bytes}
use sys_con.Controller.Float.{Float}
use sys_con.Controller.Mapping.{RawInput}
use sys_con.Driver.Report.{byte}
use sys_con.Driver.Steam.{
  Steam, max_inputs, input_report_size, is_controller_connected, update_lizard,
  on_controller_connect, on_status, is_input, is_status, on_input, parse_data,
}

-- The interfaces that a change of an input to `now` tells to leave the lizard mode.
told_for : ℕ → Bool → Bool → ℕ → List ℕ
told_for i was now count = if not was && (now && ltb i count) then i ∷ [] else []

-- What the driver keeps of the state `now` of an input.
pub Follows : ℕ → Bool → Steam → Steam → Type 0
Follows i now s after =
    (after.is_connected ≡ set s.is_connected i now)
    × (after.updated ≡ s.updated ++ told_for i (is_controller_connected i s) now s.interface_count)

append_nil : (l : List ℕ) → l ++ [] ≡ l
append_nil [] = refl
append_nil (x ∷ l) = ap (◌∷◌ x) (append_nil l)

open_interface : (i n : ℕ) → ltb i n ≡ true → leb n i ≡ false
open_interface i n e = ground arith

no_interface : (i n : ℕ) → ltb i n ≡ false → leb n i ≡ true
no_interface i n e = ground arith

on_status-Follows :
    (i : ℕ) (now : Bool) (s : Steam)
    → i < length s.is_connected
    → Follows i now s (on_status i now s)
unfolding on_status Follows told_for on_controller_connect update_lizard
on_status-Follows i true s h = elim (Bool-cases (is_controller_connected i s)) [
  | inl e ↦ rw (e) (sym (set-get_or s.is_connected i true false h e), sym (append_nil s.updated))
  | inr e ↦ elim (Bool-cases (ltb i s.interface_count)) [
    | inl f ↦
        rw
          (
            e,
            get_or-set_self s.is_connected i true false h,
            f,
            open_interface i s.interface_count f,
          )
          (refl, refl)
    | inr f ↦
        rw (e, get_or-set_self s.is_connected i true false h, f, no_interface i s.interface_count f)
          (refl, sym (append_nil s.updated))
  ]
]
on_status-Follows i false s h = elim (Bool-cases (is_controller_connected i s)) [
  | inl e ↦ rw (e) (refl, sym (append_nil s.updated))
  | inr e ↦ rw (e) (sym (set-get_or s.is_connected i false false h e), sym (append_nil s.updated))
]

-- The state of an input that a report tells, if it tells one.
pub data Told : Type 0 where
  connected : Bool → Told
  nothing : Told

-- An input report of the whole size tells that the controller is there, a status what its second
-- byte says.
unfoldable pub told_by : Bytes → ℕ → Told
told_by b size =
    if is_input b
    then (if ltb size input_report_size then nothing else connected true)
    else (if is_status b then connected (not (byte b 1 == 1)) else nothing)

unfoldable pub Tracks : Told → ℕ → Steam → Steam → Type 0
Tracks (connected now) i s after = Follows i now s after
Tracks nothing i s after = after ≡ s

one_of_four : (i : ℕ) → i < max_inputs → leb max_inputs i ≡ false
one_of_four i h = ground arith

module _ (fl : Float) where
  -- For each of the four controllers, `ParseData` keeps the connection state that the report tells,
  -- from an input report or a wireless status, and turns the lizard mode off exactly where the input
  -- becomes connected and its interface is open. Any other report changes nothing of that.
  pub parse_data-Tracks :
      (b : Bytes) (size i : ℕ) (raw : RawInput fl) (s : Steam)
      → i < max_inputs
      → length s.is_connected ≡ max_inputs
      → Tracks (told_by b size) i s (parse_data fl b size i raw s).steam
  unfolding parse_data told_by Tracks on_input
  parse_data-Tracks b size i raw s h places =
      let fits : i < length s.is_connected = omega (arith, places) in
      let one = one_of_four i h in
      elim (Bool-cases (is_input b)) [
        | inl e ↦ elim (Bool-cases (ltb size input_report_size)) [
          | inl f ↦ rw (one, e, f) refl
          | inr f ↦ rw (one, e, f) (on_status-Follows i true s fits)
        ]
        | inr e ↦ elim (Bool-cases (is_status b)) [
          | inl f ↦ rw (one, e, f) (on_status-Follows i (not (byte b 1 == 1)) s fits)
          | inr f ↦ rw (one, e, f) refl
        ]
      ]
