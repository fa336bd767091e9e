-- ===== src/Driver/Locality.antt =====
-- Which bytes of a buffer the drivers of source/ControllerLib/Controllers/ look at.
use sys_con.Prelude.{ℕ, ◌≤◌, ◌<◌, ◌≡◌, refl, ap, ◌∙◌, sym, drop, ◌+◌, ltb, ◌==◌, true, take, arith}
use sys_con.Prelude.Text.{Bytes}
use sys_con.Controller.Float.{Float}
use sys_con.Controller.Mapping.{RawInput}
use sys_con.Driver.Report.{byte}
use sys_con.Driver.Xbox
use sys_con.Driver.Xbox360
use sys_con.Driver.Dualshock3
use sys_con.Driver.XboxOne
use sys_con.Driver.Switch
use sys_con.Driver.Switch.{Switch, read_bits_le}
use sys_con.Controller.Result.{ControllerResult, success}
use sys_con.Driver.Fields.{
  byte-take, byte-drop, guarded, chosen, received, xbox_fields, xbox360_fields, dualshock3_fields,
}

module _ (fl : Float) (b : Bytes) (size : ℕ) (raw : RawInput fl) where
  xbox_local : Xbox.parse_data fl (take size b) size raw ≡ Xbox.parse_data fl b size raw
  unfolding Xbox.parse_data
  xbox_local = guarded size 20 _ _ _ (λ h. rw (xbox_fields fl b size raw h) refl)

  xbox360_local : Xbox360.parse_data fl (take size b) size raw ≡ Xbox360.parse_data fl b size raw
  unfolding Xbox360.parse_data
  xbox360_local =
      guarded size 14 _ _ _
        (λ h. rw (xbox360_fields fl b size raw h, received fl b size raw 14 0 h refl) refl)

  dualshock3_local :
      Dualshock3.parse_data fl (take size b) size raw ≡ Dualshock3.parse_data fl b size raw
  unfolding Dualshock3.parse_data
  dualshock3_local =
      guarded size 49 _ _ _
        (λ h. rw (dualshock3_fields fl b size raw h, received fl b size raw 49 0 h refl) refl)

  switch_stick :
      (n : ℕ)
      → n + 3 ≤ size
      → (read_bits_le (drop n (take size b)) 0 12 ≡ read_bits_le (drop n b) 0 12)
        × (read_bits_le (drop n (take size b)) 12 12 ≡ read_bits_le (drop n b) 12 12)
  unfolding read_bits_le
  switch_stick n h =
      let at = λ (i : ℕ) (k : n + i < size).
        byte-drop n (take size b) i ∙ byte-take size b (n + i) k ∙ sym (byte-drop n b i) in
      (
        rw (at 0 (omega arith), at 1 (omega arith)) refl,
        rw (at 1 (omega arith), at 2 (omega arith)) refl,
      )

  switch_calibrate :
      (s : Switch) → 12 ≤ size → Switch.calibrate (take size b) s ≡ Switch.calibrate b s
  unfolding Switch.calibrate
  switch_calibrate s h =
      let left = switch_stick 6 (omega arith) in
      let right = switch_stick 9 (omega arith) in rw (left.0, left.1, right.0, right.1) refl

  switch_fields :
      (s : Switch)
      → 12 ≤ size
      → Switch.button_data fl (take size b) s raw ≡ Switch.button_data fl b s raw
  unfolding Switch.button_data
  switch_fields s h =
      let at = λ (i : ℕ) (k : ltb i 12 ≡ true). received fl b size raw 12 i h k in
      let left = switch_stick 6 (omega arith) in
      let right = switch_stick 9 (omega arith) in
      rw (left.0, left.1, right.0, right.1, at 3 refl, at 4 refl, at 5 refl) refl

  switch_local :
      (s : Switch)
      → Switch.parse_data fl (take size b) size raw s ≡ Switch.parse_data fl b size raw s
  unfolding Switch.parse_data
  switch_local s = guarded size 12 _ _ _ (λ h.
      let calibrated = Switch.calibrate b s in
      let filled = λ (c : Switch) (r : RawInput fl).
        let p : Switch.Parsed fl = record { result = success; raw = r; switch = c } in p in
      rw (received fl b size raw 12 0 h refl) (
        chosen (byte b 0 == 48) _ _
          (ap (λ c. filled c (Switch.button_data fl (take size b) c raw)) (switch_calibrate s h)
            ∙ ap (filled calibrated) (switch_fields calibrated h))
          refl))

  module _ (write : Bytes → ControllerResult) (out_count input_idx : ℕ) where
    xbox_one_fields :
        18 ≤ size
        → XboxOne.button_data write fl (take size b) raw ≡ XboxOne.button_data write fl b raw
    unfolding XboxOne.button_data
    xbox_one_fields h =
        let at = λ (i : ℕ) (k : ltb i 18 ≡ true). received fl b size raw 18 i h k in
        rw
          (
            at 4 refl,
            at 5 refl,
            at 6 refl,
            at 7 refl,
            at 8 refl,
            at 9 refl,
            at 10 refl,
            at 11 refl,
            at 12 refl,
            at 13 refl,
            at 14 refl,
            at 15 refl,
            at 16 refl,
            at 17 refl,
          )
          refl

    xbox_one_mode :
        6 ≤ size
        → XboxOne.mode_button write fl out_count input_idx (take size b) raw
          ≡ XboxOne.mode_button write fl out_count input_idx b raw
    unfolding XboxOne.mode_button
    xbox_one_mode h =
        let at = λ (i : ℕ) (k : ltb i 6 ≡ true). received fl b size raw 6 i h k in
        rw (at 1 refl, at 2 refl, at 4 refl) refl

    xbox_one_local :
        0 < size
        → XboxOne.parse_data write fl out_count input_idx (take size b) size raw
          ≡ XboxOne.parse_data write fl out_count input_idx b size raw
    unfolding XboxOne.parse_data
    xbox_one_local h = rw (byte-take size b 0 h) (
        chosen (byte b 0 == 32) _ _ (guarded size 18 _ _ _ (λ k. rw (xbox_one_fields k) refl))
          (chosen (byte b 0 == 7) _ _ (guarded size 6 _ _ _ xbox_one_mode) refl))

  -- For a report that is not empty, `ParseData` of the drivers of Xbox, wired Xbox 360, DualShock 3,
  -- Switch and Xbox One controllers gives the same for a buffer as for the bytes of it that were
  -- received.
  pub parse_data-received :
      (s : Switch) (write : Bytes → ControllerResult) (out_count input_idx : ℕ)
      → 0 < size
      → (Xbox.parse_data fl (take size b) size raw ≡ Xbox.parse_data fl b size raw)
        × (Xbox360.parse_data fl (take size b) size raw ≡ Xbox360.parse_data fl b size raw)
        × (Dualshock3.parse_data fl (take size b) size raw ≡ Dualshock3.parse_data fl b size raw)
        × (Switch.parse_data fl (take size b) size raw s ≡ Switch.parse_data fl b size raw s)
        × (XboxOne.parse_data write fl out_count input_idx (take size b) size raw
            ≡ XboxOne.parse_data write fl out_count input_idx b size raw)
  parse_data-received s write out_count input_idx h = (
    xbox_local,
    xbox360_local,
    dualshock3_local,
    switch_local s,
    xbox_one_local write out_count input_idx h,
  )
