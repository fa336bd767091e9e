-- ===== src/Driver/Output/Rumble.antt =====
-- Which endpoints `SetRumble` writes to, and what the GameCube adapter is told:
-- source/ControllerLib/Controllers/.
use sys_con.Prelude.{
  ℕ, zero, suc, ◌+◌, ◌<◌, ◌≡◌, refl, ap, ◌∙◌, false, Bool-cases, inl, inr, List, [], ◌∷◌, length,
  length-set, get_or, get_or-set_self, get_or-set_ne, set, replicate, leb, ◌==◌, if◌then◌else◌,
  arith,
}
use sys_con.Prelude.Text.{Bytes}
use sys_con.Controller.Float.{Float}
use sys_con.Controller.Result.{ControllerResult, invalid_index}
use sys_con.Driver.Output.{
  Output, nothing, one_write, write_or, amplitude, initial_rumble, xbox360_set_rumble,
  xbox_set_rumble, xbox360w_set_rumble, xbox_one_set_rumble, wii_set_rumble,
}

silent : (j : ℕ) → get_or (replicate {A = ℕ} 4 0) j 0 ≡ 0
silent zero = refl
silent (suc zero) = refl
silent (suc (suc zero)) = refl
silent (suc (suc (suc zero))) = refl
silent (suc (suc (suc (suc j)))) = refl

module _ (out_count : ℕ) (write : ℕ → Bytes → ControllerResult) where
  -- One write to an endpoint that exists, whose result is returned, or nothing but an error.
  data Rumbles : Output → Type 0 where
    wrote : (i : ℕ) (b : Bytes) → i < out_count → Rumbles (one_write out_count write i b)
    refused : Rumbles (nothing invalid_index)

  write_or-Rumbles : (i : ℕ) (b : Bytes) → Rumbles (write_or out_count write invalid_index i b)
  write_or-Rumbles i b = elim (Bool-cases (leb out_count i)) [
    | inl t ↦ rw (t) refused
    | inr f ↦ rw (f) (wrote i b (ground arith))
  ]

  module _ (fl : Float) (to_u8 : fl.F → ℕ) where
    open fl use {F}

    -- Where a driver has at least one output endpoint, as the adapter needs to start, `SetRumble` of
    -- each driver that has one writes one packet to an endpoint that exists and returns its result, or
    -- returns an error and writes nothing.
    set_rumble-Rumbles :
        (i : ℕ) (high low : F) (rumble_data : Bytes)
        → 0 < out_count
        → Rumbles (xbox360_set_rumble out_count write fl to_u8 i high low)
          × Rumbles (xbox_set_rumble out_count write fl to_u8 i high low)
          × Rumbles (xbox360w_set_rumble out_count write fl to_u8 i high low)
          × Rumbles (xbox_one_set_rumble out_count write fl to_u8 i high low)
          × Rumbles (wii_set_rumble out_count write fl to_u8 i high rumble_data).0
    unfolding xbox360_set_rumble xbox_set_rumble xbox360w_set_rumble xbox_one_set_rumble
        wii_set_rumble
    set_rumble-Rumbles i high low rumble_data h = (
      write_or-Rumbles i _,
      write_or-Rumbles i _,
      write_or-Rumbles i _,
      write_or-Rumbles i _,
      elim (Bool-cases (leb 4 i)) [ inl t ↦ rw (t) refused | inr f ↦ rw (f) (wrote 0 _ h) ],
    )

    -- `rumbleData` after calls for inputs of the adapter, the first one first.
    unfoldable after_calls : List (ℕ × F) → Bytes → Bytes
    after_calls [] rumble_data = rumble_data
    after_calls ((i, high) ∷ rest) rumble_data =
        after_calls rest (wii_set_rumble out_count write fl to_u8 i high rumble_data).1

    -- The amplitude of the last call for an input, or the one from before.
    unfoldable pub latest : ℕ → List (ℕ × F) → ℕ → ℕ
    latest j [] before = before
    latest j ((i, high) ∷ rest) before =
        latest j rest (if i == j then amplitude out_count write fl to_u8 high else before)

    -- One call changes the byte of its input alone.
    call-byte :
        (i j : ℕ) (high : F) (rumble_data : Bytes)
        → length rumble_data ≡ 5
        → j < 4
        → get_or (wii_set_rumble out_count write fl to_u8 i high rumble_data).1 (1 + j) 0 ≡ (
            if i == j
            then amplitude out_count write fl to_u8 high
            else get_or rumble_data (1 + j) 0)
    unfolding wii_set_rumble
    call-byte i j high rumble_data e h = elim (Bool-cases (i == j)) [
      | inl t ↦
          let same : i ≡ j = ground arith in
          let low : leb 4 i ≡ false = ground arith in
          rw (t, low)
            (ap
                (λ k.
                  get_or (set rumble_data (1 + k) (amplitude out_count write fl to_u8 high)) (1 + j)
                    0)
                same
              ∙ get_or-set_self rumble_data (1 + j) _ 0 (omega (arith, e)))
      | inr f ↦ elim (Bool-cases (leb 4 i)) [
        | inl t ↦ rw (f, t) refl
        | inr low ↦
            rw (f, low)
              (get_or-set_ne rumble_data (1 + j) (1 + i) _ 0 (λ q. absurd (ground (arith, q))))
      ]
    ]

    call-count :
        (i : ℕ) (high : F) (rumble_data : Bytes)
        → length rumble_data ≡ 5
        → length (wii_set_rumble out_count write fl to_u8 i high rumble_data).1 ≡ 5
    unfolding wii_set_rumble
    call-count i high rumble_data e = elim (Bool-cases (leb 4 i)) [
      | inl t ↦ rw (t) e
      | inr f ↦ rw (f) (length-set rumble_data (1 + i) _ ∙ e)
    ]

    calls-byte :
        (calls : List (ℕ × F)) (j : ℕ) (rumble_data : Bytes)
        → length rumble_data ≡ 5
        → j < 4
        → get_or (after_calls calls rumble_data) (1 + j) 0
          ≡ latest j calls (get_or rumble_data (1 + j) 0)
    unfolding after_calls latest
    calls-byte [] j rumble_data e h = refl
    calls-byte ((i, high) ∷ rest) j rumble_data e h =
        calls-byte rest j (wii_set_rumble out_count write fl to_u8 i high rumble_data).1
          (call-count i high rumble_data e) h
        ∙ ap (latest j rest) (call-byte i j high rumble_data e h)

    -- After any calls of `SetRumble` for the GameCube adapter, the byte of each of its four inputs is
    -- the amplitude of the last call for that input, or 0 where there was none.
    after_calls-latest :
        (calls : List (ℕ × F)) (j : ℕ)
        → j < 4
        → get_or (after_calls calls initial_rumble) (1 + j) 0 ≡ latest j calls 0
    after_calls-latest calls j h =
        calls-byte calls j initial_rumble refl h ∙ ap (latest j calls) (at_start j)
      where
        at_start : (j : ℕ) → get_or initial_rumble (1 + j) 0 ≡ 0
        at_start j =
            let e : 1 + j ≡ suc j = omega arith in ap (λ k. get_or initial_rumble k 0) e ∙ silent j
