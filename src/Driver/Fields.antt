-- ===== src/Driver/Fields.antt =====
-- Which bytes of a report the fields of three drivers stand in, source/ControllerLib/Controllers/.
use sys_con.Prelude.{
  ℕ, zero, suc, ◌≤◌, ◌<◌, ◌≡◌, refl, Bool, ap, ◌∙◌, drop, ◌+◌, Bool-cases, if◌then◌else◌, ltb, inl,
  inr, true, false, [], ◌∷◌, take, arith,
}
use sys_con.Prelude.Text.{Bytes}
use sys_con.Controller.Float.{Float}
use sys_con.Controller.Mapping.{RawInput}
use sys_con.Driver.Report.{byte}
use sys_con.Driver.Xbox
use sys_con.Driver.Xbox360
use sys_con.Driver.Dualshock3

pub byte-take : (n : ℕ) (b : Bytes) (i : ℕ) → i < n → byte (take n b) i ≡ byte b i
byte-take zero b i h = absurd (omega arith)
byte-take (suc n) [] i h = refl
byte-take (suc n) (c ∷ cs) zero h = refl
byte-take (suc n) (c ∷ cs) (suc i) h = byte-take n cs i (omega arith)

pub byte-drop : (n : ℕ) (b : Bytes) (i : ℕ) → byte (drop n b) i ≡ byte b (n + i)
byte-drop zero b i = ap (byte b) (omega arith)
byte-drop (suc n) [] i = outside (suc n + i)
  where
    outside : (j : ℕ) → 0 ≡ byte [] j
    outside j = refl
byte-drop (suc n) (c ∷ cs) i =
    byte-drop n cs i ∙ (let e : suc (n + i) ≡ suc n + i = omega arith in ap (byte (c ∷ cs)) e)

-- A result behind a test of the size, which may use that the test fails.
pub guarded {ℓ} :
    {A : Type ℓ} (size n : ℕ) (short p q : A)
    → (n ≤ size → p ≡ q)
    → (if ltb size n then short else p) ≡ (if ltb size n then short else q)
guarded size n short p q h = elim (Bool-cases (ltb size n)) [
  | inl t ↦ rw (t) refl
  | inr f ↦ rw (f) (h (ground arith))
]

-- Equal branches behind one test.
pub chosen {ℓ} :
    {A : Type ℓ} (t : Bool) (p q : A) {p' q' : A}
    → p ≡ p'
    → q ≡ q'
    → (if t then p else q) ≡ (if t then p' else q')
chosen true p q e f = e
chosen false p q e f = f

module _ (fl : Float) (b : Bytes) (size : ℕ) (raw : RawInput fl) where
  -- The first bytes are those of the part that was received.
  pub received : (n i : ℕ) → n ≤ size → ltb i n ≡ true → byte (take size b) i ≡ byte b i
  received n i h k = byte-take size b i (ground arith)

  pub xbox_fields : 20 ≤ size → Xbox.button_data fl (take size b) raw ≡ Xbox.button_data fl b raw
  unfolding Xbox.button_data
  xbox_fields h =
      let at = λ (i : ℕ) (k : ltb i 20 ≡ true). received 20 i h k in
      rw
        (
          at 2 refl,
          at 4 refl,
          at 5 refl,
          at 6 refl,
          at 7 refl,
          at 8 refl,
          at 9 refl,
          at 10 refl,
          at 11 refl,
          at 12 refl,
          at 13 refl,
          at 14 refl,
          at 15 refl,
          at 16 refl,
          at 17 refl,
          at 18 refl,
          at 19 refl,
        )
        refl

  pub xbox360_fields :
      14 ≤ size → Xbox360.button_data fl (take size b) raw ≡ Xbox360.button_data fl b raw
  unfolding Xbox360.button_data
  xbox360_fields h =
      let at = λ (i : ℕ) (k : ltb i 14 ≡ true). received 14 i h k in
      rw
        (
          at 2 refl,
          at 3 refl,
          at 4 refl,
          at 5 refl,
          at 6 refl,
          at 7 refl,
          at 8 refl,
          at 9 refl,
          at 10 refl,
          at 11 refl,
          at 12 refl,
          at 13 refl,
        )
        refl

  pub dualshock3_fields :
      49 ≤ size → Dualshock3.button_data fl (take size b) raw ≡ Dualshock3.button_data fl b raw
  unfolding Dualshock3.button_data
  dualshock3_fields h =
      let at = λ (i : ℕ) (k : ltb i 49 ≡ true). received 49 i h k in
      rw
        (
          at 2 refl,
          at 3 refl,
          at 4 refl,
          at 6 refl,
          at 7 refl,
          at 8 refl,
          at 9 refl,
          at 18 refl,
          at 19 refl,
        )
        refl
