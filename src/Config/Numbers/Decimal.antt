-- ===== src/Config/Numbers/Decimal.antt =====
-- `atoi` of source/Sysmodule/source/config_handler.cpp on a token that `isNumber` accepts.
use native.Mathlib.Nat.{pow-suc, le_trans}
use sys_con.Prelude.{
  ℕ, zero, suc, ◌+◌, ◌*◌, ◌^◌, ◌≤◌, ◌<◌, ◌≡◌, true, ◌-◌, ◌&&◌, ◌∙◌, ap, Bool, [], ◌∷◌, length, ltb,
  ltb→lt, inl, inr, Bool-cases, arith,
}
use sys_con.Prelude.Int.{pos}
use sys_con.Prelude.Text.{Bytes, is_digit}
use sys_con.Config.Numbers.{
  digit_value, read_digits, skip_spaces, strtol, atoi, all_digits, is_number,
}

-- Ten for each byte.
abbrev weight : Bytes → ℕ
weight [] = 1
weight (c ∷ cs) = 10 * weight cs

weight-pos : (cs : Bytes) → 1 ≤ weight cs
weight-pos [] = omega arith
weight-pos (c ∷ cs) = omega (arith, weight-pos cs)

grow : (acc d w : ℕ) → d < 10 → (acc * 10 + d + 1) * w ≤ (acc + 1) * (10 * w)
grow acc d w h = grind arith

room : (acc w : ℕ) → 1 ≤ w → acc < (acc + 1) * (10 * w)
room acc w h = grind arith

read_digits-lt : (acc : ℕ) (cs : Bytes) → read_digits 10 acc cs < (acc + 1) * weight cs
unfolding read_digits
read_digits-lt acc [] = omega arith
read_digits-lt acc (c ∷ cs) = elim (Bool-cases (ltb (digit_value c) 10)) [
  | inl digit ↦
      let d = digit_value c in
      rw digit
        (le_trans (read_digits-lt (acc * 10 + d) cs) (grow acc d (weight cs) (ltb→lt d 10 digit)))
  | inr other ↦ rw other (room acc (weight cs) (weight-pos cs))
]

weight-le : (n : ℕ) (cs : Bytes) → length cs ≤ n → weight cs ≤ 10 ^ n
weight-le zero [] h = omega arith
weight-le (suc n) [] h = rw pow-suc (omega (arith, weight-le n [] (omega arith)))
weight-le zero (c ∷ cs) h = elim h [ ]
weight-le (suc n) (c ∷ cs) h = rw pow-suc (omega (arith, weight-le n cs (omega arith)))

-- Fewer than ten digits are read as the decimal number that they write.
pub atoi-number :
    (t : Bytes) → is_number t ≡ true → length t < 10 → atoi t ≡ pos (read_digits 10 0 t)
unfolding is_number strtol atoi skip_spaces
atoi-number [] h short = cc
atoi-number (c ∷ cs) h short = ground (arith, read_digits-lt 0 (c ∷ cs), weight-le 9 (c ∷ cs))

-- The number that a text of digits writes: each digit has the weight of its place.
unfoldable pub decimal : Bytes → ℕ
decimal [] = 0
decimal (c ∷ cs) = (c - b'0') * 10 ^ length cs + decimal cs

next_place : (acc d p rest : ℕ) → (acc * 10 + d) * p + rest ≡ acc * (p * 10) + (d * p + rest)
next_place acc d p rest = grind arith

digit_of :
    (c : ℕ) → is_digit c ≡ true → (ltb (digit_value c) 10 ≡ true) × (digit_value c ≡ c - b'0')
unfolding digit_value is_digit
digit_of c h = ground arith

read_digits-decimal :
    (acc : ℕ) (cs : Bytes)
    → all_digits cs ≡ true
    → read_digits 10 acc cs ≡ acc * 10 ^ length cs + decimal cs
unfolding read_digits all_digits decimal
read_digits-decimal acc [] h = omega arith
read_digits-decimal acc (c ∷ cs) h =
    let (digit, more) = both (is_digit c) (all_digits cs) h in
    let d = digit_of c digit in
    rw (d.0, pow-suc)
      (read_digits-decimal (acc * 10 + digit_value c) cs more
        ∙ next_place acc (digit_value c) (10 ^ length cs) (decimal cs)
        ∙ ap (λ v. acc * (10 ^ length cs * 10) + (v * 10 ^ length cs + decimal cs)) d.1)
  where
    both : (a b : Bool) → (a && b) ≡ true → (a ≡ true) × (b ≡ true)
    both a b e = ground arith

-- The same over the places of the digits.
pub atoi-decimal : (t : Bytes) → is_number t ≡ true → length t < 10 → atoi t ≡ pos (decimal t)
unfolding is_number
atoi-decimal [] h short = cc
atoi-decimal (c ∷ cs) h short =
    atoi-number (c ∷ cs) h short
    ∙ ap pos
        (read_digits-decimal 0 (c ∷ cs) h ∙ from_zero (10 ^ length (c ∷ cs)) (decimal (c ∷ cs)))
  where
    from_zero : (p r : ℕ) → 0 * p + r ≡ r
    from_zero p r = omega arith
