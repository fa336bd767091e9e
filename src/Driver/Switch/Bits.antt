-- ===== src/Driver/Switch/Bits.antt =====
-- `ReadBitsLE` of source/ControllerLib/Controllers/BaseController.cpp against the number that the
-- bytes of the buffer stand for.
use native.Mathlib.Numerals.{add-one}
use native.Mathlib.Nat.{
  pow-suc, pow-succ', div-div-eq-div-mul, zero-div, mul_assoc, mod-lt, pow-le-pow_right,
}
use native.Mathlib.Omega.{div_any}
use sys_con.Prelude.{
  ℕ, zero, suc, ◌+◌, ◌*◌, ◌/◌, ◌%◌, ◌^◌, ◌≤◌, ◌<◌, ◌≡◌, sym, ap, ◌∙◌, [], ◌∷◌, Bool-cases, inl, inr,
  ltb, arith,
}
use sys_con.Prelude.Text.{Bytes}
use sys_con.Driver.Report.{byte}
use sys_con.Driver.Switch.{bits_from, read_bits_le}

abbrev pub AreBytes : Bytes → Type 0
AreBytes [] = Unit {0}
AreBytes (c ∷ cs) = (c < 256) × AreBytes cs

-- The little-endian number of the bytes.
unfoldable pub number : Bytes → ℕ
number [] = 0
number (c ∷ cs) = c + 256 * number cs

digit : (b : Bytes) (at : ℕ) → AreBytes b → number b / 256 ^ at % 256 ≡ byte b at
unfolding number
digit [] at h = ap (λ n. n % 256) (zero-div (256 ^ at))
digit (c ∷ cs) zero h = omega arith
digit (c ∷ cs) (suc at) h =
    ap (λ n. (c + 256 * number cs) / n % 256) (pow-succ' 256 at)
    ∙ ap (λ n. n % 256) (sym (div-div-eq-div-mul (c + 256 * number cs) 256 (256 ^ at)))
    ∙ ap (λ n. n / 256 ^ at % 256) (omega arith)
    ∙ digit cs at h.1

-- The low bits of a byte are those of the number that it ends.
low_bit : (z s : ℕ) → s < 8 → z % 256 / 2 ^ s % 2 ≡ z / 2 ^ s % 2
low_bit z zero h = omega arith
low_bit z (suc zero) h = omega arith
low_bit z (suc (suc zero)) h = omega arith
low_bit z (suc (suc (suc zero))) h = omega arith
low_bit z (suc (suc (suc (suc zero)))) h = omega arith
low_bit z (suc (suc (suc (suc (suc zero))))) h = omega arith
low_bit z (suc (suc (suc (suc (suc (suc zero)))))) h = omega arith
low_bit z (suc (suc (suc (suc (suc (suc (suc zero))))))) h = omega arith
low_bit z (suc (suc (suc (suc (suc (suc (suc (suc s)))))))) h = absurd (omega arith)

-- The number behind the bit `shift` of the byte `at`.
abbrev behind : Bytes → ℕ → ℕ → ℕ
behind b at shift = number b / 256 ^ at / 2 ^ shift

behind-suc : (b : Bytes) (at shift : ℕ) → behind b at (suc shift) ≡ behind b at shift / 2
behind-suc b at shift =
    ap (λ n. number b / 256 ^ at / n) (pow-suc 2 shift)
    ∙ sym (div-div-eq-div-mul (number b / 256 ^ at) (2 ^ shift) 2)

behind_next : (b : Bytes) (at : ℕ) → behind b at 8 ≡ behind b (suc at) 0
behind_next b at =
    omega
      (arith, div-div-eq-div-mul (number b) (256 ^ at) 256, ap (λ n. number b / n) (pow-suc 256 at))

-- One more digit of a remainder.
mod_suc : (y n : ℕ) → y % 2 ^ suc n ≡ y % 2 + 2 * (y / 2 % 2 ^ n)
mod_suc y n = ap (λ p. y % p) (pow-succ' 2 n) ∙ double y (2 ^ n)
  where
    double : (y m : ℕ) → y % (2 * m) ≡ y % 2 + 2 * (y / 2 % m)
    double y m = grind (arith, div_any y (2 * m), div_any (y / 2) m, div-div-eq-div-mul y 2 m)

shared_factor : (r a c p : ℕ) → r + a * p + c * (p * 2) ≡ r + (a + 2 * c) * p
shared_factor r a c p = grind arith

-- A round of the loop takes the lowest bit of what is behind the place.
round :
    (b : Bytes) (left i at shift r : ℕ)
    → AreBytes b
    → shift < 8
    → r + byte b at / 2 ^ shift % 2 * 2 ^ i + behind b at (suc shift) % 2 ^ left * 2 ^ suc i
      ≡ r + behind b at shift % 2 ^ suc left * 2 ^ i
round b left i at shift r h k =
    let y = behind b at shift in
    let bit : byte b at / 2 ^ shift % 2 ≡ y % 2 =
      ap (λ n. n / 2 ^ shift % 2) (sym (digit b at h)) ∙ low_bit (number b / 256 ^ at) shift k in
    rw (bit, behind-suc b at shift, pow-suc 2 i, mod_suc y left)
      (shared_factor r (y % 2) (y / 2 % 2 ^ left) (2 ^ i))

none_left : (r y p : ℕ) → r < 2 ^ 32 → r ≡ (r + y % 1 * p) % 2 ^ 32
none_left r y p h =
    let e : r + y % 1 * p ≡ r = grind arith in
    let small : r ≡ r % 2 ^ 32 = omega arith in small ∙ ap (λ n. n % 2 ^ 32) (sym e)

add_wrapped : (a b : ℕ) → (a % 2 ^ 32 + b) % 2 ^ 32 ≡ (a + b) % 2 ^ 32
add_wrapped a b = omega arith

-- The loop, at a bit of the byte `at` or behind its last one.
bits_from_lem :
    (b : Bytes) (left i at shift r : ℕ)
    → AreBytes b
    → shift ≤ 8
    → r < 2 ^ 32
    → bits_from b left i at shift r ≡ (r + behind b at shift % 2 ^ left * 2 ^ i) % 2 ^ 32
unfolding bits_from
bits_from_lem b zero i at shift r h k l = none_left r (behind b at shift) (2 ^ i) l
bits_from_lem b (suc left) i at shift r h k l =
    let ih = λ (at' shift' : ℕ) (k' : suc shift' ≤ 8).
      let grown = r + byte b at' / 2 ^ shift' % 2 * 2 ^ i in
      bits_from_lem b left (suc i) at' (suc shift') (grown % 2 ^ 32) h k' (omega arith)
      ∙ add_wrapped grown (behind b at' (suc shift') % 2 ^ left * 2 ^ suc i)
      ∙ ap (λ n. n % 2 ^ 32) (round b left i at' shift' r h k') in
    elim (Bool-cases (ltb 7 shift)) [
      | inl t ↦
          rw (t, add-one, add-one)
            (ih (suc at) 0 (omega arith)
              ∙ ap (λ n. (r + n % 2 ^ suc left * 2 ^ i) % 2 ^ 32)
                  (sym (behind_next b at)
                    ∙ (let e : 8 ≡ shift = ground arith in ap (behind b at) e)))
      | inr t ↦ rw (t, add-one, add-one) (ih at shift (ground arith))
    ]

power_of_byte : (m : ℕ) → 2 ^ suc (suc (suc (suc (suc (suc (suc (suc m))))))) ≡ 256 * 2 ^ m
power_of_byte m = omega arith

power_split : (a s : ℕ) → 2 ^ (8 * a + s) ≡ 256 ^ a * 2 ^ s
power_split zero s = let e : 8 * 0 + s ≡ s = omega arith in rw e (omega arith)
power_split (suc a) s =
    let m = 8 * a + s in
    let e : 8 * suc a + s ≡ suc (suc (suc (suc (suc (suc (suc (suc m))))))) = omega arith in
    ap (λ n. 2 ^ n) e
    ∙ power_of_byte m
    ∙ ap (λ n. 256 * n) (power_split a s)
    ∙ sym (mul_assoc 256 (256 ^ a) (2 ^ s))
    ∙ ap (λ n. n * 2 ^ s) (sym (pow-succ' 256 a))

-- A number below a power of two that fits a word.
fits_word : (m len : ℕ) → len ≤ 32 → (0 + m % 2 ^ len * 1) % 2 ^ 32 ≡ m % 2 ^ len
fits_word m len h =
    let pos : 1 ≤ 2 ^ len =
      pow-le-pow_right {n = 2} (omega arith) {i = 0} {j = len} (omega arith) in
    small (m % 2 ^ len) (2 ^ len) (mod-lt m pos) (pow-le-pow_right {n = 2} (omega arith) h)
  where
    small : (r p : ℕ) → r < p → p ≤ 2 ^ 32 → (0 + r * 1) % 2 ^ 32 ≡ r
    small r p lt le = omega arith

-- Whatever the offset, for a length of up to 32, `ReadBitsLE` gives that part of the little-endian
-- number that the bytes of the buffer stand for; a byte behind the end of the buffer counts as 0.
pub read_bits_le-number :
    (b : Bytes) (bit_offset bit_length : ℕ)
    → AreBytes b
    → bit_length ≤ 32
    → read_bits_le b bit_offset bit_length ≡ number b / 2 ^ bit_offset % 2 ^ bit_length
unfolding read_bits_le
read_bits_le-number b off len h short =
    bits_from_lem b len 0 (off / 8) (off % 8) 0 h (omega arith) (omega arith)
    ∙ fits_word (behind b (off / 8) (off % 8)) len short
    ∙ ap (λ n. n % 2 ^ len)
        (div-div-eq-div-mul (number b) (256 ^ (off / 8)) (2 ^ (off % 8))
          ∙ ap (λ n. number b / n)
              (sym (power_split (off / 8) (off % 8)) ∙ ap (λ n. 2 ^ n) (omega arith)))
