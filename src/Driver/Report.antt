-- ===== src/Driver/Report.antt =====
-- How the drivers of source/ControllerLib/Controllers/ read the fields of a packed report.
use sys_con.Prelude.{
  ℕ, ◌+◌, ◌-◌, ◌*◌, ◌/◌, ◌%◌, ◌^◌, Bool, List, [], ◌∷◌, get_or, ltb, ◌==◌, if◌then◌else◌,
}
use sys_con.Prelude.Int.{ℤ, pos, negsuc, ◌-ℤ◌}
use sys_con.Prelude.Text.{Bytes}

-- The byte at an offset of the buffer.
abbrev pub byte : Bytes → ℕ → ℕ
byte b i = get_or b i 0

abbrev pub bit : Bytes → ℕ → ℕ → Bool
bit b i k = (byte b i / 2 ^ k) % 2 == 1

-- A little-endian `uint16_t`.
abbrev pub le16 : Bytes → ℕ → ℕ
le16 b i = byte b i + 256 * byte b (i + 1)

-- The same bits as an `int16_t`.
abbrev signed16 : ℕ → ℤ
signed16 w = if ltb w 32768 then pos w else negsuc (65535 - w)

abbrev pub le16s : Bytes → ℕ → ℤ
le16s b i = signed16 (le16 b i)

-- `-x` of an `int`.
abbrev pub negated : ℤ → ℤ
negated n = pos 0 -ℤ n

-- Writes of buttons, the first one first.
abbrev pub write_buttons : List (ℕ × Bool) → (ℕ → Bool) → ℕ → Bool
write_buttons [] f = f
write_buttons ((i, b) ∷ rest) f = write_buttons rest (λ j. if j == i then b else f j)
