-- ===== src/Config/VidPid/RoundTrip.antt =====
-- Printing and reading a vendor and product id (source/Sysmodule/source/config_handler.h).
use sys_con.Prelude.{
  ℕ, ◌+◌, ◌*◌, ◌/◌, ◌%◌, ◌<◌, ◌≡◌, false, some, [], ◌∷◌, ◌++◌, ◌==◌, ap, ◌∙◌, arith,
}
use sys_con.Prelude.Int.{pos}
use sys_con.Prelude.Text.{Bytes, is_space}
use sys_con.Config.Numbers.{digit_value, read_digits, signed_long, strtol}
use sys_con.Config.VidPid.{VidPid, split_at, of_text, hex_digit, hex4, to_text}

digit_value-hex_digit : (d : ℕ) → d < 16 → digit_value (hex_digit d) ≡ d
unfolding digit_value hex_digit
digit_value-hex_digit d h = ground arith

read_digits-cons :
    (acc d : ℕ) (cs : Bytes)
    → d < 16
    → read_digits 16 acc (hex_digit d ∷ cs) ≡ read_digits 16 (acc * 16 + d) cs
unfolding read_digits
read_digits-cons acc d cs h = rw (digit_value-hex_digit d h) (ground arith)

-- Four hexadecimal digits are read as one number.
read_digits-hex4 : (n : ℕ) → n < 65536 → read_digits 16 0 (hex4 n) ≡ n
unfolding hex4 read_digits
read_digits-hex4 n h =
    rw
      (
        read_digits-cons 0 (n / 4096 % 16) _ (omega arith),
        read_digits-cons _ (n / 256 % 16) _ (omega arith),
        read_digits-cons _ (n / 16 % 16) _ (omega arith),
        read_digits-cons _ (n % 16) [] (omega arith),
        read_digits,
      )
      (omega arith)

-- A digit is no space, no sign, and not the x of a prefix.
hex_digit_plain :
    (d : ℕ)
    → d < 16
    → (is_space (hex_digit d) ≡ false)
      × ((hex_digit d == b'-') ≡ false)
      × ((hex_digit d == b'+') ≡ false)
      × ((hex_digit d == b'x') ≡ false)
      × ((hex_digit d == b'X') ≡ false)
unfolding hex_digit is_space
hex_digit_plain d h = ground arith

strtol_plain :
    (d e : ℕ) (cs : Bytes)
    → d < 16
    → e < 16
    → let s = hex_digit d ∷ hex_digit e ∷ cs in strtol 16 s ≡ signed_long false (read_digits 16 0 s)
unfolding strtol
strtol_plain d e cs hd he = ground (arith, hex_digit_plain d hd, hex_digit_plain e he)

strtol-hex4 : (n : ℕ) → n < 65536 → strtol 16 (hex4 n) ≡ pos n
unfolding hex4
strtol-hex4 n h =
    strtol_plain (n / 4096 % 16) (n / 256 % 16) _ (omega arith) (omega arith)
    ∙ ap (signed_long false) (read_digits-hex4 n h)
    ∙ ground arith

split_at-hex4 : (n : ℕ) (rest : Bytes) → split_at b'-' (hex4 n ++ b'-' ∷ rest) ≡ some (hex4 n, rest)
unfolding split_at hex4
split_at-hex4 n rest = ground (
  arith,
  hex_digit_plain (n / 4096 % 16) (omega arith),
  hex_digit_plain (n / 256 % 16) (omega arith),
  hex_digit_plain (n / 16 % 16) (omega arith),
  hex_digit_plain (n % 16) (omega arith),
)

-- Reading back the text of a vendor and product id of 16 bits gives the id.
pub of_text-to_text : (v : VidPid) → v.vid < 65536 → v.pid < 65536 → of_text (to_text v) ≡ v
unfolding of_text to_text
of_text-to_text v hv hp =
    rw (split_at-hex4 v.vid (hex4 v.pid), of_text)
      (rw (strtol-hex4 v.vid hv, strtol-hex4 v.pid hp) (ground arith))
