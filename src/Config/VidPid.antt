-- ===== src/Config/VidPid.antt =====
-- `ControllerVidPid` of source/Sysmodule/source/config_handler.h.
pub mod RoundTrip
use sys_con.Prelude.{
  ℕ, ◌+◌, ◌/◌, ◌%◌, Bool, true, false, ◌&&◌, Option, none, some, List, [], ◌∷◌, ◌++◌, ltb, ◌==◌,
  if◌then◌else◌,
}
use sys_con.Prelude.Int.{wrap}
use sys_con.Prelude.Text.{Bytes}
use sys_con.Config.Numbers.{strtol}

pub record VidPid : Type 0 where
  pub vid : ℕ
  pub pid : ℕ

abbrev consed : ℕ → Option (Bytes × Bytes) → Option (Bytes × Bytes)
consed c none = none
consed c (some (a, b)) = some (c ∷ a, b)

-- What stands before the first delimiter, and what stands behind it.
unfoldable pub split_at : ℕ → Bytes → Option (Bytes × Bytes)
split_at d [] = none
split_at d (c ∷ cs) = let more = consed c (split_at d cs) in if c == d then some ([], cs) else more

abbrev of_parts : Option (Bytes × Bytes) → VidPid
of_parts none = record { vid = 0; pid = 0 }
of_parts (some (v, p)) = record { vid = wrap 16 (strtol 16 v); pid = wrap 16 (strtol 16 p) }

-- The constructor from a text.
unfoldable pub of_text : Bytes → VidPid
unfolding split_at strtol
of_text vidpid = of_parts (split_at b'-' vidpid)

unfoldable pub hex_digit : ℕ → ℕ
hex_digit d = if ltb d 10 then d + b'0' else d + 87

-- `setfill('0') << setw(4) << hex`, for a value of 16 bits.
unfoldable pub hex4 : ℕ → Bytes
unfolding hex_digit
hex4 n =
    hex_digit (n / 4096 % 16)
    ∷ hex_digit (n / 256 % 16)
    ∷ hex_digit (n / 16 % 16)
    ∷ hex_digit (n % 16)
    ∷ []

-- The conversion to a text.
unfoldable pub to_text : VidPid → Bytes
unfolding hex4
to_text v = hex4 v.vid ++ b'-' ∷ hex4 v.pid

unfoldable vidpid_eq : VidPid → VidPid → Bool
vidpid_eq v w = v.vid == w.vid && v.pid == w.pid
