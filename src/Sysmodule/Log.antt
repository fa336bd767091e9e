-- ===== src/Sysmodule/Log.antt =====
-- The log: source/Sysmodule/source/logger.cpp.
pub mod Rows
use sys_con.Prelude.{
  ℕ, zero, suc, ◌+◌, ◌-◌, ◌*◌, ◌/◌, ◌%◌, ◌^◌, Bool, true, false, Option, none, some, List, [], ◌∷◌,
  ◌++◌, length, take, drop, get_or, min, ltb, leb, if◌then◌else◌,
}
use sys_con.Prelude.Text.{Bytes, codes}

abbrev log_file_size_max : ℕ
log_file_size_max = 128 * 1024

abbrev buffer_size : ℕ
buffer_size = 1024

-- `klogLevelStr`
abbrev level_letters : Bytes
level_letters = codes "TDPIWE"

abbrev pub digit : ℕ → ℕ
digit d = d + b'0'

-- `%02u` of a value below 100, and `%03u` of one below 1000.
abbrev two_digits : ℕ → Bytes
two_digits n = digit (n / 10 % 10) ∷ digit (n % 10) ∷ []

abbrev three_digits : ℕ → Bytes
three_digits n = digit (n / 100 % 10) ∷ two_digits (n % 100)

-- A digit of `%X`, and `%02X` and `%08X`.
abbrev pub hex_digit : ℕ → ℕ
hex_digit d = if ltb d 10 then d + b'0' else d + 55

abbrev hex2 : ℕ → Bytes
hex2 n = hex_digit (n / 16 % 16) ∷ hex_digit (n % 16) ∷ []

abbrev hex8 : ℕ → Bytes
hex8 n = hex2 (n / 16777216) ++ hex2 (n / 65536) ++ hex2 (n / 256) ++ hex2 n

-- The beginning of a line, from the level, the time in milliseconds and the hash of the thread.
unfoldable pub stamp : ℕ → ℕ → ℕ → Bytes
stamp lvl time_ms thread =
    b'|' ∷ get_or level_letters lvl 0 ∷ b'|' ∷ two_digits (time_ms / 3600000 % 24)
    ++ b':' ∷ two_digits (time_ms / 60000 % 60)
    ++ b':' ∷ two_digits (time_ms / 1000 % 60)
    ++ b'.' ∷ three_digits (time_ms % 1000)
    ++ b'|' ∷ hex8 thread
    ++ b'|' ∷ b' ' ∷ []

-- `snprintf` at an offset of the buffer, up to its end: what stood there before is cut off.
abbrev pub put : ℕ → Bytes → Bytes → Bytes
put offset text line = take (buffer_size - 1) (take offset line ++ text)

-- The level, and the file where there is a file manager and it opens the file.
pub record Logger : Type 0 where
  pub log_level : ℕ
  pub file : Option Bytes

-- `LogWriteToFile`
unfoldable log_write_to_file : Bytes → Logger → Logger
log_write_to_file line s = record s { file = appended s.file }
  where
    appended : Option Bytes → Option Bytes
    appended none = none
    appended (some b) = some (b ++ line ++ 10 ∷ [])

-- What `Initialize` leaves of the file.
unfoldable pub initialize : Bytes → Bytes
initialize file = if leb log_file_size_max (length file) then [] else file

-- `Log`, where `text` is the formatted message.
unfoldable log : ℕ → ℕ → ℕ → Bytes → Logger → Logger
unfolding log_write_to_file
log lvl time_ms thread text s =
    let start = stamp lvl time_ms thread in
    if ltb lvl s.log_level then s else log_write_to_file (put (length start) text start) s

-- A byte as it stands in a row.
abbrev pub cell : ℕ → Bytes
cell b = hex2 b ++ 32 ∷ []

-- The inner loop of `LogBuffer`, from the cell `k` on.
unfoldable pub put_cells : ℕ → ℕ → Bytes → Bytes → Bytes
put_cells start k [] line = line
put_cells start k (b ∷ bs) line = put_cells start (suc k) bs (put (start + k * 3) (cell b) line)

-- The outer loop over what is left of the buffer. Each turn takes sixteen bytes, so that as many turns
-- as there are bytes are enough. It gives the lines.
unfoldable pub rows : ℕ → ℕ → Bytes → Bytes → List Bytes
unfolding put_cells
rows zero start rest line = []
rows (suc fuel) start [] line = []
rows (suc fuel) start (b ∷ bs) line =
    let next = put_cells start 0 (take 16 (b ∷ bs)) line in
    next ∷ rows fuel start (drop 16 (b ∷ bs)) next

-- The lines of `LogBuffer`; `size` is the text of the size.
unfoldable pub buffer_lines : Bytes → Bytes → Bytes → List Bytes
unfolding rows
buffer_lines start size b =
    let first = put (length start) (codes "Buffer (" ++ size ++ codes "): ") start in
    first ∷ rows (length b) (length start) b first

unfoldable pub write_all : List Bytes → Logger → Logger
unfolding log_write_to_file
write_all [] s = s
write_all (l ∷ ls) s = write_all ls (log_write_to_file l s)

-- `LogBuffer`
unfoldable log_buffer : ℕ → ℕ → ℕ → Bytes → Bytes → Logger → Logger
unfolding write_all buffer_lines
log_buffer lvl time_ms thread size b s =
    if ltb lvl s.log_level then s else write_all (buffer_lines (stamp lvl time_ms thread) size b) s
