-- ===== src/Config/Stream.antt =====
-- `IniReaderLineByLineCallback` of source/Sysmodule/source/config_handler.cpp: how the parser of the
-- configuration file gets its lines.
use sys_con.Prelude.{
  ℕ, zero, suc, ◌≤◌, ◌<◌, ◌≡◌, ◌≢◌, refl, ap, false, Option, none, some, [], ◌∷◌, ◌++◌, ◌⊎◌, inl,
  inr, length, ◌==◌, if◌then◌else◌, arith,
}
use sys_con.Prelude.Text.{Bytes}

abbrev newline : ℕ
newline = 10

abbrev put : ℕ → Option Bytes × Bytes → Option Bytes × Bytes
put c (none, rest) = (none, rest)
put c (some line, rest) = (some (c ∷ line), rest)

-- A line of at most `num` bytes with its newline, or null, and the bytes that are still unread.
unfoldable pub read_line : ℕ → Bytes → Option Bytes × Bytes
read_line zero file = (none, file)
read_line (suc num) [] = (none, [])
read_line (suc num) (c ∷ file) =
    let more = put c (read_line num file) in if c == newline then (some [], file) else more

unfoldable pub AllOther : Bytes → Type 0
AllOther [] = Unit {0}
AllOther (c ∷ cs) = (c ≢ newline) × AllOther cs

other : (c : ℕ) → c ≢ newline → (c == newline) ≡ false
other c h = ground arith

-- A line without a newline inside that fits with the one behind it is read whole, and the file goes
-- on behind it.
read_line-whole :
    (num : ℕ) (line rest : Bytes)
    → AllOther line
    → length line < num
    → read_line num (line ++ newline ∷ rest) ≡ (some line, rest)
unfolding read_line AllOther
read_line-whole zero line rest h k = absurd (omega arith)
read_line-whole (suc num) [] rest h k = refl
read_line-whole (suc num) (c ∷ cs) rest (h, hs) k =
    rw (other c h) (ap (put c) (read_line-whole num cs rest hs (omega arith)))

-- A last line that no newline ends is not given, and nor is a line without a newline inside that does
-- not fit with the one behind it.
pub read_line-lost :
    (num : ℕ) (line rest : Bytes)
    → AllOther line
    → (rest ≡ []) ⊎ (num ≤ length line)
    → (read_line num (line ++ rest)).0 ≡ none
unfolding read_line AllOther
read_line-lost zero line rest h k = refl
read_line-lost (suc num) [] rest h (inl e) = rw (e) refl
read_line-lost (suc num) [] rest h (inr k) = absurd (omega arith)
read_line-lost (suc num) (c ∷ cs) rest (h, hs) k =
    rw (other c h)
      (put-none c (read_line num (cs ++ rest)) (read_line-lost num cs rest hs (shorter k)))
  where
    put-none : (c : ℕ) (r : Option Bytes × Bytes) → r.0 ≡ none → (put c r).0 ≡ none
    put-none c (none, file) e = refl
    put-none c (some l, file) e = cc

    shorter : {n m : ℕ} → (rest ≡ []) ⊎ (suc n ≤ suc m) → (rest ≡ []) ⊎ (n ≤ m)
    shorter (inl e) = inl e
    shorter (inr b) = inr (omega arith)
