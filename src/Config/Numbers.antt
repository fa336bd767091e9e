-- ===== src/Config/Numbers.antt =====
-- What source/Sysmodule/source/config_handler.cpp uses of the C library on text: `tolower` over a
-- string, `strtok_r`, `strtol`, `atoi`, and the code's own `isNumber`.
pub mod Decimal
use sys_con.Prelude.{
  ℕ, ◌+◌, ◌-◌, ◌*◌, ◌^◌, ◌%◌, Bool, true, false, ◌&&◌, ◌||◌, List, [], ◌∷◌, ◌++◌, map, ltb, leb,
  ◌==◌, if◌then◌else◌,
}
use sys_con.Prelude.Int.{ℤ, pos, negsuc, sub_ℕ, wrap}
use sys_con.Prelude.Text.{Bytes, is_digit, is_space, to_lower}

unfoldable pub convert_to_lowercase : Bytes → Bytes
unfolding to_lower
convert_to_lowercase = map to_lower

-- `strtok_r` passes over delimiters and gives out the runs between them, so no token is empty.
abbrev flush : Bytes → List Bytes → List Bytes
flush [] rest = rest
flush (c ∷ cs) rest = (c ∷ cs) ∷ rest

unfoldable tokens_from : ℕ → Bytes → Bytes → List Bytes
tokens_from d cur [] = flush cur []
tokens_from d cur (c ∷ cs) =
    let cut = flush cur (tokens_from d [] cs) in
    let more = tokens_from d (cur ++ c ∷ []) cs in if c == d then cut else more

unfoldable pub tokens : ℕ → Bytes → List Bytes
unfolding tokens_from
tokens d = tokens_from d []

-- The value of a digit; 255 where the byte is none.
unfoldable pub digit_value : ℕ → ℕ
unfolding is_digit
digit_value c =
    if is_digit c
    then c - b'0'
    else if leb b'a' c && leb c b'z'
    then c - b'a' + 10
    else if leb b'A' c && leb c b'Z'
    then c - b'A' + 10
    else 255

unfoldable pub read_digits : ℕ → ℕ → Bytes → ℕ
unfolding digit_value
read_digits base acc [] = acc
read_digits base acc (c ∷ cs) =
    let more = read_digits base (acc * base + digit_value c) cs in
    if ltb (digit_value c) base then more else acc

unfoldable pub skip_spaces : Bytes → Bytes
unfolding is_space
skip_spaces [] = []
skip_spaces (c ∷ cs) = let more = skip_spaces cs in if is_space c then more else c ∷ cs

-- In base 16 a prefix 0x is passed over.
abbrev skip_prefix : ℕ → Bytes → Bytes
skip_prefix base (c ∷ d ∷ cs) =
    if base == 16 && c == b'0' && (d == b'x' || d == b'X') then cs else c ∷ d ∷ cs
skip_prefix base cs = cs

-- `long` has 64 bits on the target, and `strtol` stops at its ends.
abbrev pub signed_long : Bool → ℕ → ℤ
signed_long true n = if ltb n (2 ^ 63) then sub_ℕ 0 n else negsuc (2 ^ 63 - 1)
signed_long false n = if ltb n (2 ^ 63) then pos n else pos (2 ^ 63 - 1)

abbrev after_sign : ℕ → Bytes → ℤ
after_sign base [] = pos 0
after_sign base (c ∷ cs) =
    if c == b'-'
    then signed_long true (read_digits base 0 (skip_prefix base cs))
    else if c == b'+'
    then signed_long false (read_digits base 0 (skip_prefix base cs))
    else signed_long false (read_digits base 0 (skip_prefix base (c ∷ cs)))

unfoldable pub strtol : ℕ → Bytes → ℤ
unfolding read_digits skip_spaces
strtol base s = after_sign base (skip_spaces s)

-- The integer that a pattern of 32 bits stands for.
abbrev signed32 : ℕ → ℤ
signed32 w = if ltb w (2 ^ 31) then pos w else negsuc (2 ^ 32 - w - 1)

-- newlib's `atoi` is `(int)strtol(s, NULL, 10)`.
unfoldable pub atoi : Bytes → ℤ
unfolding strtol
atoi s = signed32 (wrap 32 (strtol 10 s))

unfoldable pub all_digits : Bytes → Bool
unfolding is_digit
all_digits [] = true
all_digits (c ∷ cs) = is_digit c && all_digits cs

unfoldable pub is_number : Bytes → Bool
unfolding all_digits
is_number [] = false
is_number (c ∷ cs) = all_digits (c ∷ cs)
