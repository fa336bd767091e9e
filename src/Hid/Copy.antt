-- ===== src/Hid/Copy.antt =====
-- `memcpy_64` of source/ControllerSwitch/SwitchMITMManager.cpp.
use sys_con.Prelude.{
  ℕ, zero, suc, ◌+◌, ◌-◌, ◌*◌, ◌/◌, ◌%◌, ◌≤◌, ◌≡◌, refl, ap, ◌∙◌, Bool, true, false, not, ◌||◌,
  Bool-cases, inl, inr, [], ◌∷◌, ◌++◌, length, take, drop, ◌==◌, ==_iff, if◌then◌else◌, arith,
}
use sys_con.Prelude.Text.{Bytes}

-- The loop that copies bytes, over what is left of both memories.
unfoldable copy_bytes : ℕ → Bytes → Bytes → Bytes
copy_bytes zero dest src = dest
copy_bytes (suc n) [] src = []
copy_bytes (suc n) (d ∷ dest) [] = d ∷ dest
copy_bytes (suc n) (d ∷ dest) (s ∷ src) = s ∷ copy_bytes n dest src

-- The loop that copies `uint64_t`s, each of eight bytes.
unfoldable copy_words : ℕ → Bytes → Bytes → Bytes
copy_words zero dest src = dest
copy_words (suc n) dest src = take 8 src ++ copy_words n (drop 8 dest) (drop 8 src)

-- The two addresses are numbers.
unfoldable pub memcpy_64 : ℕ → ℕ → ℕ → Bytes → Bytes → Bytes
unfolding copy_bytes copy_words
memcpy_64 dest_address src_address n dest src =
    if not (n % 8 == 0) || (not (dest_address % 8 == 0) || not (src_address % 8 == 0))
    then copy_bytes n dest src
    else copy_words (n / 8) dest src

copy_bytes-take :
    (n : ℕ) (dest src : Bytes)
    → n ≤ length dest
    → n ≤ length src
    → copy_bytes n dest src ≡ take n src ++ drop n dest
unfolding copy_bytes
copy_bytes-take zero dest src h k = refl
copy_bytes-take (suc n) [] src h k = absurd (omega arith)
copy_bytes-take (suc n) (d ∷ dest) [] h k = absurd (omega arith)
copy_bytes-take (suc n) (d ∷ dest) (s ∷ src) h k =
    ap (λ l. s ∷ l) (copy_bytes-take n dest src (omega arith) (omega arith))

-- Eight bytes are copied as one by one.
word_bytes :
    (m n : ℕ) (dest src : Bytes)
    → m ≤ length dest
    → m ≤ length src
    → take m src ++ copy_bytes n (drop m dest) (drop m src) ≡ copy_bytes (m + n) dest src
unfolding copy_bytes
word_bytes zero n dest src h k = ap (λ j. copy_bytes j dest src) (omega arith)
word_bytes (suc m) n [] src h k = absurd (omega arith)
word_bytes (suc m) n (d ∷ dest) [] h k = absurd (omega arith)
word_bytes (suc m) n (d ∷ dest) (s ∷ src) h k =
    let e : suc m + n ≡ suc (m + n) = omega arith in
    rw (e) (ap (λ l. s ∷ l) (word_bytes m n dest src (omega arith) (omega arith)))

length-drop : (n : ℕ) (b : Bytes) → length (drop n b) ≡ length b - n
length-drop zero b = omega arith
length-drop (suc n) [] = omega arith
length-drop (suc n) (x ∷ b) = omega (arith, length-drop n b)

copy_words-bytes :
    (n : ℕ) (dest src : Bytes)
    → n * 8 ≤ length dest
    → n * 8 ≤ length src
    → copy_words n dest src ≡ copy_bytes (n * 8) dest src
unfolding copy_words copy_bytes
copy_words-bytes zero dest src h k = refl
copy_words-bytes (suc n) dest src h k =
    ap (λ l. take 8 src ++ l)
      (copy_words-bytes n (drop 8 dest) (drop 8 src) (omega (arith, length-drop 8 dest))
        (omega (arith, length-drop 8 src)))
    ∙ word_bytes 8 (n * 8) dest src (omega arith) (omega arith)
    ∙ ap (λ j. copy_bytes j dest src) (omega arith)

divisible : (a b : Bool) → (not a || b) ≡ false → a ≡ true
divisible true b h = refl
divisible false b h = absurd (ground arith)

whole_words : (n : ℕ) → (n % 8 == 0) ≡ true → n / 8 * 8 ≡ n
whole_words n h = let e : n % 8 ≡ 0 = (==_iff (n % 8) 0).0 h in omega (arith, e)

-- For memories that hold `n` bytes, `memcpy_64` copies the first `n` bytes of the one to the other and
-- leaves what is behind them, whether it goes by bytes or, where it may, by words.
pub memcpy_64-take :
    (dest_address src_address n : ℕ) (dest src : Bytes)
    → n ≤ length dest
    → n ≤ length src
    → memcpy_64 dest_address src_address n dest src ≡ take n src ++ drop n dest
unfolding memcpy_64
memcpy_64-take dest_address src_address n dest src h k =
    elim (Bool-cases
      (not (n % 8 == 0) || (not (dest_address % 8 == 0) || not (src_address % 8 == 0)))) [
        | inl t ↦ rw (t) (copy_bytes-take n dest src h k)
        | inr f ↦
            let whole : n / 8 * 8 ≡ n = whole_words n (divisible (n % 8 == 0) _ f) in
            rw (f) (
              copy_words-bytes (n / 8) dest src (omega (arith, whole)) (omega (arith, whole))
              ∙ ap (λ j. copy_bytes j dest src) whole
              ∙ copy_bytes-take n dest src h k)
      ]
