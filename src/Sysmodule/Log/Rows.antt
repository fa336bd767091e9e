-- ===== src/Sysmodule/Log/Rows.antt =====
-- What `LogBuffer` of source/Sysmodule/source/logger.cpp shows of a buffer.
use mathlib.Core.List.{append_assoc, append-nil}
use sys_con.Prelude.{
  ℕ, zero, suc, ◌+◌, ◌-◌, ◌*◌, ◌≤◌, ◌≡◌, refl, ap, ◌∙◌, sym, true, false, Option, none, some, [],
  ◌∷◌, ◌++◌, length, length-append, length-take, take, drop, get_elem?, ltb, if◌then◌else◌, arith,
}
use sys_con.Prelude.Text.{Bytes, codes}
use sys_con.Sysmodule.Log.{stamp, put, cell, put_cells, rows, buffer_lines}

-- The cells of a row.
unfoldable pub cells : Bytes → Bytes
cells [] = []
cells (b ∷ bs) = cell b ++ cells bs

-- Row `i`, where the buffer is that long: sixteen bytes of it, or what is left, behind the stamp.
abbrev pub row : Bytes → Bytes → ℕ → Option Bytes
row start b i =
    if ltb (16 * i) (length b) then some (start ++ cells (take 16 (drop (16 * i) b))) else none

take-take_prefix : (p t : Bytes) (n m : ℕ) → length p ≡ n → n ≤ m → take n (take m (p ++ t)) ≡ p
take-take_prefix [] t zero m e h = refl
take-take_prefix [] t (suc n) m e h = absurd (omega (arith, e))
take-take_prefix (x ∷ p) t zero m e h = absurd (omega (arith, e))
take-take_prefix (x ∷ p) t (suc n) zero e h = absurd (omega arith)
take-take_prefix (x ∷ p) t (suc n) (suc m) e h =
    ap (λ l. x ∷ l) (take-take_prefix p t n m (omega (arith, e)) (omega arith))

take_all : (n : ℕ) (p : Bytes) → length p ≤ n → take n p ≡ p
take_all zero [] h = refl
take_all zero (x ∷ p) h = absurd (omega arith)
take_all (suc n) [] h = refl
take_all (suc n) (x ∷ p) h = ap (λ l. x ∷ l) (take_all n p (omega arith))

take_front : (n : ℕ) (p t : Bytes) → length p ≡ n → take n (p ++ t) ≡ p
take_front zero [] t e = refl
take_front zero (x ∷ p) t e = absurd (omega (arith, e))
take_front (suc n) [] t e = absurd (omega (arith, e))
take_front (suc n) (x ∷ p) t e = ap (λ l. x ∷ l) (take_front n p t (omega (arith, e)))

drop_none : (n : ℕ) → drop {A = ℕ} n [] ≡ []
drop_none zero = refl
drop_none (suc n) = refl

drop-drop : (n m k : ℕ) (b : Bytes) → m + n ≡ k → drop n (drop m b) ≡ drop k b
drop-drop n zero k b e = ap (λ j. drop j b) (omega (arith, e))
drop-drop n (suc m) zero b e = absurd (omega (arith, e))
drop-drop n (suc m) (suc k) [] e = drop_none n
drop-drop n (suc m) (suc k) (x ∷ b) e = drop-drop n m k b (omega (arith, e))

length-drop : (n : ℕ) (b : Bytes) → length (drop n b) ≡ length b - n
length-drop zero b = omega arith
length-drop (suc n) [] = omega arith
length-drop (suc n) (x ∷ b) = omega (arith, length-drop n b)

-- A cell that is put behind a prefix of the line.
put-cell :
    (off : ℕ) (p line : Bytes) (b : ℕ)
    → take off line ≡ p
    → length p ≡ off
    → off + 3 ≤ 1023
    → put off (cell b) line ≡ p ++ cell b
put-cell off p line b e n h =
    ap (λ q. take 1023 (q ++ cell b)) e
    ∙ take_all 1023 (p ++ cell b) (omega (arith, length-append p (cell b), n))

put_cells-cells :
    (start k : ℕ) (p line : Bytes) (b : ℕ) (bs : Bytes)
    → take (start + k * 3) line ≡ p
    → length p ≡ start + k * 3
    → start + k * 3 + 3 * length (b ∷ bs) ≤ 1023
    → put_cells start k (b ∷ bs) line ≡ p ++ cells (b ∷ bs)
unfolding put_cells cells
put_cells-cells start k p line b [] e n h =
    put-cell (start + k * 3) p line b e n (omega arith)
    ∙ ap (λ l. p ++ l) (sym (append-nil (cell b)))
put_cells-cells start k p line b (c ∷ bs) e n h =
    let q = p ++ cell b in
    let one = put-cell (start + k * 3) p line b e n (omega arith) in
    let len : length q ≡ start + suc k * 3 = omega (arith, length-append p (cell b), n) in
    ap (put_cells start (suc k) (c ∷ bs)) one
    ∙ put_cells-cells start (suc k) q q c bs (take_all (start + suc k * 3) q (omega (arith, len)))
        len (omega arith)
    ∙ append_assoc p (cell b) (cells (c ∷ bs))

-- The next row begins sixteen bytes later.
row-suc : (start b : Bytes) (i : ℕ) → 1 ≤ length b → row start (drop 16 b) i ≡ row start b (suc i)
row-suc start b i h =
    let more : ltb (16 * i) (length (drop 16 b)) ≡ ltb (16 * suc i) (length b) =
      ground (arith, length-drop 16 b) in
    rw (more) (
      ap (λ l. if ltb (16 * suc i) (length b) then some (start ++ cells (take 16 l)) else none)
        (drop-drop (16 * i) 16 (16 * suc i) b (omega arith)))

first_row :
    (start b line : Bytes) (x : ℕ)
    → take (length start) line ≡ start
    → length start ≤ 900
    → put_cells (length start) 0 (take 16 (x ∷ b)) line ≡ start ++ cells (take 16 (x ∷ b))
first_row start b line x e h =
    put_cells-cells (length start) 0 start line x (take 15 b)
      (ap (λ n. take n line) (omega arith) ∙ e) (omega arith) (omega (arith, length-take 15 b))

row-none : (start : Bytes) (i : ℕ) → none ≡ row start [] i
row-none start i = let past : ltb (16 * i) 0 ≡ false = ground arith in rw (past) refl

row-first :
    (start b line : Bytes) (x : ℕ)
    → line ≡ start ++ cells (take 16 (x ∷ b))
    → some line ≡ row start (x ∷ b) 0
row-first start b line x e =
    let there : ltb (16 * 0) (length (x ∷ b)) ≡ true = ground arith in rw (there) (ap some e)

rows-row :
    (fuel : ℕ) (start b line : Bytes) (i : ℕ)
    → take (length start) line ≡ start
    → length start ≤ 900
    → length b ≤ fuel
    → get_elem? (rows fuel (length start) b line) i ≡ row start b i
unfolding rows
rows-row zero start [] line i e h k = row-none start i
rows-row zero start (x ∷ b) line i e h k = absurd (omega arith)
rows-row (suc fuel) start [] line i e h k = row-none start i
rows-row (suc fuel) start (x ∷ b) line zero e h k =
    row-first start b _ x (first_row start b line x e h)
rows-row (suc fuel) start (x ∷ b) line (suc i) e h k =
    let next = put_cells (length start) 0 (take 16 (x ∷ b)) line in
    rows-row fuel start (drop 16 (x ∷ b)) next i
      (ap (take (length start)) (first_row start b line x e h)
        ∙ take_front (length start) start (cells (take 16 (x ∷ b))) refl)
      h (omega (arith, length-drop 16 (x ∷ b)))
    ∙ row-suc start (x ∷ b) i (omega arith)

-- The length of the beginning of a line.
length-stamp : (lvl time_ms thread : ℕ) → length (stamp lvl time_ms thread) ≡ 26
unfolding stamp
length-stamp lvl time_ms thread = refl

-- Behind its first line, `LogBuffer` writes a row for each sixteen bytes of the buffer, and one for a
-- rest, and no more. Row `i` shows the bytes from `16 * i` on, in order, behind the stamp, and nothing
-- of the rows before it.
pub buffer_lines-row :
    (lvl time_ms thread : ℕ) (size b : Bytes) (i : ℕ)
    → get_elem? (buffer_lines (stamp lvl time_ms thread) size b) (suc i)
      ≡ row (stamp lvl time_ms thread) b i
unfolding buffer_lines
buffer_lines-row lvl time_ms thread size b i =
    let start = stamp lvl time_ms thread in
    let header = codes "Buffer (" ++ size ++ codes "): " in
    let len = length-stamp lvl time_ms thread in
    let same : put (length start) header start ≡ take 1023 (start ++ header) =
      ap (λ p. take 1023 (p ++ header)) (take_all (length start) start (omega arith)) in
    rows-row (length b) start b (put (length start) header start) i
      (ap (take (length start)) same
        ∙ take-take_prefix start header (length start) 1023 refl (omega (arith, len)))
      (omega (arith, len)) (omega arith)
