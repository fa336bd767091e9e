-- ===== src/Hid/Lifo/History.antt =====
-- What a reader of the ring of source/ControllerSwitch/SwitchMITMManager.cpp sees: the states of a
-- player, the newest first.
use mathlib.Core.Path.{ap₂}
use sys_con.Prelude.{
  ℕ, zero, suc, ◌+◌, ◌-◌, ◌≤◌, ◌<◌, ◌≡◌, ◌≢◌, refl, ap, ◌∙◌, false, List, [], ◌∷◌, set, get_or,
  get_or-set_ne, get_or-set_self, take, length, length-set, min, ltb, leb, if◌then◌else◌,
  Bool-cases, ◌⊎◌, ◌==◌, inl, inr, arith,
}
use sys_con.Hid.Lifo.{
  Storage, Lifo, Npad, Flags, Report, no_state, next_tail, ring_size, push, empty_lifo, update_npad,
  storage_of,
}

-- The place before `i` of a ring of `n` places.
abbrev pub prev : ℕ → ℕ → ℕ
prev n zero = n - 1
prev n (suc i) = i

-- `k` entries, from `i` backwards.
walk : ℕ → ℕ → ℕ → List Storage → List Storage
walk n zero i l = []
walk n (suc k) i l = get_or l i no_state ∷ walk n k (prev n i) l

-- The entries that the header says are in the ring.
pub history : Lifo → List Storage
unfolding walk
history l = walk l.buffer_count l.count l.tail l.storage

-- The header is within the ring.
pub record Fits (l : Lifo) : Type 0 where
  pub places : length l.storage ≡ l.buffer_count
  pub tail_lt : l.tail < l.buffer_count
  pub count_le : l.count ≤ l.buffer_count

-- The steps from `i` back to `j`.
abbrev back : ℕ → ℕ → ℕ → ℕ
back n i j = if leb j i then i - j else i + n - j

back-prev : (n i j k : ℕ) → i < n → j < n → suc k ≤ back n i j → (i ≢ j) × (k ≤ back n (prev n i) j)
back-prev n zero j k hi hj h = (ground arith, ground arith)
back-prev n (suc i) j k hi hj h = (ground arith, ground arith)

prev-lt : (n i : ℕ) → i < n → prev n i < n
prev-lt n zero h = omega arith
prev-lt n (suc i) h = omega arith

-- A write is not seen by a walk that stops before it.
walk-set :
    (n k i j : ℕ) (l : List Storage) (v : Storage)
    → i < n
    → j < n
    → k ≤ back n i j
    → walk n k i (set l j v) ≡ walk n k i l
unfolding walk
walk-set n zero i j l v hi hj h = refl
walk-set n (suc k) i j l v hi hj h =
    let b = back-prev n i j k hi hj h in
    ap₂ ◌∷◌ (get_or-set_ne l i j v no_state b.0)
      (walk-set n k (prev n i) j l v (prev-lt n i hi) hj b.1)

min-suc : (m k : ℕ) → min (suc m) (suc k) ≡ suc (min m k)
min-suc m k = omega arith

min-zero : (k : ℕ) → min zero k ≡ zero
min-zero k = omega arith

min-zero_right : (k : ℕ) → min k zero ≡ zero
min-zero_right k = omega arith

suc_sub : (n : ℕ) → suc n - 1 ≡ n
suc_sub n = omega arith

take-walk : (n m k i : ℕ) (l : List Storage) → take m (walk n k i l) ≡ walk n (min m k) i l
unfolding walk
take-walk n zero k i l = rw (min-zero k) refl
take-walk n (suc m) zero i l = rw (min-zero_right (suc m)) refl
take-walk n (suc m) (suc k) i l =
    rw (min-suc m k) (ap (◌∷◌ (get_or l i no_state)) (take-walk n m k (prev n i) l))

-- The next place is in the ring, the last entry is just before it, and the whole ring lies between.
next_tail-place :
    (l : Lifo)
    → Fits l
    → (next_tail l < l.buffer_count)
      × (prev l.buffer_count (next_tail l) ≡ l.tail)
      × (back l.buffer_count l.tail (next_tail l) ≡ l.buffer_count - 1)
unfolding next_tail
next_tail-place l f = elim (Bool-cases (leb l.buffer_count (l.tail + 1))) [
  | inl e ↦ rw (e) (ground (arith, f.tail_lt))
  | inr e ↦ rw (e) (ground (arith, f.tail_lt))
]

push-Fits : (l : Lifo) (s : Storage) → Fits l → Fits (push l s)
unfolding push
push-Fits l s f = record {
  places = length-set l.storage (next_tail l) s ∙ f.places;
  tail_lt = (next_tail-place l f).0;
  count_le = ground (arith, f.count_le);
}

history_after :
    (n c i j : ℕ) (s : Storage) (l : List Storage)
    → j < length l
    → i < n
    → j < n
    → c ≤ n
    → prev n j ≡ i
    → back n i j ≡ n - 1
    → (walk n (suc (min (n - 1) c)) j (set l j s)) ≡ take n (s ∷ walk n c i l)
unfolding walk
history_after zero c i j s l hl hi hj hc p b = absurd (omega arith)
history_after (suc n) c i j s l hl hi hj hc p b = ap₂ ◌∷◌ (get_or-set_self l j s no_state hl) (
    rw (p, suc_sub n, take-walk (suc n) n c i l)
      (walk-set (suc n) (min n c) i j l s hi hj (omega (arith, b))))

pushed_count : (n c : ℕ) → 0 < n → c ≤ n → (if ltb c n then c + 1 else c) ≡ suc (min (n - 1) c)
pushed_count n c h k = ground arith

-- Writing a state puts it before the history, and only the oldest is lost from a full ring.
pub push-history :
    (l : Lifo) (s : Storage) → Fits l → history (push l s) ≡ take l.buffer_count (s ∷ history l)
unfolding push history walk
push-history l s f =
    let t = next_tail-place l f in
    let c = pushed_count l.buffer_count l.count (omega (arith, f.tail_lt)) f.count_le in
    ap (λ k. walk l.buffer_count k (next_tail l) (set l.storage (next_tail l) s)) c
    ∙ history_after l.buffer_count l.count l.tail (next_tail l) s l.storage
        (omega (arith, t.0, f.places)) f.tail_lt t.0 f.count_le t.1 t.2

-- A player's part of the shared memory is as the system zeroes it, or as `Initialize` sets it up.
unfoldable pub Ready : Npad → Type 0
Ready p =
    (p.style_set ≡ 0)
    ⊎ ((p.style_set ≢ 0) × Fits p.full_key_lifo × (p.full_key_lifo.buffer_count ≡ ring_size))

-- The states of a player that games can see: none before `Initialize`.
pub seen : Npad → List Storage
unfolding history
seen p = if p.style_set == 0 then [] else history p.full_key_lifo

nonzero : (a : ℕ) → a ≢ 0 → (a == 0) ≡ false
nonzero a h = ground arith

pub empty-Fits : Fits empty_lifo
empty-Fits = record { places = refl; tail_lt = omega arith; count_le = omega arith }

-- Where the style that `Initialize` sets is not 0, and a player's part of the memory is zeroed or as
-- `Initialize` and `Update` leave it, `Update` leaves it initialized, with the new state as the newest
-- of at most 17, and the earlier ones in their order.
pub update_npad-seen :
    (flags : Flags) (n : ℕ) (r : Report) (p : Npad)
    → flags.style ≢ 0
    → Ready p
    → Ready (update_npad flags n r p)
      × ((update_npad flags n r p).style_set ≢ 0)
      × (seen (update_npad flags n r p) ≡ take ring_size (storage_of flags n r ∷ seen p))
unfolding update_npad Ready seen
update_npad-seen flags n r p h (inl z) = rw (z) (
  inr (h, push-Fits empty_lifo _ empty-Fits, refl),
  h,
  rw (nonzero flags.style h) (push-history empty_lifo _ empty-Fits),
)
update_npad-seen flags n r p h (inr (nz, f, size)) = rw (nonzero p.style_set nz) (
  inr (nz, push-Fits p.full_key_lifo _ f, size),
  nz,
  rw (nonzero p.style_set nz) (
      push-history p.full_key_lifo (storage_of flags n r) f
      ∙ ap (λ k. take k (storage_of flags n r ∷ history p.full_key_lifo)) size),
)
