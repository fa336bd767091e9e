-- ===== src/Hid/Touch/Settle.antt =====
-- How often `OnRun` of source/ControllerSwitch/SwitchMITMManager.cpp copies a touch screen state.
use sys_con.Prelude.{
  ℕ, zero, suc, ◌+◌, ◌-◌, ◌<◌, ◌≡◌, ◌≢◌, refl, ◌∙◌, sym, true, false, leb, ◌==◌, if◌then◌else◌,
  arith,
}
use sys_con.Hid.Touch.{Touch, next_place, copy_newest, forward}

-- The places from `a` on to `b` in a ring of `n`.
abbrev ahead : ℕ → ℕ → ℕ → ℕ
ahead n a b = if leb a b then b - a else n + b - a

-- A full ring of the system, and tails within rings of one size.
pub record Live (t : Touch) : Type 0 where
  pub full : t.real.count ≡ 16
  pub real_lt : t.real.tail < t.fake.buffer_count
  pub fake_lt : t.fake.tail < t.fake.buffer_count
  pub prev : t.prev_tail ≡ t.fake.tail

next_place-ahead :
    (n a b k : ℕ)
    → a < n
    → b < n
    → ahead n a b ≡ suc k
    → (ahead n (next_place n a) b ≡ k) × (next_place n a < n) × (b ≢ a)
next_place-ahead n a b k ha hb e = (ground arith, ground arith, ground arith)

ahead_zero : (n a b : ℕ) → a < n → b < n → ahead n a b ≡ 0 → b ≡ a
ahead_zero n a b ha hb e = ground arith

differ : (a b : ℕ) → a ≢ b → (a == b) ≡ false
differ a b h = ground arith

same : (a b : ℕ) → a ≡ b → (a == b) ≡ true
same a b h = ground arith

forward_idle : (t : Touch) → Live t → t.real.tail ≡ t.fake.tail → forward t ≡ t
unfolding forward
forward_idle t v e = rw (v.full, same t.real.tail t.prev_tail (e ∙ sym v.prev)) refl

forward_copies : (t : Touch) → Live t → t.real.tail ≢ t.fake.tail → forward t ≡ copy_newest t
unfolding forward
forward_copies t v h = rw (v.full, differ t.real.tail t.prev_tail (λ e. h (e ∙ v.prev))) refl

-- With `k` places between the tails, the next `k` turns copy the newest state once each, up to the
-- turn at which the tails meet; from then on nothing is copied.
pub Settles : ℕ → Touch → Type 0
Settles zero t = forward t ≡ t
Settles (suc k) t = (forward t ≡ copy_newest t) × Settles k (copy_newest t)

forward-Settles_from :
    (k : ℕ) (t : Touch)
    → Live t
    → ahead t.fake.buffer_count t.fake.tail t.real.tail ≡ k
    → Settles k t
unfolding Settles copy_newest
forward-Settles_from zero t v e =
    forward_idle t v (ahead_zero t.fake.buffer_count t.fake.tail t.real.tail v.fake_lt v.real_lt e)
forward-Settles_from (suc k) t v e =
    let (shorter, fits, other) =
      next_place-ahead t.fake.buffer_count t.fake.tail t.real.tail k v.fake_lt v.real_lt e in
    (
      forward_copies t v other,
      forward-Settles_from k (copy_newest t)
          (record { full = v.full; real_lt = v.real_lt; fake_lt = fits; prev = refl }) shorter,
    )

-- Where the ring of the system is full, both tails lie in a ring of the copy's size, and the thread
-- remembers the copy's tail: if the system writes nothing new, each turn copies the newest state once
-- more until the tails meet, which takes as many turns as there are places between them, and from
-- then on nothing is copied.
pub forward-Settles :
    (t : Touch) → Live t → Settles (ahead t.fake.buffer_count t.fake.tail t.real.tail) t
forward-Settles t v = forward-Settles_from _ t v refl
