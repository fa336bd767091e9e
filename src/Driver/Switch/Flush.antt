-- ===== src/Driver/Switch/Flush.antt =====
-- When `Initialize` of source/ControllerLib/Controllers/SwitchController.cpp ends.
use native.Mathlib.Decide.{ℕ_discrete}
use sys_con.Prelude.{
  ℕ, zero, suc, ◌+◌, ◌<◌, ◌≤◌, ◌≡◌, ◌≢◌, refl, true, false, none, some, ◌==◌, arith,
}
use sys_con.Controller.Result.{ControllerResult, is_success}
use sys_con.Driver.Switch.{flush, initialize, handshake}

-- Reads that succeed from the `i`th on, until the read `n` fails.
pub record FailsFirst (reads : ℕ → ControllerResult) (n : ℕ) : Type 0 where
  pub succeeds : (i : ℕ) → i < n → is_success (reads i) ≡ true
  pub fails : is_success (reads n) ≡ false

flush_from :
    (reads : ℕ → ControllerResult) (n fuel i : ℕ)
    → FailsFirst reads n
    → i ≤ n
    → n < fuel + i
    → flush reads fuel i ≡ some (n + 1)
unfolding flush
flush_from reads n zero i f h k = absurd (omega arith)
flush_from reads n (suc fuel) i f h k = elim (ℕ_discrete i n) [
  | yes here ↦ rw (here, f.fails) refl
  | no earlier ↦
      rw (f.succeeds i (omega arith))
        (flush_from reads n fuel (i + 1) f (omega arith) (omega arith))
]

-- Where the base class succeeds and there is an output endpoint: if the read `n` is the first one that
-- fails, `Initialize` ends after it, whatever the fuel above `n`, with one more read and the two
-- packets, and succeeds.
pub initialize-ends :
    (reads : ℕ → ControllerResult) (opened : ControllerResult) (out_count n fuel : ℕ)
    → is_success opened ≡ true
    → out_count ≢ 0
    → FailsFirst reads n
    → n < fuel
    → initialize reads opened out_count fuel ≡ some (handshake (n + 1))
unfolding initialize
initialize-ends reads opened out_count n fuel ok out f k =
    let there : (out_count == 0) ≡ false = ground arith in
    let e : flush reads fuel 0 ≡ some (n + 1) =
      flush_from reads n fuel 0 f (omega arith) (omega arith) in
    rw (ok, there, e) refl

flush-none :
    (reads : ℕ → ControllerResult) (fuel i : ℕ)
    → ((j : ℕ) → is_success (reads j) ≡ true)
    → flush reads fuel i ≡ none
unfolding flush
flush-none reads zero i all = refl
flush-none reads (suc fuel) i all = rw (all i) (flush-none reads fuel (i + 1) all)

-- Where the base class succeeds and there is an output endpoint: if no read ever fails, no fuel is
-- enough for `Initialize`.
initialize-never :
    (reads : ℕ → ControllerResult) (opened : ControllerResult) (out_count fuel : ℕ)
    → is_success opened ≡ true
    → out_count ≢ 0
    → ((j : ℕ) → is_success (reads j) ≡ true)
    → initialize reads opened out_count fuel ≡ none
unfolding initialize
initialize-never reads opened out_count fuel ok out all =
    let there : (out_count == 0) ≡ false = ground arith in
    rw (ok, there, flush-none reads fuel 0 all) refl
