-- ===== src/Controller/Endpoints/Turn.antt =====
-- Which endpoint's turn it is in source/ControllerLib/Controllers/BaseController.cpp, as a place of the
-- list of endpoints.
use native.Mathlib.Nat.{mod-lt}
use sys_con.Prelude.{
  ℕ, zero, suc, ◌+◌, ◌%◌, ◌<◌, ◌≡◌, refl, Bool, true, false, Bool-cases, inl, inr, List, length,
  length-set, if◌then◌else◌, ◌==◌, ◌∙◌, arith,
}
use sys_con.Controller.Result.{is_success}
use sys_con.Controller.Endpoints.{
  Endpoint, Pipes, Next, Got, read_at, wait, probe, served, after_read, read_next_buffer,
}

-- The turn is that of an endpoint of the list, of which there are `n`.
pub record HasTurn (n : ℕ) (p : Pipes) : Type 0 where
  pub count : length p.in_pipe ≡ n
  pub turn_lt : p.current_controller_idx < n

-- What a read of the next report leaves: a turn, and the index of an endpoint or the one from before.
pub record Served (n input_idx : ℕ) (r : Next) : Type 0 where
  pub turn : HasTurn n r.pipes
  pub idx_lt : is_success r.result ≡ true → r.input_idx < n
  pub idx_kept : is_success r.result ≡ false → r.input_idx ≡ input_idx

positive : (n a : ℕ) → a < n → 0 < n
positive n a h = omega arith

read-count :
    (n idx : ℕ) (l : List Endpoint) (g : Got) → length l ≡ n → length (after_read idx l g) ≡ n
read-count n idx l g e = length-set l idx g.endpoint ∙ e

chosen_idx :
    (b : Bool) (n idx input_idx : ℕ)
    → idx < n
    → (b ≡ true → (if b then idx else input_idx) < n)
      × (b ≡ false → (if b then idx else input_idx) ≡ input_idx)
chosen_idx true n idx input_idx h = (λ e. h, λ e. absurd (ground arith))
chosen_idx false n idx input_idx h = (λ e. absurd (ground arith), λ e. refl)

wait-Served :
    (size n input_idx : ℕ) (p : Pipes) → HasTurn n p → Served n input_idx (wait size n input_idx p)
unfolding wait
wait-Served size n input_idx p h =
    let got = read_at size p.current_controller_idx p.in_pipe in
    let i = chosen_idx (is_success got.result) n p.current_controller_idx input_idx h.turn_lt in
    record {
      turn = record {
        count = read-count n p.current_controller_idx p.in_pipe got h.count;
        turn_lt = mod-lt (p.current_controller_idx + 1) (positive n _ h.turn_lt);
      };
      idx_lt = i.0;
      idx_kept = i.1;
    }

served-Served :
    (n input_idx idx : ℕ) (p : Pipes) (g : Got)
    → HasTurn n p
    → idx < n
    → Served n input_idx (served n idx p g)
served-Served n input_idx idx p g h lt = record {
  turn = record {
    count = read-count n idx p.in_pipe g h.count;
    turn_lt = mod-lt (idx + 1) (positive n idx lt);
  };
  idx_lt = λ e. lt;
  idx_kept = λ e. absurd (ground arith);
}

probe-Served :
    (size n input_idx left i : ℕ) (p : Pipes)
    → HasTurn n p
    → Served n input_idx (probe size n input_idx left i p)
unfolding probe
probe-Served size n input_idx zero i p h = wait-Served size n input_idx p h
probe-Served size n input_idx (suc left) i p h =
    let idx = (p.current_controller_idx + i) % n in
    let got = read_at size idx p.in_pipe in
    let after : Pipes = record p { in_pipe = after_read idx p.in_pipe got } in
    let later =
      probe-Served size n input_idx left (suc i) after
        (record { count = read-count n idx p.in_pipe got h.count; turn_lt = h.turn_lt }) in
    let lt = mod-lt (p.current_controller_idx + i) (positive n _ h.turn_lt) in
    elim (Bool-cases (is_success got.result)) [
      | inl t ↦ rw (t) (served-Served n input_idx idx p got h lt)
      | inr f ↦ rw (f) later
    ]

some_endpoint : (n a : ℕ) → a < n → (n == 0) ≡ false
some_endpoint n a h = ground arith

-- A read of the next report keeps the turn within the endpoints, and gives the index of one where it
-- succeeds and the index from before where it fails.
pub read_next_buffer-Served :
    (size n input_idx : ℕ) (p : Pipes)
    → HasTurn n p
    → Served n input_idx (read_next_buffer size input_idx p)
unfolding read_next_buffer
read_next_buffer-Served size n input_idx p h =
    rw (h.count, some_endpoint n _ h.turn_lt) (probe-Served size n input_idx n 0 p h)
