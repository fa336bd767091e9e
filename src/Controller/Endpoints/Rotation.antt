-- ===== src/Controller/Endpoints/Rotation.antt =====
-- Which endpoint `ReadNextBuffer` of source/ControllerLib/Controllers/BaseController.cpp serves.
use native.Mathlib.Nat.{mod-lt, mod-eq_of_lt, mod-add-mod, mod-eq-sub-mod}
use sys_con.Prelude.{
  ℕ, zero, suc, ◌+◌, ◌-◌, ◌%◌, ◌<◌, ◌≡◌, ◌≢◌, refl, ap, ◌∙◌, sym, Bool, true, false, List, length,
  set, get_or-set_ne, lt-cases, inl, inr, ◌==◌, arith,
}
use sys_con.Controller.Result.{success, is_success}
use sys_con.Controller.Endpoints.{
  Endpoint, Pipes, Next, no_endpoint, read_endpoint_latest, read_at, probe, after_read,
  read_next_buffer,
}

-- Whether the next read of an endpoint has a report.
abbrev pub has_report : ℕ → List Endpoint → ℕ → Bool
has_report size in_pipe idx = is_success (read_at size idx in_pipe).result

-- Steps of less than a whole turn lead to another endpoint.
step_ne : (n a s : ℕ) → 0 < s → s < n → a % n ≢ (a + s) % n
step_ne n a s hs hn e = elim (lt-cases ((a % n) + s) n) [
  | inl lt ↦ absurd (omega (arith, mod-eq_of_lt lt, mod-add-mod a n s))
  | inr le ↦ absurd (
      omega (
        arith,
        mod-eq-sub-mod le,
        mod-add-mod a n s,
        mod-eq_of_lt (small n (a % n) s (mod-lt a (omega arith)) hn),
        mod-lt a (positive s n hn),
      ))
]
  where
    positive : (s n : ℕ) → s < n → 0 < n
    positive s n h = omega arith

    small : (n r s : ℕ) → r < n → s < n → (r + s) - n < n
    small n r s h k = omega arith

kept :
    (size n a s : ℕ) (l : List Endpoint) (e : Endpoint)
    → 0 < s
    → s < n
    → read_at size ((a + s) % n) (set l (a % n) e) ≡ read_at size ((a + s) % n) l
unfolding read_at
kept size n a s l e hs hn =
    ap (read_endpoint_latest size)
      (get_or-set_ne l ((a + s) % n) (a % n) e no_endpoint (λ q. step_ne n a s hs hn (sym q)))

-- What the sweep gives where `d` endpoints have nothing and the one after them has a report.
pub Serves : ℕ → ℕ → Pipes → ℕ → Next → Type 0
Serves size n p idx next =
    (next.result ≡ success)
    × (next.bytes ≡ (read_at size idx p.in_pipe).bytes)
    × (next.input_idx ≡ idx)
    × (next.pipes.current_controller_idx ≡ (idx + 1) % n)

shift : (c i j : ℕ) → c + suc i + j ≡ c + i + suc j
shift c i j = omega arith

add_zero : (a : ℕ) → a + 0 ≡ a
add_zero a = omega arith

-- After an endpoint without a report, the `j`th from the next one on is as before.
after_idle :
    (size n c i j : ℕ) (l : List Endpoint) (e : Endpoint)
    → suc j < n
    → read_at size ((c + suc i + j) % n) (set l ((c + i) % n) e)
      ≡ read_at size ((c + i + suc j) % n) l
after_idle size n c i j l e h =
    ap (λ k. read_at size (k % n) (set l ((c + i) % n) e)) (shift c i j)
    ∙ kept size n (c + i) (suc j) l e (omega arith) h

abbrev IdleUntil : ℕ → ℕ → List Endpoint → ℕ → ℕ → Type 0
IdleUntil size n l start d = (j : ℕ) → j < d → has_report size l ((start + j) % n) ≡ false

probe-Serves :
    (size n input_idx left i d : ℕ) (p : Pipes)
    → i + left ≡ n
    → d < left
    → IdleUntil size n p.in_pipe (p.current_controller_idx + i) d
    → has_report size p.in_pipe ((p.current_controller_idx + i + d) % n) ≡ true
    → Serves size n p ((p.current_controller_idx + i + d) % n) (probe size n input_idx left i p)
unfolding probe Serves
probe-Serves size n input_idx zero i d p e h idle busy = absurd (omega arith)
probe-Serves size n input_idx (suc left) i zero p e h idle busy =
    rw
      (
        add_zero (p.current_controller_idx + i),
        rw (add_zero (p.current_controller_idx + i)) at busy,
      )
      (refl, refl, refl, refl)
probe-Serves size n input_idx (suc left) i (suc d) p e h idle busy =
    let c = p.current_controller_idx in
    let l = p.in_pipe in
    let got = read_at size ((c + i) % n) l in
    let same : (j : ℕ)
        → suc j < n
        → read_at size ((c + suc i + j) % n) (after_read ((c + i) % n) l got)
          ≡ read_at size ((c + i + suc j) % n) l =
      λ j b. after_idle size n c i j l got.endpoint b in
    let rest =
      probe-Serves size n input_idx left (suc i) d
        (record p { in_pipe = after_read ((c + i) % n) l got }) (omega arith) (omega arith)
        (λ j b. ap (λ g. is_success g.result) (same j (omega arith)) ∙ idle (suc j) (omega arith))
        (ap (λ g. is_success g.result) (same d (omega arith)) ∙ busy) in
    rw (rw (add_zero (c + i)) at (idle 0 (omega arith))) (
      rest.0,
      rest.1 ∙ ap (λ g. g.bytes) (same d (omega arith)),
      rest.2 ∙ ap (λ k. k % n) (shift c i d),
      rest.3 ∙ ap (λ k. (k % n + 1) % n) (shift c i d),
    )

some_endpoint : (n d : ℕ) → d < n → (n == 0) ≡ false
some_endpoint n d h = ground arith

-- Where the `d` endpoints whose turn comes first have no report and the next one has, it is that one
-- which `ReadNextBuffer` serves, with the report that it holds, and the turn passes to the endpoint
-- after it.
pub read_next_buffer-Serves :
    (size input_idx d : ℕ) (p : Pipes)
    → d < length p.in_pipe
    → IdleUntil size (length p.in_pipe) p.in_pipe p.current_controller_idx d
    → has_report size p.in_pipe ((p.current_controller_idx + d) % length p.in_pipe) ≡ true
    → Serves size
        (length p.in_pipe)
        p
        ((p.current_controller_idx + d) % length p.in_pipe)
        (read_next_buffer size input_idx p)
unfolding read_next_buffer Serves
read_next_buffer-Serves size input_idx d p h idle busy =
    let n = length p.in_pipe in
    let c = p.current_controller_idx in
    let start = ap (λ k. has_report size p.in_pipe ((k + d) % n)) (add_zero c) ∙ busy in
    let swept =
      probe-Serves size n input_idx n 0 d p (omega arith) h
        (λ j b. ap (λ k. has_report size p.in_pipe ((k + j) % n)) (add_zero c) ∙ idle j b) start in
    rw (some_endpoint n d h) (rw (add_zero c) at swept)
