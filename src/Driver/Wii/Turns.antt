-- ===== src/Driver/Wii/Turns.antt =====
-- How source/ControllerLib/Controllers/WiiController.cpp shares a report among its four controllers.
use sys_con.Prelude.{ℕ, zero, suc, ◌≤◌, ◌≡◌, refl, false, List, [], ◌∷◌, length, ltb, arith}
use sys_con.Prelude.Text.{Bytes}
use sys_con.Controller.Result.{success}
use sys_con.Controller.Endpoints.{Pipes, Next}
use sys_con.Controller.Endpoints
use sys_con.Driver.Report.{byte}
use sys_con.Driver.Wii.{Wii, Delivered, part, read_next_buffer}

-- `n` reads, one after the other.
pub reads : ℕ → Wii → List Delivered × Wii
reads zero w = ([], w)
reads (suc n) w =
    let first = read_next_buffer w in let rest = reads n first.1 in (first.0 ∷ rest.0, rest.1)

abbrev pub for_controller : Bytes → ℕ → Delivered
for_controller b i = record { result = success; bytes = part i b; input_idx = i }

long_enough : (n : ℕ) → 37 ≤ n → ltb n 37 ≡ false
long_enough n h = ground arith

-- Where the driver is at its first controller and the adapter's endpoint gives a whole report, the
-- next four reads give the four parts of that report to the controllers 0 to 3, in order, with one
-- read of the endpoint, and the driver is at its first controller again.
pub reads-four :
    (w : Wii) (n : Next)
    → w.current_wii_controller_idx ≡ 0
    → Endpoints.read_next_buffer 37 0 w.pipes ≡ n
    → n.result ≡ success
    → byte n.bytes 0 ≡ 33
    → 37 ≤ length n.bytes
    → reads 4 w ≡ (
      for_controller n.bytes 0
          ∷ for_controller n.bytes 1
          ∷ for_controller n.bytes 2
          ∷ for_controller n.bytes 3
          ∷ [],
      record w { current_wii_controller_idx = 0; buffer = n.bytes; pipes = n.pipes },
    )
unfolding reads read_next_buffer
reads-four w n first e ok marker whole =
    rw (first, e, ok, marker, long_enough (length n.bytes) whole) refl
