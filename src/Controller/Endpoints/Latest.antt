-- ===== src/Controller/Endpoints/Latest.antt =====
-- Which of the queued reports `ReadEndpointLatest` of
-- source/ControllerLib/Controllers/BaseController.cpp keeps.
use sys_con.Prelude.{
  ℕ, ◌<◌, ◌≡◌, refl, min, false, List, [], ◌∷◌, length, take, length-take, ◌==◌, arith,
}
use sys_con.Prelude.Text.{Bytes}
use sys_con.Controller.Result.{ControllerResult, Reply, success, report, failed}
use sys_con.Controller.Endpoints.{drain, read_endpoint_latest}

-- Reports that wait one after the other, and the replies after them.
abbrev pub queued : List Bytes → List Reply → List Reply
queued [] rest = rest
queued (x ∷ xs) rest = report x ∷ queued xs rest

-- The newest of a report and those after it.
abbrev pub newest : Bytes → List Bytes → Bytes
newest x [] = x
newest x (y ∷ ys) = newest y ys

unfoldable pub AllFull : List Bytes → Type 0
AllFull [] = Unit
AllFull (x ∷ xs) = (0 < length x) × AllFull xs

full-take :
    (capacity : ℕ) (x : Bytes)
    → 0 < capacity
    → 0 < length x
    → (length (take capacity x) == 0) ≡ false
full-take capacity x h k = ground (arith, length-take capacity x)

drain-newest :
    (capacity : ℕ) (x : Bytes) (xs : List Bytes) (r : ControllerResult) (rest : List Reply)
    → 0 < capacity
    → AllFull xs
    → drain capacity (take capacity x) (queued xs (failed r ∷ rest))
      ≡ (take capacity (newest x xs), rest)
unfolding drain AllFull
drain-newest capacity x [] r rest h k = refl
drain-newest capacity x (y ∷ ys) r rest h k =
    rw (full-take capacity y h k.0) (drain-newest capacity y ys r rest h k.1)

-- Where reports wait that are not empty, until a read fails, `ReadEndpointLatest` succeeds with the
-- newest one, cut to the packet size and the buffer, and none of them is left to be read later.
pub read_endpoint_latest-newest :
    (size max_packet : ℕ)
    → (x : Bytes) (xs : List Bytes) (r : ControllerResult) (rest : List Reply) → 0 < size
    → 0 < max_packet
    → AllFull (x ∷ xs)
    → read_endpoint_latest size
        (record { max_packet = max_packet; replies = queued (x ∷ xs) (failed r ∷ rest) })
      ≡ record {
        result = success;
        bytes = take (min max_packet size) (newest x xs);
        endpoint = record { max_packet = max_packet; replies = rest };
      }
unfolding read_endpoint_latest AllFull
read_endpoint_latest-newest size max_packet x xs r rest hs hm full =
    let c : 0 < min max_packet size = omega arith in
    rw
      (
        full-take (min max_packet size) x c full.0,
        drain-newest (min max_packet size) x xs r rest c full.1,
      )
      refl
