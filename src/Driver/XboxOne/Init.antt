-- ===== src/Driver/XboxOne/Init.antt =====
-- What `SendInitBytes` of source/ControllerLib/Controllers/XboxOneController.cpp writes.
use native.Mathlib.Nat.{mod-add-mod}
use sys_con.Prelude.{
  ℕ, ◌+◌, ◌%◌, ◌<◌, ◌≡◌, refl, ap, false, List, [], ◌∷◌, set, leb, if◌then◌else◌, Bool-cases, inl,
  inr, arith,
}
use sys_con.Prelude.Text.{Bytes}
use sys_con.Controller.Result.{ControllerResult, success, is_success}
use sys_con.Driver.XboxOne.{
  InitPacket, Sent, sent_first, init_packets, is_skipped, send_packets, send_init_bytes,
}

-- The packets for a device, in the order of the table.
pub for_device : ℕ → ℕ → List InitPacket → List Bytes
for_device vendor product [] = []
for_device vendor product (p ∷ rest) =
    let others = for_device vendor product rest in
    if is_skipped vendor product p then others else p.bytes ∷ others

-- The same, with the numbers from `n` on in the byte for the sequence.
abbrev pub numbered : ℕ → List Bytes → List Bytes
numbered n [] = []
numbered n (b ∷ bs) = set b 2 (n % 256) ∷ numbered (n + 1) bs

has_endpoint : (n i : ℕ) → i < n → leb n i ≡ false
has_endpoint n i h = ground arith

module _ (write : Bytes → ControllerResult) where
  -- Writing packets one by one until one fails.
  pub write_all : List Bytes → Sent
  write_all [] = record { written = []; result = success }
  write_all (b ∷ bs) =
      if is_success (write b)
      then sent_first b (write_all bs)
      else record { written = b ∷ []; result = write b }

  send_packets-write_all :
      (vendor product n : ℕ) (l : List InitPacket)
      → send_packets write vendor product (n % 256) l
        ≡ write_all (numbered n (for_device vendor product l))
  unfolding send_packets write_all for_device
  send_packets-write_all vendor product n [] = refl
  send_packets-write_all vendor product n (p ∷ rest) =
      elim (Bool-cases (is_skipped vendor product p)) [
        | inl e ↦ rw (e) (send_packets-write_all vendor product n rest)
        | inr e ↦ elim (Bool-cases (is_success (write (set p.bytes 2 (n % 256))))) [
          | inl f ↦
              rw (e, f, mod-add-mod n 256 1)
                (ap (sent_first (set p.bytes 2 (n % 256)))
                  (send_packets-write_all vendor product (n + 1) rest))
          | inr f ↦ rw (e, f) refl
        ]
      ]

  -- With an output endpoint, `SendInitBytes` writes the packets of the table for this device, in
  -- order, numbered from 1 in their third byte, until a write fails, whose error it returns.
  pub send_init_bytes-write_all :
      (out_count input_idx vendor product : ℕ)
      → input_idx < out_count
      → send_init_bytes write out_count input_idx vendor product
        ≡ write_all (numbered 1 (for_device vendor product init_packets))
  unfolding send_init_bytes
  send_init_bytes-write_all out_count input_idx vendor product h =
      rw (has_endpoint out_count input_idx h) (send_packets-write_all vendor product 1 init_packets)
