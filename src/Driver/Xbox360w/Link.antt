-- ===== src/Driver/Xbox360w/Link.antt =====
-- Which inputs of source/ControllerLib/Controllers/Xbox360WirelessController.cpp are connected.
use sys_con.Prelude.{
  set-get_or, ℕ, ◌<◌, ◌≡◌, refl, ap, sym, Bool, true, false, List, [], ◌∷◌, ◌++◌, length, set, ltb,
  ◌==◌, if◌then◌else◌, Bool-cases, inl, inr,
}
use sys_con.Prelude.Text.{Bytes}
use sys_con.Controller.Float.{Float}
use sys_con.Controller.Mapping.{RawInput}
use sys_con.Controller.Result.{nothing_todo}
use sys_con.Driver.Report.{byte, bit}
use sys_con.Driver.Xbox360w.{
  Receiver, Write, Parsed, on_link, on_controller_connect, on_controller_disconnect, write_to,
  connect_packets, disconnect_packets, is_controller_connected, is_controller_data,
  parse_controller_data, parse_data,
}

-- The packets that a change of an input to `now` needs: none where it is that already.
pub packets_for : ℕ → Bool → Bool → List Write
packets_for i true true = []
packets_for i false true = connect_packets i
packets_for i true false = disconnect_packets i
packets_for i false false = []

append_nil : (l : List Write) → l ++ [] ≡ l
append_nil [] = refl
append_nil (x ∷ l) = ap (◌∷◌ x) (append_nil l)

-- What a packet about the link does: the input is as the packet says, and the packets that this
-- needs were written, if the input has an output endpoint.
unfoldable pub Follows : ℕ → Bool → Receiver → Receiver → Type 0
Follows i now s after =
    (after.is_connected ≡ set s.is_connected i now)
    × (after.out_count ≡ s.out_count)
    × (after.written
        ≡ s.written
          ++ (if ltb i s.out_count then packets_for i (is_controller_connected i s) now else []))

write_to-lem :
    (i : ℕ) (ws : List Write) (s : Receiver)
    → write_to i ws s ≡ record s { written = s.written ++ (if ltb i s.out_count then ws else []) }
unfolding write_to
write_to-lem i ws s = elim (Bool-cases (ltb i s.out_count)) [
  | inl e ↦ rw (e) refl
  | inr e ↦ rw (e, append_nil s.written) refl
]

nothing_written : (b : Bool) (l : List Write) → l ≡ l ++ (if◌then◌else◌ {A = List Write} b [] [])
nothing_written true l = sym (append_nil l)
nothing_written false l = sym (append_nil l)

on_link-Follows :
    (i : ℕ) (now : Bool) (s : Receiver)
    → i < length s.is_connected
    → Follows i now s (on_link i now s)
unfolding on_link Follows packets_for on_controller_connect on_controller_disconnect
on_link-Follows i true s h = elim (Bool-cases (is_controller_connected i s)) [
  | inl e ↦ rw (e) (
    sym (set-get_or s.is_connected i true false h e),
    refl,
    nothing_written (ltb i s.out_count) s.written,
  )
  | inr e ↦ rw (e, write_to-lem i (connect_packets i) s) (refl, refl, refl)
]
on_link-Follows i false s h = elim (Bool-cases (is_controller_connected i s)) [
  | inl e ↦ rw (e, write_to-lem i (disconnect_packets i) s) (refl, refl, refl)
  | inr e ↦ rw (e) (
    sym (set-get_or s.is_connected i false false h e),
    refl,
    nothing_written (ltb i s.out_count) s.written,
  )
]

module _ (fl : Float) where
  -- What `ParseData` shall do, by the link bit of the packet.
  unfoldable pub Answers : Bool → ℕ → Bool → Receiver → Parsed fl → Type 0
  Answers true i now s p = (p.result ≡ nothing_todo) × Follows i now s p.receiver
  Answers false i now s p = p.receiver ≡ s

  controller_data-receiver :
      (b : Bytes) (size : ℕ) (raw : RawInput fl) (s : Receiver)
      → (parse_controller_data fl b size raw s).receiver ≡ s
  unfolding parse_controller_data
  controller_data-receiver b size raw s = elim (Bool-cases (ltb size 14)) [
    | inl e ↦ rw (e) refl
    | inr e ↦ elim (Bool-cases (byte b 4 == 0)) [ inl f ↦ rw (e, f) refl | inr f ↦ rw (e, f) refl ]
  ]

  -- A packet with the link bit sets the input to the state that it tells, writes the packets of a
  -- change only where the state changes, and never counts as input. Any other packet leaves the
  -- inputs and what was written as they were.
  pub parse_data-Answers :
      (b : Bytes) (size i : ℕ) (raw : RawInput fl) (s : Receiver)
      → i < length s.is_connected
      → Answers (bit b 0 3) i (bit b 1 7) s (parse_data fl b size i raw s)
  unfolding parse_data Answers
  parse_data-Answers b size i raw s h = elim (Bool-cases (bit b 0 3)) [
    | inl e ↦ rw (e) (refl, on_link-Follows i (bit b 1 7) s h)
    | inr e ↦ elim (Bool-cases (is_controller_data b)) [
      | inl f ↦ rw (e, f) (controller_data-receiver b size raw s)
      | inr f ↦ rw (e, f) refl
    ]
  ]
