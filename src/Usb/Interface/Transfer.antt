-- ===== src/Usb/Interface/Transfer.antt =====
-- What the control transfers of source/ControllerSwitch/SwitchUSBInterface.cpp pass on.
use sys_con.Prelude.{
  ℕ, zero, suc, ◌≤◌, ◌≡◌, refl, ap, Bool, true, false, ◌&&◌, Bool-cases, inl, inr, Option, none,
  some, [], ◌∷◌, ◌++◌, length, take, drop, leb, if◌then◌else◌, arith,
}
use sys_con.Prelude.Text.{Bytes}
use sys_con.Controller.Result.{success, invalid_argument, unknown_error, is_success}
use sys_con.Usb.Interface.{
  Transferred, is_input, on_answer, over, control_transfer_input, control_transfer_output,
}

-- Where a transfer is for the wrong direction, libnx is not called.
record Refused (usb_buffer : Bytes) (t : Transferred) : Type 0 where
  pub result : t.result ≡ invalid_argument
  pub silent : t.called ≡ false
  pub same : t.usb_buffer ≡ usb_buffer

take_over : (n : ℕ) (b rest : Bytes) → n ≤ length b → take n (take n b ++ rest) ≡ take n b
take_over zero b rest h = refl
take_over (suc n) [] rest h = absurd (omega arith)
take_over (suc n) (c ∷ b) rest h = ap (λ l. c ∷ l) (take_over n b rest (omega arith))

-- A transfer to the device of a buffer with `len` bytes or more gives libnx exactly its first `len`
-- bytes, whatever the buffer of the interface held, and one for the other direction gives it nothing.
control_transfer_output-sends :
    (request_type : ℕ) (b : Bytes) (len : ℕ) (accepts : Bytes → Bool) (usb_buffer : Bytes)
    → len ≤ length b
    → let t = control_transfer_output request_type (some b) len accepts usb_buffer in
      (is_input request_type ≡ true → Refused usb_buffer t)
      × (is_input request_type ≡ false
          → (t.sent ≡ take len b) × (is_success t.result ≡ accepts (take len b)))
unfolding control_transfer_output
control_transfer_output-sends request_type b len accepts usb_buffer h =
    let whole = take_over len b (drop (length (take len b)) usb_buffer) h in
    (
      λ e. rw (e) (record { result = refl; silent = refl; same = refl }),
      λ e. rw (e, whole) (refl, told (accepts (take len b))),
    )
  where
    told : (a : Bool) → is_success (if a then success else unknown_error) ≡ a
    told true = refl
    told false = refl

-- What the caller gets of an answer: nothing, or all of it where it has room for it.
record Gets (len : ℕ) (answer : Option Bytes) (t : Transferred) : Type 0 where
  pub whole : is_success t.result ≡ true → answer ≡ some t.bytes
  pub room : length t.bytes ≤ len
  pub none_left : is_success t.result ≡ false → t.bytes ≡ []

answered-Gets :
    (fits : Bool) (len : ℕ) (b usb_buffer : Bytes)
    → (fits ≡ true → length b ≤ len)
    → Gets len (some b) (record {
      result = if fits then success else invalid_argument;
      bytes = if fits then b else [];
      called = true;
      sent = [];
      usb_buffer = over b usb_buffer;
    })
answered-Gets true len b usb_buffer h = record {
  whole = λ e. refl;
  room = h refl;
  none_left = λ e. absurd (ground arith);
}
answered-Gets false len b usb_buffer h = record {
  whole = λ e. absurd (ground arith);
  room = omega arith;
  none_left = λ e. refl;
}

fits_room : (a : Bool) (n len : ℕ) → (a && leb n len) ≡ true → n ≤ len
fits_room true n len h = ground arith
fits_room false n len h = absurd (ground arith)

-- A transfer from the device gives the caller either nothing, with an error, or all the bytes that
-- libnx brought, which are no more than the caller has room for.
control_transfer_input-Gets :
    (request_type : ℕ) (has_buffer : Bool) (len : ℕ) (answer : Option Bytes) (usb_buffer : Bytes)
    → Gets len answer (control_transfer_input request_type has_buffer len answer usb_buffer)
unfolding control_transfer_input on_answer
control_transfer_input-Gets request_type has_buffer len answer usb_buffer =
    elim (Bool-cases (is_input request_type)) [
      | inl t ↦ rw (t) (on_answer-Gets answer)
      | inr f ↦
          rw (f) (record {
            whole = λ e. absurd (ground arith);
            room = omega arith;
            none_left = λ e. refl;
          })
    ]
  where
    on_answer-Gets : (a : Option Bytes) → Gets len a (on_answer has_buffer len usb_buffer a)
    on_answer-Gets none = record {
      whole = λ e. absurd (ground arith);
      room = omega arith;
      none_left = λ e. refl;
    }
    on_answer-Gets (some b) =
        answered-Gets (has_buffer && leb (length b) len) len b usb_buffer
          (fits_room has_buffer (length b) len)
