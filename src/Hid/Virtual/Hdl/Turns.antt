-- ===== src/Hid/Virtual/Hdl/Turns.antt =====
-- What the turns of source/ControllerSwitch/SwitchVirtualGamepadHandler.cpp do to a device of
-- SwitchHDLHandler.cpp beside it.
use sys_con.Prelude.{
  ℕ, ◌<◌, ◌≡◌, refl, ap, ◌∙◌, sym, Bool, true, false, not, ◌&&◌, ◌||◌, length, length-set,
  get_or-set_self, ◌==◌, if◌then◌else◌, Bool-cases, inl, inr, arith,
}
use mathlib.Core.Path.{subst}
use sys_con.Config.Data.{Button}
use sys_con.Controller.Result.{is_success}
use sys_con.Hid.Gamepad.{InputState, Input, initial_input}
use sys_con.Hid.Hdl.{
  HdlsState, Devices, Attached, HandlerData, reset, attach_controller, detach_controller,
  update_controller_state, is_controller_attached,
}
use sys_con.Hid.Hdl
use sys_con.Hid.Hdl.Update.{update_controller_state-Updates}
use sys_con.Hid.Virtual.{
  connection, attached, updated, report_input, after_connection, update_input,
}
use sys_con.Hid.Virtual.Hdl.{Hdls, Outcome, answered, data_at, state_of, hdl}

-- An input that is known as connected, with a request to attach or without one.
pub record IsShown (i : ℕ) (s : Hdls) : Type 0 where
  pub known : (data_at i s).is_connected ≡ true
  pub device_lt : i < length s.devices.hdls_data
  pub data_lt : i < length s.controller_data

-- Whether the turn attaches the device: there is a request, or it has no handle and L and R are
-- pressed.
abbrev pub asks : Input → Hdls → Bool
asks i s =
    (data_at i.input_idx s).reattach_controller
    || (not (is_controller_attached i.input_idx s.devices)
        && (i.buttons Button.l && i.buttons Button.r))

-- The handle behind that; a device that has one keeps it.
abbrev handle_then : Bool → Attached → ℕ → ℕ
handle_then wants a handle =
    if wants && handle == 0 then (if a.rc == 0 then a.handle else handle) else handle

-- What the console says of a state for a handle; one that is 0 is not asked for.
abbrev pub told : (ℕ → HdlsState → ℕ) → ℕ → HdlsState → ℕ
told set_hdls_state handle new = if not (handle == 0) then set_hdls_state handle new else 0

module _ (attach : Attached) (set_hdls_state : ℕ → HdlsState → ℕ) (word : (Button → Bool) → ℕ) where
  -- The input behind the question whether to attach.
  record AttachedAs (wants : Bool) (i : ℕ) (s s' : Hdls) : Type 0 where
    handle :
        (Hdl.data_at i s'.devices).handle
        ≡ handle_then wants attach (Hdl.data_at i s.devices).handle
    device_lt : i < length s'.devices.hdls_data
    known : data_at i s' ≡ record { reattach_controller = false; is_connected = true }

  attach-device :
      (i : ℕ) (d : Devices)
      → i < length d.hdls_data
      → let d' = (attach_controller attach i d).1 in
        ((Hdl.data_at i d').handle ≡ handle_then true attach (Hdl.data_at i d).handle)
        × (i < length d'.hdls_data)
  unfolding attach_controller
  attach-device i d h = elim (Bool-cases ((Hdl.data_at i d).handle == 0)) [
    | inr away ↦ rw (away) (refl, h)
    | inl away ↦ elim (Bool-cases (attach.rc == 0)) [
      | inl t ↦
          rw (away, t)
            (
              ap (λ (e : HandlerData). e.handle) (get_or-set_self d.hdls_data i _ reset h),
              omega (
                arith,
                h,
                length-set d.hdls_data i (record (Hdl.data_at i d) { handle = attach.handle }),
              ),
            )
      | inr f ↦ rw (away, f) (refl, h)
    ]
  ]

  -- What a record of the input is, by its two flags.
  state_is :
      (d : InputState) (a b : Bool)
      → d.reattach_controller ≡ a
      → d.is_connected ≡ b
      → d ≡ record { reattach_controller = a; is_connected = b }
  state_is d a b h k = cc

  attached-As :
      (wants : Bool) (i : ℕ) (s : Hdls)
      → IsShown i s
      → (wants ≡ false → (data_at i s).reattach_controller ≡ false)
      → AttachedAs wants i s (attached (hdl attach set_hdls_state) word i wants s)
  attached-As true i s h kept =
      let d = attach-device i s.devices h.device_lt in
      record {
        handle = d.0;
        device_lt = d.1;
        known =
            get_or-set_self s.controller_data i _ initial_input h.data_lt
            ∙ state_is (record (data_at i s) { reattach_controller = false }) false true refl
                h.known;
      }
  attached-As false i s h kept = record {
    handle = refl;
    device_lt = h.device_lt;
    known = state_is (data_at i s) false true (kept refl) h.known;
  }

  -- The input `i` behind its turn: the state is stored, and the device has the handle of before or the
  -- one that it was attached with, or none where the console refuses the state.
  pub record Shows (i : Input) (s : Hdls) (r : Outcome × Hdls) : Type 0 where
    pub outcome :
        r.0
        ≡ answered (
            told set_hdls_state
              (handle_then (asks i s) attach (Hdl.data_at i.input_idx s.devices).handle)
              (state_of (word i.buttons) i.stick_l i.stick_r))
    pub device :
        let h = handle_then (asks i s) attach (Hdl.data_at i.input_idx s.devices).handle in
        let new = state_of (word i.buttons) i.stick_l i.stick_r in
        Hdl.data_at i.input_idx r.1.devices
        ≡ record { handle = if told set_hdls_state h new == 0 then h else 0; state = new }
    pub known :
        data_at i.input_idx r.1 ≡ record { reattach_controller = false; is_connected = true }

  -- A device behind an update with the result `rc`.
  abbrev left : ℕ → ℕ → HdlsState → HandlerData
  left rc handle new = record { handle = if rc == 0 then handle else 0; state = new }

  left_off : (a b : Bool) → (a || b) ≡ false → a ≡ false
  left_off true b h = absurd (ground arith)
  left_off false b h = refl

  updated-Shows :
      (i : Input) (s s' : Hdls)
      → AttachedAs (asks i s) i.input_idx s s'
      → Shows i s (updated (hdl attach set_hdls_state) word i s')
  updated-Shows i s s' a =
      let new = state_of (word i.buttons) i.stick_l i.stick_r in
      let u =
        update_controller_state-Updates set_hdls_state new i.input_idx s'.devices a.device_lt in
      let h = handle_then (asks i s) attach (Hdl.data_at i.input_idx s.devices).handle in
      let said : (update_controller_state set_hdls_state new i.input_idx s'.devices).0
          ≡ told set_hdls_state h new =
        u.0 ∙ ap (λ k. told set_hdls_state k new) a.handle in
      record {
        outcome = ap answered said;
        device =
            u.1.here
            ∙ ap (λ k. left k (Hdl.data_at i.input_idx s'.devices).handle new) said
            ∙ ap (λ k. left (told set_hdls_state h new) k new) a.handle;
        known = a.known;
      }

  taken {ℓ} :
      {A : Type ℓ} (a b : Bool) (x y : A) → a ≡ true → b ≡ true → (if a && b then x else y) ≡ x
  taken true true x y h k = refl
  taken true false x y h k = absurd (ground arith)
  taken false b x y h k = absurd (ground arith)

  connection_stays :
      (b : Bool) (i : ℕ) (s : Hdls)
      → b ≡ true
      → (data_at i s).is_connected ≡ true
      → connection (hdl attach set_hdls_state) i b s ≡ s
  unfolding connection
  connection_stays true i s h on = rw (on) refl
  connection_stays false i s h on = absurd (ground arith)

  connected_turn :
      (i : Input) (s : Hdls)
      → IsShown i.input_idx s
      → is_success i.read_rc ≡ true
      → after_connection (hdl attach set_hdls_state) word i s
        ≡ updated
            (hdl attach set_hdls_state)
            word
            i
            (attached (hdl attach set_hdls_state) word i.input_idx (asks i s) s)
  unfolding after_connection report_input
  connected_turn i s h r =
      taken (data_at i.input_idx s).is_connected (is_success i.read_rc) _ _ h.known r

  -- `UpdateInput` of the HDL handler for an input that is known as connected and still is, where the
  -- driver reads a report: a device without a handle is attached where the input has a request to
  -- attach, or L and R are pressed, and the console attaches it; the console is given the state for a
  -- device that then has a handle, the device loses it exactly where the console refuses the state,
  -- and no request is left.
  pub update_input-Shows :
      (i : Input) (s : Hdls)
      → IsShown i.input_idx s
      → i.is_connected ≡ true
      → is_success i.read_rc ≡ true
      → Shows i s (update_input (hdl attach set_hdls_state) word i s)
  unfolding update_input
  update_input-Shows i s h c r =
      subst (λ (t : Outcome × Hdls). Shows i s t)
        (sym (
          ap (after_connection (hdl attach set_hdls_state) word i)
            (connection_stays i.is_connected i.input_idx s c h.known)
          ∙ connected_turn i s h r))
        (updated-Shows i s (attached (hdl attach set_hdls_state) word i.input_idx (asks i s) s) (
          attached-As (asks i s) i.input_idx s h (
            left_off (data_at i.input_idx s).reattach_controller (
              not (is_controller_attached i.input_idx s.devices)
              && (i.buttons Button.l && i.buttons Button.r)))))
