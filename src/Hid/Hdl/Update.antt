-- ===== src/Hid/Hdl/Update.antt =====
-- What `UpdateControllerState` of source/ControllerSwitch/SwitchHDLHandler.cpp leaves.
use sys_con.Prelude.{
  ℕ, ◌<◌, ◌≡◌, ◌≢◌, refl, sym, ◌∙◌, false, ◌∷◌, ◌==◌, ==_iff, if◌then◌else◌, set, get_or, length,
  get_elem?, get_or-set_self, get_elem?-set_ne, length-set, Bool-cases, inl, inr, arith,
}
use sys_con.Hid.Hdl.{
  HdlsState, Devices, reset, data_at, put, is_controller_attached, update_controller_state,
}

-- What an update returns: the console's answer for an attached device.
abbrev pub answer : (ℕ → HdlsState → ℕ) → HdlsState → ℕ → Devices → ℕ
answer set_hdls_state new i s =
    if is_controller_attached i s then set_hdls_state (data_at i s).handle new else 0

-- The devices `s'` after an update of the input `i` with `new` that returned `rc`.
pub record Updates (rc : ℕ) (new : HdlsState) (i : ℕ) (s s' : Devices) : Type 0 where
  pub here :
      data_at i s' ≡ record { handle = if rc == 0 then (data_at i s).handle else 0; state = new }
  pub others : (j : ℕ) → j ≢ i → get_elem? s'.hdls_data j ≡ get_elem? s.hdls_data j
  pub detached : s'.detached ≡ (if rc == 0 then s.detached else (data_at i s).handle ∷ s.detached)

stored-Updates :
    (new : HdlsState) (i : ℕ) (s : Devices)
    → i < length s.hdls_data
    → Updates 0 new i s (put i (record (data_at i s) { state = new }) s)
stored-Updates new i s h = record {
  here = get_or-set_self s.hdls_data i _ reset h;
  others = λ j n. get_elem?-set_ne s.hdls_data i j _ (λ e. n (sym e));
  detached = refl;
}

-- The state is stored, and then the handle cleared.
detached-Updates :
    (rc : ℕ) (new : HdlsState) (i : ℕ) (s : Devices)
    → i < length s.hdls_data
    → (rc == 0) ≡ false
    → Updates rc new i s (record {
      hdls_data =
          set
            (set s.hdls_data i (record (data_at i s) { state = new }))
            i
            (record { handle = 0; state = new });
      detached = (data_at i s).handle ∷ s.detached;
    })
detached-Updates rc new i s h failed =
    let stored = set s.hdls_data i (record (data_at i s) { state = new }) in
    record {
      here =
          get_or-set_self stored i _ reset
            (omega (arith, h, length-set s.hdls_data i (record (data_at i s) { state = new })))
          ∙ rw (failed) refl;
      others = λ j n.
          get_elem?-set_ne stored i j _ (λ e. n (sym e))
          ∙ get_elem?-set_ne s.hdls_data i j _ (λ e. n (sym e));
      detached = rw (failed) refl;
    }

-- For an input of the handler: `UpdateControllerState` returns the console's answer for an attached
-- device and else 0, and stores the new state. Where it returns an error the device is detached once,
-- and else stays as it was. The other inputs stay as they were.
pub update_controller_state-Updates :
    (set_hdls_state : ℕ → HdlsState → ℕ) (new : HdlsState) (i : ℕ) (s : Devices)
    → i < length s.hdls_data
    → let r = update_controller_state set_hdls_state new i s in
      (r.0 ≡ answer set_hdls_state new i s) × Updates r.0 new i s r.1
unfolding update_controller_state
update_controller_state-Updates f new i s h =
    let d = record (data_at i s) { state = new } in
    let found : get_or (set s.hdls_data i d) i reset ≡ d =
      get_or-set_self s.hdls_data i d reset h in
    elim (Bool-cases (is_controller_attached i s)) [
      | inl t ↦ elim (Bool-cases (f (data_at i s).handle new == 0)) [
        | inl ok ↦ rw (found, t, ok) (sym ((==_iff _ 0).0 ok), stored-Updates new i s h)
        | inr bad ↦
            rw (found, t, bad) (refl, detached-Updates (f (data_at i s).handle new) new i s h bad)
      ]
      | inr away ↦ rw (found, away) (refl, stored-Updates new i s h)
    ]
