-- ===== src/Hid/Gamepad/Connection.antt =====
-- What a turn of source/ControllerSwitch/SwitchVirtualGamepadHandler.cpp does where a controller
-- connects or leaves.
use sys_con.Prelude.{
  ℕ, ◌&&◌, ◌<◌, ◌≡◌, refl, ap, ◌∙◌, Bool, true, false, Option, none, some, length, get_or-set_self,
  set-get_or, ◌⊎◌, inl, inr, sym, ◌==◌, if◌then◌else◌, arith,
}
use sys_con.Config.Data.{Button}
use sys_con.Controller.Result.{success, is_success}
use sys_con.Hid.Slots.{Player, Manager, attach_controller, detach_controller}
use sys_con.Hid.Lifo.{Flags, update_entries}
use sys_con.Hid.Gamepad.{
  Input, InputState, System, Outcome, returned, null_controller, data_at, controller_at, put_data,
  initial_input, detach, attach, connection, update_state, report_input, after_connection,
  update_input,
}

abbrev pub fresh : InputState
fresh = record { reattach_controller = true; is_connected = true }

eq_self : (n : ℕ) → (n == n) ≡ true
eq_self n = ground arith

-- A controller is connected and its report was read, on the turn on which it connects or on the first
-- one after it that read a report.
pub record Arrives (i : Input) (s : System) : Type 0 where
  pub due :
      ((data_at i.input_idx s.handler).is_connected ≡ false)
      ⊎ (data_at i.input_idx s.handler ≡ fresh)
  pub connected : i.is_connected ≡ true
  pub read : i.read_rc ≡ success
  pub data_lt : i.input_idx < length s.handler.controller_data
  pub list_lt : i.input_idx < length s.handler.controller_list
  pub empty : controller_at i.input_idx s.handler ≡ none

module _ (flags : Flags) (word : (Button → Bool) → ℕ) where
  -- What a turn shall give, by what `AttachController` of the manager gives.
  pub Connects : Input → System → Option Player × Manager → Outcome × System → Type 0
  Connects i s (none, m) (o, after) = o ≡ null_controller
  Connects i s (some p, m) (o, after) =
      (o ≡ returned success)
      × (controller_at i.input_idx after.handler ≡ some p)
      × (after.shared.manager ≡ m)
      × (after.shared.entries
          ≡ (update_entries flags p.player_idx 0
              (record { buttons = word i.buttons; stick_l = i.stick_l; stick_r = i.stick_r })
              s.shared.entries).0)

  -- Writing the flags that are there already.
  already :
      (i : ℕ) (s : System)
      → i < length s.handler.controller_data
      → data_at i s.handler ≡ fresh
      → put_data i fresh s ≡ s
  already i s h e =
      ap (λ l. record s { handler = record s.handler { controller_data = l } })
        (set-get_or s.handler.controller_data i fresh initial_input h e)

  counted :
      (i : Input) (s : System)
      → (data_at i.input_idx s.handler).is_connected ≡ true
      → i.read_rc ≡ success
      → after_connection flags word i s ≡ report_input flags word i s
  unfolding after_connection
  counted i s here read =
      ap
        (λ b.
          if b && is_success i.read_rc
          then report_input flags word i s
          else (returned i.read_rc, s))
        here
      ∙ ap (λ r. if is_success r then report_input flags word i s else (returned r, s)) read

  now_fresh :
      (i : ℕ) (s : System)
      → i < length s.handler.controller_data
      → ((data_at i s.handler).is_connected ≡ false) ⊎ (data_at i s.handler ≡ fresh)
      → connection i true s ≡ put_data i fresh s
  unfolding connection
  now_fresh i s h (inl away) = rw (away) refl
  now_fresh i s h (inr e) =
      ap (λ d. if d.is_connected then s else put_data i fresh s) e ∙ sym (already i s h e)

  turn :
      (i : Input) (s : System)
      → Arrives i s
      → update_input flags word i s ≡ report_input flags word i (put_data i.input_idx fresh s)
  unfolding update_input
  turn i s a =
      ap (λ c. after_connection flags word i (connection i.input_idx c s)) a.connected
      ∙ ap (after_connection flags word i) (now_fresh i.input_idx s a.data_lt a.due)
      ∙ counted i (put_data i.input_idx fresh s)
          (ap (λ (d : InputState). d.is_connected)
            (get_or-set_self s.handler.controller_data i.input_idx fresh initial_input a.data_lt))
          a.read

  reported :
      (i : Input) (s : System) (r : Option Player × Manager)
      → Arrives i s
      → attach_controller s.shared.manager ≡ r
      → Connects i s r (report_input flags word i (put_data i.input_idx fresh s))
  unfolding Connects report_input attach
  reported i s (none, m) a e =
      rw
        (
          get_or-set_self s.handler.controller_data i.input_idx fresh initial_input a.data_lt,
          e,
          a.empty,
          get_or-set_self s.handler.controller_list i.input_idx none none a.list_lt,
          update_state,
        )
        refl
  reported i s (some p, m) a e =
      rw
        (
          get_or-set_self s.handler.controller_data i.input_idx fresh initial_input a.data_lt,
          e,
          a.empty,
          get_or-set_self s.handler.controller_list i.input_idx (some p) none a.list_lt,
          update_state,
        )
        (
          refl,
          get_or-set_self s.handler.controller_list i.input_idx (some p) none a.list_lt,
          refl,
          ap
              (λ b.
                (update_entries flags p.player_idx (if b then 0 else s.shared.numbers p.id)
                  (record { buttons = word i.buttons; stick_l = i.stick_l; stick_r = i.stick_r })
                  s.shared.entries).0)
              (eq_self p.id),
        )

  -- Where a controller connects to an input that has none, and on the first turn from then on that read
  -- a report, its input thread takes a player and shows the report to every process at once, as the first state of that player's
  -- controller. With no player free it calls `Update` on a null controller.
  pub update_input-Connects :
      (i : Input) (s : System)
      → Arrives i s
      → Connects i s (attach_controller s.shared.manager) (update_input flags word i s)
  unfolding Connects
  update_input-Connects i s a =
      rw (turn i s a) (reported i s (attach_controller s.shared.manager) a refl)

  -- Where an input of the handler is known as connected and has a controller, and is found not to be
  -- connected, the turn takes the controller away and out of the players, and returns what the read
  -- gave. No process sees a new state.
  update_input-leaves :
      (i : Input) (s : System) (p : Player)
      → (data_at i.input_idx s.handler).is_connected ≡ true
      → i.is_connected ≡ false
      → i.input_idx < length s.handler.controller_data
      → i.input_idx < length s.handler.controller_list
      → controller_at i.input_idx s.handler ≡ some p
      → ((update_input flags word i s).0 ≡ returned i.read_rc)
        × (controller_at i.input_idx (update_input flags word i s).1.handler ≡ none)
        × ((update_input flags word i s).1.shared.manager
            ≡ detach_controller s.shared.manager (some p))
        × ((update_input flags word i s).1.shared.entries ≡ s.shared.entries)
  unfolding update_input connection detach
  update_input-leaves i s p was_here away data_lt list_lt held =
      let d = record (data_at i.input_idx s.handler) { is_connected = false } in
      rw
        (
          away,
          was_here,
          held,
          get_or-set_self s.handler.controller_data i.input_idx d initial_input data_lt,
        )
        (refl, get_or-set_self s.handler.controller_list i.input_idx none none list_lt, refl, refl)

  unread : (b : Bool) (x y : Outcome × System) → (if b && false then x else y) ≡ y
  unread true x y = refl
  unread false x y = refl

  -- Where a controller connects and no report was read, the turn only keeps that it did.
  pub update_input_noted :
      (i : Input) (s : System)
      → (data_at i.input_idx s.handler).is_connected ≡ false
      → i.input_idx < length s.handler.controller_data
      → i.is_connected ≡ true
      → is_success i.read_rc ≡ false
      → update_input flags word i s ≡ (returned i.read_rc, put_data i.input_idx fresh s)
  unfolding update_input after_connection
  update_input_noted i s away h here failed =
      ap (λ c. after_connection flags word i (connection i.input_idx c s)) here
      ∙ ap (after_connection flags word i) (now_fresh i.input_idx s h (inl away))
      ∙ ap
          (λ r.
            if (data_at i.input_idx (put_data i.input_idx fresh s).handler).is_connected && r
            then report_input flags word i (put_data i.input_idx fresh s)
            else (returned i.read_rc, put_data i.input_idx fresh s))
          failed
      ∙ unread (data_at i.input_idx (put_data i.input_idx fresh s).handler).is_connected _ _
