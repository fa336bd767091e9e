-- ===== src/Hid/Gamepad/Wireless.antt =====
-- From the packet by which a wireless Xbox 360 controller connects
-- (source/ControllerLib/Controllers/Xbox360WirelessController.cpp) to the player that it gets
-- (source/ControllerSwitch/SwitchVirtualGamepadHandler.cpp).
use sys_con.Prelude.{
  ℕ, ◌<◌, ◌≡◌, refl, ap, ◌∙◌, Bool, true, false, none, inr, length, get_or, get_or-set_self,
  length-set, List, set, arith,
}
use sys_con.Prelude.Text.{Bytes}
use sys_con.Config.Data.{Button}
use sys_con.Controller.Float.{Float}
use sys_con.Controller.Mapping.{RawInput}
use sys_con.Controller.Result.{success, is_success}
use sys_con.Driver.Report.{bit}
use sys_con.Driver.Xbox360w.{Receiver, Parsed, is_controller_connected, parse_data}
use sys_con.Driver.Xbox360w.Link.{Answers, Follows, parse_data-Answers}
use sys_con.Hid.Slots.{attach_controller}
use sys_con.Hid.Lifo.{Flags, no_stick}
use sys_con.Hid.Gamepad.{
  Input, System, data_at, controller_at, put_data, initial_input, update_input, InputState,
  returned,
}
use sys_con.Hid.Gamepad.Connection.{fresh, Connects, update_input_noted, update_input-Connects}

-- What a turn of the input thread gets from a packet of the receiver that is no report.
abbrev pub input_of : {fl : Float} → ℕ → Parsed fl → Input
input_of i p = record {
  read_rc = p.result;
  input_idx = i;
  is_connected = is_controller_connected i p.receiver;
  buttons = λ b. false;
  stick_l = no_stick;
  stick_r = no_stick;
}

-- A packet that says that the controller of an input has connected, on a receiver with that input.
pub record IsConnect (b : Bytes) (i : ℕ) (r : Receiver) : Type 0 where
  pub link : bit b 0 3 ≡ true
  pub present : bit b 1 7 ≡ true
  pub place : i < length r.is_connected

-- An input of a handler that has no controller and is not known to be connected.
pub record IsAway (i : ℕ) (s : System) : Type 0 where
  pub unknown : (data_at i s.handler).is_connected ≡ false
  pub data_lt : i < length s.handler.controller_data
  pub list_lt : i < length s.handler.controller_list
  pub empty : controller_at i s.handler ≡ none

module _ (fl : Float) (flags : Flags) (word : (Button → Bool) → ℕ) where
  answered :
      (b : Bytes) (size i : ℕ) (raw : RawInput fl) (r : Receiver)
      → IsConnect b i r
      → Answers fl true i true r (parse_data fl b size i raw r)
  answered b size i raw r c =
      rw (c.link, c.present) at (parse_data-Answers fl b size i raw r c.place)

  connected :
      (b : Bytes) (size i : ℕ) (raw : RawInput fl) (r : Receiver)
      → IsConnect b i r
      → is_controller_connected i (parse_data fl b size i raw r).receiver ≡ true
  unfolding Answers Follows
  connected b size i raw r c =
      ap (λ l. get_or l i false) ((answered b size i raw r c).1.0)
      ∙ get_or-set_self r.is_connected i true false c.place

  unread :
      (b : Bytes) (size i : ℕ) (raw : RawInput fl) (r : Receiver)
      → IsConnect b i r
      → is_success (parse_data fl b size i raw r).result ≡ false
  unfolding Answers
  unread b size i raw r c = ap is_success ((answered b size i raw r c).0)

  -- For a receiver and a handler that have the input, where the handler has no controller for it and
  -- does not know it as connected: the turn that reads the packet by which a wireless controller
  -- connects changes nothing that the processes see, and the next turn, when it succeeds in reading
  -- a report of the connected input, takes a player for it and shows the report to every process,
  -- or calls a null controller where no player is free.
  pub connect-Connects :
      (b : Bytes) (size : ℕ) (raw : RawInput fl) (r : Receiver) (s : System) (next : Input)
      → IsConnect b next.input_idx r
      → IsAway next.input_idx s
      → next.is_connected ≡ true
      → next.read_rc ≡ success
      → let first = input_of next.input_idx (parse_data fl b size next.input_idx raw r) in
        let noted = (update_input flags word first s).1 in
        (noted.shared ≡ s.shared)
        × Connects flags word next noted
            (attach_controller noted.shared.manager)
            (update_input flags word next noted)
  connect-Connects b size raw r s next c away here read =
      let i = next.input_idx in
      let first = input_of i (parse_data fl b size i raw r) in
      let e : update_input flags word first s ≡ (returned first.read_rc, put_data i fresh s) =
        update_input_noted flags word first s away.unknown away.data_lt (connected b size i raw r c)
          (unread b size i raw r c) in
      rw (e) (
        refl,
        update_input-Connects flags word next (put_data i fresh s) (record {
          due = inr (get_or-set_self s.handler.controller_data i fresh initial_input away.data_lt);
          connected = here;
          read = read;
          data_lt = longer s.handler.controller_data i away.data_lt;
          list_lt = away.list_lt;
          empty = away.empty;
        }),
      )
    where
      longer : (l : List InputState) (i : ℕ) → i < length l → i < length (set l i fresh)
      longer l i h = omega (arith, length-set l i fresh)
