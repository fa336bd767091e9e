-- ===== src/Hid/Turn/Newest.antt =====
-- From the endpoint of a wired Xbox 360 controller to the memory of the processes:
-- source/ControllerSwitch/SwitchVirtualGamepadHandler.cpp over the driver.
use sys_con.Prelude.{ℕ, ◌<◌, ◌≤◌, ◌≡◌, refl, Bool, true, false, sym, List, ◌∷◌, length, none, inl}
use mathlib.Core.Path.{subst}
use sys_con.Prelude.Int.{ℤ}
use sys_con.Prelude.Text.{Bytes}
use sys_con.Config.Data.{ControllerConfig}
use sys_con.Controller.Float.{Float}
use sys_con.Controller.Mapping.{map_raw_input_to_normalized}
use sys_con.Controller.Result.{ControllerResult, Reply, success, failed}
use sys_con.Controller.Endpoints.Latest.{queued, newest, AllFull}
use sys_con.Controller.Input.{cleared}
use sys_con.Controller.Input as ReadInput
use sys_con.Driver.Report.{byte}
use sys_con.Driver.Xbox360.{button_data}
use sys_con.Driver.Input.{Based, xbox360}
use sys_con.Driver.Input.Newest.{one_endpoint, read_input-newest}
use sys_con.Hid.Slots.{attach_controller}
use sys_con.Hid.Lifo.{Flags}
use sys_con.Hid.Gamepad.{Input, System, data_at, controller_at}
use sys_con.Hid.Gamepad.Connection.{Connects, update_input-Connects}
use sys_con.Hid.Turn.{Libnx, word, no_input, taken, handled, turn}

-- A driver with one endpoint and these replies.
abbrev pub with_replies : ℕ → List Reply → Based (Unit {0})
with_replies max_packet l = record {
  driver = tt;
  pipes = one_endpoint (record { max_packet = max_packet; replies = l });
}

-- A handler with an input, which has no controller and is not known as connected.
pub record IsNew (s : System) : Type 0 where
  pub unknown : (data_at 0 s.handler).is_connected ≡ false
  pub data_lt : 0 < length s.handler.controller_data
  pub list_lt : 0 < length s.handler.controller_list
  pub empty : controller_at 0 s.handler ≡ none

-- The base class says that every input is connected.
abbrev pub always : ℕ → Based (Unit {0}) → Bool
always i s = true

module _ (fl : Float) (nx : Libnx) (c : ControllerConfig) (to_ℤ : fl.F → ℤ) where
  -- The input that a report means.
  abbrev pub meant : Bytes → Based (Unit {0}) → Input
  meant b s = taken fl nx (xbox360 fl) c to_ℤ always (record {
    result = success;
    normal = map_raw_input_to_normalized fl c (button_data fl b (cleared fl)) (no_input fl nx);
    input_idx = 0;
    state = s;
  })

  -- Where a wired Xbox 360 controller has one input endpoint, with packets of 14 bytes or more, at
  -- which reports wait that are not empty, until a read fails, the newest of them whole and of buttons:
  -- the first turn of a new handler takes a player and shows what the newest report means to every
  -- process at once, or calls a null controller where no player is free; and no report is left.
  pub turn-newest :
      (flags : Flags) (max_packet : ℕ) (x : Bytes) (xs : List Bytes) (r : ControllerResult)
      (rest : List Reply)
      → (s : System) → 14 ≤ max_packet
      → AllFull (x ∷ xs)
      → 14 ≤ length (newest x xs)
      → byte (newest x xs) 0 ≡ 0
      → IsNew s
      → let after = with_replies max_packet rest in
        let t =
          turn fl nx
            (xbox360 fl)
            c
            to_ℤ
            always
            flags
            (with_replies max_packet (queued (x ∷ xs) (failed r ∷ rest)))
            s in
        Connects flags
          (word nx)
          (meant (newest x xs) after)
          s
          (attach_controller s.shared.manager)
          (t.outcome, t.system)
        × (t.driver ≡ after)
  unfolding turn
  turn-newest flags max_packet x xs r rest s h full whole kind new =
      let after = with_replies max_packet rest in
      let i = meant (newest x xs) after in
      let shows = λ (v : ReadInput.Input fl (xbox360 fl) c).
        let t = handled fl nx (xbox360 fl) c to_ℤ always flags s v in
        Connects flags (word nx) i s (attach_controller s.shared.manager) (t.outcome, t.system)
        × (t.driver ≡ after) in
      subst shows
        (sym (read_input-newest fl c (no_input fl nx) max_packet x xs r rest h full whole kind))
        (
          update_input-Connects flags (word nx) i s (record {
            due = inl new.unknown;
            connected = refl;
            read = refl;
            data_lt = new.data_lt;
            list_lt = new.list_lt;
            empty = new.empty;
          }),
          refl,
        )
