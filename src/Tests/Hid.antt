-- ===== src/Tests/Hid.antt =====
-- Concrete inputs for source/ControllerSwitch/.
use sys_con.Prelude.{
  ℕ, ◌≡◌, ◌≢◌, refl, Bool, true, false, none, some, inl, [], ◌∷◌, get_elem?, take, replicate, arith,
}
use sys_con.Prelude.Text.{Bytes}
use sys_con.Config.Data.{Button}
use sys_con.Controller.Result.{success, nothing_todo}
use sys_con.Hid.Slots.{
  Player, Manager, initial_manager, attach_controller, detach_controller, max_players, free_slot,
  same_controller,
}
use sys_con.Hid.Slots.Reached.{start, attach, detach, initial_manager-IsValid, Reached-IsValid}
use sys_con.Hid.Slots.Valid.{IsValid}
use sys_con.Hid.Slots.Players.{
  Attaches, attach_controller-Attaches, attach_controller-IsValid, detach-attach,
}
use sys_con.Hid.Lifo.{
  Flags, Report, Entry, no_stick, zero_npad, empty_lifo, ring_size, push, storage_of, update_npad,
  update_entry,
}
use sys_con.Hid.Lifo.History.{history, seen, Ready, push-history, update_npad-seen, empty-Fits}
use sys_con.Hid.Lifo.Processes.{update_entry-other}
use sys_con.Hid.Touch.{Touch}
use sys_con.Hid.Touch.Settle.{Settles, forward-Settles}
use sys_con.Hid.Gamepad.Exit.{slot, exit-controller}
use sys_con.Hid.Gamepad.{
  exit, System, Input, initial_input, null_controller, update_input, controller_at,
}
use sys_con.Tests.Controller.{tri, raw_pad}
use sys_con.Driver.Xbox360w.{initial_receiver, parse_data}
use sys_con.Hid.Gamepad.Wireless.{input_of, connect-Connects}
use sys_con.Hid.Gamepad.Connection.{Connects, update_input-Connects}

abbrev player_one : Player
player_one = record { id = 0; player_idx = 0 }

attach_controller-Attaches_example : Attaches initial_manager (attach_controller initial_manager)
attach_controller-Attaches_example =
    attach_controller-Attaches initial_manager initial_manager-IsValid

Reached-IsValid_example :
    IsValid (detach_controller (attach_controller initial_manager).1 (some player_one))
Reached-IsValid_example =
    Reached-IsValid (detach_controller (attach_controller initial_manager).1 (some player_one)) (
      detach (attach_controller initial_manager).1 (some player_one) (attach initial_manager start))

detach-attach_example :
    (detach_controller (attach_controller initial_manager).1 (some player_one)).controller_list
    ≡ initial_manager.controller_list
unfolding initial_manager attach_controller free_slot
detach-attach_example = detach-attach initial_manager player_one initial_manager-IsValid refl

abbrev pub some_flags : Flags
some_flags = record {
  style = 536870913;
  color_ok = 1;
  device_full_key = 1;
  attributes = 3;
  footer_pro = 4;
}

abbrev report_a : Report
report_a = record { buttons = 1; stick_l = no_stick; stick_r = no_stick }

push-history_example :
    history (push empty_lifo (storage_of some_flags 0 report_a))
    ≡ take ring_size (storage_of some_flags 0 report_a ∷ history empty_lifo)
push-history_example = push-history empty_lifo (storage_of some_flags 0 report_a) empty-Fits

update_npad-seen_example :
    Ready (update_npad some_flags 5 report_a zero_npad)
    × ((update_npad some_flags 5 report_a zero_npad).style_set ≢ 0)
    × (seen (update_npad some_flags 5 report_a zero_npad)
        ≡ take ring_size (storage_of some_flags 5 report_a ∷ seen zero_npad))
unfolding Ready
update_npad-seen_example = update_npad-seen some_flags 5 report_a zero_npad (omega arith) (inl refl)

abbrev process : Entry
process = record { process_id = 7; program_id = 8; npads = replicate 10 zero_npad }

update_entry-other_example :
    get_elem? (update_entry some_flags 2 5 report_a process).npads 3 ≡ some zero_npad
update_entry-other_example = update_entry-other some_flags 2 5 report_a process 3 (omega arith)

abbrev pub plugged_in : System
plugged_in = record {
  handler = record { controller_data = initial_input ∷ []; controller_list = none ∷ [] };
  shared = record { manager = initial_manager; entries = process ∷ []; numbers = λ k. 0 };
}

abbrev first_report : Input
first_report = record {
  read_rc = success;
  input_idx = 0;
  is_connected = true;
  buttons = λ k. false;
  stick_l = no_stick;
  stick_r = no_stick;
}

abbrev no_word : (Button → Bool) → ℕ
no_word f = 0

update_input-Connects_example :
    Connects some_flags no_word first_report plugged_in
      (attach_controller initial_manager)
      (update_input some_flags no_word first_report plugged_in)
update_input-Connects_example =
    update_input-Connects some_flags no_word first_report plugged_in (record {
      due = inl refl;
      connected = refl;
      read = refl;
      data_lt = omega arith;
      list_lt = omega arith;
      empty = refl;
    })

abbrev connect : Bytes
connect = 8 ∷ 128 ∷ []

connect-Connects_example :
    let first = input_of 0 (parse_data tri connect 2 0 raw_pad (initial_receiver 4)) in
    let noted = (update_input some_flags no_word first plugged_in).1 in
    (noted.shared ≡ plugged_in.shared)
    × Connects some_flags no_word first_report noted
        (attach_controller noted.shared.manager)
        (update_input some_flags no_word first_report noted)
connect-Connects_example =
    connect-Connects tri some_flags no_word connect 2 raw_pad (initial_receiver 4) plugged_in
      first_report (record { link = refl; present = refl; place = omega arith })
      (record { unknown = refl; data_lt = omega arith; list_lt = omega arith; empty = refl }) refl
      refl

-- With no player free, the new controller is null when it is called.
full_manager : Manager
full_manager = record { controller_list = replicate max_players (some player_one); next_id = 1 }

no_player_left :
    (update_input some_flags no_word first_report
      (record plugged_in { shared = record plugged_in.shared { manager = full_manager } })).0
    ≡ null_controller
unfolding update_input attach_controller free_slot full_manager
no_player_left = refl

-- The first player is in use.
abbrev used_manager : Manager
used_manager = (attach_controller initial_manager).1

abbrev in_use : System
in_use = record plugged_in {
  handler = record {
    controller_data = record { reattach_controller = false; is_connected = true } ∷ [];
    controller_list = some player_one ∷ [];
  };
  shared = record plugged_in.shared { manager = used_manager };
}

used_manager-IsValid : IsValid used_manager
used_manager-IsValid = attach_controller-IsValid initial_manager initial_manager-IsValid

abbrev gone : Input
gone = record first_report { read_rc = nothing_todo; is_connected = false }

exit-controller_example :
    (controller_at 0 (exit 1 in_use).handler ≡ none) × (slot 0 (exit 1 in_use) ≡ some none)
unfolding attach_controller initial_manager free_slot same_controller
exit-controller_example = exit-controller 1 0 0 in_use used_manager-IsValid

-- The system has written two states since the last turn.
abbrev two_behind : Touch
two_behind = record {
  real = record { buffer_count = 17; tail = 5; count = 16; storage = replicate 17 [] };
  fake = record { buffer_count = 17; tail = 3; count = 16; storage = replicate 17 [] };
  prev_tail = 3;
}

forward-Settles_example : Settles 2 two_behind
forward-Settles_example =
    forward-Settles two_behind
      (record { full = refl; real_lt = omega arith; fake_lt = omega arith; prev = refl })
