-- ===== src/Tests/Driver.antt =====
-- Concrete inputs for the drivers of source/ControllerLib/Controllers/.
use sys_con.Controller.Result.{report}
use sys_con.Controller.Endpoints.{Next}
use sys_con.Controller.Endpoints
use sys_con.Driver.Wii.{Wii}
use sys_con.Driver.Wii.Turns.{reads, for_controller, reads-four}
use sys_con.Driver.Steam.{make_steam}
use sys_con.Driver.Steam
use sys_con.Driver.Steam.Status.{Tracks, told_by, parse_data-Tracks}
use sys_con.Prelude.{false, ◌++◌, replicate, ◌≡◌, refl, true, [], ◌∷◌, arith}
use sys_con.Prelude.Text.{Bytes}
use sys_con.Controller.Result.{ControllerResult, success}
use sys_con.Driver.Xbox360w.{initial_receiver, parse_data}
use sys_con.Driver.Xbox360w.Link.{Answers, parse_data-Answers}
use sys_con.Driver.XboxOne.{init_packets, send_init_bytes}
use sys_con.Driver.XboxOne.Init.{for_device, numbered, write_all, send_init_bytes-write_all}
use sys_con.Tests.Controller.{tri, raw_pad}

-- The packet that tells that the controller of an input has connected.
abbrev connect : Bytes
connect = 8 ∷ 128 ∷ []

parse_data-Answers_example :
    Answers tri true 1 true
      (initial_receiver 4)
      (parse_data tri connect 2 1 raw_pad (initial_receiver 4))
parse_data-Answers_example =
    parse_data-Answers tri connect 2 1 raw_pad (initial_receiver 4) (omega arith)

abbrev always_written : Bytes → ControllerResult
always_written b = success

send_init_bytes-write_all_example :
    send_init_bytes always_written 1 0 3695 674
    ≡ write_all always_written (numbered 1 (for_device 3695 674 init_packets))
send_init_bytes-write_all_example =
    send_init_bytes-write_all always_written 1 0 3695 674 (omega arith)

-- A controller of another vendor gets the power-on packet only.
power_on_only : (send_init_bytes always_written 1 0 1 1).written ≡ (5 ∷ 32 ∷ 1 ∷ 1 ∷ 0 ∷ []) ∷ []
unfolding send_init_bytes
power_on_only = refl

-- A report of the adapter with a controller in its second place.
abbrev adapter_report : Bytes
adapter_report = 33 ∷ replicate 9 0 ++ 16 ∷ replicate 26 0

abbrev adapter : Wii
adapter = record {
  current_wii_controller_idx = 0;
  buffer = [];
  is_connected = replicate 4 false;
  rumble_supported = replicate 4 false;
  pipes = record {
    in_pipe = record { max_packet = 64; replies = report adapter_report ∷ [] } ∷ [];
    current_controller_idx = 0;
  };
}

abbrev adapter_next : Next
adapter_next = record {
  result = success;
  bytes = adapter_report;
  input_idx = 0;
  pipes = record {
    in_pipe = record { max_packet = 64; replies = [] } ∷ [];
    current_controller_idx = 0;
  };
}

reads-four_example : reads 4 adapter ≡ (
  for_controller adapter_report 0
      ∷ for_controller adapter_report 1
      ∷ for_controller adapter_report 2
      ∷ for_controller adapter_report 3
      ∷ [],
  record adapter {
    current_wii_controller_idx = 0;
    buffer = adapter_report;
    pipes = adapter_next.pipes;
  },
)
unfolding Endpoints.read_next_buffer
reads-four_example = reads-four adapter adapter_next refl refl refl refl (omega arith)

-- A status of the dongle: the controller of an input has come.
parse_data-Tracks_example :
    Tracks
      (told_by (70 ∷ 2 ∷ []) 2)
      3
      (make_steam 5)
      (Steam.parse_data tri (70 ∷ 2 ∷ []) 2 3 raw_pad (make_steam 5)).steam
unfolding make_steam
parse_data-Tracks_example =
    parse_data-Tracks tri (70 ∷ 2 ∷ []) 2 3 raw_pad (make_steam 5) (omega arith) refl

-- The constructor runs before any interface is open.
one_controller : (make_steam 0).controller_count ≡ 1
unfolding make_steam
one_controller = refl
