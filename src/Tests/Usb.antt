-- ===== src/Tests/Usb.antt =====
-- Concrete inputs for source/Sysmodule/source/{usb_module,controller_handler}.cpp.
use sys_con.Usb.Endpoint.{Answers, Call, post, wait, report, initial_reader, read_async}
use sys_con.Usb.Endpoint.Pending.{read_all, posts, events, keeps, read_all-posts}
use sys_con.Prelude.{
  ◌+◌, List, false, none, arith, map, replicate, ◌==◌, ◌≢◌, ℕ, ◌≤◌, ◌≡◌, ◌↔◌, refl, Bool, true,
  some, [], ◌∷◌, length, take,
}
use sys_con.Prelude.Int.{pos}
use sys_con.Usb.Handlers.{Handler, max_controller_handlers_size, remove_all_non_plugged}
use sys_con.Usb.Handlers.Unplug.{plugged_only, first_unplugged, remove_all_non_plugged-lem}
use sys_con.Usb.Discovery.{initialize, max_usb_events}
use sys_con.Usb.Discovery.Events.{wanted, initialize-wanted}
use sys_con.Usb.Arrival.{Available, Made, until_event, queries, on_event}
use sys_con.Usb.Arrival.Chosen.{AllEmpty, on_event-timeout}
use sys_con.Usb.Arrival.Limit.{start, next, event, Reached-bound}
use sys_con.Controller.Interfaces.{open_interfaces}
use sys_con.Usb.Endpoint.{Descriptor}
use sys_con.Usb.Endpoint
use sys_con.Usb.Interface
use sys_con.Usb.Interface.Pipes
use sys_con.Usb.Interface.{Session, open_device, as_interface, control_transfer_output, is_input}
use sys_con.Usb.Interface.Pipes.{described, Full, open_interfaces-described}
use sys_con.Tests.Config.{pad_ini, pad_file, pad_id}

abbrev handler : ℕ → Handler
handler i = record { interface_ids = i ∷ [] }

remove_all_non_plugged-lem_example :
    remove_all_non_plugged (5 ∷ []) (handler 4 ∷ handler 5 ∷ []) ≡ (
      plugged_only (5 ∷ []) (handler 4 ∷ handler 5 ∷ []),
      first_unplugged (5 ∷ []) (handler 4 ∷ handler 5 ∷ []),
    )
remove_all_non_plugged-lem_example =
    remove_all_non_plugged-lem (5 ∷ []) (handler 4 ∷ handler 5 ∷ [])

-- The first handler is unplugged: the loop moves its iterator before the vector.
first_is_unplugged :
    (remove_all_non_plugged (5 ∷ []) (handler 4 ∷ handler 5 ∷ [])) ≡ (handler 5 ∷ [], true)
unfolding remove_all_non_plugged
first_is_unplugged = refl

initialize-wanted_example :
    initialize (pos 1) (pad_id ∷ pad_id ∷ pad_id ∷ [])
    ≡ take max_usb_events (wanted (pos 1) (pad_id ∷ pad_id ∷ pad_id ∷ []))
initialize-wanted_example = initialize-wanted (pos 1) (pad_id ∷ pad_id ∷ pad_id ∷ [])

abbrev one_device : Available
one_device q = some (record { id = 3; id_vendor = 1118; id_product = 654 } ∷ [])

abbrev always : Made → Bool
always m = true

on_event-timeout_example :
    ((on_event pad_ini [] true one_device always pad_file []).timeout ≡ until_event)
    ↔ AllEmpty one_device queries
on_event-timeout_example = on_event-timeout pad_ini [] true one_device always pad_file []

Reached-bound_example :
    length (on_event pad_ini [] true one_device always pad_file []).handlers
    ≤ max_controller_handlers_size
Reached-bound_example =
    Reached-bound pad_ini [] true (on_event pad_ini [] true one_device always pad_file []).handlers
      (next [] _ start (event one_device always pad_file []))

-- A new transfer that does not end in time.
abbrev late : Answers
late = record { posted = some 9; event = false; reported = none }

-- It ends before the next read; the report of the one behind has another id.
abbrev in_time : ℕ → Answers
in_time id = record {
  posted = some 12;
  event = true;
  reported = some (record { count = 1; xfer_id = id; bytes = 7 ∷ []; res_ok = true });
}

abbrev three_reads : List Answers
three_reads = late ∷ in_time 9 ∷ in_time 5 ∷ []

read_all-posts_example :
    let t = read_all three_reads initial_reader in
    posts t.0 + keeps initial_reader ≡ events t.0 + keeps t.1
read_all-posts_example =
    read_all-posts three_reads initial_reader
      ((λ e. ground arith), ((λ e. ground arith), ((λ e. ground arith), tt)))

-- The second read waits for the transfer of the first and posts none.
three_reads_calls :
    (read_all three_reads initial_reader).0
    ≡ post (some 9) ∷ wait false ∷ wait true ∷ report ∷ post (some 12) ∷ wait true ∷ report ∷ []
unfolding read_all read_async
three_reads_calls = refl

abbrev descriptor : ℕ → Descriptor
descriptor a = record { length = 7; address = a; max_packet_size = 32; interval = 4 }

abbrev no_descriptor : Descriptor
no_descriptor = record { length = 0; address = 0; max_packet_size = 0; interval = 0 }

-- An interface with an endpoint in each direction.
abbrev session : Session
session = record {
  input_descs = no_descriptor ∷ descriptor 129 ∷ replicate 13 no_descriptor;
  output_descs = descriptor 1 ∷ replicate 14 no_descriptor;
}

abbrev opens : Descriptor → ℕ → Bool
opens d n = n == 32

open_interfaces-described_example :
    let o = open_interfaces (open_device 1) (map (as_interface opens 0 32) (some session ∷ [])) in
    (o.1.in_pipe ≡ described (λ s. s.input_descs) (some session ∷ []))
    × (o.1.out_pipe ≡ described (λ s. s.output_descs) (some session ∷ []))
    × (described (λ s. s.input_descs) (some session ∷ []) ≢ [])
unfolding open_interfaces open_device as_interface Endpoint.open_endpoint Interface.fill
open_interfaces-described_example =
    open_interfaces-described opens 0 32 (some session ∷ [])
      (Full.given session [] refl refl Full.empty) refl

session_pipes : described (λ s. s.input_descs) (some session ∷ []) ≡ 129 ∷ []
unfolding described Pipes.addresses
session_pipes = refl
