-- ===== src/Tests/Controller.antt =====
-- Concrete inputs for source/ControllerLib/Controllers/BaseController.cpp.
use sys_con.Controller.Interfaces.{UsbInterface}
use sys_con.Prelude.{
  none, some, ℕ, zero, suc, ◌+◌, ◌%◌, ◌<◌, ◌≡◌, refl, Bool, true, false, ◌&&◌, ◌||◌, [], ◌∷◌, arith,
  if◌then◌else◌,
}
use sys_con.Prelude.Int.{ℤ, pos, negsuc}
use sys_con.Prelude.Text.{codes}
use sys_con.Config.Data.{Button, ComboConfig, initial_config}
use sys_con.Config.Load.{load_controller_config}
use sys_con.Controller.Float.{Float, FloatLaws}
use sys_con.Controller.Mapping.{
  RawInput, Normalized, pressed, map_buttons, simulate_buttons, analog_pressed,
  controller_button_list,
}
use sys_con.Controller.Mapping.Buttons.{listed, map_buttons_lem, run_all}
use sys_con.Controller.Mapping.Loaded.{simulate_buttons-loaded}
use sys_con.Controller.Result.{success, timeout, report, failed}
use sys_con.Controller.Endpoints.{
  Endpoint, Pipes, read_endpoint_latest, read_at, read_next_buffer, first_reply,
}
use sys_con.Controller.Endpoints.Latest.{AllFull, queued, read_endpoint_latest-newest}
use sys_con.Controller.Endpoints.Rotation.{Serves, has_report, read_next_buffer-Serves}
use sys_con.Tests.Config.{pad_ini, pad_file, pad_id}

-- Numbers of three values, which meet the laws that the proofs use of `float`.
pub data Tri : Type 0 where
  below : Tri
  middle : Tri
  above : Tri

abbrev neg_tri : Tri → Tri
neg_tri below = above
neg_tri middle = middle
neg_tri above = below

abbrev mul_tri : Tri → Tri → Tri
mul_tri below x = neg_tri x
mul_tri middle x = middle
mul_tri above x = x

abbrev abs_tri : Tri → Tri
abs_tri middle = middle
abs_tri _ = above

abbrev add_tri : Tri → Tri → Tri
add_tri below above = middle
add_tri below _ = below
add_tri middle x = x
add_tri above below = middle
add_tri above _ = above

abbrev lt_tri : Tri → Tri → Bool
lt_tri below middle = true
lt_tri below above = true
lt_tri middle above = true
lt_tri _ _ = false

abbrev tri_of : ℤ → Tri
tri_of (negsuc n) = below
tri_of (pos zero) = middle
tri_of (pos (suc n)) = above

abbrev pub tri : Float
tri = record {
  F = Tri;
  of_ℤ = tri_of;
  add = add_tri;
  sub = λ x y. add_tri x (neg_tri y);
  mul = mul_tri;
  div = mul_tri;
  neg = neg_tri;
  abs = abs_tri;
  lt = lt_tri;
}

positive :
    (x : Tri)
    → lt_tri middle x ≡ true
    → (lt_tri x below ≡ false) × (lt_tri above (neg_tri x) ≡ false)
positive below h = cc
positive middle h = cc
positive above h = (refl, refl)

turned : (x y : Tri) → lt_tri (neg_tri x) (neg_tri y) ≡ lt_tri y x
turned below below = refl
turned below middle = refl
turned below above = refl
turned middle below = refl
turned middle middle = refl
turned middle above = refl
turned above below = refl
turned above middle = refl
turned above above = refl

pub tri_laws : FloatLaws tri
tri_laws = record {
  one_le_one = refl;
  neg_one_lt_one = refl;
  neg_one_le = refl;
  zero_lt_one = refl;
  positive_above = λ x h. (positive x h).0;
  one_mul = λ x. refl;
  neg_one_mul = λ x. refl;
  neg_lt = turned;
  neg_positive = λ x h. (positive x h).1;
}

abbrev pub raw_pad : RawInput tri
raw_pad = record { buttons = λ i. true; analog = λ a. above }

abbrev at_rest : Normalized tri
at_rest = record { buttons = λ i. false; sticks = λ a. middle }

map_buttons_lem_example : map_buttons tri initial_config raw_pad at_rest.buttons Button.a ≡ (
    if listed Button.a controller_button_list
    then pressed initial_config raw_pad.buttons Button.a
      || (initial_config.buttons_analog_used
          && analog_pressed tri initial_config raw_pad.analog Button.a)
    else false)
map_buttons_lem_example = map_buttons_lem tri initial_config raw_pad at_rest.buttons Button.a

abbrev home_combo : ComboConfig
home_combo = record { button_simulated = Button.home; first = Button.minus; second = Button.plus }

simulate_buttons-loaded_example :
    let c = (load_controller_config pad_ini [] pad_file initial_config pad_id true []).config in
    simulate_buttons c.simulate_combos (λ i. true) ≡ run_all c.simulate_combos (λ i. true)
simulate_buttons-loaded_example =
    simulate_buttons-loaded pad_ini [] pad_file pad_id true [] (λ i. true)

read_endpoint_latest-newest_example :
    read_endpoint_latest 64 (record {
      max_packet = 2;
      replies =
          queued (codes "old" ∷ codes "new" ∷ []) (failed timeout ∷ report (codes "later") ∷ []);
    })
    ≡ record {
      result = success;
      bytes = codes "ne";
      endpoint = record { max_packet = 2; replies = report (codes "later") ∷ [] };
    }
unfolding AllFull
read_endpoint_latest-newest_example =
    read_endpoint_latest-newest 64 2 (codes "old") (codes "new" ∷ []) timeout
      (report (codes "later") ∷ []) (omega arith) (omega arith) (ground arith)

abbrev idle_endpoint : Endpoint
idle_endpoint = record { max_packet = 64; replies = [] }

abbrev busy_endpoint : Endpoint
busy_endpoint = record { max_packet = 64; replies = report (codes "x") ∷ [] }

abbrev two_pipes : Pipes
two_pipes = record { in_pipe = busy_endpoint ∷ idle_endpoint ∷ []; current_controller_idx = 1 }

read_next_buffer-Serves_example : Serves 64 2 two_pipes 0 (read_next_buffer 64 7 two_pipes)
unfolding read_at read_endpoint_latest first_reply
read_next_buffer-Serves_example = read_next_buffer-Serves 64 7 1 two_pipes (omega arith) idle refl
  where
    idle : (j : ℕ) → j < 1 → has_report 64 two_pipes.in_pipe ((1 + j) % 2) ≡ false
    idle zero h = refl
    idle (suc j) h = absurd (omega arith)

abbrev usb_interface : UsbInterface
usb_interface = record {
  open_rc = success;
  in_endpoints = none ∷ some (record { id = 129; open_rc = success }) ∷ [];
  out_endpoints = some (record { id = 2; open_rc = success }) ∷ [];
}
