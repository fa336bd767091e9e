-- ===== src/Hid/Lifo.antt =====
-- `HidSharedMemoryController` of source/ControllerSwitch/SwitchMITMManager.cpp: the states of a
-- player, which games read from a ring in the shared memory.
pub mod History
pub mod Processes
use sys_con.Prelude.{
  ℕ, ◌+◌, ◌-◌, ◌%◌, ◌^◌, List, [], ◌∷◌, replicate, set, get_or, ◌==◌, ltb, leb, if◌then◌else◌,
}
use sys_con.Prelude.Int.{ℤ, pos}

-- `HidAnalogStickState`
pub record Stick : Type 0 where
  pub x : ℤ
  pub y : ℤ

-- One entry of the ring: `HidNpadCommonStateAtomicStorage`.
pub record Storage : Type 0 where
  pub sampling_number : ℕ
  pub buttons : ℕ
  pub analog_stick_l : Stick
  pub analog_stick_r : Stick
  pub attributes : ℕ
  pub reserved : ℕ

-- The ring with its header.
pub record Lifo : Type 0 where
  pub buffer_count : ℕ
  pub tail : ℕ
  pub count : ℕ
  pub storage : List Storage

-- The flags of libnx that the code sets.
pub record Flags : Type 0 where
  pub style : ℕ
  pub color_ok : ℕ
  pub device_full_key : ℕ
  pub attributes : ℕ
  pub footer_pro : ℕ

-- `HidNpadInternalState`, as far as `Initialize` writes it.
pub record Npad : Type 0 where
  pub style_set : ℕ
  pub joy_assignment_mode : ℕ
  pub color_attribute : ℕ
  pub color_main : ℕ
  pub color_sub : ℕ
  pub full_key_lifo : Lifo
  pub device_type : ℕ
  pub is_abxy_button_oriented : ℕ
  pub is_plus_available : ℕ
  pub is_minus_available : ℕ
  pub is_directional_buttons_available : ℕ
  pub battery_level : List ℕ
  pub applet_footer_ui_type : ℕ

abbrev pub ring_size : ℕ
ring_size = 17

abbrev pub no_stick : Stick
no_stick = record { x = pos 0; y = pos 0 }

abbrev pub no_state : Storage
no_state = record {
  sampling_number = 0;
  buttons = 0;
  analog_stick_l = no_stick;
  analog_stick_r = no_stick;
  attributes = 0;
  reserved = 0;
}

abbrev pub empty_lifo : Lifo
empty_lifo = record {
  buffer_count = ring_size;
  tail = 0;
  count = 0;
  storage = replicate ring_size no_state;
}

-- `Initialize`; it sets every byte to 0 first.
abbrev pub initialize : Flags → Npad
initialize flags = record {
  style_set = flags.style;
  joy_assignment_mode = 0;
  color_attribute = flags.color_ok;
  color_main = 4278190335;
  color_sub = 4278190335;
  full_key_lifo = empty_lifo;
  device_type = flags.device_full_key;
  is_abxy_button_oriented = 1;
  is_plus_available = 1;
  is_minus_available = 1;
  is_directional_buttons_available = 1;
  battery_level = 4 ∷ 4 ∷ 4 ∷ [];
  applet_footer_ui_type = flags.footer_pro;
}

-- The place that the next entry is written to.
unfoldable pub next_tail : Lifo → ℕ
next_tail l = if leb l.buffer_count (l.tail + 1) then 0 else l.tail + 1

unfoldable pub push : Lifo → Storage → Lifo
unfolding next_tail
push l s = record l {
  storage = set l.storage (next_tail l) s;
  tail = next_tail l;
  count = if ltb l.count l.buffer_count then l.count + 1 else l.count;
}

-- A state that a controller reports.
pub record Report : Type 0 where
  pub buttons : ℕ
  pub stick_l : Stick
  pub stick_r : Stick

abbrev pub storage_of : Flags → ℕ → Report → Storage
storage_of flags n r = record {
  sampling_number = n;
  buttons = r.buttons;
  analog_stick_l = r.stick_l;
  analog_stick_r = r.stick_r;
  attributes = flags.attributes;
  reserved = 0;
}

-- The body of the loop of `Update`, on the state of the player in one process.
unfoldable pub update_npad : Flags → ℕ → Report → Npad → Npad
unfolding push
update_npad flags n r p =
    let q = if p.style_set == 0 then initialize flags else p in
    record q { full_key_lifo = push q.full_key_lifo (storage_of flags n r) }

-- `HidSharedMemoryEntry`: a process and the players in its fake memory.
pub record Entry : Type 0 where
  pub process_id : ℕ
  pub program_id : ℕ
  pub npads : List Npad

abbrev pub zero_npad : Npad
zero_npad = record {
  style_set = 0;
  joy_assignment_mode = 0;
  color_attribute = 0;
  color_main = 0;
  color_sub = 0;
  full_key_lifo = record {
    buffer_count = 0;
    tail = 0;
    count = 0;
    storage = replicate ring_size no_state;
  };
  device_type = 0;
  is_abxy_button_oriented = 0;
  is_plus_available = 0;
  is_minus_available = 0;
  is_directional_buttons_available = 0;
  battery_level = 0 ∷ 0 ∷ 0 ∷ [];
  applet_footer_ui_type = 0;
}

abbrev pub update_entry : Flags → ℕ → ℕ → Report → Entry → Entry
update_entry flags player n r e = record e {
  npads = set e.npads player (update_npad flags n r (get_or e.npads player zero_npad));
}

-- `m_sampling_number++` on a `u64`.
abbrev next_number : ℕ → ℕ
next_number n = (n + 1) % 2 ^ 64

-- `Update`: the entries afterwards, and the controller's sampling number.
unfoldable pub update_entries : Flags → ℕ → ℕ → Report → List Entry → List Entry × ℕ
unfolding update_npad
update_entries flags player n r [] = ([], n)
update_entries flags player n r (e ∷ rest) =
    let done = update_entries flags player (next_number n) r rest in
    (update_entry flags player n r e ∷ done.0, done.1)
