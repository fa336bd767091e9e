-- ===== src/Hid/Touch.antt =====
-- The touch screen states that `OnRun` of source/ControllerSwitch/SwitchMITMManager.cpp passes on from
-- the system's shared memory to the one that a game sees.
pub mod Settle
use sys_con.Prelude.{
  ℕ, zero, suc, ◌+◌, Bool, not, ◌||◌, List, [], ◌∷◌, get_or, set, leb, ◌==◌, if◌then◌else◌,
}
use sys_con.Prelude.Text.{Bytes}

-- `touchscreen.lifo`: its header and its entries.
pub record Ring : Type 0 where
  pub buffer_count : ℕ
  pub tail : ℕ
  pub count : ℕ
  pub storage : List Bytes

-- What a `HidSharedMemoryEntry` has of the touch screen.
pub record Touch : Type 0 where
  pub real : Ring
  pub fake : Ring
  pub prev_tail : ℕ

-- The constructor of `HidSharedMemoryEntry`, which copies the memory.
abbrev initial_touch : Ring → Touch
initial_touch real = record { real = real; fake = real; prev_tail = real.tail }

abbrev pub next_place : ℕ → ℕ → ℕ
next_place n tail = if leb n (tail + 1) then 0 else tail + 1

unfoldable pub copy_newest : Touch → Touch
copy_newest t =
    let current_tail = next_place t.fake.buffer_count t.fake.tail in
    record t {
      fake = record t.fake {
        storage = set t.fake.storage current_tail (get_or t.real.storage t.real.tail []);
        tail = current_tail;
      };
      prev_tail = current_tail;
    }

-- The body of the loop over the processes, with its two `continue`s.
unfoldable pub forward : Touch → Touch
unfolding copy_newest
forward t = if not (t.real.count == 16) || t.real.tail == t.prev_tail then t else copy_newest t
