-- ===== src/Hid/Slots.antt =====
-- `AttachController` and `DetachController` of source/ControllerSwitch/SwitchMITMManager.cpp: the
-- eight players of the manager. A `shared_ptr` is an object's identity, or null.
pub mod Freed
pub mod Players
pub mod Reached
pub mod Valid
use sys_con.Prelude.{
  ℕ, suc, ◌+◌, Bool, true, false, Option, none, some, List, [], ◌∷◌, replicate, set, ◌==◌,
  if◌then◌else◌,
}

-- A `HidSharedMemoryController`: its identity, and the player that it was made for.
pub record Player : Type 0 where
  pub id : ℕ
  pub player_idx : ℕ

abbrev pub max_players : ℕ
max_players = 8

-- `next_id` stands for the addresses that `make_shared` has not given out yet.
pub record Manager : Type 0 where
  pub controller_list : List (Option Player)
  pub next_id : ℕ

unfoldable pub initial_manager : Manager
initial_manager = record { controller_list = replicate max_players none; next_id = 0 }

abbrev pub next_index : Option ℕ → Option ℕ
next_index none = none
next_index (some i) = some (suc i)

-- The index at which the loop of `AttachController` stops.
unfoldable pub free_slot : List (Option Player) → Option ℕ
free_slot [] = none
free_slot (none ∷ rest) = some 0
free_slot (some p ∷ rest) = next_index (free_slot rest)

-- `make_shared<HidSharedMemoryController>(i)`
abbrev pub make_player : Manager → ℕ → Player
make_player m i = record { id = m.next_id; player_idx = i }

unfoldable pub attach_controller : Manager → Option Player × Manager
unfolding free_slot
attach_controller m = elim (free_slot m.controller_list) [
  | none ↦ (none, m)
  | some i ↦ (
    some (make_player m i),
    record {
      controller_list = set m.controller_list i (some (make_player m i));
      next_id = m.next_id + 1;
    },
  )
]

-- `m_controller_list[i] == controller`, for two pointers.
unfoldable pub same_controller : Option Player → Option Player → Bool
same_controller none none = true
same_controller (some p) (some q) = p.id == q.id
same_controller _ _ = false

-- The index at which the loop of `DetachController` stops.
unfoldable pub slot_of : Option Player → List (Option Player) → Option ℕ
unfolding same_controller
slot_of c [] = none
slot_of c (s ∷ rest) =
    let later = next_index (slot_of c rest) in if same_controller s c then some 0 else later

unfoldable pub detach_controller : Manager → Option Player → Manager
unfolding slot_of
detach_controller m c = elim (slot_of c m.controller_list) [
  | none ↦ m
  | some i ↦ record m { controller_list = set m.controller_list i none }
]
