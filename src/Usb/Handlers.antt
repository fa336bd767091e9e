-- ===== src/Usb/Handlers.antt =====
-- The controllers in use: source/Sysmodule/source/controller_handler.cpp.
pub mod Unplug
use sys_con.Prelude.{
  ℕ, Bool, true, false, ◌||◌, List, [], ◌∷◌, ◌++◌, length, leb, ◌==◌, if◌then◌else◌,
}

-- A `SwitchVirtualGamepadHandler`, by the IDs of its device's interfaces.
pub record Handler : Type 0 where
  pub interface_ids : List ℕ

abbrev pub max_controller_handlers_size : ℕ
max_controller_handlers_size = 10

unfoldable pub is_at_controller_limit : List Handler → Bool
is_at_controller_limit handlers = leb max_controller_handlers_size (length handlers)

-- `Insert`, where `initialized` is whether the handler's `Initialize` succeeds.
unfoldable pub insert : Bool → Handler → List Handler → List Handler
insert initialized h handlers = if initialized then handlers ++ h ∷ [] else handlers

abbrev pub any_id : (ℕ → Bool) → List ℕ → Bool
any_id p [] = false
any_id p (x ∷ xs) = p x || any_id p xs

-- The two inner loops: whether one of the device's interfaces is plugged.
unfoldable pub is_plugged : List ℕ → Handler → Bool
is_plugged plugged h = any_id (λ id. any_id (λ other. id == other) plugged) h.interface_ids

-- The loop over the handlers; `at_begin` is `it == begin()`. It gives the handlers that stay, and
-- whether `it--` has moved the iterator before the vector.
unfoldable pub sweep : Bool → List ℕ → List Handler → List Handler × Bool
unfolding is_plugged
sweep at_begin plugged [] = ([], false)
sweep at_begin plugged (h ∷ rest) =
    let kept = sweep false plugged rest in
    let erased = sweep at_begin plugged rest in
    if is_plugged plugged h then (h ∷ kept.0, kept.1) else (erased.0, at_begin || erased.1)

unfoldable pub remove_all_non_plugged : List ℕ → List Handler → List Handler × Bool
unfolding sweep
remove_all_non_plugged plugged handlers = sweep true plugged handlers

abbrev pub clear : List Handler → List Handler
clear handlers = []
