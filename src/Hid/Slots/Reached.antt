-- ===== src/Hid/Slots/Reached.antt =====
-- What any sequence of attachments and detachments leaves of the players
-- (source/ControllerSwitch/SwitchMITMManager.cpp).
use sys_con.Prelude.{Option, ℕ, zero, suc, refl}
use sys_con.Hid.Slots.{Player, Manager, initial_manager, attach_controller, detach_controller}
use sys_con.Hid.Slots.Valid.{Holds, IsValid}
use sys_con.Hid.Slots.Players.{attach_controller-IsValid, detach_controller-IsValid}

-- The managers that calls of the two functions lead to, with any pointer to detach.
pub data Reached : Manager → Type 0 where
  start : Reached initial_manager
  attach : (m : Manager) → Reached m → Reached (attach_controller m).1
  detach : (m : Manager) (c : Option Player) → Reached m → Reached (detach_controller m c)

no_holder : (i : ℕ) (p : Player) → Holds initial_manager.controller_list i p → ⊥
unfolding initial_manager
no_holder zero p e = cc
no_holder (suc zero) p e = cc
no_holder (suc (suc zero)) p e = cc
no_holder (suc (suc (suc zero))) p e = cc
no_holder (suc (suc (suc (suc zero)))) p e = cc
no_holder (suc (suc (suc (suc (suc zero))))) p e = cc
no_holder (suc (suc (suc (suc (suc (suc zero)))))) p e = cc
no_holder (suc (suc (suc (suc (suc (suc (suc zero))))))) p e = cc
no_holder (suc (suc (suc (suc (suc (suc (suc (suc i)))))))) p e = cc

pub initial_manager-IsValid : IsValid initial_manager
unfolding initial_manager
initial_manager-IsValid = record {
  slots = refl;
  index = λ i p e. absurd (no_holder i p e);
  made = λ i p e. absurd (no_holder i p e);
  distinct = λ i j p q e f same. absurd (no_holder i p e);
}

-- Whatever calls of `AttachController` and `DetachController` were made, in any order and with any
-- pointers: there are eight slots, each one in use holds a controller of its own index that was made
-- before, and no two slots hold the same controller.
pub Reached-IsValid : (m : Manager) → Reached m → IsValid m
Reached-IsValid _ start = initial_manager-IsValid
Reached-IsValid _ (attach m r) = attach_controller-IsValid m (Reached-IsValid m r)
Reached-IsValid _ (detach m c r) = detach_controller-IsValid m c (Reached-IsValid m r)
