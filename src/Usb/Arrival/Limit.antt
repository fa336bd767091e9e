-- ===== src/Usb/Arrival/Limit.antt =====
-- How many controllers the threads of source/Sysmodule/source/{usb_module,psc_module}.cpp can have at a
-- time.
use sys_con.Prelude.{
  ◌≤◌, ◌≡◌, Bool, true, false, Option, none, some, List, [], ◌∷◌, length, length-append, Bool-cases,
  inl, inr, arith,
}
use sys_con.Prelude.Text.{Bytes}
use sys_con.Config.Load.{Ini, File}
use sys_con.Usb.Handlers.{
  Handler, max_controller_handlers_size, insert, is_at_controller_limit, clear,
}
use sys_con.Usb.Handlers.Unplug.{length-plugged_only, remove_all_non_plugged-lem}
use sys_con.Sysmodule.Power.{PscPmState, Power, on_state}
use sys_con.Usb.Removal.{plugged_ids, on_change}
use sys_con.Usb.Arrival.{Interface, Available, Made, Found, add_device, on_found, on_event}

-- What the threads do to the handlers, in any order: turns of the event thread, removals by the other
-- one, requests of the power management, and the release of all of them at the end. A turn is one step;
-- a removal between its limit test and its insertion would only make room.
pub data Step (ini : Ini) (stamp : Bytes) (auto : Bool) : List Handler → List Handler → Type 0 where
  event :
      (available : Available) (initialized : Made → Bool) (f : File) (l : List Handler)
      → Step ini stamp auto l (on_event ini stamp auto available initialized f l).handlers
  change :
      (answer : Option (List Interface)) (l : List Handler)
      → Step ini stamp auto l (on_change answer l).0
  power : (s : PscPmState) (p : Power) → Step ini stamp auto p.handlers (on_state s p).handlers
  exit : (l : List Handler) → Step ini stamp auto l (clear l)

pub data Reached (ini : Ini) (stamp : Bytes) (auto : Bool) : List Handler → Type 0 where
  start : Reached ini stamp auto []
  next :
      (l m : List Handler)
      → Reached ini stamp auto l
      → Step ini stamp auto l m
      → Reached ini stamp auto m

module _ (ini : Ini) (stamp : Bytes) (auto : Bool) where
  insert-bound :
      (b : Bool) (h : Handler) (l : List Handler)
      → is_at_controller_limit l ≡ false
      → length (insert b h l) ≤ max_controller_handlers_size
  unfolding insert is_at_controller_limit
  insert-bound true h l e = ground (arith, length-append l (h ∷ []))
  insert-bound false h l e = ground arith

  on_found-bound :
      (initialized : Made → Bool) (d : Option Found) (f : File) (l : List Handler)
      → length l ≤ max_controller_handlers_size
      → length (on_found ini stamp auto initialized d f l).handlers ≤ max_controller_handlers_size
  unfolding on_found
  on_found-bound initialized none f l h = h
  on_found-bound initialized (some d) f l h = elim (Bool-cases (is_at_controller_limit l)) [
    | inl e ↦ rw (e) h
    | inr e ↦ rw (e, add_device) (insert-bound _ _ l e)
  ]

  on_state-bound :
      (s : PscPmState) (p : Power)
      → length p.handlers ≤ max_controller_handlers_size
      → length (on_state s p).handlers ≤ max_controller_handlers_size
  unfolding on_state
  on_state-bound PscPmState.awake p h = h
  on_state-bound PscPmState.ready_awaken p h = h
  on_state-bound PscPmState.ready_shutdown p h = omega arith
  on_state-bound PscPmState.ready_sleep p h = omega arith
  on_state-bound PscPmState.other p h = h

  Step-bound :
      (l m : List Handler)
      → Step ini stamp auto l m
      → length l ≤ max_controller_handlers_size
      → length m ≤ max_controller_handlers_size
  unfolding on_event on_change
  Step-bound l m (event available initialized f _) h = on_found-bound initialized _ f l h
  Step-bound l m (change answer _) h =
      let plugged = plugged_ids answer in
      rw (remove_all_non_plugged-lem plugged l) (omega (arith, length-plugged_only plugged l))
  Step-bound l m (power s p) h = on_state-bound s p h
  Step-bound l m (exit _) h = omega arith

  -- However turns of the event thread, removals of unplugged handlers, requests of the power management
  -- and releases of all handlers follow one another, from no handler on, there are never more than ten.
  pub Reached-bound :
      (l : List Handler) → Reached ini stamp auto l → length l ≤ max_controller_handlers_size
  Reached-bound _ start = omega arith
  Reached-bound _ (next l m r s) = Step-bound l m s (Reached-bound l r)
