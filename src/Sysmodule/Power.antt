-- ===== src/Sysmodule/Power.antt =====
-- Power management: the thread of source/Sysmodule/source/psc_module.cpp.
pub mod Shutdown
use sys_con.Prelude.{Bool, true, false, Option, none, some, List, [], ◌∷◌, ◌++◌, if◌then◌else◌}
use sys_con.Usb.Handlers.{Handler, clear}

-- The values of `PscPmState` that the file names, and any other one.
pub data PscPmState : Type 0 where
  awake ready_awaken ready_shutdown ready_sleep other : PscPmState

-- Whether the thread goes on, the controllers in use, and the requests acknowledged, the last one last.
pub record Power : Type 0 where
  pub is_psc_thread_running : Bool
  pub handlers : List Handler
  pub acknowledged : List PscPmState

-- The `switch` over the state.
unfoldable pub on_state : PscPmState → Power → Power
on_state awake p = p
on_state ready_awaken p = p
on_state ready_shutdown p = record p { is_psc_thread_running = false; handlers = clear p.handlers }
on_state ready_sleep p = record p { handlers = clear p.handlers }
on_state other p = p

abbrev acknowledge : PscPmState → Power → Power
acknowledge s p = record p { acknowledged = p.acknowledged ++ s ∷ [] }

-- The body of the loop, where the wait brings a request, or it or the request fails.
unfoldable pub turn : Option PscPmState → Power → Power
unfolding on_state
turn none p = p
turn (some s) p = acknowledge s (on_state s p)

-- `PscThreadFunc` over what its waits bring: the loop tests its condition behind the body.
unfoldable pub psc_thread_func : List (Option PscPmState) → Power → Power
unfolding turn
psc_thread_func [] p = p
psc_thread_func (r ∷ rest) p =
    let after = turn r p in
    let later = psc_thread_func rest after in if after.is_psc_thread_running then later else after
