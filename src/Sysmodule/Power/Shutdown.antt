-- ===== src/Sysmodule/Power/Shutdown.antt =====
-- How the thread of source/Sysmodule/source/psc_module.cpp ends.
use mathlib.Core.List.{append_assoc}
use sys_con.Prelude.{◌≡◌, refl, ap, ◌∙◌, true, false, Option, none, some, List, [], ◌∷◌, ◌++◌}
use sys_con.Usb.Handlers.{Handler}
use sys_con.Sysmodule.Power.{
  PscPmState, Power, awake, ready_awaken, ready_shutdown, ready_sleep, other, on_state, turn,
  psc_thread_func,
}

-- The requests among what the waits bring.
unfoldable pub requests : List (Option PscPmState) → List PscPmState
requests [] = []
requests (none ∷ rest) = requests rest
requests (some s ∷ rest) = s ∷ requests rest

-- No request to shut down.
unfoldable pub StaysOn : List (Option PscPmState) → Type 0
StaysOn [] = Unit {0}
StaysOn (none ∷ rest) = StaysOn rest
StaysOn (some ready_shutdown ∷ rest) = ⊥
StaysOn (some _ ∷ rest) = StaysOn rest

-- The thread at its end.
abbrev pub ended : List PscPmState → Power
ended done = record { is_psc_thread_running = false; handlers = []; acknowledged = done }

-- Where requests come of which none is to shut down, and then one that is, the thread acknowledges
-- them all in order and ends there with no controller in use, whatever would come later.
pub psc_thread_func-shutdown :
    (before rest : List (Option PscPmState)) (handlers : List Handler) (done : List PscPmState)
    → StaysOn before
    → psc_thread_func
        (before ++ some ready_shutdown ∷ rest)
        (record { is_psc_thread_running = true; handlers = handlers; acknowledged = done })
      ≡ ended (done ++ (requests before ++ ready_shutdown ∷ []))
unfolding psc_thread_func turn on_state requests StaysOn
psc_thread_func-shutdown [] rest handlers done h = refl
psc_thread_func-shutdown (none ∷ before) rest handlers done h =
    psc_thread_func-shutdown before rest handlers done h
psc_thread_func-shutdown (some awake ∷ before) rest handlers done h =
    psc_thread_func-shutdown before rest handlers (done ++ awake ∷ []) h
    ∙ ap ended (append_assoc done (awake ∷ []) (requests before ++ ready_shutdown ∷ []))
psc_thread_func-shutdown (some ready_awaken ∷ before) rest handlers done h =
    psc_thread_func-shutdown before rest handlers (done ++ ready_awaken ∷ []) h
    ∙ ap ended (append_assoc done (ready_awaken ∷ []) (requests before ++ ready_shutdown ∷ []))
psc_thread_func-shutdown (some ready_shutdown ∷ before) rest handlers done h = absurd h
psc_thread_func-shutdown (some ready_sleep ∷ before) rest handlers done h =
    psc_thread_func-shutdown before rest [] (done ++ ready_sleep ∷ []) h
    ∙ ap ended (append_assoc done (ready_sleep ∷ []) (requests before ++ ready_shutdown ∷ []))
psc_thread_func-shutdown (some other ∷ before) rest handlers done h =
    psc_thread_func-shutdown before rest handlers (done ++ other ∷ []) h
    ∙ ap ended (append_assoc done (other ∷ []) (requests before ++ ready_shutdown ∷ []))
