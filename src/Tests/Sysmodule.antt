-- ===== src/Tests/Sysmodule.antt =====
-- Concrete inputs for source/Sysmodule/source/{psc_module,logger}.cpp.
use sys_con.Prelude.{◌≡◌, refl, true, none, some, [], ◌∷◌, ◌++◌, get_elem?, replicate}
use sys_con.Prelude.Text.{Bytes, codes}
use sys_con.Sysmodule.Power.{Power, awake, ready_sleep, ready_shutdown, psc_thread_func}
use sys_con.Sysmodule.Power.Shutdown.{ended, requests, StaysOn, psc_thread_func-shutdown}
use sys_con.Sysmodule.Log.{stamp, buffer_lines}
use sys_con.Sysmodule.Log.Rows.{row, cells, buffer_lines-row}

abbrev busy : Power
busy = record {
  is_psc_thread_running = true;
  handlers = record { interface_ids = 4 ∷ [] } ∷ [];
  acknowledged = [];
}

psc_thread_func-shutdown_example :
    psc_thread_func ((some ready_sleep ∷ none ∷ []) ++ some ready_shutdown ∷ some awake ∷ []) busy
    ≡ ended ([] ++ (requests (some ready_sleep ∷ none ∷ []) ++ ready_shutdown ∷ []))
unfolding StaysOn
psc_thread_func-shutdown_example =
    psc_thread_func-shutdown (some ready_sleep ∷ none ∷ []) (some awake ∷ [])
      (record { interface_ids = 4 ∷ [] } ∷ []) [] tt

-- Eighteen bytes.
abbrev eighteen : Bytes
eighteen = replicate 16 0 ++ 171 ∷ 205 ∷ []

buffer_lines-row_example :
    get_elem? (buffer_lines (stamp 0 3723004 255) (codes "18") eighteen) 2
    ≡ row (stamp 0 3723004 255) eighteen 1
buffer_lines-row_example = buffer_lines-row 0 3723004 255 (codes "18") eighteen 1

second_row : row (stamp 0 3723004 255) eighteen 1 ≡ some (codes "|T|01:02:03.004|000000FF| AB CD ")
unfolding stamp cells
second_row = refl
