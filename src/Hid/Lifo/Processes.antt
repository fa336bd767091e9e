-- ===== src/Hid/Lifo/Processes.antt =====
-- `Update` of source/ControllerSwitch/SwitchMITMManager.cpp over all processes that map the memory.
use native.Mathlib.Nat.{mod-add-mod}
use sys_con.Prelude.{
  ℕ, zero, suc, ◌+◌, ◌%◌, ◌^◌, ◌≡◌, ◌≢◌, refl, ap, ◌∙◌, some, List, [], ◌∷◌, get_elem?,
  get_elem?-set_ne, arith,
}
use mathlib.Core.Option
use sys_con.Hid.Lifo.{Flags, Report, Entry, update_entry, update_entries}

-- `Update` reaches every process: the one at `i` gets the state with the controller's sampling
-- number moved on by `i`, and no process is added or lost.
update_entries-get :
    (flags : Flags) (player n : ℕ) (r : Report) (l : List Entry) (i : ℕ)
    → get_elem? (update_entries flags player (n % 2 ^ 64) r l).0 i
      ≡ Option.map (update_entry flags player ((n + i) % 2 ^ 64) r) (get_elem? l i)
unfolding update_entries
update_entries-get flags player n r [] i = refl
update_entries-get flags player n r (e ∷ l) zero =
    ap (λ k. some (update_entry flags player (k % 2 ^ 64) r e)) (omega arith)
update_entries-get flags player n r (e ∷ l) (suc i) = rw (mod-add-mod n (2 ^ 64) 1) (
    update_entries-get flags player (n + 1) r l i
    ∙ ap (λ k. Option.map (update_entry flags player (k % 2 ^ 64) r) (get_elem? l i)) (omega arith))

-- A process keeps the states of every other player.
pub update_entry-other :
    (flags : Flags) (player n : ℕ) (r : Report) (e : Entry) (other : ℕ)
    → player ≢ other
    → get_elem? (update_entry flags player n r e).npads other ≡ get_elem? e.npads other
update_entry-other flags player n r e other h = get_elem?-set_ne e.npads player other _ h
