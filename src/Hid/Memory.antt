-- ===== src/Hid/Memory.antt =====
-- The list of processes that were given a memory (source/ControllerSwitch/SwitchMITMManager.cpp).
pub mod Lookup
use sys_con.Prelude.{
  ℕ, Bool, false, not, ◌&&◌, Option, none, some, List, [], ◌∷◌, ◌++◌, ◌==◌, if◌then◌else◌,
}

-- A `HidSharedMemoryEntry` behind a `shared_ptr`: `id` is the pointer, and the memory is left out.
pub record Process : Type 0 where
  pub id : ℕ
  pub process_id : ℕ
  pub program_id : ℕ
  pub status : ℕ

-- The two macros that choose what is built, and their values in the source.
pub record MitmConfig : Type 0 where
  pub reuse_shared_memory : Bool
  pub gc_enabled : Bool

abbrev pub mitm_config : MitmConfig
mitm_config = record { reuse_shared_memory = false; gc_enabled = false }

-- What `pmdmntGetProcessId` gives for a program, where it succeeds.
abbrev pub Pmdmnt : Type 0
Pmdmnt = ℕ → Option ℕ

abbrev pub has_ids : ℕ → ℕ → Process → Bool
has_ids process_id program_id e = process_id == e.process_id && program_id == e.program_id

-- `Get`.
unfoldable pub get : ℕ → ℕ → List Process → Option Process
get process_id program_id [] = none
get process_id program_id (e ∷ rest) =
    let found = get process_id program_id rest in
    if has_ids process_id program_id e then some e else found

abbrev pub is_pid : Option ℕ → ℕ → Bool
is_pid none process_id = false
is_pid (some pid_out) process_id = pid_out == process_id

-- `RunGarbageCollector`.
unfoldable pub run_garbage_collector : Pmdmnt → List Process → List Process
run_garbage_collector pmdmnt [] = []
run_garbage_collector pmdmnt (e ∷ rest) =
    let kept = run_garbage_collector pmdmnt rest in
    if is_pid (pmdmnt e.program_id) e.process_id then e ∷ kept else kept

-- `Add`, with what it returns.
unfoldable pub add : MitmConfig → Pmdmnt → Process → List Process → ℕ × List Process
add c pmdmnt e l =
    if not (e.status == 0)
    then (e.status, l)
    else (0, (if c.gc_enabled then run_garbage_collector pmdmnt l else l) ++ e ∷ [])

abbrev or_create :
    Option Process → MitmConfig → Pmdmnt → Process → List Process → Process × List Process
or_create (some found) c pmdmnt e l = (found, l)
or_create none c pmdmnt e l = (e, (add c pmdmnt e l).1)

-- `CreateIfNotExists` for the identifiers of `e`, which is the entry that `make_shared` gives.
unfoldable pub create_if_not_exists :
    MitmConfig → Pmdmnt → Process → List Process → Process × List Process
unfolding get
create_if_not_exists c pmdmnt e l =
    or_create (if c.reuse_shared_memory then get e.process_id e.program_id l else none) c pmdmnt e l
