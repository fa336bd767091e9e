-- ===== src/Hid/Service.antt =====
-- The service that replaces hid: source/ControllerSwitch/hid_mitm_{service,module}.cpp over the
-- framework, and the constructor of an entry in SwitchMITMManager.cpp.
use sys_con.Prelude.{
  ℕ, ◌+◌, ◌-◌, ◌≡◌, refl, Bool, true, false, not, ◌||◌, List, [], ◌∷◌, ◌==◌, if◌then◌else◌,
  Bool-cases, inl, inr, arith,
}
use sys_con.Hid.Memory.{Process, mitm_config, Pmdmnt, create_if_not_exists}

-- What the four calls of the constructor of `HidSharedMemoryEntry` give, in their order.
record Answers : Type 0 where
  pub applet_resource : ℕ
  pub shared_memory_handle : ℕ
  pub real_map : ℕ
  pub fake_map : ℕ

-- `m_status`, that of the first call that fails or 0.
unfoldable entry_status : Answers → ℕ
entry_status a =
    if not (a.applet_resource == 0)
    then a.applet_resource
    else if not (a.shared_memory_handle == 0)
    then a.shared_memory_handle
    else if not (a.real_map == 0)
    then a.real_map
    else a.fake_map

-- The entry for a process; `id` is its address.
abbrev make_entry : ℕ → Answers → ℕ → ℕ → Process
make_entry id a process_id program_id = record {
  id = id;
  process_id = process_id;
  program_id = program_id;
  status = entry_status a;
}

-- `HidMitmService::CreateAppletResource`: the entry that the process is given, and the list.
unfoldable create_applet_resource :
    Pmdmnt → ℕ → Answers → ℕ → ℕ → List Process → Process × List Process
unfolding create_if_not_exists
create_applet_resource pmdmnt id a process_id program_id l =
    create_if_not_exists mitm_config pmdmnt (make_entry id a process_id program_id) l

-- The programs that are left alone.
abbrev boot_pid_list : List ℕ
boot_pid_list = 0x420000000000000e ∷ []

abbrev is_listed : ℕ → List ℕ → Bool
is_listed program_id [] = false
is_listed program_id (p ∷ ps) = program_id == p || is_listed program_id ps

-- `HidMitmService::ShouldMitm`; `is_system` is the framework's `IsSystemProgramId`.
unfoldable should_mitm : (ℕ → Bool) → ℕ → Bool
should_mitm is_system program_id =
    if is_listed program_id boot_pid_list then false else not (is_system program_id)

-- `g_initialized`, and how many threads of the module run.
record Module : Type 0 where
  pub g_initialized : Bool
  pub threads : ℕ

-- `InitializeHidMitm` and `FinalizeHidMitm`.
data Call : Type 0 where
  initialize_hid_mitm finalize_hid_mitm : Call

unfoldable on_call : Call → Module → Module
on_call initialize_hid_mitm m =
    if m.g_initialized then m else record { g_initialized = true; threads = m.threads + 1 }
on_call finalize_hid_mitm m =
    if m.g_initialized then record { g_initialized = false; threads = m.threads - 1 } else m

unfoldable calls : List Call → Module → Module
unfolding on_call
calls [] m = m
calls (c ∷ cs) m = calls cs (on_call c m)

-- One thread where the module is initialized, and none where it is not.
Matches : Module → Type 0
Matches m = m.threads ≡ (if m.g_initialized then 1 else 0)

on_call-Matches : (c : Call) (m : Module) → Matches m → Matches (on_call c m)
unfolding on_call Matches
on_call-Matches initialize_hid_mitm m h = elim (Bool-cases m.g_initialized) [
  | inl t ↦ let one = rw (t) at h in rw (t) one
  | inr f ↦ let away = rw (f) at h in rw (f) (omega (arith, away))
]
on_call-Matches finalize_hid_mitm m h = elim (Bool-cases m.g_initialized) [
  | inl t ↦ let one = rw (t) at h in rw (t) (omega (arith, one))
  | inr f ↦ let away = rw (f) at h in rw (f) away
]

-- Calls that start and stop the service in any order leave one thread or none, as the flag says.
calls-Matches : (cs : List Call) (m : Module) → Matches m → Matches (calls cs m)
unfolding calls
calls-Matches [] m h = h
calls-Matches (c ∷ cs) m h = calls-Matches cs (on_call c m) (on_call-Matches c m h)

-- A process is given an entry of its own even where its memories could not be mapped.
create_applet_resource-entry :
    (pmdmnt : Pmdmnt) (id process_id program_id : ℕ) (a : Answers) (l : List Process)
    → (create_applet_resource pmdmnt id a process_id program_id l).0
      ≡ make_entry id a process_id program_id
unfolding create_applet_resource create_if_not_exists
create_applet_resource-entry pmdmnt id process_id program_id a l = refl
