-- ===== src/Hid/Memory/Lookup.antt =====
-- What `Get` finds after `CreateIfNotExists` (source/ControllerSwitch/SwitchMITMManager.cpp).
use sys_con.Prelude.{
  ℕ, ◌≡◌, ◌⊎◌, refl, ap, ◌∙◌, Bool, true, false, not, ◌&&◌, Option, none, some, inl, inr, List, [],
  ◌∷◌, ◌++◌, ◌==◌, if◌then◌else◌, Bool-cases, arith,
}
use sys_con.Hid.Memory.{
  Process, MitmConfig, Pmdmnt, has_ids, get, is_pid, run_garbage_collector, add,
  create_if_not_exists,
}

-- The first of two results, or else the second.
abbrev or_else : Option Process → Option Process → Option Process
or_else (some e) other = some e
or_else none other = other

abbrev running : Pmdmnt → ℕ → ℕ → Bool
running pmdmnt process_id program_id = is_pid (pmdmnt program_id) process_id

get-append :
    (p g : ℕ) (l : List Process) (e : Process)
    → get p g (l ++ e ∷ []) ≡ or_else (get p g l) (if has_ids p g e then some e else none)
unfolding get
get-append p g [] e = refl
get-append p g (x ∷ rest) e = elim (Bool-cases (has_ids p g x)) [
  | inl t ↦ rw (t) refl
  | inr t ↦ rw (t, get-append p g rest e) refl
]

both_equal : (p g a b : ℕ) → (p == a && g == b) ≡ true → (p ≡ a) × (g ≡ b)
both_equal p g a b h = (ground arith, ground arith)

-- Where an entry has the identifiers, its program runs exactly if that of the identifiers does.
has_ids-running :
    (pmdmnt : Pmdmnt) (p g : ℕ) (e : Process)
    → has_ids p g e ≡ true
    → running pmdmnt e.process_id e.program_id ≡ running pmdmnt p g
has_ids-running pmdmnt p g e h =
    let same = both_equal p g e.process_id e.program_id h in rw (← same.0, ← same.1) refl

get-run_garbage_collector :
    (pmdmnt : Pmdmnt) (p g : ℕ) (l : List Process)
    → get p g (run_garbage_collector pmdmnt l) ≡ (if running pmdmnt p g then get p g l else none)
unfolding get run_garbage_collector
get-run_garbage_collector pmdmnt p g [] = elim (Bool-cases (running pmdmnt p g)) [
  | inl t ↦ rw (t) refl
  | inr t ↦ rw (t) refl
]
get-run_garbage_collector pmdmnt p g (e ∷ rest) =
    let ih = get-run_garbage_collector pmdmnt p g rest in
    elim (Bool-cases (has_ids p g e)) [
      | inl t ↦
          let r = has_ids-running pmdmnt p g e t in
          elim (Bool-cases (running pmdmnt p g)) [
            | inl live ↦ rw (r ∙ live, live, t) refl
            | inr dead ↦ rw (r ∙ dead, dead) (ih ∙ rw (dead) refl)
          ]
      | inr t ↦ elim (Bool-cases (running pmdmnt e.process_id e.program_id)) [
        | inl live ↦ rw (live, t) ih
        | inr dead ↦ rw (dead, t) ih
      ]
    ]

-- What is still found of the list to which an entry is added.
abbrev pub kept : MitmConfig → Pmdmnt → ℕ → ℕ → List Process → Option Process
kept c pmdmnt p g l = if c.gc_enabled && not (running pmdmnt p g) then none else get p g l

get-collected :
    (b : Bool) (pmdmnt : Pmdmnt) (l : List Process) (p g : ℕ)
    → get p g (if b then run_garbage_collector pmdmnt l else l)
      ≡ (if b && not (running pmdmnt p g) then none else get p g l)
get-collected false pmdmnt l p g = refl
get-collected true pmdmnt l p g =
    get-run_garbage_collector pmdmnt p g l ∙ swap (running pmdmnt p g) (get p g l)
  where
    swap : (b : Bool) (o : Option Process) → (if b then o else none) ≡ (if not b then none else o)
    swap true o = refl
    swap false o = refl

list-add :
    (c : MitmConfig) (pmdmnt : Pmdmnt) (e : Process) (l : List Process)
    → e.status ≡ 0
    → (add c pmdmnt e l).1 ≡ (if c.gc_enabled then run_garbage_collector pmdmnt l else l) ++ e ∷ []
unfolding add
list-add c pmdmnt e l h = succeeded (e.status == 0) _ _ (ground arith)
  where
    succeeded : (ok : Bool) (x y : ℕ × List Process) → ok ≡ true → (if not ok then x else y).1 ≡ y.1
    succeeded true x y h = refl
    succeeded false x y h = cc

get-add :
    (c : MitmConfig) (pmdmnt : Pmdmnt) (e : Process) (l : List Process) (p g : ℕ)
    → e.status ≡ 0
    → get p g (add c pmdmnt e l).1
      ≡ or_else (kept c pmdmnt p g l) (if has_ids p g e then some e else none)
get-add c pmdmnt e l p g h =
    ap (get p g) (list-add c pmdmnt e l h)
    ∙ get-append p g (if c.gc_enabled then run_garbage_collector pmdmnt l else l) e
    ∙ ap (λ o. or_else o (if has_ids p g e then some e else none))
        (get-collected c.gc_enabled pmdmnt l p g)

unused : (b : Bool) (o : Option Process) → (b ≡ false) ⊎ (o ≡ none) → (if b then o else none) ≡ none
unused true o (inl e) = cc
unused true o (inr e) = e
unused false o h = refl

-- In each of the builds, where the new entry has no error, and no entry is reused, or none has its
-- identifiers: `CreateIfNotExists` gives the new entry, and from then on `Get` of any identifiers
-- finds the earlier entry, unless it was collected because the program does not run as that process,
-- and the new entry only where there is no earlier one with its identifiers.
pub create_if_not_exists-get :
    (c : MitmConfig) (pmdmnt : Pmdmnt) (e : Process) (l : List Process) (p g : ℕ)
    → e.status ≡ 0
    → (c.reuse_shared_memory ≡ false) ⊎ (get e.process_id e.program_id l ≡ none)
    → let r = create_if_not_exists c pmdmnt e l in
      (r.0 ≡ e)
      × (get p g r.1 ≡ or_else (kept c pmdmnt p g l) (if has_ids p g e then some e else none))
unfolding create_if_not_exists
create_if_not_exists-get c pmdmnt e l p g h new =
    rw (unused c.reuse_shared_memory (get e.process_id e.program_id l) new)
      (refl, get-add c pmdmnt e l p g h)
