-- ===== src/Hid/Gamepad/Exit.antt =====
-- Which players `Exit` of source/ControllerSwitch/SwitchVirtualGamepadHandler.cpp gives back.
use sys_con.Prelude.{
  ℕ, zero, suc, ◌+◌, ◌<◌, ◌≡◌, ◌≢◌, refl, ◌∙◌, Bool, true, false, ◌&&◌, Option, none, some, List,
  [], ◌∷◌, set, get_or, get_or-set_ne, get_elem?, ◌≤◌, ◌||◌, sym, ap, ltb, leb, if◌then◌else◌,
  Bool-cases, Option-cases, inl, inr, arith,
}
use native.Mathlib.Decide.{ℕ_discrete}
use sys_con.Hid.Slots.{Player, same_controller}
use sys_con.Hid.Slots.Valid.{IsValid}
use sys_con.Hid.Slots.Freed.{kept, kept-none, kept-kept, kept-agrees, detach_controller-slot}
use sys_con.Hid.Slots.Players.{detach_controller-IsValid}
use sys_con.Hid.Gamepad.{Handler, System, controller_at, is_attached, detach, detach_from, exit}

cleared : (l : List (Option Player)) (i : ℕ) → get_or (set l i none) i none ≡ none
cleared [] i = refl
cleared (x ∷ l) zero = refl
cleared (x ∷ l) (suc i) = cleared l i

not_attached : (c : Option Player) → is_attached c ≡ false → c ≡ none
not_attached none e = refl
not_attached (some p) e = cc

detach_self : (i : ℕ) (s : System) → controller_at i (detach i s).handler ≡ none
unfolding detach
detach_self i s = elim (Bool-cases (is_attached (controller_at i s.handler))) [
  | inl e ↦ rw (e) (cleared s.handler.controller_list i)
  | inr e ↦ rw (e) (not_attached (controller_at i s.handler) e)
]

detach_other :
    (i j : ℕ) (s : System)
    → j ≢ i
    → controller_at j (detach i s).handler ≡ controller_at j s.handler
unfolding detach
detach_other i j s n = elim (Bool-cases (is_attached (controller_at i s.handler))) [
  | inl e ↦ rw (e) (get_or-set_ne s.handler.controller_list j i none none n)
  | inr e ↦ rw (e) refl
]

-- Whether the loop from `i` on over `n` inputs reaches `j`.
abbrev reaches : ℕ → ℕ → ℕ → Bool
reaches n i j = leb i j && ltb j (i + n)

passed : (n i j : ℕ) → j ≢ i → reaches n (suc i) j ≡ reaches (suc n) i j
passed n i j h = ground arith

at_first : (n i : ℕ) → reaches (suc n) i i ≡ true
at_first n i = ground arith

before : (n i j : ℕ) → j < i → reaches n i j ≡ false
before n i j h = ground arith

none_left : (i j : ℕ) → reaches 0 i j ≡ false
none_left i j = ground arith

detach_from-controller :
    (n i j : ℕ) (s : System)
    → controller_at j (detach_from n i s).handler
      ≡ (if reaches n i j then none else controller_at j s.handler)
unfolding detach_from
detach_from-controller zero i j s = rw (none_left i j) refl
detach_from-controller (suc n) i j s = elim (ℕ_discrete j i) [
  | yes e ↦
      rw (e, at_first n i)
        (detach_from-controller n (suc i) i (detach i s)
          ∙ rw (before n (suc i) i (omega arith)) (detach_self i s))
  | no h ↦
      detach_from-controller n (suc i) j (detach i s)
      ∙ rw (passed n i j h, detach_other i j s h) refl
]

reaches_lem : (n j : ℕ) → reaches n 0 j ≡ ltb j n
reaches_lem n j = ground arith

-- Whether one of the `n` inputs from `i` on has the controller `q`.
abbrev pub is_held : ℕ → ℕ → Handler → Player → Bool
is_held zero i h q = false
is_held (suc n) i h q = same_controller (some q) (controller_at i h) || is_held n (suc i) h q

is_held-agrees :
    (n i : ℕ) (h h' : Handler) (q : Player)
    → ((j : ℕ) → i ≤ j → controller_at j h' ≡ controller_at j h)
    → is_held n i h' q ≡ is_held n i h q
is_held-agrees zero i h h' q same = refl
is_held-agrees (suc n) i h h' q same =
    rw (same i (omega arith), is_held-agrees n (suc i) h h' q (λ j le. same j (omega arith))) refl

-- The slots of the manager, before and after.
abbrev pub slot : ℕ → System → Option (Option Player)
slot k s = get_elem? s.shared.manager.controller_list k

detach-slot :
    (i k : ℕ) (s : System)
    → IsValid s.shared.manager
    → slot k (detach i s)
      ≡ kept (λ q. same_controller (some q) (controller_at i s.handler)) (slot k s)
unfolding detach
detach-slot i k s v = elim (Option-cases (controller_at i s.handler)) [
  | inl e ↦ rw (e) (sym (kept-none (slot k s)))
  | inr (p, e) ↦ rw (e) (detach_controller-slot s.shared.manager p k v)
]

detach-IsValid :
    (i : ℕ) (s : System) → IsValid s.shared.manager → IsValid (detach i s).shared.manager
unfolding detach
detach-IsValid i s v = elim (Bool-cases (is_attached (controller_at i s.handler))) [
  | inl e ↦ rw (e) (detach_controller-IsValid s.shared.manager (controller_at i s.handler) v)
  | inr e ↦ rw (e) v
]

detach_from-slot :
    (n i k : ℕ) (s : System)
    → IsValid s.shared.manager
    → slot k (detach_from n i s) ≡ kept (is_held n i s.handler) (slot k s)
unfolding detach_from
detach_from-slot zero i k s v = sym (kept-none (slot k s))
detach_from-slot (suc n) i k s v =
    let s' = detach i s in
    let other = λ (q : Player).
      is_held-agrees n (suc i) s.handler s'.handler q
        (λ j le. detach_other i j s (λ e. absurd (omega (arith, e, le)))) in
    detach_from-slot n (suc i) k s' (detach-IsValid i s v)
    ∙ ap (kept (is_held n (suc i) s'.handler)) (detach-slot i k s v)
    ∙ kept-kept (is_held n (suc i) s'.handler)
        (λ q. same_controller (some q) (controller_at i s.handler)) (slot k s)
    ∙ kept-agrees _ _ (slot k s)
        (λ q h. ap (λ b. same_controller (some q) (controller_at i s.handler) || b) (other q))

-- For consistent players: `Exit` takes the controllers of the first `GetInputCount()` inputs away and
-- leaves those of any further input; of the eight players it frees exactly those that one of these
-- first inputs had, and every other slot stays as it was.
pub exit-controller :
    (input_count j k : ℕ) (s : System)
    → IsValid s.shared.manager
    → (controller_at j (exit input_count s).handler
        ≡ (if ltb j input_count then none else controller_at j s.handler))
      × (slot k (exit input_count s) ≡ kept (is_held input_count 0 s.handler) (slot k s))
unfolding exit
exit-controller input_count j k s v = (
  rw (← reaches_lem input_count j) (detach_from-controller input_count 0 j s),
  detach_from-slot input_count 0 k s v,
)
