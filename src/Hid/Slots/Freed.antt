-- ===== src/Hid/Slots/Freed.antt =====
-- Which slots `DetachController` of source/ControllerSwitch/SwitchMITMManager.cpp frees.
use mathlib.Core.Option.{some-injective}
use mathlib.Core.Path.{subst}
use native.Mathlib.Decide.{ℕ_discrete}
use sys_con.Prelude.{
  ℕ, zero, suc, ◌<◌, ◌≡◌, ◌≢◌, refl, ap, ◌∙◌, sym, Bool, true, false, ◌||◌, Option, none, some,
  List, [], ◌∷◌, get_elem?, set, get_elem?-set_self, get_elem?-set_ne, ==_iff, length,
  if◌then◌else◌, Bool-cases, Option-cases, inl, inr, arith,
}
use sys_con.Hid.Slots.{Player, Manager, same_controller, slot_of, detach_controller}
use sys_con.Hid.Slots.Valid.{Holds, IsValid}
use sys_con.Hid.Slots.Players.{slot_of-lt, next_index-some}

-- What is left of a slot where the players that `gone` tells are freed.
abbrev pub kept : (Player → Bool) → Option (Option Player) → Option (Option Player)
kept gone none = none
kept gone (some none) = some none
kept gone (some (some q)) = some (if gone q then none else some q)

pub kept-none : (s : Option (Option Player)) → kept (λ q. false) s ≡ s
kept-none none = refl
kept-none (some none) = refl
kept-none (some (some q)) = refl

pub kept-kept :
    (f g : Player → Bool) (s : Option (Option Player))
    → kept f (kept g s) ≡ kept (λ q. g q || f q) s
kept-kept f g none = refl
kept-kept f g (some none) = refl
kept-kept f g (some (some q)) = elim (Bool-cases (g q)) [
  | inl t ↦ rw (t) refl
  | inr t ↦ rw (t) refl
]

pub kept-agrees :
    (f g : Player → Bool) (s : Option (Option Player))
    → ((q : Player) → s ≡ some (some q) → f q ≡ g q)
    → kept f s ≡ kept g s
kept-agrees f g none e = refl
kept-agrees f g (some none) e = refl
kept-agrees f g (some (some q)) e = rw (e q refl) refl

-- The loop stops at a controller with the same identity, or no slot has one.
found_none :
    (p : Player) (l : List (Option Player)) (k : ℕ) (q : Player)
    → slot_of (some p) l ≡ none
    → Holds l k q
    → same_controller (some q) (some p) ≡ false
unfolding slot_of
found_none p [] k q e h = cc
found_none p (s ∷ rest) zero q e h = elim (Bool-cases (same_controller s (some p))) [
  | inl t ↦ cc (rw t at e)
  | inr t ↦ subst (λ c. same_controller c (some p) ≡ false) (some-injective s (some q) h) t
]
found_none p (s ∷ rest) (suc k) q e h = elim (Bool-cases (same_controller s (some p))) [
  | inl t ↦ cc (rw t at e)
  | inr t ↦ elim (Option-cases (slot_of (some p) rest)) [
    | inl f ↦ found_none p rest k q f h
    | inr (j, f) ↦ cc (rw (t, f) at e)
  ]
]

found_some :
    (p : Player) (l : List (Option Player)) (i : ℕ)
    → slot_of (some p) l ≡ some i
    → (q : Player) × Holds l i q × (same_controller (some q) (some p) ≡ true)
unfolding slot_of
found_some p [] i e = cc
found_some p (s ∷ rest) i e = elim (Bool-cases (same_controller s (some p))) [
  | inl t ↦ here s t (rw t at e)
  | inr t ↦
      let (j, f, r) = next_index-some (slot_of (some p) rest) i (rw t at e) in
      let (q, h, same) = found_some p rest j f in (q, ap (get_elem? (s ∷ rest)) r ∙ h, same)
]
  where
    here :
        (s : Option Player)
        → same_controller s (some p) ≡ true
        → some 0 ≡ some i
        → (q : Player) × Holds (s ∷ rest) i q × (same_controller (some q) (some p) ≡ true)
    here none t e = cc
    here (some q) t e = (q, ap (get_elem? (some q ∷ rest)) (sym (some-injective 0 i e)), t)

same_id : (p q : Player) → same_controller (some q) (some p) ≡ true → q.id ≡ p.id
unfolding same_controller
same_id p q h = (==_iff q.id p.id).0 h

other_id : (p q : Player) → q.id ≢ p.id → same_controller (some q) (some p) ≡ false
unfolding same_controller
other_id p q n = ground arith

freed-slot :
    (m : Manager) (p : Player) (i k : ℕ)
    → i < length m.controller_list
    → ((q : Player) × Holds m.controller_list i q × (same_controller (some q) (some p) ≡ true))
    → IsValid m
    → get_elem? (set m.controller_list i none) k
      ≡ kept (λ q. same_controller (some q) (some p)) (get_elem? m.controller_list k)
freed-slot m p i k lt (q, h, same) v = elim (ℕ_discrete k i) [
  | yes e ↦ rw (e, h, same) (get_elem?-set_self m.controller_list i none lt)
  | no n ↦
      get_elem?-set_ne m.controller_list i k none (λ e. n (sym e))
      ∙ sym (
          kept-agrees _ (λ q. false) (get_elem? m.controller_list k)
            (λ r g. other_id p r (λ e. n (v.distinct k i r q g h (e ∙ sym (same_id p q same)))))
          ∙ kept-none (get_elem? m.controller_list k))
]

-- In consistent players, `DetachController` of a controller frees the slots that hold it and no
-- other.
pub detach_controller-slot :
    (m : Manager) (p : Player) (k : ℕ)
    → IsValid m
    → get_elem? (detach_controller m (some p)).controller_list k
      ≡ kept (λ q. same_controller (some q) (some p)) (get_elem? m.controller_list k)
unfolding detach_controller
detach_controller-slot m p k v = elim (Option-cases (slot_of (some p) m.controller_list)) [
  | inl e ↦
      rw (e, detach_controller)
        (sym (
          kept-agrees _ (λ q. false) (get_elem? m.controller_list k)
            (λ q h. found_none p m.controller_list k q e h)
          ∙ kept-none (get_elem? m.controller_list k)))
  | inr (i, e) ↦
      rw (e, detach_controller)
        (freed-slot m p i k (slot_of-lt (some p) m.controller_list i e)
          (found_some p m.controller_list i e) v)
]
