-- ===== src/Usb/Handlers/Unplug.antt =====
-- What `RemoveAllNonPlugged` of source/Sysmodule/source/controller_handler.cpp leaves.
use sys_con.Prelude.{
  ℕ, ◌≤◌, ◌≡◌, refl, Bool, true, false, not, List, [], ◌∷◌, length, if◌then◌else◌, Bool-cases, inl,
  inr, arith,
}
use sys_con.Usb.Handlers.{Handler, is_plugged, sweep, remove_all_non_plugged}

-- The plugged ones, in their order.
unfoldable pub plugged_only : List ℕ → List Handler → List Handler
plugged_only plugged [] = []
plugged_only plugged (h ∷ rest) =
    let others = plugged_only plugged rest in if is_plugged plugged h then h ∷ others else others

-- Whether there is a first handler and it is unplugged.
pub first_unplugged : List ℕ → List Handler → Bool
first_unplugged plugged [] = false
first_unplugged plugged (h ∷ rest) = not (is_plugged plugged h)

sweep-lem :
    (at_begin : Bool) (plugged : List ℕ) (l : List Handler)
    → sweep at_begin plugged l
      ≡ (plugged_only plugged l, if at_begin then first_unplugged plugged l else false)
unfolding sweep plugged_only first_unplugged
sweep-lem true plugged [] = refl
sweep-lem false plugged [] = refl
sweep-lem true plugged (h ∷ rest) = elim (Bool-cases (is_plugged plugged h)) [
  | inl e ↦ rw (e, sweep-lem false plugged rest) refl
  | inr e ↦ rw (e, sweep-lem true plugged rest) refl
]
sweep-lem false plugged (h ∷ rest) = elim (Bool-cases (is_plugged plugged h)) [
  | inl e ↦ rw (e, sweep-lem false plugged rest) refl
  | inr e ↦ rw (e, sweep-lem false plugged rest) refl
]

-- `RemoveAllNonPlugged` keeps exactly the handlers with an interface that is plugged, in their
-- order. Its iterator moves before the vector exactly where the first handler is unplugged.
pub remove_all_non_plugged-lem :
    (plugged : List ℕ) (l : List Handler)
    → remove_all_non_plugged plugged l ≡ (plugged_only plugged l, first_unplugged plugged l)
unfolding remove_all_non_plugged
remove_all_non_plugged-lem plugged l = sweep-lem true plugged l

pub length-plugged_only :
    (plugged : List ℕ) (l : List Handler) → length (plugged_only plugged l) ≤ length l
unfolding plugged_only
length-plugged_only plugged [] = omega arith
length-plugged_only plugged (h ∷ rest) = elim (Bool-cases (is_plugged plugged h)) [
  | inl e ↦ rw (e) (omega (arith, length-plugged_only plugged rest))
  | inr e ↦ rw (e) (omega (arith, length-plugged_only plugged rest))
]
