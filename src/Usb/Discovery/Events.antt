-- ===== src/Usb/Discovery/Events.antt =====
-- The events that source/Sysmodule/source/usb_module.cpp asks for in each discovery mode.
use sys_con.Prelude.{
  ℕ, zero, suc, ◌≤◌, ◌≡◌, ◌≢◌, ◌==◌, refl, ap, sym, ◌∙◌, false, List, [], ◌∷◌, ◌++◌, length, take,
  length-append, leb, Bool-cases, inl, inr, arith,
}
use sys_con.Prelude.Int.{ℤ, pos, negsuc}
use sys_con.Config.VidPid.{VidPid}
use sys_con.Usb.Discovery.{
  Filter, xbox_filter, hid_filter, known_devices, max_usb_events, add_event, add_events, initialize,
}

-- What each mode wants to be told of.
pub wanted : ℤ → List VidPid → List Filter
wanted (pos zero) vs = xbox_filter ∷ hid_filter ∷ []
wanted (pos (suc zero)) vs = xbox_filter ∷ known_devices vs
wanted (pos (suc (suc zero))) vs = known_devices vs
wanted (pos (suc (suc (suc n)))) vs = []
wanted (negsuc n) vs = []

append_nil : (l : List Filter) → l ++ [] ≡ l
append_nil [] = refl
append_nil (x ∷ l) = ap (◌∷◌ x) (append_nil l)

append_assoc : (k l m : List Filter) → (k ++ l) ++ m ≡ k ++ (l ++ m)
append_assoc [] l m = refl
append_assoc (x ∷ k) l m = ap (◌∷◌ x) (append_assoc k l m)

take_full : (n : ℕ) (k l : List Filter) → n ≤ length k → take n (k ++ l) ≡ take n k
take_full zero k l h = refl
take_full (suc n) [] l h = absurd (omega arith)
take_full (suc n) (x ∷ k) l h = ap (◌∷◌ x) (take_full n k l (omega arith))

take_all : (n : ℕ) (l : List Filter) → length l ≤ n → take n l ≡ l
take_all zero [] h = refl
take_all zero (x ∷ l) h = absurd (omega arith)
take_all (suc n) [] h = refl
take_all (suc n) (x ∷ l) h = ap (◌∷◌ x) (take_all n l (omega arith))

length-snoc : (l : List Filter) (f : Filter) → length (l ++ f ∷ []) ≡ suc (length l)
length-snoc l f = length-append l (f ∷ []) ∙ omega arith

-- Adding one after the other keeps the first three.
add_events-take :
    (fs events : List Filter)
    → length events ≤ max_usb_events
    → add_events fs events ≡ take max_usb_events (events ++ fs)
unfolding add_events add_event
add_events-take [] events h = sym (ap (take 3) (append_nil events) ∙ take_all 3 events h)
add_events-take (f ∷ fs) events h = elim (Bool-cases (leb max_usb_events (length events))) [
  | inl e ↦ rw (e) (
      add_events-take fs events h
      ∙ take_full 3 events fs (ground arith)
      ∙ sym (take_full 3 events (f ∷ fs) (ground arith)))
  | inr e ↦ rw (e) (
      add_events-take fs (events ++ f ∷ []) (ground (arith, length-snoc events f))
      ∙ ap (take 3) (append_assoc events (f ∷ []) fs))
]

other : (m k : ℕ) → m ≢ k → (m == k) ≡ false
other m k h = ground arith

-- The events asked for are the first three that the discovery mode wants: the Xbox event, then the
-- HID event, then one for each known device, and none in a mode that is not one of the three.
pub initialize-wanted :
    (mode : ℤ) (vs : List VidPid) → initialize mode vs ≡ take max_usb_events (wanted mode vs)
unfolding initialize wanted
initialize-wanted (pos zero) vs = add_events-take [] (xbox_filter ∷ hid_filter ∷ []) (omega arith)
initialize-wanted (pos (suc zero)) vs =
    add_events-take (known_devices vs) (xbox_filter ∷ []) (omega arith)
initialize-wanted (pos (suc (suc zero))) vs = add_events-take (known_devices vs) [] (omega arith)
initialize-wanted (pos (suc (suc (suc n)))) vs =
    let m = suc (suc (suc n)) in
    rw (other m 0 (omega arith), other m 1 (omega arith), other m 2 (omega arith)) refl
initialize-wanted (negsuc n) vs = refl
