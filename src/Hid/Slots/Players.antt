-- ===== src/Hid/Slots/Players.antt =====
-- Who is which player (source/ControllerSwitch/SwitchMITMManager.cpp).
use mathlib.Core.Option.{some-injective}
use sys_con.Prelude.{
  ℕ, zero, suc, ◌+◌, ◌<◌, ◌≡◌, ◌≢◌, refl, ap, ◌∙◌, sym, Option, none, some, inl, inr, List, [], ◌∷◌,
  length, get_elem?, set, get_elem?-set_self, get_elem?-set_ne, Bool-cases, Option-cases, arith,
}
use sys_con.Hid.Slots.{
  Player, Manager, max_players, free_slot, next_index, make_player, attach_controller,
  same_controller, slot_of, detach_controller,
}
use sys_con.Hid.Slots.Valid.{
  Holds, IsValid, FirstFree, free_slot-FirstFree, attached-IsValid, detached-IsValid,
}

-- If each slot in use holds a controller of its own index that was made before, and no two slots hold
-- the same one, this is so after `AttachController`.
pub attach_controller-IsValid : (m : Manager) → IsValid m → IsValid (attach_controller m).1
unfolding attach_controller FirstFree
attach_controller-IsValid m v = elim (Option-cases (free_slot m.controller_list)) [
  | inl e ↦ rw (e, attach_controller) v
  | inr (k, e) ↦
      rw (e, attach_controller)
        (attached-IsValid m k ((rw e at (free_slot-FirstFree m.controller_list)).1) v)
]

pub next_index-some :
    (o : Option ℕ) (k : ℕ) → next_index o ≡ some k → (j : ℕ) × (o ≡ some j) × (k ≡ suc j)
next_index-some none k e = cc
next_index-some (some j) k e = (j, refl, ground arith)

pub slot_of-lt :
    (c : Option Player) (l : List (Option Player)) (k : ℕ) → slot_of c l ≡ some k → k < length l
unfolding slot_of
slot_of-lt c [] k e = cc
slot_of-lt c (s ∷ rest) k e = elim (Bool-cases (same_controller s c)) [
  | inl t ↦ omega (arith, some-injective 0 k (rw t at e))
  | inr t ↦
      let (j, q, r) = next_index-some (slot_of c rest) k (rw t at e) in
      omega (arith, slot_of-lt c rest j q)
]

-- If each slot in use holds a controller of its own index that was made before, and no two slots hold
-- the same one, this is so after `DetachController` of any pointer.
pub detach_controller-IsValid :
    (m : Manager) (c : Option Player) → IsValid m → IsValid (detach_controller m c)
unfolding detach_controller
detach_controller-IsValid m c v = elim (Option-cases (slot_of c m.controller_list)) [
  | inl e ↦ rw (e, detach_controller) v
  | inr (k, e) ↦
      rw (e, detach_controller) (detached-IsValid m k (slot_of-lt c m.controller_list k e) v)
]

-- What an attachment promises. With all eight players in use it gives null and changes nothing. Else
-- the lowest free player becomes the new controller, and every other slot stays as it was.
pub Attaches : Manager → Option Player × Manager → Type 0
Attaches m (none, m') = ((i : ℕ) → get_elem? m.controller_list i ≢ some none) × (m' ≡ m)
Attaches m (some p, m') =
    (p.player_idx < max_players)
    × (get_elem? m.controller_list p.player_idx ≡ some none)
    × ((i : ℕ) → i < p.player_idx → get_elem? m.controller_list i ≢ some none)
    × Holds m'.controller_list p.player_idx p
    × ((i : ℕ) → i ≢ p.player_idx → get_elem? m'.controller_list i ≡ get_elem? m.controller_list i)

-- For consistent players, `AttachController` gives null and changes nothing where all eight players
-- are in use; else the new controller is in the lowest free slot, and every other slot stays as it was.
pub attach_controller-Attaches : (m : Manager) → IsValid m → Attaches m (attach_controller m)
unfolding attach_controller Attaches FirstFree
attach_controller-Attaches m v = elim (Option-cases (free_slot m.controller_list)) [
  | inl e ↦ rw (e, attach_controller) (rw e at (free_slot-FirstFree m.controller_list), refl)
  | inr (k, e) ↦
      let f = rw e at (free_slot-FirstFree m.controller_list) in
      rw (e, attach_controller)
        (
          omega (arith, v.slots),
          f.0,
          f.2,
          get_elem?-set_self m.controller_list k _ f.1,
          λ i n. get_elem?-set_ne m.controller_list k i _ (λ q. n (sym q)),
        )
]

-- The new controller is found where it was put, and taking it out gives the list back.
undo_attach :
    (l : List (Option Player)) (p : Player) (k : ℕ)
    → ((i : ℕ) (q : Player) → Holds l i q → q.id ≢ p.id)
    → free_slot l ≡ some k
    → (slot_of (some p) (set l k (some p)) ≡ some k) × (set (set l k (some p)) k none ≡ l)
unfolding free_slot slot_of
undo_attach [] p k other e = cc
undo_attach (none ∷ rest) p zero other e = (ground arith, refl)
undo_attach (none ∷ rest) p (suc k) other e = absurd (omega (arith, some-injective 0 (suc k) e))
undo_attach (some q ∷ rest) p zero other e =
    let (j, _, r) = next_index-some (free_slot rest) 0 e in absurd (omega (arith, r))
undo_attach (some q ∷ rest) p (suc k) other e =
    let (j, f, r) = next_index-some (free_slot rest) (suc k) e in
    let ih = undo_attach rest p k (λ i t h. other (suc i) t h) (f ∙ ap some (omega (arith, r))) in
    (ground (arith, ih.0, other 0 q refl), ap (◌∷◌ (some q)) ih.1)

detached_list :
    (l l' : List (Option Player)) (c : Option Player) (k n : ℕ)
    → slot_of c l ≡ some k
    → set l k none ≡ l'
    → (detach_controller (record { controller_list = l; next_id = n }) c).controller_list ≡ l'
unfolding detach_controller
detached_list l l' c k n found cleared = rw (found, detach_controller) cleared

-- For consistent players: where `AttachController` gives a controller, `DetachController` of it gives
-- the list of players from before.
pub detach-attach :
    (m : Manager) (p : Player)
    → IsValid m
    → (attach_controller m).0 ≡ some p
    → (detach_controller (attach_controller m).1 (some p)).controller_list ≡ m.controller_list
unfolding attach_controller
detach-attach m p v e = elim (Option-cases (free_slot m.controller_list)) [
  | inl f ↦ cc (rw (f, attach_controller) at e)
  | inr (k, f) ↦
      let new = make_player m k in
      let same : new ≡ p = some-injective new p (rw (f, attach_controller) at e) in
      let undo =
        undo_attach m.controller_list new k (λ i q h r. absurd (omega (arith, v.made i q h))) f in
      rw (← same, f, attach_controller)
        (detached_list (set m.controller_list k (some new)) m.controller_list (some new) k
          (m.next_id + 1) undo.0 undo.1)
]
