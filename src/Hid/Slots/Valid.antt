-- ===== src/Hid/Slots/Valid.antt =====
-- When the list of players is consistent (source/ControllerSwitch/SwitchMITMManager.cpp).
use mathlib.Core.Option.{some-injective}
use native.Mathlib.Decide.{ℕ_discrete}
use sys_con.Prelude.{
  ℕ, zero, suc, ◌+◌, ◌<◌, ◌≡◌, ◌≢◌, refl, ◌∙◌, sym, ◌⊎◌, Option, none, some, inl, inr, List, [],
  ◌∷◌, length, get_elem?, set, length-set, get_elem?-set_self, get_elem?-set_ne, arith,
}
use sys_con.Hid.Slots.{Player, Manager, max_players, free_slot, next_index, make_player}

abbrev pub Holds : List (Option Player) → ℕ → Player → Type 0
Holds l i p = get_elem? l i ≡ some (some p)

-- Each slot in use holds a controller of its own index, made before now, and no two slots the same.
pub record IsValid (m : Manager) : Type 0 where
  pub slots : length m.controller_list ≡ max_players
  pub index : (i : ℕ) (p : Player) → Holds m.controller_list i p → p.player_idx ≡ i
  pub made : (i : ℕ) (p : Player) → Holds m.controller_list i p → p.id < m.next_id
  pub distinct :
      (i j : ℕ) (p q : Player)
      → Holds m.controller_list i p
      → Holds m.controller_list j q
      → p.id ≡ q.id
      → i ≡ j

-- The loop stops at the first null slot, or there is none.
unfoldable pub FirstFree : List (Option Player) → Option ℕ → Type 0
FirstFree l none = (i : ℕ) → get_elem? l i ≢ some none
FirstFree l (some k) =
    (get_elem? l k ≡ some none) × (k < length l) × ((i : ℕ) → i < k → get_elem? l i ≢ some none)

pub free_slot-FirstFree : (l : List (Option Player)) → FirstFree l (free_slot l)
unfolding free_slot FirstFree
free_slot-FirstFree [] = λ i e. cc
free_slot-FirstFree (none ∷ rest) = (refl, omega arith, λ i h. absurd (omega arith))
free_slot-FirstFree (some p ∷ rest) = go (free_slot rest) (free_slot-FirstFree rest)
  where
    go : (k : Option ℕ) → FirstFree rest k → FirstFree (some p ∷ rest) (next_index k)
    go none h = λ i. elim i as (λ i. get_elem? (some p ∷ rest) i ≢ some none) [
      | zero ↦ λ e. cc
      | suc j ↦ h j
    ]
    go (some k) h = (
      h.0,
      omega (arith, h.1),
      λ i. elim i as (λ i. i < suc k → get_elem? (some p ∷ rest) i ≢ some none) [
        | zero ↦ λ _ e. cc
        | suc j ↦ λ b. h.2 j (omega arith)
      ],
    )

-- A write at `k` of the list: what a slot holds afterwards it held before, or it is `k`.
none_ne : {p : Player} → ◌≡◌ {A = Option Player} none (some p) → ⊥
none_ne e = cc

after_set :
    (l : List (Option Player)) (k i : ℕ) (s : Option Player) (p : Player)
    → k < length l
    → Holds (set l k s) i p
    → ((i ≡ k) × (s ≡ some p)) ⊎ ((i ≢ k) × Holds l i p)
after_set l k i s p h e = elim (ℕ_discrete i k) [
  | yes same ↦
      inl (same, some-injective s (some p) (sym (get_elem?-set_self l k s h) ∙ rw same at e))
  | no other ↦ inr (other, rw (get_elem?-set_ne l k i s (λ q. other (sym q))) at e)
]

-- The same, where the slot gets the new controller.
after_attach :
    (m : Manager) (k i : ℕ) (p : Player)
    → k < length m.controller_list
    → Holds (set m.controller_list k (some (make_player m k))) i p
    → ((i ≡ k) × (p.player_idx ≡ k) × (p.id ≡ m.next_id)) ⊎ Holds m.controller_list i p
after_attach m k i p h e = elim (after_set m.controller_list k i _ p h e) [
  | inl (here, q) ↦ inl (here, ground arith, ground arith)
  | inr (other, old) ↦ inr old
]

pub attached-IsValid :
    (m : Manager) (k : ℕ)
    → k < length m.controller_list
    → IsValid m
    → IsValid (record {
      controller_list = set m.controller_list k (some (make_player m k));
      next_id = m.next_id + 1;
    })
attached-IsValid m k h v = record {
  slots = length-set m.controller_list k _ ∙ v.slots;
  index = λ i p e. elim (after_attach m k i p h e) [
    | inl new ↦ omega arith
    | inr old ↦ v.index i p old
  ];
  made = λ i p e. elim (after_attach m k i p h e) [
    | inl new ↦ omega arith
    | inr old ↦ omega (arith, v.made i p old)
  ];
  distinct = λ i j p q e f same. elim (after_attach m k i p h e) [
    | inl new ↦ elim (after_attach m k j q h f) [
      | inl also ↦ omega arith
      | inr old ↦ absurd (omega (arith, v.made j q old))
    ]
    | inr old ↦ elim (after_attach m k j q h f) [
      | inl new ↦ absurd (omega (arith, v.made i p old))
      | inr old' ↦ v.distinct i j p q old old' same
    ]
  ];
}

pub detached-IsValid :
    (m : Manager) (k : ℕ)
    → k < length m.controller_list
    → IsValid m
    → IsValid (record m { controller_list = set m.controller_list k none })
detached-IsValid m k h v = record {
  slots = length-set m.controller_list k none ∙ v.slots;
  index = λ i p e. v.index i p (kept i p e);
  made = λ i p e. v.made i p (kept i p e);
  distinct = λ i j p q e f. v.distinct i j p q (kept i p e) (kept j q f);
}
  where
    kept :
        (i : ℕ) (p : Player)
        → Holds (set m.controller_list k none) i p
        → Holds m.controller_list i p
    kept i p e = elim (after_set m.controller_list k i none p h e) [
      | inl here ↦ absurd (none_ne here.1)
      | inr old ↦ old.1
    ]
