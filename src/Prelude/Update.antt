-- ===== src/Prelude/Update.antt =====
-- A C array that is indexed by an enumeration: a function, written at one place at a time.
use mathlib.Core.Path.{◌≡◌}
use mathlib.Core.Logic.{◌≢◌, ite, if_pos, if_neg}
use mathlib.Core.Path.{refl}

module _ {ℓ κ} {I : Type ℓ} {A : Type κ} (eq : Discrete I) where
  unfoldable pub update : (I → A) → I → A → I → A
  update f i v j = ite (eq j i) v (f j)

  pub update_self : (f : I → A) (i : I) (v : A) → update f i v i ≡ v
  unfolding update
  update_self f i v = if_pos (eq i i) refl v (f i)

  pub update_ne : (f : I → A) (i j : I) (v : A) → j ≢ i → update f i v j ≡ f j
  unfolding update
  update_ne f i j v h = if_neg (eq j i) h v (f j)
