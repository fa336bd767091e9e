-- ===== src/Controller/Float.antt =====
-- The language's `float`, as far as source/ControllerLib/Controllers/BaseController.cpp uses it. There
-- are no floats here: the type and its operations are a parameter of every definition that needs them.
use sys_con.Prelude.{◌≡◌, Bool, true, false}
use sys_con.Prelude.Int.{ℤ, pos}

pub record Float : Type 1 where
  pub F : Type 0
  pub of_ℤ : ℤ → F
  pub add : F → F → F
  pub sub : F → F → F
  pub mul : F → F → F
  pub div : F → F → F
  pub neg : F → F
  pub abs : F → F
  pub lt : F → F → Bool

module _ (fl : Float) where
  open fl use {F, of_ℤ, mul, neg, lt}

  abbrev pub zero : F
  zero = of_ℤ (pos 0)

  abbrev pub one : F
  one = of_ℤ (pos 1)

  -- What IEEE 754 says of 1, -1 and 0: they compare as the numbers do, multiplying by 1 or -1 is
  -- exact, and a change of sign turns the order round.
  pub record FloatLaws : Type 0 where
    pub one_le_one : lt one one ≡ false
    pub neg_one_lt_one : lt one (neg one) ≡ false
    pub neg_one_le : lt (neg one) (neg one) ≡ false
    pub zero_lt_one : lt zero one ≡ true
    pub positive_above : (x : F) → lt zero x ≡ true → lt x (neg one) ≡ false
    pub one_mul : (x : F) → mul one x ≡ x
    pub neg_one_mul : (x : F) → mul (neg one) x ≡ neg x
    pub neg_lt : (x y : F) → lt (neg x) (neg y) ≡ lt y x
    pub neg_positive : (x : F) → lt zero x ≡ true → lt one (neg x) ≡ false
