-- ===== src/Base/Floats.antt =====
-- Go's `float64`: the operations that the program uses, and three laws of IEEE comparison that
-- hold for all values, NaN included.
use mathlib.Core.Path.{◌≡◌}
use mathlib.Core.Bool.{Bool, true, false}
use llm_proxy.Base.Int.{ℤ}

pub record Floats : Type 1 where
  pub F : Type 0
  pub of_int : ℤ → F
  pub add : F → F → F
  pub sub : F → F → F
  pub mul : F → F → F
  pub div : F → F → F
  pub lt : F → F → Bool
  pub eq : F → F → Bool
  pub lt_irrefl : (a : F) → lt a a ≡ false
  pub lt_trans : (a b c : F) → lt a b ≡ true → lt b c ≡ true → lt a c ≡ true
  pub lt_of_eq : (a b c : F) → eq a b ≡ true → lt c b ≡ false → lt c a ≡ false
