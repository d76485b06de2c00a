-- ===== src/Prelude/Floats.antt =====
-- Python's floating-point numbers: a type and the operations that the code takes of it.
use Prim.Native.Nat.{ℕ}
use mathlib.Core.Bool.{Bool}
use mathlib.Core.List.{List, [], ◌∷◌}

pub record Floats : Type 1 where
  pub Float : Type 0
  pub of_nat : ℕ → Float
  -- `decimal n k` is the literal n / 10 ^ k
  pub decimal : ℕ → ℕ → Float
  pub add : Float → Float → Float
  pub sub : Float → Float → Float
  pub mul : Float → Float → Float
  pub div : Float → Float → Float
  pub absolute : Float → Float
  -- `round(x, digits)`
  pub round_to : ℕ → Float → Float
  pub lt : Float → Float → Bool
  pub le : Float → Float → Bool

module _ (N : Floats) where
  open N use {Float, of_nat, add, div}

  -- `sum(xs)`, which starts at the integer 0
  unfoldable pub sum_onto : Float → List Float → Float
  sum_onto acc [] = acc
  sum_onto acc (x ∷ xs) = sum_onto (add acc x) xs

  -- a / b of two counts
  abbrev pub ratio : ℕ → ℕ → Float
  ratio a b = div (of_nat a) (of_nat b)
