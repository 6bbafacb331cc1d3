-- ===== src/Prelude/Float64.antt =====
-- What the program uses of float64 and of Go's package `math`: the type and the operations, which
-- Go and the processor give. Laws are hypotheses of the theorems that need them.
use mathlib.Core.Bool.{Bool}
use otel_ecom_load_genrator.Prelude.Int.{ℤ}
use otel_ecom_load_genrator.Prelude.Text.{Text}

pub record Float64 (F : Type 0) : Type 0 where
  pub lt : F → F → Bool
  pub le : F → F → Bool
  pub eq : F → F → Bool
  -- float64(n), and int(f) or int64(f), which cuts the fraction off.
  pub of_int : ℤ → F
  pub to_int : F → ℤ
  -- The constant 0.5.
  pub half : F
  pub add : F → F → F
  pub sub : F → F → F
  pub mul : F → F → F
  pub div : F → F → F
  -- math.Log, math.Exp, math.Max, math.Round, math.Trunc, math.IsNaN, math.IsInf(f, 0).
  pub log : F → F
  pub exp : F → F
  pub max : F → F → F
  pub round : F → F
  pub trunc : F → F
  pub is_nan : F → Bool
  pub is_inf : F → Bool
  -- strconv.FormatFloat(f, 'g', -1, 64)
  pub format : F → Text
