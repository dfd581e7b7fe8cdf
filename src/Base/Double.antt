-- ===== src/Base/Double.antt =====
-- Floating-point arithmetic. A number is its bit pattern and the operations of IEEE 754 are a
-- parameter; a theorem names the facts that it needs of them. A NaN is not `<=` itself.
use Prim.Native.Nat.{ℕ}
use mathlib.Core.Path.{◌≡◌}
use mathlib.Core.Bool.{Bool, true, false}
use myriadmesh_server.Base.Tests.{if◌then◌else◌}

abbrev pub F64 : Type 0
F64 = ℕ

pub record Double : Type 0 where
  -- a literal, as the fraction that it is written for
  pub lit : ℕ → ℕ → F64
  -- the greatest and the least number of the format, `MAX` and `MIN`
  pub greatest : F64
  pub least : F64
  -- `as f64` or `as f32`, and `as u8` and `as u32`, which saturate
  pub of_nat : ℕ → F64
  pub to_u8 : F64 → ℕ
  pub to_u32 : F64 → ℕ
  pub add : F64 → F64 → F64
  pub sub : F64 → F64 → F64
  pub mul : F64 → F64 → F64
  pub div : F64 → F64 → F64
  pub abs : F64 → F64
  pub is_nan : F64 → Bool
  -- `<=` and `<`
  pub le : F64 → F64 → Bool
  pub lt : F64 → F64 → Bool

-- `clamp(0.0, 1.0)`, which keeps a NaN
abbrev pub clamp_unit : Double → F64 → F64
clamp_unit d x =
    if d.lt x (d.lit 0 1) then d.lit 0 1 else if d.lt (d.lit 1 1) x then d.lit 1 1 else x

-- `<` of IEEE 754, NaNs included
pub record IsStrict (d : Double) : Type 0 where
  pub lt_irrefl : (x : F64) → d.lt x x ≡ false
  pub lt_trans : (x y z : F64) → d.lt x y ≡ true → d.lt y z ≡ true → d.lt x z ≡ true
