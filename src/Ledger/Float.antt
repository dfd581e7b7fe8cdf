-- ===== src/Ledger/Float.antt =====
-- The double-precision arithmetic that the reputation scores use. A double is its bit pattern, and
-- the operations of IEEE 754 are a parameter; `IsRounding` states the facts of rounding to nearest
-- that hold of them. A NaN is a value that is not `<=` itself.
use myriadmesh_server.Base.{ℕ, ◌≡◌, ◌≤◌, ◌<◌, Bool, true, false, if◌then◌else◌}
use myriadmesh_server.Ledger.Entry.{F64}

pub record Float : Type 0 where
  -- the literals 0.0, 1.0, 0.5, 0.3, 0.2 and 100.0
  pub nought : F64
  pub one : F64
  pub half : F64
  pub three_tenths : F64
  pub one_fifth : F64
  pub hundred : F64
  -- `as f64`
  pub of_u64 : ℕ → F64
  pub add : F64 → F64 → F64
  pub mul : F64 → F64 → F64
  pub div : F64 → F64 → F64
  -- `<=` and `<`
  pub le : F64 → F64 → Bool
  pub lt : F64 → F64 → Bool

-- `f64::min`, and `f64::clamp(0.0, 1.0)`, which keeps a NaN
abbrev pub fmin : Float → F64 → F64 → F64
fmin f x y = if f.le x y then x else y

abbrev pub clamp_unit : Float → F64 → F64
clamp_unit f x = if f.lt x f.nought then f.nought else if f.lt f.one x then f.one else x

abbrev pub InUnit : Float → F64 → Type 0
InUnit f x = (f.le f.nought x ≡ true) × (f.le x f.one ≡ true)

pub record IsRounding (f : Float) : Type 0 where
  pub le_trans : (x y z : F64) → f.le x y ≡ true → f.le y z ≡ true → f.le x z ≡ true
  pub le_of_not_lt :
      (x y : F64) → f.le x x ≡ true → f.le y y ≡ true → f.lt x y ≡ false → f.le y x ≡ true
  pub le_of_not_le :
      (x y : F64) → f.le x x ≡ true → f.le y y ≡ true → f.le x y ≡ false → f.le y x ≡ true
  pub unit_order : (f.le f.nought f.nought ≡ true) × (f.le f.nought f.one ≡ true)
  pub one_refl : f.le f.one f.one ≡ true
  pub hundred_pos : (n : ℕ) → f.le f.nought (f.div (f.of_u64 n) f.hundred) ≡ true
  pub ratio_unit : (n m : ℕ) → n ≤ m → 0 < m → InUnit f (f.div (f.of_u64 n) (f.of_u64 m))
  pub add_mono :
      (a b c d : F64)
      → f.le f.nought a ≡ true
      → f.le a b ≡ true
      → f.le f.nought c ≡ true
      → f.le c d ≡ true
      → f.le (f.add a c) (f.add b d) ≡ true
  pub add_nonneg :
      (a c : F64)
      → f.le f.nought a ≡ true
      → f.le f.nought c ≡ true
      → f.le f.nought (f.add a c) ≡ true
  pub mul_unit :
      (a w : F64)
      → InUnit f a
      → InUnit f w
      → (f.le f.nought (f.mul a w) ≡ true) × (f.le (f.mul a w) w ≡ true)
  pub weights_unit : InUnit f f.half × InUnit f f.three_tenths × InUnit f f.one_fifth
  pub weights_sum : f.le (f.add (f.add f.half f.three_tenths) f.one_fifth) f.one ≡ true
