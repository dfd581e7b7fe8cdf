-- ===== src/Examples/Numbers.antt =====
-- Numbers in thousandths, which round down, and numbers in halves.
use native.Mathlib.Nat.{div-le_of_le-mul, mul-le-mul_right}
use myriadmesh_server.Base.{◌+◌, ◌-◌, ◌*◌, ◌/◌, false, arith, ltb, leb, leb→le, le→leb}
use myriadmesh_server.Base.Double.{Double, IsStrict}
use myriadmesh_server.Ledger.Float.{Float, IsRounding}

abbrev pub thousandths : Float
thousandths = record {
  nought = 0;
  one = 1000;
  half = 500;
  three_tenths = 300;
  one_fifth = 200;
  hundred = 100000;
  of_u64 = λ n. 1000 * n;
  add = λ a b. a + b;
  mul = λ a b. a * b / 1000;
  div = λ a b. 1000 * a / b;
  le = leb;
  lt = ltb;
}

pub thousandths-IsRounding : IsRounding thousandths
thousandths-IsRounding = record {
  le_trans = λ x y z u v. ground arith;
  le_of_not_lt = λ x y n m u. ground arith;
  le_of_not_le = λ x y n m u. ground arith;
  unit_order = (ground arith, ground arith);
  one_refl = ground arith;
  hundred_pos = λ n. ground arith;
  ratio_unit = λ n m below some_m.
      (ground arith, le→leb _ _ (div-le_of_le-mul (1000 * m) (omega (arith, below))));
  add_mono = λ a b c d p q r s. ground arith;
  add_nonneg = λ a c p q. ground arith;
  mul_unit = λ a w p q.
      (ground arith, le→leb _ _ (div-le_of_le-mul 1000 (mul-le-mul_right w (leb→le _ _ p.1))));
  weights_unit =
      ((ground arith, ground arith), (ground arith, ground arith), (ground arith, ground arith));
  weights_sum = ground arith;
}

-- Numbers in halves, where a score below nought is nought.
abbrev pub halves : Double
halves = record {
  lit = λ n d. 2 * n / d;
  greatest = 1_000_000;
  least = 0;
  of_nat = λ n. 2 * n;
  to_u8 = λ x. x / 2;
  to_u32 = λ x. x / 2;
  add = λ x y. x + y;
  sub = λ x y. x - y;
  mul = λ x y. x * y / 2;
  div = λ x y. 2 * x / y;
  abs = λ x. x;
  is_nan = λ x. false;
  le = leb;
  lt = ltb;
}

pub halves-IsStrict : IsStrict halves
halves-IsStrict = record {
  lt_irrefl = λ x. ground arith;
  lt_trans = λ x y z h k. ground (arith, h, k);
}
