-- ===== src/Space/Sample.antt =====
-- An instance of the floating-point operations that crates/woven-core/src/model.rs calls, for tests.
use signalweave.Prelude.{ℕ, ◌+◌, ◌-◌, ◌*◌, ltb, leb, max}
use Prim.Native.Nat.{◌/◌}
use signalweave.Space.{Floats}

-- Small numbers; 1000 stands for what is not finite.
abbrev pub floats : Floats
floats = record {
  F64 = ℕ;
  is_finite = λ x. ltb x 1000;
  is_positive = λ x. ltb 0 x;
  add = ◌+◌;
  sub = ◌-◌;
  div = ◌/◌;
  floor = λ x. x;
  abs = λ x. x;
  maximum = max;
  square = λ x. x * x;
  zero = 0;
  le = leb;
  lt = ltb;
  i64_min = 0;
  i64_max = 999;
  to_i64 = λ x. x;
  of_u64 = λ x. x;
}
