-- ===== src/Float/Whole.antt =====
-- Whole numbers in place of floats, to run the models. Nothing of the program stands here.
use mpxcast.Prelude.{ℕ, ◌+◌, ◌/◌, ltb, leb}
use mpxcast.Float.{Float}

instance abbrev pub whole : Float ℕ
whole = record {
  literal = λ n m. n / m;
  of_ℕ = λ n. n;
  add = λ x y. x + y;
  divide = λ x y. x / y;
  lt = ltb;
  ge = λ x y. leb y x;
}
