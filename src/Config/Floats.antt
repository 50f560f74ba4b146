-- ===== src/Config/Floats.antt =====
-- Python's `float`, as far as the configuration compares it. `finite n` is n millionths; what is
-- finer is not modelled. A comparison with NaN is false.
use fish_async_task.Prelude.{Bool, true, false, not}
use fish_async_task.Prelude.Int.{ℤ, lt_int}

pub data Float : Type 0 where
  minus_infinity : Float
  finite : ℤ → Float
  plus_infinity : Float
  not_a_number : Float

-- `a < b`
abbrev pub lt_float : Float → Float → Bool
lt_float minus_infinity minus_infinity = false
lt_float minus_infinity (finite b) = true
lt_float minus_infinity plus_infinity = true
lt_float minus_infinity not_a_number = false
lt_float (finite a) minus_infinity = false
lt_float (finite a) (finite b) = lt_int a b
lt_float (finite a) plus_infinity = true
lt_float (finite a) not_a_number = false
lt_float plus_infinity b = false
lt_float not_a_number b = false

-- `a <= b`
abbrev pub le_float : Float → Float → Bool
le_float minus_infinity minus_infinity = true
le_float minus_infinity (finite b) = true
le_float minus_infinity plus_infinity = true
le_float minus_infinity not_a_number = false
le_float (finite a) minus_infinity = false
le_float (finite a) (finite b) = not (lt_int b a)
le_float (finite a) plus_infinity = true
le_float (finite a) not_a_number = false
le_float plus_infinity minus_infinity = false
le_float plus_infinity (finite b) = false
le_float plus_infinity plus_infinity = true
le_float plus_infinity not_a_number = false
le_float not_a_number b = false
