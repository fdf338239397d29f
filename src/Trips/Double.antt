-- ===== src/Trips/Double.antt =====
-- Arithmetic of JavaScript numbers on the quantities of a fare: IEEE 754 doubles, none of them negative.
-- A number is a fraction; a result is the exact one rounded to 53 bits, to the nearest and halfway to
-- the even one.
use voyya_backend.Prelude.{ℕ, zero, suc, ◌+◌, ◌*◌, ◌/◌, ◌%◌, true, false, ltb, leb, if◌then◌else◌}

pub record Double : Type 0 where
  pub num : ℕ
  pub den : ℕ

abbrev pub two_to_52 : ℕ
two_to_52 = 4503599627370496

-- A quotient of two numbers doubled until it has 53 bits, with the power of two that divides it. The
-- fuel is the number of doublings: eighty serve for a quotient of 2 ^ -28 or more.
abbrev pub narrow : ℕ → ℕ → ℕ → ℕ → ℕ × ℕ
narrow zero n d p = (n, p)
narrow (suc fuel) n d p = elim (leb (two_to_52 * d) n) [
  | true ↦ (n, p)
  | false ↦ narrow fuel (2 * n) d (2 * p)
]

-- A divisor doubled until the quotient has 53 bits at most, with the power of two that multiplies it.
abbrev pub widen : ℕ → ℕ → ℕ → ℕ → ℕ × ℕ
widen zero n d p = (d, p)
widen (suc fuel) n d p = elim (ltb n (2 * two_to_52 * d)) [
  | true ↦ (d, p)
  | false ↦ widen fuel n (2 * d) (2 * p)
]

-- The nearest whole number to a quotient, halfway the even one.
abbrev pub nearest_even : ℕ → ℕ → ℕ
nearest_even n d =
    let q = n / d in
    let twice = 2 * (n % d) in if ltb twice d then q else if ltb d twice then q + 1 else q + q % 2

abbrev pub round_double : Double → Double
round_double x =
    let (n, below) = narrow 80 x.num x.den 1 in
    let (d, above) = widen 80 n x.den 1 in record { num = nearest_even n d * above; den = below }

abbrev pub whole : ℕ → Double
whole n = round_double (record { num = n; den = 1 })

abbrev pub hundredths : ℕ → Double
hundredths n = round_double (record { num = n; den = 100 })

abbrev pub times : Double → Double → Double
times x y = round_double (record { num = x.num * y.num; den = x.den * y.den })

abbrev pub over : Double → Double → Double
over x y = round_double (record { num = x.num * y.den; den = x.den * y.num })

-- Math.round: the nearest whole number, halfway the upper one.
abbrev pub math_round : Double → ℕ
math_round x = (2 * x.num + x.den) / (2 * x.den)
