-- ===== src/Number/Procedures.antt =====
-- src/number.c in a build without SCM_USE_REAL: the procedures of one or two numbers.
use sigscheme.Base.{ℕ, ◌-◌, ◌%◌, Bool, true, false, not, ◌==◌, if◌then◌else◌}
use sigscheme.Base.Int.{ℤ, pos, negsuc, int_eq, ◌-ℤ◌}
use sigscheme.Object.{Obj, int, boolean, err_obj}
use sigscheme.Number.{
  Result, value, error, ◌>>=◌, fixnum_overflow, int_min, positive, negative, ensure_int,
  integer_divide, truncated_quotient, remainder_of, modulo_of,
}

abbrev pub is_int : Obj → Bool
is_int (int _) = true
is_int _ = false

-- Without reals every number is an integer: NUMBERP is INTP.
unfoldable pub p_numberp : Obj → Obj
p_numberp obj = boolean (is_int obj)

unfoldable pub p_integerp : Obj → Obj
p_integerp obj = boolean (is_int obj)

unfoldable pub p_complexp : Obj → Obj
p_complexp obj = boolean (is_int obj)

unfoldable pub p_realp : Obj → Obj
p_realp obj = boolean (is_int obj)

unfoldable pub p_rationalp : Obj → Obj
p_rationalp obj = boolean (is_int obj)

-- ENSURE_NUMBER
abbrev pub ensure_number : Obj → Result Obj
ensure_number (int n) = value (int n)
ensure_number obj = error (err_obj "number required but got" obj)

unfoldable pub p_exactp : Obj → Result Obj
p_exactp z = ensure_number z >>= λ _. value (boolean (is_int z))

unfoldable pub p_inexactp : Obj → Result Obj
p_inexactp z = ensure_number z >>= λ _. value (boolean (not (is_int z)))

unfoldable pub p_zerop : Obj → Result Obj
p_zerop n = ensure_int n >>= λ i. value (boolean (int_eq i (pos 0)))

unfoldable pub p_positivep : Obj → Result Obj
p_positivep n = ensure_int n >>= λ i. value (boolean (positive i))

unfoldable pub p_negativep : Obj → Result Obj
p_negativep n = ensure_int n >>= λ i. value (boolean (negative i))

-- n & 0x1 of a number in two's complement
abbrev pub lowest_bit : ℤ → ℕ
lowest_bit (pos n) = n % 2
lowest_bit (negsuc n) = 1 - n % 2

unfoldable pub p_oddp : Obj → Result Obj
p_oddp n = ensure_int n >>= λ i. value (boolean (lowest_bit i == 1))

unfoldable pub p_evenp : Obj → Result Obj
p_evenp n = ensure_int n >>= λ i. value (boolean (not (lowest_bit i == 1)))

unfoldable pub p_abs : ℕ → Obj → Result Obj
unfolding ◌-ℤ◌
p_abs max obj = ensure_int obj >>= λ n.
    if int_eq n (int_min max)
    then error fixnum_overflow
    else value (if negative n then int (pos 0 -ℤ n) else obj)

unfoldable pub p_quotient : ℕ → Obj → Obj → Result Obj
unfolding integer_divide
p_quotient max n1 n2 = integer_divide max n1 n2 truncated_quotient

unfoldable pub p_modulo : ℕ → Obj → Obj → Result Obj
unfolding integer_divide
p_modulo max n1 n2 = integer_divide max n1 n2 modulo_of

unfoldable pub p_remainder : ℕ → Obj → Obj → Result Obj
unfolding integer_divide
p_remainder max n1 n2 = integer_divide max n1 n2 remainder_of

-- The number itself, if it is an integer.
abbrev pub same_integer : Obj → Result Obj
same_integer obj = ensure_int obj >>= λ _. value obj

unfoldable pub p_numerator : Obj → Result Obj
p_numerator q = same_integer q

unfoldable pub p_denominator : Obj → Result Obj
p_denominator q = ensure_int q >>= λ _. value (int (pos 1))

unfoldable pub p_floor : Obj → Result Obj
p_floor x = same_integer x

unfoldable pub p_ceiling : Obj → Result Obj
p_ceiling x = same_integer x

unfoldable pub p_truncate : Obj → Result Obj
p_truncate x = same_integer x

unfoldable pub p_round : Obj → Result Obj
p_round x = same_integer x

-- scm_exact
unfoldable pub exact : Obj → Result Obj
exact (int z) = value (int z)
exact z = error (err_obj "number required but got" z)

-- scm_inexact
unfoldable pub inexact : Obj → Result Obj
inexact (int z) = error (err_obj "inexact numbers are not supported" (int z))
inexact z = error (err_obj "number required but got" z)

unfoldable pub p_inexact2exact : Obj → Result Obj
unfolding exact
p_inexact2exact z = exact z

unfoldable pub p_exact2inexact : Obj → Result Obj
unfolding inexact
p_exact2inexact z = inexact z
