-- ===== src/Number.antt =====
-- src/number.c in a build without SCM_USE_REAL: the checked arithmetic of fixnums and the procedures on
-- numbers. `max` is SCM_INT_MAX, and SCM_INT_MIN is -(max + 1). The procedures leave the heap alone.
pub mod Fixnum
pub mod Division
pub mod Divide
pub mod Reduction
pub mod Fold
pub mod Chain
pub mod Procedures
pub mod Gcd
pub mod Expt
pub mod Product
pub mod Power
mod Tests
use sigscheme.Base.{ℕ, Bool, true, false, not, ◌&&◌, if◌then◌else◌}
use sigscheme.Base.Int.{ℤ, pos, negsuc, int_eq, ◌+ℤ◌, ◌-ℤ◌, ◌*ℤ◌, tdiv, tmod, ltb_ℤ}
use sigscheme.Object.{Obj, int, SchemeError, err, err_obj}

-- A value, an error, a state that the code takes for impossible (SCM_NOTREACHED), or no end in sight.
pub data Result (A : Type 0) : Type 0 where
  value : A → Result A
  error : SchemeError → Result A
  not_reached out_of_fuel : Result A

infixl 5 ◌>>=◌
abbrev pub ◌>>=◌ : {A B : Type 0} → Result A → (A → Result B) → Result B
value a >>= f = f a
error e >>= f = error e
not_reached >>= f = not_reached
out_of_fuel >>= f = out_of_fuel

abbrev pub fixnum_overflow : SchemeError
fixnum_overflow = err "fixnum overflow"

abbrev pub division_by_zero : SchemeError
division_by_zero = err "division by zero"

abbrev pub int_min : ℕ → ℤ
int_min max = negsuc max

abbrev pub int_max : ℕ → ℤ
int_max max = pos max

abbrev pub positive : ℤ → Bool
positive n = ltb_ℤ (pos 0) n

abbrev pub negative : ℤ → Bool
negative n = ltb_ℤ n (pos 0)

abbrev pub overflows_multiply : ℕ → ℤ → ℤ → Bool
overflows_multiply max n1 n2 =
    if positive n1
    then (if positive n2
        then ltb_ℤ (tdiv (int_max max) n2) n1
        else ltb_ℤ n2 (tdiv (int_min max) n1))
    else (if positive n2
        then ltb_ℤ n1 (tdiv (int_min max) n2)
        else negative n2 && ltb_ℤ n1 (tdiv (int_max max) n2))

unfoldable pub int_multiply : ℕ → ℤ → ℤ → Result ℤ
unfolding ◌*ℤ◌ tdiv
int_multiply max n1 n2 =
    if overflows_multiply max n1 n2 then error fixnum_overflow else value (n1 *ℤ n2)

unfoldable pub int_quotient : ℕ → ℤ → ℤ → Result ℤ
unfolding tdiv
int_quotient max n1 n2 =
    if int_eq n2 (pos 0)
    then error division_by_zero
    else if int_eq n1 (int_min max) && int_eq n2 (negsuc 0)
    then error fixnum_overflow
    else value (tdiv n1 n2)

unfoldable pub int_remainder : ℤ → ℤ → Result ℤ
unfolding tmod
int_remainder n1 n2 =
    if int_eq n2 (pos 0)
    then error division_by_zero
    else if int_eq n2 (negsuc 0)
    then value (pos 0)
    else value (tmod n1 n2)

-- Whether a remainder is not zero and has not the sign of the divisor.
abbrev pub other_sign : ℤ → ℤ → Bool
other_sign rem n2 = not (int_eq rem (pos 0)) && not (same (negative rem) (negative n2))
  where
    same : Bool → Bool → Bool
    same true b = b
    same false b = not b

unfoldable pub int_modulo : ℤ → ℤ → Result ℤ
unfolding int_remainder ◌+ℤ◌
int_modulo n1 n2 =
    int_remainder n1 n2 >>= λ rem. value (if other_sign rem n2 then rem +ℤ n2 else rem)

-- ENSURE_INT
abbrev pub ensure_int : Obj → Result ℤ
ensure_int (int n) = value n
ensure_int obj = error (err_obj "integer required but got" obj)

-- (x > y) - (x < y)
abbrev pub compare_ints : ℤ → ℤ → ℤ
compare_ints x y = if ltb_ℤ y x then pos 1 else if ltb_ℤ x y then negsuc 0 else pos 0

unfoldable pub compare_numbers : Obj → Obj → Result ℤ
compare_numbers x y = ensure_int x >>= λ a. ensure_int y >>= λ b. value (compare_ints a b)

-- The operations 'q', 'r', 'm' and 'f' of scm_integer_divide.
pub data DivideOp : Type 0 where
  truncated_quotient remainder_of modulo_of floored_quotient : DivideOp

abbrev pub floored : ℤ → ℤ → ℤ → ℤ
floored q r n2 = if other_sign r n2 then q -ℤ pos 1 else q

unfoldable pub int_divide : ℕ → ℤ → ℤ → DivideOp → Result ℤ
unfolding int_quotient int_remainder int_modulo ◌-ℤ◌
int_divide max n1 n2 truncated_quotient = int_quotient max n1 n2
int_divide max n1 n2 remainder_of = int_remainder n1 n2
int_divide max n1 n2 modulo_of = int_modulo n1 n2
int_divide max n1 n2 floored_quotient =
    int_quotient max n1 n2 >>= λ q. int_remainder n1 n2 >>= λ r. value (floored q r n2)

unfoldable pub integer_divide : ℕ → Obj → Obj → DivideOp → Result Obj
unfolding int_divide
integer_divide max n1 n2 op =
    ensure_int n1 >>= λ i1. ensure_int n2 >>= λ i2. int_divide max i1 i2 op >>= λ n. value (int n)
