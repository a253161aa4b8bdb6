-- ===== src/Number/Tests.antt =====
-- The theorems on numbers at concrete fixnums of eight bits, and runs of the procedures.
use sigscheme.Base.{ℕ, ◌≡◌, refl, ◌⊎◌, true, false, List, [], ◌∷◌, arith}
use sigscheme.Base.Int.{pos, negsuc, ◌*ℤ◌, fits}
use sigscheme.Object.{Obj, null, int, boolean, err, err_obj}
use sigscheme.Number.{
  value, error, fixnum_overflow, int_divide, truncated_quotient, modulo_of, floored_quotient,
}
use sigscheme.Number.Divide.{DivisionResults, int_divide-Divides}
use sigscheme.Number.Reduction.{
  p_add, p_subtract, p_multiply, p_divide, p_equal, p_less, p_less_equal, p_greater,
  p_greater_equal, p_max, reduce,
}
use sigscheme.Number.Fold.{folded, p_multiply-folded}
use sigscheme.Number.Chain.{comparators-in_order}
use sigscheme.Number.Procedures.{p_abs, p_oddp, p_round}
use sigscheme.Number.Gcd.{gcd, p_gcd, p_lcm, IsGcd, gcd-IsGcd}
use sigscheme.Number.Fixnum.{checked}
use sigscheme.Number.Expt.{p_expt}
use sigscheme.Number.Product.{power}
use sigscheme.Number.Power.{p_expt-Power}

divide_runs :
    (int_divide 127 (negsuc 6) (pos 2) truncated_quotient ≡ value (negsuc 2))
    × (int_divide 127 (negsuc 6) (pos 2) modulo_of ≡ value (pos 1))
    × (int_divide 127 (negsuc 6) (pos 2) floored_quotient ≡ value (negsuc 3))
unfolding int_divide
divide_runs = (refl, refl, refl)

reduce_runs :
    (reduce (p_add 127) (int (pos 100) ∷ int (pos 27) ∷ int (negsuc 9) ∷ [])
      ≡ value (int (pos 117)))
    × (reduce (p_add 127) (int (pos 100) ∷ int (pos 28) ∷ int (negsuc 9) ∷ [])
        ≡ error fixnum_overflow)
    × (reduce (p_subtract 127) (int (pos 5) ∷ []) ≡ value (int (negsuc 4)))
    × (reduce (p_divide 127) (int (pos 9) ∷ int (pos 2) ∷ []) ≡ value (int (pos 4)))
    × (reduce p_less (int (pos 1) ∷ int (pos 3) ∷ int (pos 2) ∷ null ∷ []) ≡ value (boolean false))
    × (reduce p_max (int (pos 1) ∷ int (pos 3) ∷ int (pos 2) ∷ []) ≡ value (int (pos 3)))
unfolding reduce p_add p_subtract p_divide p_less p_max
reduce_runs = (refl, refl, refl, refl, refl, refl)

procedure_runs :
    (p_abs 127 (int (negsuc 127)) ≡ error fixnum_overflow)
    × (p_abs 127 (int (negsuc 126)) ≡ value (int (pos 127)))
    × (p_oddp (int (negsuc 2)) ≡ value (boolean true))
    × (p_round null ≡ error (err_obj "integer required but got" null))
unfolding p_abs p_oddp p_round
procedure_runs = (refl, refl, refl, refl)

gcd_runs :
    (reduce (p_gcd 127 20) (int (pos 12) ∷ int (negsuc 17) ∷ []) ≡ value (int (pos 6)))
    × (reduce (p_lcm 127 20) (int (pos 12) ∷ int (negsuc 17) ∷ []) ≡ value (int (pos 36)))
unfolding reduce p_gcd p_lcm
gcd_runs = (refl, refl)

expt_runs :
    (p_expt 127 8 (int (negsuc 1)) (int (pos 7)) ≡ value (int (negsuc 127)))
    × (p_expt 127 8 (int (pos 2)) (int (pos 7)) ≡ error fixnum_overflow)
    × (p_expt 127 8 (int (pos 2)) (int (negsuc 0)) ≡ error (err "negative exponent"))
unfolding p_expt
expt_runs = (refl, refl, refl)

int_divide-Divides_example : DivisionResults 127 (negsuc 6) (pos 2)
int_divide-Divides_example = int_divide-Divides 127 (negsuc 6) (pos 2) refl refl

p_multiply-folded_example :
    reduce (p_multiply 127) (int (negsuc 7) ∷ int (pos 16) ∷ int (pos 2) ∷ [])
    ≡ folded 127 ◌*ℤ◌ (pos 1) (negsuc 7 ∷ pos 16 ∷ pos 2 ∷ [])
p_multiply-folded_example =
    p_multiply-folded 127 (negsuc 7 ∷ pos 16 ∷ pos 2 ∷ []) (omega arith) (refl, (refl, (refl, tt)))

abbrev example_args : List Obj
example_args = int (pos 1) ∷ int (pos 2) ∷ int (pos 2) ∷ []

comparators-in_order_example :
    (reduce p_equal example_args ≡ value (boolean false))
    × (reduce p_less example_args ≡ value (boolean false))
    × (reduce p_less_equal example_args ≡ value (boolean true))
    × (reduce p_greater example_args ≡ value (boolean false))
    × (reduce p_greater_equal example_args ≡ value (boolean false))
comparators-in_order_example = comparators-in_order (pos 1) (pos 2) (pos 2 ∷ [])

gcd-IsGcd_example :
    (g : ℕ) × (gcd 127 20 (pos 12) (negsuc 17) ≡ checked 127 (pos g)) × IsGcd g (pos 12) (negsuc 17)
gcd-IsGcd_example = gcd-IsGcd 127 20 (pos 12) (negsuc 17) (omega arith) refl refl

p_expt-Power_example :
    ((p_expt 127 8 (int (negsuc 1)) (int (pos 7)) ≡ value (int (power (negsuc 1) 7)))
      × (fits 127 (power (negsuc 1) 7) ≡ true))
    ⊎ ((p_expt 127 8 (int (negsuc 1)) (int (pos 7)) ≡ error fixnum_overflow)
        × (fits 127 (power (negsuc 1) 7) ≡ false))
p_expt-Power_example = p_expt-Power 127 8 (negsuc 1) 7 (omega arith) refl (omega arith)
