-- ===== src/Number/Divide.antt =====
-- src/number.c: what quotient, remainder, modulo and the floored quotient are.
use sigscheme.Base.{
  ℕ, zero, suc, ◌<◌, ◌≡◌, refl, ap, ◌∙◌, ◌⊎◌, inl, inr, Bool, true, false, ◌&&◌, arith,
  if◌then◌else◌, Bool-cases,
}
use sigscheme.Base.Int.{ℤ, pos, negsuc, int_eq, ◌+ℤ◌, ◌-ℤ◌, ◌*ℤ◌, tdiv, tmod, magnitude}
use sigscheme.Number.{
  value, error, fixnum_overflow, division_by_zero, int_min, negative, int_quotient, int_remainder,
  other_sign, int_modulo, floored, int_divide, DivideOp, truncated_quotient, remainder_of,
  modulo_of, floored_quotient,
}
use sigscheme.Number.Division.{tdiv_sum, tmod_small, tmod_sign}

-- `n1` is `q` times `n2` with the rest `r`, which is smaller than `n2` and has the sign of `s`, or is 0.
pub record Divides (n1 n2 q r s : ℤ) : Type 0 where
  pub sum : q *ℤ n2 +ℤ r ≡ n1
  pub small : magnitude r < magnitude n2
  pub sign : (int_eq r (pos 0) ≡ true) ⊎ (negative r ≡ negative s)

tdiv-Divides : (n1 n2 : ℤ) → int_eq n2 (pos 0) ≡ false → Divides n1 n2 (tdiv n1 n2) (tmod n1 n2) n1
tdiv-Divides n1 n2 ne = record {
  sum = tdiv_sum n1 n2;
  small = tmod_small n1 n2 ne;
  sign = tmod_sign n1 n2;
}

negsuc_pred : (q : ℕ) → negsuc q -ℤ pos 1 ≡ negsuc (suc q)
unfolding ◌-ℤ◌
negsuc_pred q = ground arith

mul_pred_negsuc : (q n : ℕ) → negsuc (suc q) *ℤ negsuc n +ℤ negsuc n ≡ negsuc q *ℤ negsuc n
unfolding ◌*ℤ◌ ◌+ℤ◌
mul_pred_negsuc q n = ground arith

mul_pred : (q n : ℤ) → (q -ℤ pos 1) *ℤ n +ℤ n ≡ q *ℤ n
unfolding ◌*ℤ◌ ◌+ℤ◌ ◌-ℤ◌
mul_pred (pos zero) (pos n) = ground arith
mul_pred (pos zero) (negsuc n) = ground arith
mul_pred (pos (suc q)) (pos n) = ground arith
mul_pred (pos (suc q)) (negsuc n) = ground arith
mul_pred (negsuc q) (pos n) = ground arith
mul_pred (negsuc q) (negsuc n) =
    ap (λ z. z *ℤ negsuc n +ℤ negsuc n) (negsuc_pred q) ∙ mul_pred_negsuc q n

add_swap : (a r n : ℤ) → a +ℤ (r +ℤ n) ≡ a +ℤ n +ℤ r
unfolding ◌+ℤ◌
add_swap a r n = ground arith

adjusted : ℤ → ℤ → ℤ
adjusted r n2 = if other_sign r n2 then r +ℤ n2 else r

adjusted_small : (r n2 : ℤ) → magnitude r < magnitude n2 → magnitude (adjusted r n2) < magnitude n2
unfolding adjusted ◌+ℤ◌
adjusted_small r n2 lt = ground arith

adjusted_sign :
    (r n2 : ℤ)
    → magnitude r < magnitude n2
    → (int_eq (adjusted r n2) (pos 0) ≡ true) ⊎ (negative (adjusted r n2) ≡ negative n2)
unfolding adjusted ◌+ℤ◌
adjusted_sign r n2 lt = ground arith

floored_sum : (n1 n2 q r : ℤ) → q *ℤ n2 +ℤ r ≡ n1 → floored q r n2 *ℤ n2 +ℤ adjusted r n2 ≡ n1
unfolding adjusted
floored_sum n1 n2 q r e = elim (Bool-cases (other_sign r n2)) [
  | inl other ↦ rw other (add_swap ((q -ℤ pos 1) *ℤ n2) r n2 ∙ ap (λ z. z +ℤ r) (mul_pred q n2) ∙ e)
  | inr same ↦ rw same e
]

floored-Divides :
    (n1 n2 q r : ℤ) → Divides n1 n2 q r n1 → Divides n1 n2 (floored q r n2) (adjusted r n2) n2
floored-Divides n1 n2 q r d = record {
  sum = floored_sum n1 n2 q r d.sum;
  small = adjusted_small r n2 d.small;
  sign = adjusted_sign r n2 d.small;
}

pub int_remainder-tmod :
    (n1 n2 : ℤ) → int_eq n2 (pos 0) ≡ false → int_remainder n1 n2 ≡ value (tmod n1 n2)
unfolding int_remainder tmod
int_remainder-tmod n1 n2 ne = ground arith

-- What the four divisions of fixnums give, where the divisor is not zero and the quotient is a fixnum.
pub record DivisionResults (max : ℕ) (n1 n2 : ℤ) : Type 0 where
  pub quotient : ℤ
  pub remainder : ℤ
  pub modulo : ℤ
  pub floor : ℤ
  pub quotient_is : int_divide max n1 n2 truncated_quotient ≡ value quotient
  pub remainder_is : int_divide max n1 n2 remainder_of ≡ value remainder
  pub modulo_is : int_divide max n1 n2 modulo_of ≡ value modulo
  pub floor_is : int_divide max n1 n2 floored_quotient ≡ value floor
  pub truncated : Divides n1 n2 quotient remainder n1
  pub floors : Divides n1 n2 floor modulo n2

abbrev pub quotient_overflows : ℕ → ℤ → ℤ → Bool
quotient_overflows max n1 n2 = int_eq n1 (int_min max) && int_eq n2 (negsuc 0)

-- Where the divisor is not zero and it is not the least fixnum divided by -1, quotient and remainder
-- give the division truncated towards zero, whose rest has the sign of the dividend, and the floored
-- quotient and modulo the one whose rest has the sign of the divisor. Each rest is smaller than the
-- divisor.
pub int_divide-Divides :
    (max : ℕ) (n1 n2 : ℤ)
    → int_eq n2 (pos 0) ≡ false
    → quotient_overflows max n1 n2 ≡ false
    → DivisionResults max n1 n2
unfolding int_divide int_quotient int_modulo adjusted
int_divide-Divides max n1 n2 ne fit =
    let rem = int_remainder-tmod n1 n2 ne in
    record {
      quotient = tdiv n1 n2;
      remainder = tmod n1 n2;
      modulo = adjusted (tmod n1 n2) n2;
      floor = floored (tdiv n1 n2) (tmod n1 n2) n2;
      quotient_is = ground (arith, ne, fit);
      remainder_is = rem;
      modulo_is = rw rem refl;
      floor_is = ground (arith, ne, fit, rem);
      truncated = tdiv-Divides n1 n2 ne;
      floors = floored-Divides n1 n2 (tdiv n1 n2) (tmod n1 n2) (tdiv-Divides n1 n2 ne);
    }

-- Every division by zero is an error. The least fixnum divided by -1 overflows for the two quotients,
-- and leaves the rest 0.
pub int_divide-errors :
    (max : ℕ) (n1 : ℤ) (op : DivideOp)
    → (int_divide max n1 (pos 0) op ≡ error division_by_zero)
      × (int_divide max (int_min max) (negsuc 0) truncated_quotient ≡ error fixnum_overflow)
      × (int_divide max (int_min max) (negsuc 0) floored_quotient ≡ error fixnum_overflow)
      × (int_divide max (int_min max) (negsuc 0) remainder_of ≡ value (pos 0))
      × (int_divide max (int_min max) (negsuc 0) modulo_of ≡ value (pos 0))
unfolding int_divide int_quotient int_remainder int_modulo
int_divide-errors max n1 op = ground arith
