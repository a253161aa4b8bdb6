-- ===== src/Number/Fixnum.antt =====
-- src/number.c: the checked arithmetic of fixnums against the integers.
use native.Mathlib.Nat
use sigscheme.Base.{
  ℕ, zero, suc, ◌*◌, ◌/◌, ◌<◌, ◌≡◌, sym, ap, ◌∙◌, ◌↔◌, inl, inr, true, not, arith, ltb, leb,
  if◌then◌else◌, Bool-cases,
}
use sigscheme.Base.Int.{ℤ, pos, negsuc, ◌*ℤ◌, tdiv, ltb_ℤ, fits, minus_ℕ}
use sigscheme.Number.{Result, value, error, fixnum_overflow, overflows_multiply, int_multiply}

-- The integer if it is a fixnum, else the overflow error.
abbrev pub checked : ℕ → ℤ → Result ℤ
checked max z = if fits max z then value z else error fixnum_overflow

ltb_div : (m k a : ℕ) → ltb (m / suc k) a ≡ ltb m (a * suc k)
ltb_div m k a =
    let le : (m / suc k < a) ↔ (m < a * suc k) = Nat.div-lt_iff_lt-mul {k = suc k} (omega arith) in
    elim (Bool-cases (ltb m (a * suc k))) [
      | inl e ↦ ground (arith, e, le.1 (ground (arith, e)))
      | inr e ↦ elim (Bool-cases (ltb (m / suc k) a)) [
        | inl d ↦ absurd (ground (arith, e, le.0 (ground (arith, d))))
        | inr d ↦ ground (arith, e, d)
      ]
    ]

below_minus : (a q : ℕ) → ltb_ℤ (negsuc a) (minus_ℕ q) ≡ ltb q (suc a)
below_minus a q = ground arith

fits_minus : (max n : ℕ) → fits max (minus_ℕ n) ≡ leb n (suc max)
fits_minus max n = ground arith

not-leb : (a b : ℕ) → not (leb a b) ≡ ltb b a
not-leb a b = ground arith

-- A negative bound that is a quotient, against the product.
below_quotient :
    (max a b : ℕ)
    → ltb_ℤ (negsuc b) (minus_ℕ (suc max / suc a)) ≡ not (fits max (minus_ℕ (suc b * suc a)))
below_quotient max a b =
    below_minus b (suc max / suc a)
    ∙ ltb_div (suc max) a (suc b)
    ∙ sym (ap not (fits_minus max (suc b * suc a)) ∙ not-leb (suc b * suc a) (suc max))

overflows_multiply-fits :
    (max : ℕ) (n1 n2 : ℤ)
    → fits max n1 ≡ true
    → fits max n2 ≡ true
    → overflows_multiply max n1 n2 ≡ not (fits max (n1 *ℤ n2))
unfolding ◌*ℤ◌ tdiv
overflows_multiply-fits max (pos zero) (pos b) f g = ground arith
overflows_multiply-fits max (pos (suc a)) (pos zero) f g = ground arith
overflows_multiply-fits max (pos (suc a)) (pos (suc b)) f g =
    let e = ltb_div max b (suc a) ∙ sym (not-leb (suc a * suc b) max) in ground (arith, e)
overflows_multiply-fits max (pos zero) (negsuc b) f g = ground arith
overflows_multiply-fits max (pos (suc a)) (negsuc b) f g =
    let e =
      below_quotient max a b
      ∙ ap (λ n. not (fits max (minus_ℕ n))) (Nat.mul_comm (suc b) (suc a)) in
    ground (arith, e)
overflows_multiply-fits max (negsuc a) (pos zero) f g = ground arith
overflows_multiply-fits max (negsuc a) (pos (suc b)) f g =
    let e = below_quotient max b a in ground (arith, e)
overflows_multiply-fits max (negsuc a) (negsuc b) f g =
    let e =
      below_minus a (max / suc b) ∙ ltb_div max b (suc a) ∙ sym (not-leb (suc a * suc b) max) in
    ground (arith, e)

-- scm_int_multiply gives the product of two fixnums just where it is one, and else the overflow error.
pub int_multiply-checked :
    (max : ℕ) (n1 n2 : ℤ)
    → fits max n1 ≡ true
    → fits max n2 ≡ true
    → int_multiply max n1 n2 ≡ checked max (n1 *ℤ n2)
unfolding int_multiply
int_multiply-checked max n1 n2 f g = ground (arith, overflows_multiply-fits max n1 n2 f g)
