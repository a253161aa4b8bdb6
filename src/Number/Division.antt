-- ===== src/Number/Division.antt =====
-- src/number.c: the divisions of fixnums against the integers.
use native.Mathlib.Nat
use sigscheme.Base.{
  ℕ, zero, suc, ◌+◌, ◌*◌, ◌/◌, ◌%◌, ◌<◌, ◌≡◌, refl, ap, ◌∙◌, ◌⊎◌, true, false, arith,
}
use sigscheme.Base.Int.{ℤ, pos, negsuc, int_eq, ◌+ℤ◌, ◌*ℤ◌, tdiv, tmod, minus_ℕ, magnitude}
use sigscheme.Number.{negative}

minus_mul-pos : (q k : ℕ) → minus_ℕ q *ℤ pos k ≡ minus_ℕ (q * k)
unfolding ◌*ℤ◌
minus_mul-pos zero k = ground arith
minus_mul-pos (suc q) k = refl

minus_mul-negsuc : (q k : ℕ) → minus_ℕ q *ℤ negsuc k ≡ pos (q * suc k)
unfolding ◌*ℤ◌
minus_mul-negsuc zero k = ground arith
minus_mul-negsuc (suc q) k = refl

minus_add : (a b : ℕ) → minus_ℕ a +ℤ minus_ℕ b ≡ minus_ℕ (a + b)
unfolding ◌+ℤ◌
minus_add a b = ground arith

pos_add : (a b : ℕ) → pos a +ℤ pos b ≡ pos (a + b)
unfolding ◌+ℤ◌
pos_add a b = ground arith

pub tdiv_sum : (n1 n2 : ℤ) → tdiv n1 n2 *ℤ n2 +ℤ tmod n1 n2 ≡ n1
unfolding tdiv tmod ◌*ℤ◌
tdiv_sum (pos a) (pos b) = pos_add (a / b * b) (a % b) ∙ ap pos (Nat.div-add-mod' a b)
tdiv_sum (pos a) (negsuc b) =
    ap (λ z. z +ℤ pos (a % suc b)) (minus_mul-negsuc (a / suc b) b)
    ∙ pos_add (a / suc b * suc b) (a % suc b)
    ∙ ap pos (Nat.div-add-mod' a (suc b))
tdiv_sum (negsuc a) (pos b) =
    ap (λ z. z +ℤ minus_ℕ (suc a % b)) (minus_mul-pos (suc a / b) b)
    ∙ minus_add (suc a / b * b) (suc a % b)
    ∙ ap minus_ℕ (Nat.div-add-mod' (suc a) b)
tdiv_sum (negsuc a) (negsuc b) =
    minus_add (suc a / suc b * suc b) (suc a % suc b)
    ∙ ap minus_ℕ (Nat.div-add-mod' (suc a) (suc b))

pub magnitude_minus : (n : ℕ) → magnitude (minus_ℕ n) ≡ n
magnitude_minus n = ground arith

pub tmod_small : (n1 n2 : ℤ) → int_eq n2 (pos 0) ≡ false → magnitude (tmod n1 n2) < magnitude n2
unfolding tmod
tmod_small (pos a) (pos zero) ne = ground arith
tmod_small (pos a) (pos (suc b)) ne = omega arith
tmod_small (pos a) (negsuc b) ne = omega arith
tmod_small (negsuc a) (pos zero) ne = ground arith
tmod_small (negsuc a) (pos (suc b)) ne = rw (magnitude_minus (suc a % suc b)) (omega arith)
tmod_small (negsuc a) (negsuc b) ne = rw (magnitude_minus (suc a % suc b)) (omega arith)

pub tmod_sign :
    (n1 n2 : ℤ) → (int_eq (tmod n1 n2) (pos 0) ≡ true) ⊎ (negative (tmod n1 n2) ≡ negative n1)
unfolding tmod
tmod_sign (pos a) n2 = ground arith
tmod_sign (negsuc a) n2 = ground arith
