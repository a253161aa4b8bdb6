-- ===== src/Number/Product.antt =====
-- Products and powers of the integers of src/number.c, and those that are no fixnums.
use native.Mathlib.Nat
use sigscheme.Base.{
  ℕ, zero, suc, ◌+◌, ◌*◌, ◌≤◌, ◌<◌, ◌≡◌, refl, sym, ap, ◌∙◌, Bool, true, false, not, arith,
}
use sigscheme.Base.Int.{ℤ, pos, negsuc, ◌*ℤ◌, fits, magnitude, minus_ℕ}

-- An integer by its sign and its magnitude.
abbrev signed : Bool → ℕ → ℤ
signed true n = minus_ℕ n
signed false n = pos n

abbrev xor : Bool → Bool → Bool
xor true b = not b
xor false b = b

signed_mul : (s t : Bool) (a b : ℕ) → signed s a *ℤ signed t b ≡ signed (xor s t) (a * b)
unfolding ◌*ℤ◌
signed_mul false false a b = refl
signed_mul false true a zero = ground arith
signed_mul false true a (suc b) = refl
signed_mul true false zero b = ground arith
signed_mul true false (suc a) b = refl
signed_mul true true zero b = ground arith
signed_mul true true (suc a) zero = ground arith
signed_mul true true (suc a) (suc b) = refl

xor_assoc : (s t u : Bool) → xor (xor s t) u ≡ xor s (xor t u)
xor_assoc s t u = ground arith

by_sign : (Q : ℤ → Type 0) → ((s : Bool) (n : ℕ) → Q (signed s n)) → (z : ℤ) → Q z
by_sign Q q (pos n) = q false n
by_sign Q q (negsuc n) = q true (suc n)

signed_assoc :
    (s t u : Bool) (a b c : ℕ)
    → signed s a *ℤ signed t b *ℤ signed u c ≡ signed s a *ℤ (signed t b *ℤ signed u c)
signed_assoc s t u a b c =
    ap (λ z. z *ℤ signed u c) (signed_mul s t a b)
    ∙ signed_mul (xor s t) u (a * b) c
    ∙ ap (λ w. signed w (a * b * c)) (xor_assoc s t u)
    ∙ ap (λ n. signed (xor s (xor t u)) n) (Nat.mul_assoc a b c)
    ∙ sym (ap (λ z. signed s a *ℤ z) (signed_mul t u b c) ∙ signed_mul s (xor t u) a (b * c))

pub *ℤ_assoc : (x y z : ℤ) → x *ℤ y *ℤ z ≡ x *ℤ (y *ℤ z)
*ℤ_assoc x y z =
    by_sign (λ x. x *ℤ y *ℤ z ≡ x *ℤ (y *ℤ z))
      (λ s a.
        by_sign (λ y. signed s a *ℤ y *ℤ z ≡ signed s a *ℤ (y *ℤ z))
          (λ t b.
            by_sign (λ z. signed s a *ℤ signed t b *ℤ z ≡ signed s a *ℤ (signed t b *ℤ z))
              (λ u c. signed_assoc s t u a b c) z)
          y)
      x

pub magnitude_mul : (x y : ℤ) → magnitude (x *ℤ y) ≡ magnitude x * magnitude y
unfolding ◌*ℤ◌
magnitude_mul (pos a) (pos b) = refl
magnitude_mul (pos a) (negsuc b) = ground arith
magnitude_mul (negsuc a) (pos b) = ground arith
magnitude_mul (negsuc a) (negsuc b) = refl

pub mul_one : (z : ℤ) → z *ℤ pos 1 ≡ z
unfolding ◌*ℤ◌
mul_one (pos n) = ground arith
mul_one (negsuc n) = ground arith

pub one_mul : (z : ℤ) → pos 1 *ℤ z ≡ z
unfolding ◌*ℤ◌
one_mul (pos n) = ground arith
one_mul (negsuc n) = ground arith

abbrev pub power : ℤ → ℕ → ℤ
power b zero = pos 1
power b (suc e) = b *ℤ power b e

pub square_power : (b : ℤ) (k : ℕ) → power b (k + k) ≡ power (b *ℤ b) k
square_power b zero = refl
square_power b (suc k) =
    ap (power b) twice
    ∙ sym (*ℤ_assoc b b (power b (k + k)))
    ∙ ap (λ z. b *ℤ b *ℤ z) (square_power b k)
  where
    twice : suc k + suc k ≡ suc (suc (k + k))
    twice = omega arith

-- An integer that is no fixnum is none after a multiplication by a positive one.
pub unfit_grows : (max m : ℕ) (z : ℤ) → fits max z ≡ false → fits max (z *ℤ pos (suc m)) ≡ false
unfolding ◌*ℤ◌
unfit_grows max m (pos n) e = let le : n ≤ n * suc m = omega arith in ground (arith, e, le)
unfit_grows max m (negsuc n) e =
    let le : suc n ≤ suc n * suc m = omega arith in ground (arith, e, le)

pub unfit : (max : ℕ) (z : ℤ) → fits max z ≡ false → max < magnitude z
unfit max z e = ground arith

pub unfit_beyond : (max : ℕ) (z : ℤ) → suc max < magnitude z → fits max z ≡ false
unfit_beyond max z lt = ground arith

pub square : (b : ℤ) → b *ℤ b ≡ pos (magnitude b * magnitude b)
unfolding ◌*ℤ◌
square (pos n) = refl
square (negsuc n) = refl

power_pos : (n k : ℕ) → 0 < n → (m : ℕ) × (power (pos n) k ≡ pos (suc m))
unfolding ◌*ℤ◌
power_pos n zero lt = (0, refl)
power_pos zero (suc k) lt = absurd (omega arith)
power_pos (suc n) (suc k) lt =
    let (m, e) = power_pos (suc n) k (omega arith) in
    (m + n * suc m, ap (λ z. pos (suc n) *ℤ z) e ∙ ap pos (omega arith))

-- The powers of the square of an integer that is not 0 are positive.
pub power_square : (b : ℤ) (k : ℕ) → 0 < magnitude b → (m : ℕ) × (power (b *ℤ b) k ≡ pos (suc m))
power_square b k lt =
    let (m, e) = power_pos (magnitude b * magnitude b) k (Nat.mul-pos lt lt) in
    (m, ap (λ z. power z k) (square b) ∙ e)

pub product_above : (m n : ℕ) → 1 < m → 1 < n → 1 < m * n
product_above zero n hm hn = absurd (omega arith)
product_above (suc m) zero hm hn = absurd (omega arith)
product_above (suc m) (suc n) hm hn = omega arith

pub above_square : (n max : ℕ) → 0 < max → max < n * n → 1 < n
above_square zero max lt le = absurd (omega arith)
above_square (suc zero) max lt le = absurd (omega arith)
above_square (suc (suc n)) max lt le = omega arith

pub doubled : (k n m max : ℕ) → 1 < k → max < n → 0 < max → suc max < k * (n * suc m)
doubled zero n m max hk hn pos_max = absurd (omega arith)
doubled (suc zero) n m max hk hn pos_max = absurd (omega arith)
doubled (suc (suc k)) n m max hk hn pos_max =
    let le : n ≤ n * suc m = omega arith in
    let two : n * suc m + n * suc m ≤ suc (suc k) * (n * suc m) = omega arith in omega arith
