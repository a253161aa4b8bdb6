-- ===== src/Number/Power.antt =====
-- src/number.c: expt against powers of integers.
use sigscheme.Base.{
  ℕ, zero, suc, ◌+◌, ◌*◌, ◌/◌, ◌%◌, ◌<◌, ◌≡◌, refl, sym, ap, subst, ◌∙◌, ◌⊎◌, inl, inr, true, false,
  arith, ltb, ◌==◌, if◌then◌else◌, Bool-cases,
}
use sigscheme.Base.Int.{ℤ, pos, ◌*ℤ◌, fits, magnitude}
use sigscheme.Number.{Result, value, error, ◌>>=◌, fixnum_overflow, int_multiply}
use sigscheme.Number.Fixnum.{int_multiply-checked}
use sigscheme.Number.Expt.{expt_loop, p_expt}
use sigscheme.Object.{int}
use sigscheme.Number.Product.{
  *ℤ_assoc, magnitude_mul, mul_one, one_mul, power, square_power, unfit_grows, unfit, unfit_beyond,
  power_square, product_above, above_square, doubled,
}

-- The integer where it is a fixnum, or the overflow error where it is none.
abbrev pub PowerAnswer : ℕ → Result ℤ → ℤ → Type 0
PowerAnswer max result z =
    ((result ≡ value z) × (fits max z ≡ true))
    ⊎ ((result ≡ error fixnum_overflow) × (fits max z ≡ false))

-- What has been multiplied so far: nothing, or what grows with the base.
abbrev pub Grown : ℤ → ℤ → Type 0
Grown b r = (r ≡ pos 1) ⊎ (1 < magnitude b → 1 < magnitude r)

Grown-square : (b r : ℤ) → Grown b r → Grown (b *ℤ b) r
Grown-square b r (inl one) = inl one
Grown-square b r (inr grows) = inr (λ lt.
    grows (above_square (magnitude b) 1 (omega arith) (subst (λ n. 1 < n) (magnitude_mul b b) lt)))

Grown-product : (b r : ℤ) → Grown b r → Grown b (r *ℤ b)
Grown-product b r (inl one) = inr (λ lt. rw one (rw (one_mul b) lt))
Grown-product b r (inr grows) =
    inr (λ lt. rw (magnitude_mul r b) (product_above (magnitude r) (magnitude b) (grows lt) lt))

-- Where the square of the base is no fixnum, no product with a power of the square is one.
square-unfit :
    (max : ℕ) (r b : ℤ) (k : ℕ)
    → 0 < max
    → Grown b r
    → fits max (b *ℤ b) ≡ false
    → fits max (r *ℤ power (b *ℤ b) (suc k)) ≡ false
square-unfit max r b k pos_max grown over =
    let big : max < magnitude b * magnitude b =
      subst (λ n. max < n) (magnitude_mul b b) (unfit max (b *ℤ b) over) in
    let above = above_square (magnitude b) max pos_max big in
    let (m, e) = power_square b k (omega (arith, above)) in
    let product : fits max (b *ℤ b *ℤ power (b *ℤ b) k) ≡ false =
      rw e (unfit_grows max m (b *ℤ b) over) in
    elim grown [
      | inl one ↦ rw one (rw (one_mul (b *ℤ b *ℤ power (b *ℤ b) k)) product)
      | inr grows ↦ unfit_beyond max (r *ℤ (b *ℤ b *ℤ power (b *ℤ b) k)) (
          rw (magnitude_mul r (b *ℤ b *ℤ power (b *ℤ b) k)) (
            rw (magnitude_mul (b *ℤ b) (power (b *ℤ b) k)) (
              rw (magnitude_mul b b) (
                rw e (
                  doubled (magnitude r) (magnitude b * magnitude b) m max (grows above) big
                    pos_max)))))
    ]

positive_factor : (m n : ℕ) → 0 < m * n → 0 < n
positive_factor m zero lt = absurd (omega arith)
positive_factor m (suc n) lt = omega arith

product-unfit :
    (max : ℕ) (r b : ℤ) (k : ℕ)
    → fits max (r *ℤ b) ≡ false
    → fits max (r *ℤ b *ℤ power (b *ℤ b) k) ≡ false
product-unfit max r b k over =
    let big : max < magnitude r * magnitude b =
      subst (λ n. max < n) (magnitude_mul r b) (unfit max (r *ℤ b) over) in
    let (m, e) =
      power_square b k (positive_factor (magnitude r) (magnitude b) (omega (arith, big))) in
    rw e (unfit_grows max m (r *ℤ b) over)

-- The second half of a round, in which the base is squared unless the loop is at its end.
squares :
    (max fuel : ℕ) (r b : ℤ) (k : ℕ)
    → 0 < max
    → ((c : ℤ)
        → fits max c ≡ true
        → Grown c r
        → PowerAnswer max (expt_loop max fuel r c k) (r *ℤ power c k))
    → fits max b ≡ true
    → Grown b r
    → PowerAnswer max
        ((if ltb 0 k then int_multiply max b b else value b) >>= λ c. expt_loop max fuel r c k)
        (r *ℤ power (b *ℤ b) k)
squares max fuel r b zero pos_max rest f grown = rest b f grown
squares max fuel r b (suc k) pos_max rest f grown =
    let more : ltb 0 (suc k) ≡ true = ground arith in
    elim (Bool-cases (fits max (b *ℤ b))) [
      | inl fit ↦ rw more (
          rw (int_multiply-checked max b b f f)
            (rw fit (rest (b *ℤ b) fit (Grown-square b r grown))))
      | inr over ↦ inr (
        rw more (rw (int_multiply-checked max b b f f) (rw over refl)),
        square-unfit max r b k pos_max grown over,
      )
    ]

-- A power by that of the half of the exponent and of the square.
power_odd : (r b : ℤ) (k : ℕ) → r *ℤ power b (suc (k + k)) ≡ r *ℤ b *ℤ power (b *ℤ b) k
power_odd r b k = sym (*ℤ_assoc r b (power b (k + k))) ∙ ap (λ z. r *ℤ b *ℤ z) (square_power b k)

power_even : (r b : ℤ) (k : ℕ) → r *ℤ power b (k + k) ≡ r *ℤ power (b *ℤ b) k
power_even r b k = ap (λ z. r *ℤ z) (square_power b k)

pub expt_loop-Power :
    (max fuel : ℕ) (r b : ℤ) (e : ℕ)
    → 0 < max
    → e < fuel
    → fits max r ≡ true
    → fits max b ≡ true
    → Grown b r
    → PowerAnswer max (expt_loop max fuel r b e) (r *ℤ power b e)
unfolding expt_loop
expt_loop-Power max zero r b e pos_max lt f g grown = absurd (omega arith)
expt_loop-Power max (suc fuel) r b zero pos_max lt f g grown = rw (mul_one r) (inl (refl, f))
expt_loop-Power max (suc fuel) r b (suc n) pos_max lt f g grown =
    let k : ℕ = suc n / 2 in
    let again : (r' : ℤ)
        → fits max r' ≡ true
        → (c : ℤ) → fits max c ≡ true
        → Grown c r'
        → PowerAnswer max (expt_loop max fuel r' c k) (r' *ℤ power c k) =
      λ r' f' c g' grown'. expt_loop-Power max fuel r' c k pos_max (omega arith) f' g' grown' in
    elim (Bool-cases (suc n % 2 == 1)) [
      | inr even ↦
          let half : suc n ≡ k + k = ground (arith, even) in
          rw even (
            rw (ap (λ m. r *ℤ power b m) half ∙ power_even r b k)
              (squares max fuel r b k pos_max (again r f) g grown))
      | inl odd ↦
          let half : suc n ≡ suc (k + k) = ground (arith, odd) in
          let final = ap (λ m. r *ℤ power b m) half ∙ power_odd r b k in
          elim (Bool-cases (fits max (r *ℤ b))) [
            | inl fit ↦ rw odd (
                rw (int_multiply-checked max r b f g) (
                  rw fit (
                    rw final (
                      squares max fuel (r *ℤ b) b k pos_max (again (r *ℤ b) fit) g
                        (Grown-product b r grown)))))
            | inr over ↦ inr (
              rw odd (rw (int_multiply-checked max r b f g) (rw over refl)),
              rw final (product-unfit max r b k over),
            )
          ]
    ]

-- expt of a fixnum and an exponent that is not negative ends with more fuel than the exponent. It gives
-- the power where that is a fixnum, and the overflow error where it is none: no overflow on the way is a
-- false one.
pub p_expt-Power :
    (max fuel : ℕ) (b : ℤ) (e : ℕ)
    → 0 < max
    → fits max b ≡ true
    → e < fuel
    → ((p_expt max fuel (int b) (int (pos e)) ≡ value (int (power b e)))
        × (fits max (power b e) ≡ true))
      ⊎ ((p_expt max fuel (int b) (int (pos e)) ≡ error fixnum_overflow)
          × (fits max (power b e) ≡ false))
unfolding p_expt
p_expt-Power max fuel b e lt f enough =
    elim (expt_loop-Power max fuel (pos 1) b e lt enough (ground arith) f (inl refl)) [
      | inl (runs, fit) ↦ inl (
        rw runs (ap (λ z. value (int z)) (one_mul (power b e))),
        rw (sym (one_mul (power b e))) fit,
      )
      | inr (ends, over) ↦
          inr (rw ends refl, subst (λ z. fits max z ≡ false) (one_mul (power b e)) over)
    ]
