-- ===== src/Number/Gcd.antt =====
-- src/number.c: gcd and lcm of fixnums.
use Prim.Native.Nat.{◌∣◌}
use native.Mathlib.Nat
use sigscheme.Base.{
  ℕ, zero, suc, ◌%◌, ◌<◌, ◌≡◌, refl, sym, subst, ◌↔◌, inl, inr, true, false, ◌||◌, arith,
  if◌then◌else◌, Bool-cases,
}
use sigscheme.Base.Int.{ℤ, pos, negsuc, int_eq, ◌-ℤ◌, tdiv, tmod, fits, magnitude}
use sigscheme.Object.{int}
use sigscheme.Number.{
  Result, value, error, not_reached, out_of_fuel, ◌>>=◌, fixnum_overflow, int_min, negative,
  ensure_int, int_remainder, int_multiply,
}
use sigscheme.Number.Reduction.{reduce_0, stop, operand, Operator}
use sigscheme.Number.Division.{magnitude_minus}
use sigscheme.Number.Divide.{int_remainder-tmod}
use sigscheme.Number.Fixnum.{checked}

unfoldable pub gcd_loop : ℕ → ℤ → ℤ → Result ℤ
unfolding int_remainder
gcd_loop zero x y = out_of_fuel
gcd_loop (suc fuel) x y = elim (int_eq x (pos 0)) [
  | true ↦ value y
  | false ↦ int_remainder y x >>= λ rem. gcd_loop fuel rem x
]

unfoldable pub gcd : ℕ → ℕ → ℤ → ℤ → Result ℤ
unfolding gcd_loop ◌-ℤ◌
gcd max fuel x y = gcd_loop fuel x y >>= λ z.
    if int_eq z (int_min max)
    then error fixnum_overflow
    else value (if negative z then pos 0 -ℤ z else z)

unfoldable pub p_gcd : ℕ → ℕ → Operator
unfolding gcd
p_gcd max fuel left right reduce_0 = value (int (pos 0), reduce_0)
p_gcd max fuel left right stop = not_reached
p_gcd max fuel left right state = operand left state (pos 0) >>= λ l.
    ensure_int right >>= λ r. gcd max fuel l r >>= λ n. value (int n, state)

abbrev pub lcm_ints : ℕ → ℕ → ℤ → ℤ → Result ℤ
lcm_ints max fuel l r =
    if int_eq l (pos 0) || int_eq r (pos 0)
    then value (pos 0)
    else (gcd max fuel l r >>= λ g. int_multiply max l (tdiv r g))

-- The end of scm_p_lcm.
abbrev pub unsigned : ℕ → ℤ → Result ℤ
unsigned max n =
    if int_eq n (int_min max)
    then error fixnum_overflow
    else value (if negative n then pos 0 -ℤ n else n)

unfoldable pub p_lcm : ℕ → ℕ → Operator
unfolding gcd int_multiply tdiv ◌-ℤ◌
p_lcm max fuel left right reduce_0 = value (int (pos 1), reduce_0)
p_lcm max fuel left right stop = not_reached
p_lcm max fuel left right state = operand left state (pos 1) >>= λ l. ensure_int right >>= λ r.
    lcm_ints max fuel l r >>= λ n. unsigned max n >>= λ m. value (int m, state)

-- What divides `g` are the common divisors, so that `g` is the greatest of them.
abbrev pub IsGcd : ℕ → ℤ → ℤ → Type 0
IsGcd g x y = (k : ℕ) → (k ∣ g) ↔ ((k ∣ magnitude x) × (k ∣ magnitude y))

magnitude-tmod : (y x : ℤ) → magnitude (tmod y x) ≡ magnitude y % magnitude x
unfolding tmod
magnitude-tmod (pos n) x = refl
magnitude-tmod (negsuc n) x = magnitude_minus (suc n % magnitude x)

mod_below : (x y : ℤ) → int_eq x (pos 0) ≡ false → magnitude y % magnitude x < magnitude x
mod_below (pos zero) y ne = ground arith
mod_below (pos (suc n)) y ne = omega arith
mod_below (negsuc n) y ne = omega arith

magnitude_zero : (x : ℤ) → int_eq x (pos 0) ≡ true → magnitude x ≡ 0
magnitude_zero x e = ground arith

IsGcd-remainder :
    (g : ℕ) (x y rem : ℤ) → magnitude rem ≡ magnitude y % magnitude x → IsGcd g rem x → IsGcd g x y
IsGcd-remainder g x y rem e is k = (
  (λ d.
      let (at_rem, at_x) = (is k).0 d in
      (at_x, (Nat.dvd-mod_iff k at_x).0 (subst (λ n. k ∣ n) e at_rem))),
  (λ d. (is k).1 (subst (λ n. k ∣ n) (sym e) ((Nat.dvd-mod_iff k d.0).1 d.1), d.0)),
)

below_fits : (max : ℕ) (x r : ℤ) → fits max x ≡ true → magnitude r < magnitude x → fits max r ≡ true
below_fits max x r f lt = ground arith

gcd_loop-IsGcd :
    (fuel max : ℕ) (x y : ℤ)
    → magnitude x < fuel
    → fits max x ≡ true
    → fits max y ≡ true
    → (z : ℤ) × (gcd_loop fuel x y ≡ value z) × (fits max z ≡ true) × IsGcd (magnitude z) x y
unfolding gcd_loop
gcd_loop-IsGcd zero max x y lt f h = absurd (omega arith)
gcd_loop-IsGcd (suc fuel) max x y lt f h = elim (Bool-cases (int_eq x (pos 0))) [
  | inl e ↦ (
    y,
    ground (arith, e),
    h,
    λ k. ((λ d. (rw (magnitude_zero x e) (Nat.dvd-zero k), d)), λ d. d.1),
  )
  | inr ne ↦
      let rem : ℤ = tmod y x in
      let runs : int_remainder y x ≡ value rem = int_remainder-tmod y x ne in
      let e : magnitude rem ≡ magnitude y % magnitude x = magnitude-tmod y x in
      let small : magnitude rem < magnitude x = rw e (mod_below x y ne) in
      let (z, ends, fit, is) =
        gcd_loop-IsGcd fuel max rem x (omega arith) (below_fits max x rem f small) f in
      (z, ground (arith, ne, runs, ends), fit, IsGcd-remainder (magnitude z) x y rem e is)
]

-- gcd ends with fuel for one more step than the magnitude of its first argument, and gives the greatest
-- common divisor of two fixnums, or the overflow error where that is no fixnum.
pub gcd-IsGcd :
    (max fuel : ℕ) (x y : ℤ)
    → magnitude x < fuel
    → fits max x ≡ true
    → fits max y ≡ true
    → (g : ℕ) × (gcd max fuel x y ≡ checked max (pos g)) × IsGcd g x y
unfolding gcd ◌-ℤ◌
gcd-IsGcd max fuel x y lt f h =
    let (z, ends, fit, is) = gcd_loop-IsGcd fuel max x y lt f h in
    (magnitude z, rw ends (ground (arith, fit)), is)
