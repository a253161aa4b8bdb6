-- ===== src/Base/Bits.antt =====
-- Bit operations as arithmetic: the law for the lowest digit, and what follows for fields and masks.
use Prim.Native.Nat.{
  ℕ, zero, suc, ◌+◌, ◌-◌, ◌*◌, ◌/◌, ◌%◌, ◌^◌, ◌<◌, ◌≤◌, min, max, digits, bitwise, bit_and, bit_or,
  bit_and-bitwise, bit_or-bitwise,
}
use mathlib.Core.Path.{◌≡◌, refl, ap, ◌∙◌}
use mathlib.Core.WellFounded
use native.Mathlib.Nat.{pow-suc}
use native.Mathlib.Omega.{arith}
use mathlib.Core.Bool.{Bool, true, false}
use sigscheme.Base.Order.{lt_wf}
use sigscheme.Base.Tests.{◌==◌, ==_iff, if◌then◌else◌}

-- More rounds than there are digits change nothing, whatever the operation on one digit.
module _ (last : ℕ → ℕ) (op : ℕ → ℕ → ℕ) where
  out_of_digits : (rounds y : ℕ) → digits last op rounds 0 y ≡ last y
  out_of_digits zero y = refl
  out_of_digits (suc rounds) y = refl

  spare_rounds :
      (extra rounds x y : ℕ)
      → x ≤ rounds
      → digits last op (rounds + extra) x y ≡ digits last op rounds x y
  spare_rounds extra rounds zero y fits =
      cc (out_of_digits (rounds + extra) y, out_of_digits rounds y)
  spare_rounds extra zero (suc x) y fits = absurd (omega arith)
  spare_rounds extra (suc rounds) (suc x) y fits =
      let shift : suc rounds + extra ≡ suc (rounds + extra) = omega arith in
      let rest = spare_rounds extra rounds (suc x / 2) (y / 2) (omega arith) in
      ap (λ (n : ℕ). digits last op n (suc x) y) shift
      ∙ ap (λ (r : ℕ). r * 2 + op (suc x % 2) (y % 2)) rest

  -- One round of a number takes its lowest digit, and leaves the rounds of its half.
  bitwise_step :
      (x y : ℕ)
      → bitwise last op (suc x) y ≡ bitwise last op (suc x / 2) (y / 2) * 2 + op (suc x % 2) (y % 2)
  bitwise_step x y =
      let half = suc x / 2 in
      let split : half + (x - half) ≡ x = omega arith in
      let spare = spare_rounds (x - half) half half (y / 2) (omega arith) in
      omega (arith, ap (λ (n : ℕ). digits last op n half (y / 2)) split, spare)

pub bit_and_step : (a b : ℕ) → bit_and a b ≡ bit_and (a / 2) (b / 2) * 2 + min (a % 2) (b % 2)
bit_and_step zero b = ground (arith, bit_and-bitwise 0 b, bit_and-bitwise 0 (b / 2))
bit_and_step (suc a) b =
    let here = bit_and-bitwise (suc a) b in
    let rest = bit_and-bitwise (suc a / 2) (b / 2) in
    ground (arith, here, rest, bitwise_step (λ _. zero) min a b)

pub bit_or_step : (a b : ℕ) → bit_or a b ≡ bit_or (a / 2) (b / 2) * 2 + max (a % 2) (b % 2)
bit_or_step zero b = ground (arith, bit_or-bitwise 0 b, bit_or-bitwise 0 (b / 2))
bit_or_step (suc a) b =
    let here = bit_or-bitwise (suc a) b in
    let rest = bit_or-bitwise (suc a / 2) (b / 2) in
    ground (arith, here, rest, bitwise_step (λ b. b) max a b)

pub zero-bit_and : (b : ℕ) → bit_and 0 b ≡ 0
zero-bit_and b = bit_and-bitwise 0 b

pub zero-bit_or : (b : ℕ) → bit_or 0 b ≡ b
zero-bit_or b = bit_or-bitwise 0 b

bit_or-zero : (a : ℕ) → bit_or a 0 ≡ a
bit_or-zero a = WellFounded.induction lt_wf {C = λ n. bit_or n 0 ≡ n} a (elim [
  | zero ↦ λ _. refl
  | suc n ↦ λ ih. omega (arith, bit_or_step (suc n) 0, ih (suc n / 2) (omega arith))
])

two_pow_suc : (q k : ℕ) → q * 2 ^ suc k ≡ 2 * (q * 2 ^ k)
two_pow_suc q k = omega (arith, ap (λ (t : ℕ). q * t) (pow-suc 2 k))

-- `(q << k) | r` is a sum where `r` fits into `k` bits.
pub bit_or_low : (k q r : ℕ) → r < 2 ^ k → bit_or (q * 2 ^ k) r ≡ q * 2 ^ k + r
bit_or_low zero q r fits = ground (arith, bit_or-zero q)
bit_or_low (suc k) q r fits =
    ground
      (arith, bit_or_step (q * 2 ^ suc k) r, two_pow_suc q k, bit_or_low k q (r / 2) (omega arith))

-- Bits above a mask of `k` bits do not reach the conjunction, and pass the disjunction.
pub bit_and_low : (k a q r : ℕ) → a < 2 ^ k → r < 2 ^ k → bit_and a (q * 2 ^ k + r) ≡ bit_and a r
bit_and_low zero a q r ha hr = ground (arith, zero-bit_and (q * 2 ^ 0 + r), zero-bit_and r)
bit_and_low (suc k) a q r ha hr = ground (
  arith,
  bit_and_step a (q * 2 ^ suc k + r),
  bit_and_step a r,
  two_pow_suc q k,
  pow-suc 2 k,
  bit_and_low k (a / 2) q (r / 2) (ground (arith, pow-suc 2 k)) (ground (arith, pow-suc 2 k)),
)

pub bit_or_high :
    (k a q r : ℕ) → a < 2 ^ k → r < 2 ^ k → bit_or a (q * 2 ^ k + r) ≡ q * 2 ^ k + bit_or a r
bit_or_high zero a q r ha hr = ground (arith, zero-bit_or (q * 2 ^ 0 + r), zero-bit_or r)
bit_or_high (suc k) a q r ha hr = ground (
  arith,
  bit_or_step a (q * 2 ^ suc k + r),
  bit_or_step a r,
  two_pow_suc q k,
  pow-suc 2 k,
  bit_or_high k (a / 2) q (r / 2) (ground (arith, pow-suc 2 k)) (ground (arith, pow-suc 2 k)),
)

-- A law over a small range, checked value by value.
unfoldable pub all_below : ℕ → (ℕ → Bool) → Bool
all_below zero p = true
all_below (suc n) p = if p n then all_below n p else false

pub true_below : (n : ℕ) (p : ℕ → Bool) → all_below n p ≡ true → (i : ℕ) → i < n → p i ≡ true
unfolding all_below
true_below zero p e i h = absurd (omega arith)
true_below (suc n) p e i h = ground (arith, true_below n p (ground arith) i)

pub eq_below :
    (n : ℕ) (f g : ℕ → ℕ) → all_below n (λ i. f i == g i) ≡ true → (i : ℕ) → i < n → f i ≡ g i
eq_below n f g e i h = (==_iff (f i) (g i)).0 (true_below n (λ i. f i == g i) e i h)

-- ch & BYTE_MASK
pub byte_mask : (c : ℕ) → bit_and 255 c ≡ c % 256
unfolding all_below
byte_mask c =
    let split : c ≡ c / 256 * 2 ^ 8 + c % 256 = omega arith in
    ap (λ (x : ℕ). bit_and 255 x) split
    ∙ bit_and_low 8 255 (c / 256) (c % 256) (omega arith) (omega arith)
    ∙ eq_below 256 (λ x. bit_and 255 x) (λ x. x) refl (c % 256) (omega arith)
