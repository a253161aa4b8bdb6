-- ===== src/NumberIo/Written.antt =====
-- src/number-io.c: what number->string writes for a fixnum.
use mathlib.Core.Path.{ap₂}
use mathlib.Core.List.{append-nil}
use sigscheme.Base.{
  ℕ, zero, suc, ◌+◌, ◌-◌, ◌^◌, ◌≤◌, ◌<◌, ◌≡◌, refl, ap, ◌∙◌, Bool, true, false, some, [], ◌∷◌, ◌++◌,
  arith,
}
use sigscheme.Base.Int.{ℤ, pos, negsuc, fits, minus_ℕ}
use sigscheme.Object.{int}
use sigscheme.Number.{value, ◌>>=◌}
use sigscheme.NumberIo.{
  Text, plain_format, valid_radixp, prepare_radix, digit_loop, minus_sign, padded, with_sign,
  is_negative, unsigned_magnitude, written, text_or, int2string, as_unsigned, number2string,
}
use sigscheme.NumberIo.Digits.{Digits, digit_loop-Digits}

-- The integer of a sign and a magnitude.
abbrev pub signed : Bool → ℕ → ℤ
signed true n = minus_ℕ n
signed false n = pos n

padded-plain : (p : Text) → padded plain_format false p ≡ p
padded-plain p = ground arith

with_sign-plain :
    (neg : Bool) (p : Text) (room : ℕ)
    → with_sign plain_format neg (p, suc room) ≡ some (minus_sign neg ++ p)
with_sign-plain true p room = ap some (padded-plain (45 ∷ p))
with_sign-plain false p room = ap some (padded-plain p)

int2string-plain :
    (bits n radix m : ℕ) (neg : Bool)
    → 1 < radix
    → 0 < bits
    → is_negative bits plain_format n ≡ neg
    → unsigned_magnitude bits neg n ≡ m
    → m < 2 ^ bits
    → (cs : Text) × (int2string bits plain_format n radix ≡ some (minus_sign neg ++ cs))
      × Digits radix m cs
unfolding int2string
int2string-plain bits n radix m neg lt pos_bits e f small =
    let (cs, left, runs, d) = digit_loop-Digits bits m radix [] lt pos_bits small in
    (
      cs,
      ap₂ (λ b k. written plain_format b (digit_loop (suc bits) k radix [])) e
            (ap (λ b. unsigned_magnitude bits b n) e ∙ f)
          ∙ ap (written plain_format neg) runs
          ∙ with_sign-plain neg (cs ++ []) left
          ∙ ap (λ l. some (minus_sign neg ++ l)) (append-nil cs),
      d,
    )

double : (bits : ℕ) → 0 < bits → 2 ^ bits ≡ 2 ^ (bits - 1) + 2 ^ (bits - 1)
double zero lt = absurd (omega arith)
double (suc b) lt =
    let below : suc b - 1 ≡ b = omega arith in
    let same : 2 ^ (suc b - 1) ≡ 2 ^ b = ap (λ (k : ℕ). 2 ^ k) below in omega (arith, same)

-- A fixnum as an unsigned integer: whether it is taken for a negative one, and the magnitude.
as_unsigned-signed :
    (bits max : ℕ) (z : ℤ)
    → 0 < bits
    → max + 1 ≤ 2 ^ (bits - 1)
    → fits max z ≡ true
    → (neg : Bool) × (m : ℕ) × (is_negative bits plain_format (as_unsigned bits z) ≡ neg)
      × (unsigned_magnitude bits neg (as_unsigned bits z) ≡ m)
      × (m < 2 ^ bits)
      × (signed neg m ≡ z)
as_unsigned-signed bits max (pos n) lt e f =
    let two = double bits lt in
    (false, n, ground (arith, e, f), refl, ground (arith, e, f, two), refl)
as_unsigned-signed bits max (negsuc n) lt e f =
    let two = double bits lt in
    (
      true,
      suc n,
      ground (arith, e, f, two),
      ground (arith, e, f, two),
      ground (arith, e, f, two),
      refl,
    )

valid_above : (r : ℕ) → valid_radixp r ≡ true → 1 < r
valid_above r e = ground (arith, e)

pub prepare_radix-valid :
    (r : ℕ) → valid_radixp r ≡ true → prepare_radix (int (pos r) ∷ []) ≡ value r
unfolding prepare_radix
prepare_radix-valid r e = ground (arith, e)

-- number->string of a fixnum writes the sign and the digits of its magnitude.
pub number2string-Digits :
    (bits max r : ℕ) (z : ℤ)
    → 0 < bits
    → max + 1 ≤ 2 ^ (bits - 1)
    → valid_radixp r ≡ true
    → fits max z ≡ true
    → (neg : Bool) × (m : ℕ) × (cs : Text) × (number2string bits (int z) (int (pos r) ∷ [])
        ≡ value (minus_sign neg ++ cs))
      × Digits r m cs
      × (signed neg m ≡ z)
unfolding number2string prepare_radix
number2string-Digits bits max r z lt e valid f =
    let (neg, m, is_neg, mag, small, same) = as_unsigned-signed bits max z lt e f in
    let (cs, runs, d) =
      int2string-plain bits (as_unsigned bits z) r m neg (valid_above r valid) lt is_neg mag
        small in
    (
      neg,
      m,
      cs,
      ap (λ q. q >>= λ r. text_or (int2string bits plain_format (as_unsigned bits z) r))
            (prepare_radix-valid r valid)
          ∙ ap text_or runs,
      d,
      same,
    )
