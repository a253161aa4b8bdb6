-- ===== src/Encoding/Utf8/Masks.antt =====
-- src/encoding.c, UTF-8: the masked bytes as numbers. A lead byte of n bytes is the mark of n
-- followed by the highest bits, a trailing byte is 128 and six bits.
use Prim.Native.Nat.{bit_and, bit_or}
use sigscheme.Base.{
  ℕ, ◌+◌, ◌*◌, ◌/◌, ◌%◌, ◌^◌, ◌≤◌, ◌<◌, ◌≡◌, refl, ap, ◌∙◌, true, false, not, arith, not-true,
}
use sigscheme.Base.Bits.{all_below, true_below, eq_below, bit_and_low, bit_or_low, bit_or_high}
use sigscheme.Encoding.Utf8.{len_code, unmask, is_len, lead_byte, trail_byte}

pub lead_byte_two : (ch : ℕ) → ch ≤ 0x7ff → lead_byte 2 ch ≡ 0xc0 + ch / 64
unfolding lead_byte len_code
lead_byte_two ch h = omega (arith, bit_or_low 5 6 (ch / 64) (omega arith))

pub lead_byte_three : (ch : ℕ) → ch ≤ 0xffff → lead_byte 3 ch ≡ 0xe0 + ch / 4096
unfolding lead_byte len_code
lead_byte_three ch h = omega (arith, bit_or_low 4 14 (ch / 4096) (omega arith))

pub lead_byte_four : (ch : ℕ) → ch ≤ 0x10ffff → lead_byte 4 ch ≡ 0xf0 + ch / 262144
unfolding lead_byte len_code
lead_byte_four ch h = omega (arith, bit_or_low 3 30 (ch / 262144) (omega arith))

top_two_bits : (r : ℕ) → r < 256 → bit_and 0xc0 r ≡ r / 64 * 64
unfolding all_below
top_two_bits = eq_below 256 _ _ refl

-- ~MASK(1) keeps the low six bits of each byte.
unmask_one : (q r : ℕ) → r < 256 → unmask 1 (q * 2 ^ 8 + r) ≡ q * 2 ^ 8 + r % 64
unfolding unmask
unmask_one q r h = omega (arith, bit_and_low 8 0xc0 q r (omega arith) h, top_two_bits r h)

marked_trail : (q r : ℕ) → r < 256 → bit_or 128 (unmask 1 (q * 2 ^ 8 + r)) % 256 ≡ 128 + r % 64
marked_trail q r h = rw (unmask_one q r h) (
    omega (
      arith,
      bit_or_high 8 128 q (r % 64) (omega arith) (omega arith),
      bit_or_low 6 2 (r % 64) (omega arith),
    ))

-- The cast to a byte drops what TRAILING_VAL leaves above it.
pub trail_byte_lem : (ch i : ℕ) → trail_byte ch i ≡ 128 + ch / 2 ^ (6 * i) % 64
unfolding trail_byte
trail_byte_lem ch i =
    let x = ch / 2 ^ (6 * i) in
    let split : x ≡ x / 256 * 2 ^ 8 + x % 256 = omega arith in
    ap (λ (y : ℕ). bit_or 128 (unmask 1 y) % 256) split
    ∙ omega (arith, marked_trail (x / 256) (x % 256) (omega arith))

pub is_len_one : (y : ℕ) → y < 64 → is_len (0x80 + y) 1 ≡ true
unfolding is_len all_below
is_len_one = true_below 64 (λ y. is_len (0x80 + y) 1) refl

pub is_len_two : (y : ℕ) → y < 32 → is_len (0xc0 + y) 2 ≡ true
unfolding is_len all_below
is_len_two = true_below 32 (λ y. is_len (0xc0 + y) 2) refl

pub is_len_three : (y : ℕ) → y < 16 → (is_len (0xe0 + y) 2 ≡ false) × (is_len (0xe0 + y) 3 ≡ true)
unfolding is_len all_below
is_len_three y h = (
  not-true (true_below 16 (λ y. not (is_len (0xe0 + y) 2)) refl y h),
  true_below 16 (λ y. is_len (0xe0 + y) 3) refl y h,
)

pub is_len_four :
    (y : ℕ)
    → y < 8
    → (is_len (0xf0 + y) 2 ≡ false) × (is_len (0xf0 + y) 3 ≡ false) × (is_len (0xf0 + y) 4 ≡ true)
unfolding is_len all_below
is_len_four y h = (
  not-true (true_below 8 (λ y. not (is_len (0xf0 + y) 2)) refl y h),
  not-true (true_below 8 (λ y. not (is_len (0xf0 + y) 3)) refl y h),
  true_below 8 (λ y. is_len (0xf0 + y) 4) refl y h,
)

pub unmask_trail : (y : ℕ) → y < 64 → unmask 1 (128 + y) ≡ y
unfolding unmask all_below
unmask_trail = eq_below 64 (λ y. unmask 1 (128 + y)) (λ y. y) refl

pub unmask_two : (y : ℕ) → y < 32 → unmask 2 (0xc0 + y) ≡ y
unfolding unmask all_below
unmask_two = eq_below 32 (λ y. unmask 2 (0xc0 + y)) (λ y. y) refl

pub unmask_three : (y : ℕ) → y < 16 → unmask 3 (0xe0 + y) ≡ y
unfolding unmask all_below
unmask_three = eq_below 16 (λ y. unmask 3 (0xe0 + y)) (λ y. y) refl

pub unmask_four : (y : ℕ) → y < 8 → unmask 4 (0xf0 + y) ≡ y
unfolding unmask all_below
unmask_four = eq_below 8 (λ y. unmask 4 (0xf0 + y)) (λ y. y) refl
