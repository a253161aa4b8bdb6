-- ===== src/Encoding/Eucjp/RoundTrip.antt =====
-- src/encoding.c, EUC-JP: the characters that the strict eucjp_int2str writes round-trip, and the
-- characters that the strict eucjp_scan_char accepts are written back, but for two of SS3.
use Prim.Native.Nat.{bit_and, bit_or}
use sigscheme.Base.{
  ℕ, ◌+◌, ◌*◌, ◌/◌, ◌%◌, ◌^◌, ◌<◌, ◌≡◌, refl, ap, ◌∙◌, ◌⊎◌, Bool, true, ◌||◌, none, some, [], ◌∷◌,
  arith, ◌==◌, take, All,
}
use sigscheme.Base.Bits.{bit_or_low, byte_mask}
use sigscheme.Encoding.{Bytes, byte_at, return_size}
use sigscheme.Encoding.Iso2022.{in_gr94, in_gr96, ss2, ss3, is_gr_spc_or_del}
use sigscheme.Encoding.Laws.{RoundTrips}
use sigscheme.Encoding.Eucjp.{scan_char, str2int, int2str, codec}

str2int_zero : (src : Bytes) → str2int src 0 ≡ none
unfolding str2int
str2int_zero src = refl

module _ (rest : Bytes) (a : ℕ) where
  str2int_one : str2int (a ∷ rest) 1 ≡ some a
  unfolding str2int
  str2int_one = refl

  str2int_two : (b : ℕ) → b < 256 → str2int (a ∷ b ∷ rest) 2 ≡ some (a * 256 + b)
  unfolding str2int
  str2int_two b h = ap some (bit_or_low 8 a b h)

  str2int_three :
      (b c : ℕ) → b < 256 → c < 256 → str2int (a ∷ b ∷ c ∷ rest) 3 ≡ some (a * 65536 + b * 256 + c)
  unfolding str2int
  str2int_three b c hb hc =
      let fields : a * 65536 + b * 256 ≡ (a * 256 + b) * 2 ^ 8 = omega arith in
      ap some (
        ap (λ (x : ℕ). bit_or x c) (bit_or_low 16 a (b * 256) (omega arith) ∙ fields)
        ∙ bit_or_low 8 (a * 256 + b) c hc
        ∙ omega arith)

-- Whatever the strict eucjp_int2str writes is scanned and read back as the same character, also
-- without the strict check.
pub eucjp_int2str-RoundTrips :
    (strict : Bool) (ch : ℕ) (bytes : Bytes)
    → int2str true ch ≡ some bytes
    → RoundTrips (codec strict) ch bytes
eucjp_int2str-RoundTrips strict ch bytes w =
    let low = byte_mask ch in
    let mid = byte_mask (ch / 2 ^ 8) in
    record {
      nonempty = unfold int2str in ground arith;
      writes = unfold int2str in ground arith;
      scans = λ rest. unfold int2str scan_char in ground (arith, low, mid);
      reads = λ rest.
          unfold int2str in
          ground (
            arith,
            low,
            mid,
            str2int_one rest ch,
            str2int_two rest (ch / 2 ^ 8) (ch % 256),
            str2int_three rest (ch / 2 ^ 16) (ch / 2 ^ 8 % 256) (ch % 256),
          );
    }

-- The four kinds of characters of the strict scan, each written back.
int2str_one : (a : ℕ) → a < 0x80 → int2str true a ≡ some (a ∷ [])
unfolding int2str
int2str_one a h = ground arith

module _ (a b : ℕ) (ha : a < 256) (hb : b < 256) where
  low_two : bit_and 255 (a * 256 + b) ≡ b
  low_two = byte_mask (a * 256 + b) ∙ omega arith

  int2str_two :
      (in_gr94 a || a == ss2) ≡ true
      → in_gr96 b ≡ true
      → int2str true (a * 256 + b) ≡ some (a ∷ b ∷ [])
  unfolding int2str
  int2str_two h k = ground (arith, low_two)

int2str_ss3_two : (b : ℕ) → b < 256 → int2str true (0x8f * 256 + b) ≡ none
unfolding int2str
int2str_ss3_two b h = ground arith

int2str_three :
    (b c : ℕ)
    → in_gr94 b ≡ true
    → in_gr94 c ≡ true
    → int2str true (0x8f * 65536 + b * 256 + c) ≡ some (0x8f ∷ b ∷ c ∷ [])
unfolding int2str
int2str_three b c h k = ground (
  arith,
  byte_mask (0x8f * 65536 + b * 256 + c),
  byte_mask ((0x8f * 65536 + b * 256 + c) / 2 ^ 8),
)

-- A character of the strict scan is written back as the bytes it was read from, unless it is SS3
-- followed by 0xA0 or 0xFF, which the scan takes for a character of two bytes and eucjp_int2str
-- refuses.
pub eucjp_int2str-str2int :
    (str : Bytes) (n ch : ℕ)
    → All (λ b. b < 256) str
    → scan_char true str ≡ return_size n
    → str2int str n ≡ some ch
    → (int2str true ch ≡ some (take n str))
      ⊎ (int2str true ch ≡ none) × (byte_at str 0 ≡ ss3) × (is_gr_spc_or_del (byte_at str 1) ≡ true)
unfolding scan_char
eucjp_int2str-str2int [] n ch small scanned r = ground (arith, str2int_zero [])
eucjp_int2str-str2int (a ∷ []) n ch small scanned r =
    ground (arith, str2int_one [] a, int2str_one a)
eucjp_int2str-str2int (a ∷ b ∷ []) n ch small scanned r = ground (
  arith,
  str2int_one (b ∷ []) a,
  str2int_two [] a b,
  int2str_one a,
  int2str_two a b,
  int2str_ss3_two b,
)
eucjp_int2str-str2int (a ∷ b ∷ c ∷ rest) n ch small scanned r = ground (
  arith,
  str2int_one (b ∷ c ∷ rest) a,
  str2int_two (c ∷ rest) a b,
  str2int_three rest a b c,
  int2str_one a,
  int2str_two a b,
  int2str_ss3_two b,
  int2str_three b c,
)
