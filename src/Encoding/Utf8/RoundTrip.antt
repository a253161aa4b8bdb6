-- ===== src/Encoding/Utf8/RoundTrip.antt =====
-- src/encoding.c, UTF-8: what utf8_int2str writes, utf8_scan_char and utf8_str2int read back, with
-- and without the strict check.
use sigscheme.Base.{
  ℕ, ◌+◌, ◌*◌, ◌/◌, ◌%◌, ◌^◌, ◌≤◌, ◌<◌, ◌≡◌, refl, ap, ◌∙◌, Bool, some, [], ◌∷◌, arith, leb,
  if◌then◌else◌,
}
use sigscheme.Base.Bits.{bit_or_low}
use Prim.Native.Nat.{bit_or}
use sigscheme.Encoding.{Bytes, return_size}
use sigscheme.Encoding.Laws.{RoundTrips}
use sigscheme.Encoding.Utf8.{scan_trailing, scan_len, scan_char, str2int, int2str, codec}
use sigscheme.Encoding.Utf8.Masks.{
  lead_byte_two, lead_byte_three, lead_byte_four, trail_byte_lem, is_len_one, is_len_two,
  is_len_three, is_len_four, unmask_trail, unmask_two, unmask_three, unmask_four,
}

-- Two to four bytes: a lead byte with the number `y`, and six bits in each byte behind it.
module _ (strict : Bool) (rest : Bytes) where
  scan_one : (ch : ℕ) → ch ≤ 0x7f → scan_char strict (ch ∷ rest) ≡ return_size 1
  unfolding scan_char
  scan_one ch h = ground arith

  scan_two :
      (y a : ℕ) → y < 32 → a < 64 → scan_char strict ((0xc0 + y) ∷ (128 + a) ∷ rest) ≡ return_size 2
  unfolding scan_char scan_len scan_trailing
  scan_two y a hy ha = ground (arith, is_len_two y hy, is_len_one a ha)

  scan_three :
      (y a b : ℕ)
      → y < 16
      → a < 64
      → b < 64
      → scan_char strict ((0xe0 + y) ∷ (128 + a) ∷ (128 + b) ∷ rest) ≡ return_size 3
  unfolding scan_char scan_len scan_trailing
  scan_three y a b hy ha hb = ground (arith, is_len_three y hy, is_len_one a ha, is_len_one b hb)

  scan_four :
      (y a b c : ℕ)
      → y < 8
      → a < 64
      → b < 64
      → c < 64
      → scan_char strict ((0xf0 + y) ∷ (128 + a) ∷ (128 + b) ∷ (128 + c) ∷ rest) ≡ return_size 4
  unfolding scan_char scan_len scan_trailing
  scan_four y a b c hy ha hb hc =
      ground (arith, is_len_four y hy, is_len_one a ha, is_len_one b hb, is_len_one c hc)

-- The fields joined by `|=`.
module _ (rest : Bytes) where
  str2int_one : (ch : ℕ) → str2int (ch ∷ rest) 1 ≡ some ch
  unfolding str2int
  str2int_one ch = refl

  str2int_two :
      (y a : ℕ) → y < 32 → a < 64 → str2int ((0xc0 + y) ∷ (128 + a) ∷ rest) 2 ≡ some (y * 64 + a)
  unfolding str2int
  str2int_two y a hy ha = rw (unmask_two y hy, unmask_trail a ha) (ap some (bit_or_low 6 y a ha))

  str2int_three :
      (y a b : ℕ)
      → y < 16
      → a < 64
      → b < 64
      → str2int ((0xe0 + y) ∷ (128 + a) ∷ (128 + b) ∷ rest) 3 ≡ some (y * 4096 + a * 64 + b)
  unfolding str2int
  str2int_three y a b hy ha hb =
      rw (unmask_three y hy, unmask_trail a ha, unmask_trail b hb)
        (ap some (
          ap (λ (x : ℕ). bit_or x b)
            (bit_or_low 12 y (a * 64) (omega arith)
              ∙ (let e : y * 4096 + a * 64 ≡ (y * 64 + a) * 2 ^ 6 = omega arith in e))
          ∙ bit_or_low 6 (y * 64 + a) b hb
          ∙ omega arith))

  str2int_four :
      (y a b c : ℕ)
      → y < 8
      → a < 64
      → b < 64
      → c < 64
      → str2int ((0xf0 + y) ∷ (128 + a) ∷ (128 + b) ∷ (128 + c) ∷ rest) 4
        ≡ some (y * 262144 + a * 4096 + b * 64 + c)
  unfolding str2int
  str2int_four y a b c hy ha hb hc =
      rw (unmask_four y hy, unmask_trail a ha, unmask_trail b hb, unmask_trail c hc)
        (ap some (
          ap (λ (x : ℕ). bit_or (bit_or x (b * 64)) c)
            (bit_or_low 18 y (a * 4096) (omega arith)
              ∙ (let e : y * 262144 + a * 4096 ≡ (y * 64 + a) * 2 ^ 12 = omega arith in e))
          ∙ ap (λ (x : ℕ). bit_or x c)
              (bit_or_low 12 (y * 64 + a) (b * 64) (omega arith)
                ∙ (let e : (y * 64 + a) * 2 ^ 12 + b * 64 ≡ (y * 4096 + a * 64 + b) * 2 ^ 6 =
                      omega arith in
                    e))
          ∙ bit_or_low 6 (y * 4096 + a * 64 + b) c hc
          ∙ omega arith))

-- The table of RFC 3629, in numbers.
abbrev pub utf8_bytes : ℕ → Bytes
utf8_bytes ch =
    if leb ch 0x7f
    then ch ∷ []
    else if leb ch 0x7ff
    then (0xc0 + ch / 64) ∷ (128 + ch % 64) ∷ []
    else if leb ch 0xffff
    then (0xe0 + ch / 4096) ∷ (128 + ch / 64 % 64) ∷ (128 + ch % 64) ∷ []
    else (0xf0 + ch / 262144) ∷ (128 + ch / 4096 % 64) ∷ (128 + ch / 64 % 64) ∷ (128 + ch % 64) ∷ []

int2str_lem : (ch : ℕ) → ch ≤ 0x10ffff → int2str ch ≡ some (utf8_bytes ch)
unfolding int2str
int2str_lem ch h = ground (
  arith,
  lead_byte_two ch,
  lead_byte_three ch,
  lead_byte_four ch,
  trail_byte_lem ch 0,
  trail_byte_lem ch 1,
  trail_byte_lem ch 2,
)

-- Every character up to 0x10FFFF is written as one to four bytes, and these are scanned as one
-- character without an error and read back as its value, whatever follows them, with and without
-- the strict check.
pub utf8_int2str-RoundTrips :
    (strict : Bool) (ch : ℕ) → ch ≤ 0x10ffff → RoundTrips (codec strict) ch (utf8_bytes ch)
utf8_int2str-RoundTrips strict ch h = record {
  nonempty = ground arith;
  writes = int2str_lem ch h;
  scans = λ rest. ground (
    arith,
    scan_one strict rest ch,
    scan_two strict rest (ch / 64) (ch % 64),
    scan_three strict rest (ch / 4096) (ch / 64 % 64) (ch % 64),
    scan_four strict rest (ch / 262144) (ch / 4096 % 64) (ch / 64 % 64) (ch % 64),
  );
  reads = λ rest. ground (
    arith,
    str2int_one rest ch,
    str2int_two rest (ch / 64) (ch % 64),
    str2int_three rest (ch / 4096) (ch / 64 % 64) (ch % 64),
    str2int_four rest (ch / 262144) (ch / 4096 % 64) (ch / 64 % 64) (ch % 64),
  );
}
