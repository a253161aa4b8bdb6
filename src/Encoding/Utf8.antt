-- ===== src/Encoding/Utf8.antt =====
-- src/encoding.c: UTF-8, with the source's bit masks. `strict` is SCM_STRICT_ENCODING_CHECK.
pub mod Masks
pub mod RoundTrip
use Prim.Native.Nat.{bit_and, bit_or}
use sigscheme.Base.{
  ℕ, zero, suc, ◌+◌, ◌-◌, ◌*◌, ◌/◌, ◌%◌, ◌^◌, Bool, false, Option, none, some, [], ◌∷◌, ltb, leb,
  ◌==◌, if◌then◌else◌, length,
}
use sigscheme.Encoding.{
  Bytes, byte_at, CharInfo, return_size, return_error, return_incomplete, CharCodec, ccs_unicode,
  written_len,
}
use sigscheme.Encoding.Iso2022.{is_ascii}

-- The first n bits of a byte, and those with a zero behind them. LEN_CODE(n) marks the lead byte
-- of n bytes, and LEN_CODE(1) a trailing byte.
pub len_code : ℕ → ℕ
len_code n = (2 ^ n - 1) * 2 ^ (8 - n)

pub mask : ℕ → ℕ
unfolding len_code
mask n = bit_or (len_code n / 2) 0x80

pub is_len : ℕ → ℕ → Bool
unfolding mask len_code
is_len c n = bit_and (mask n) c == len_code n

-- ~MASK(n) & u
pub unmask : ℕ → ℕ → ℕ
unfolding mask
unmask n u = u - bit_and (mask n) u

-- LEADING_VAL and TRAILING_VAL; TRAILING_VAL_BITS is 6.
abbrev pub leading_val : ℕ → ℕ → ℕ
leading_val u n = u / 2 ^ (6 * (n - 1))

abbrev pub trailing_val : ℕ → ℕ → ℕ
trailing_val u i = unmask 1 (u / 2 ^ (6 * i))

abbrev pub in_oct_bmp : ℕ → Bool
in_oct_bmp u = leb u 0x7ff

abbrev pub in_bmp : ℕ → Bool
in_bmp u = leb u 0xffff

-- IN_SMP, where IN_BMP has failed.
abbrev pub in_smp : ℕ → Bool
in_smp u = leb u 0x10ffff

-- `for (i = 1; i < len; i++)`, with the rounds left.
unfoldable pub scan_trailing : ℕ → ℕ → ℕ → Bytes → CharInfo
unfolding is_len
scan_trailing zero i len str = return_size len
scan_trailing (suc rounds) i len str =
    if leb (length str) i
    then return_incomplete (length str)
    else if is_len (byte_at str i) 1
    then scan_trailing rounds (i + 1) len str
    else return_error

unfoldable pub scan_len : Bool → ℕ → Bytes → CharInfo
unfolding scan_trailing
scan_len strict len str =
    if strict
    then scan_trailing (len - 1) 1 len str
    else if ltb (length str) len
    then return_incomplete (length str)
    else return_size len

unfoldable pub scan_char : Bool → Bytes → CharInfo
unfolding scan_len is_len
scan_char strict str =
    if length str == 0
    then return_size 0
    else if is_ascii (byte_at str 0)
    then return_size 1
    else if is_len (byte_at str 0) 2
    then scan_len strict 2 str
    else if is_len (byte_at str 0) 3
    then scan_len strict 3 str
    else if is_len (byte_at str 0) 4
    then scan_len strict 4 str
    else return_error

-- `|=` joins the fields. The switch on `len` is the four patterns.
unfoldable pub str2int : Bytes → ℕ → Option ℕ
unfolding unmask
str2int src (suc zero) = some (byte_at src 0)
str2int src (suc (suc zero)) =
    some (bit_or (unmask 2 (byte_at src 0) * 2 ^ 6) (unmask 1 (byte_at src 1)))
str2int src (suc (suc (suc zero))) = some (
    bit_or (bit_or (unmask 3 (byte_at src 0) * 2 ^ 12) (unmask 1 (byte_at src 1) * 2 ^ 6))
      (unmask 1 (byte_at src 2)))
str2int src (suc (suc (suc (suc zero)))) = some (
    bit_or
      (bit_or (bit_or (unmask 4 (byte_at src 0) * 2 ^ 18) (unmask 1 (byte_at src 1) * 2 ^ 12))
        (unmask 1 (byte_at src 2) * 2 ^ 6))
      (unmask 1 (byte_at src 3)))
str2int src _ = none

-- The bytes are stored as unsigned chars.
pub lead_byte : ℕ → ℕ → ℕ
unfolding len_code
lead_byte n ch = bit_or (len_code n) (leading_val ch n) % 256

pub trail_byte : ℕ → ℕ → ℕ
unfolding len_code unmask
trail_byte ch i = bit_or (len_code 1) (trailing_val ch i) % 256

unfoldable pub int2str : ℕ → Option Bytes
unfolding lead_byte trail_byte
int2str ch =
    if is_ascii ch
    then some (ch % 256 ∷ [])
    else if in_oct_bmp ch
    then some (lead_byte 2 ch ∷ trail_byte ch 0 ∷ [])
    else if in_bmp ch
    then some (lead_byte 3 ch ∷ trail_byte ch 1 ∷ trail_byte ch 0 ∷ [])
    else if in_smp ch
    then some (lead_byte 4 ch ∷ trail_byte ch 2 ∷ trail_byte ch 1 ∷ trail_byte ch 0 ∷ [])
    else none

unfoldable pub char_len : ℕ → ℕ
unfolding int2str
char_len ch = written_len (int2str ch)

abbrev pub codec : Bool → CharCodec
codec strict = record {
  statefulp = false;
  encoding = "UTF-8";
  ccs = ccs_unicode;
  char_len = char_len;
  scan_char = scan_char strict;
  str2int = str2int;
  int2str = int2str;
}
