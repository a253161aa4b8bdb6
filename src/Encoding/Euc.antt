-- ===== src/Encoding/Euc.antt =====
-- src/encoding.c: EUC-CN and EUC-KR, with the functions that they share with Shift_JIS.
pub mod RoundTrip
use Prim.Native.Nat.{bit_and, bit_or}
use sigscheme.Base.{
  ℕ, zero, suc, ◌*◌, ◌/◌, ◌%◌, ◌^◌, Bool, false, not, ◌&&◌, ◌||◌, Option, none, some, [], ◌∷◌, ltb,
  ◌==◌, if◌then◌else◌, length,
}
use sigscheme.Encoding.{
  Bytes, byte_at, CharInfo, return_size, return_error, return_incomplete, CharCodec, ccs_unknown,
  written_len,
}
use sigscheme.Encoding.Iso2022.{in_gr94, in_gr96, is_ascii, is_1byte, is_2bytes}

-- dbc_str2int
unfoldable pub str2int : Bytes → ℕ → Option ℕ
str2int src (suc zero) = some (byte_at src 0)
str2int src (suc (suc zero)) = some (bit_or (byte_at src 0 * 2 ^ 8) (byte_at src 1))
str2int src _ = none

-- euc_int2str
unfoldable pub int2str : Bool → ℕ → Option Bytes
int2str strict ch =
    let first = ch / 2 ^ 8 % 256 in
    let low = bit_and 255 ch in
    if is_1byte ch
    then some (ch % 256 ∷ [])
    else if is_2bytes ch
    then (if strict && (not (in_gr94 first) || not (in_gr96 low))
        then none
        else some (first ∷ low ∷ []))
    else none

-- euc_char_len
unfoldable pub char_len : ℕ → Bool → ℕ
unfolding int2str
char_len ch strict = written_len (int2str strict ch)

-- euccn_scan_char
unfoldable pub euccn_scan_char : Bool → Bytes → CharInfo
euccn_scan_char strict str =
    if length str == 0
    then return_size 0
    else if is_ascii (byte_at str 0)
    then return_size 1
    else if in_gr94 (byte_at str 0)
    then (if ltb (length str) 2
        then return_incomplete (length str)
        else if strict && not (in_gr96 (byte_at str 1))
        then return_error
        else return_size 2)
    else return_error

-- euckr_scan_char, a copy of the code above in the source too.
unfoldable pub euckr_scan_char : Bool → Bytes → CharInfo
euckr_scan_char strict str =
    if length str == 0
    then return_size 0
    else if is_ascii (byte_at str 0)
    then return_size 1
    else if in_gr94 (byte_at str 0)
    then (if ltb (length str) 2
        then return_incomplete (length str)
        else if strict && not (in_gr96 (byte_at str 1))
        then return_error
        else return_size 2)
    else return_error

abbrev pub euccn_codec : Bool → CharCodec
euccn_codec strict = record {
  statefulp = false;
  encoding = "EUC-CN";
  ccs = ccs_unknown;
  char_len = λ ch. char_len ch strict;
  scan_char = euccn_scan_char strict;
  str2int = str2int;
  int2str = int2str strict;
}

abbrev pub euckr_codec : Bool → CharCodec
euckr_codec strict = record {
  statefulp = false;
  encoding = "EUC-KR";
  ccs = ccs_unknown;
  char_len = λ ch. char_len ch strict;
  scan_char = euckr_scan_char strict;
  str2int = str2int;
  int2str = int2str strict;
}
