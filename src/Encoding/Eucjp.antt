-- ===== src/Encoding/Eucjp.antt =====
-- src/encoding.c: EUC-JP. `strict` is SCM_STRICT_ENCODING_CHECK.
pub mod RoundTrip
use Prim.Native.Nat.{bit_and, bit_or}
use sigscheme.Base.{
  ℕ, zero, suc, ◌*◌, ◌/◌, ◌%◌, ◌^◌, Bool, false, not, ◌&&◌, ◌||◌, Option, none, some, [], ◌∷◌, ltb,
  ◌==◌, if◌then◌else◌, length,
}
use sigscheme.Encoding.{
  Bytes, byte_at, CharInfo, return_size, return_error, return_incomplete, CharCodec, ccs_jis,
  written_len,
}
use sigscheme.Encoding.Iso2022.{
  in_cl, in_gl96, in_gr94, in_gr96, is_gr_spc_or_del, ss2, ss3, is_1byte, is_2bytes, is_3bytes,
}

-- The case of SS3 in eucjp_scan_char.
scan_ss3 : Bool → Bytes → CharInfo
scan_ss3 strict str =
    if strict
    then (if ltb (length str) 2
        then return_incomplete (length str)
        else if is_gr_spc_or_del (byte_at str 1)
        then return_size 2
        else if not (in_gr94 (byte_at str 1))
        then return_error
        else if ltb (length str) 3
        then return_incomplete (length str)
        else if not (in_gr94 (byte_at str 2))
        then return_error
        else return_size 3)
    else if ltb (length str) 3
    then return_incomplete (length str)
    else return_size 3

unfoldable pub scan_char : Bool → Bytes → CharInfo
unfolding scan_ss3
scan_char strict str =
    if length str == 0
    then return_size 0
    else if in_cl (byte_at str 0) || in_gl96 (byte_at str 0)
    then return_size 1
    else if in_gr94 (byte_at str 0) || byte_at str 0 == ss2
    then (if ltb (length str) 2
        then return_incomplete 1
        else if strict && not (in_gr96 (byte_at str 1))
        then return_error
        else return_size 2)
    else if byte_at str 0 == ss3
    then scan_ss3 strict str
    else return_error

unfoldable pub str2int : Bytes → ℕ → Option ℕ
str2int src (suc zero) = some (byte_at src 0)
str2int src (suc (suc zero)) = some (bit_or (byte_at src 0 * 2 ^ 8) (byte_at src 1))
str2int src (suc (suc (suc zero))) =
    some (bit_or (bit_or (byte_at src 0 * 2 ^ 16) (byte_at src 1 * 2 ^ 8)) (byte_at src 2))
str2int src _ = none

unfoldable pub int2str : Bool → ℕ → Option Bytes
int2str strict ch =
    let low = bit_and 255 ch in
    let mid = bit_and 255 (ch / 2 ^ 8) in
    if is_1byte ch
    then some (ch % 256 ∷ [])
    else if is_2bytes ch
    then (let first = ch / 2 ^ 8 % 256 in
        if strict && ((not (in_gr94 first) && not (first == ss2)) || not (in_gr96 low))
        then none
        else some (first ∷ low ∷ []))
    else if is_3bytes ch
    then (let first = ch / 2 ^ 16 % 256 in
        if strict && (not (first == ss3) || not (in_gr94 mid) || not (in_gr94 low))
        then none
        else some (first ∷ mid ∷ low ∷ []))
    else none

unfoldable pub char_len : ℕ → Bool → ℕ
unfolding int2str
char_len ch strict = written_len (int2str strict ch)

abbrev pub codec : Bool → CharCodec
codec strict = record {
  statefulp = false;
  encoding = "EUC-JP";
  ccs = ccs_jis;
  char_len = λ ch. char_len ch strict;
  scan_char = scan_char strict;
  str2int = str2int;
  int2str = int2str strict;
}
