-- ===== src/Encoding/Sjis.antt =====
-- src/encoding.c: Shift_JIS. `strict` is SCM_STRICT_ENCODING_CHECK.
pub mod RoundTrip
use Prim.Native.Nat.{bit_and}
use sigscheme.Base.{
  ℕ, ◌/◌, ◌%◌, ◌^◌, Bool, false, not, ◌&&◌, Option, none, some, [], ◌∷◌, ltb, leb, ◌==◌,
  if◌then◌else◌, length,
}
use sigscheme.Encoding.{
  Bytes, byte_at, CharInfo, return_size, return_error, return_incomplete, CharCodec, ccs_jis,
  written_len,
}
use sigscheme.Encoding.Euc.{str2int}

abbrev pub is_kana : ℕ → Bool
is_kana c = leb 0xa1 c && leb c 0xdf

abbrev pub is_lead : ℕ → Bool
is_lead c = leb 0x81 c && not (is_kana c) && leb c 0xfc && not (c == 0xa0)

abbrev pub is_trail : ℕ → Bool
is_trail c = leb 0x40 c && leb c 0xfc && not (c == 0x7e)

unfoldable pub scan_char : Bool → Bytes → CharInfo
scan_char strict str =
    if length str == 0
    then return_size 0
    else if is_lead (byte_at str 0)
    then (if ltb (length str) 2
        then return_incomplete (length str)
        else if strict && not (is_trail (byte_at str 1))
        then return_error
        else return_size 2)
    else return_size 1

-- The strict check looks at `high`, as it does in the source.
unfoldable pub int2str : Bool → ℕ → Option Bytes
int2str strict ch =
    let high = ch / 2 ^ 8 % 256 in
    let low = bit_and 255 ch in
    if strict && not (ch / 2 ^ 16 == 0)
    then none
    else if is_lead high
    then (if strict && not (is_trail high) then none else some (high ∷ low ∷ []))
    else some (low ∷ [])

unfoldable pub char_len : ℕ → Bool → ℕ
unfolding int2str
char_len ch strict = written_len (int2str strict ch)

abbrev pub codec : Bool → CharCodec
codec strict = record {
  statefulp = false;
  encoding = "Shift_JIS";
  ccs = ccs_jis;
  char_len = λ ch. char_len ch strict;
  scan_char = scan_char strict;
  str2int = str2int;
  int2str = int2str strict;
}
