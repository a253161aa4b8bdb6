-- ===== src/Encoding/Unibyte.antt =====
-- src/encoding.c: the single-byte encodings.
pub mod RoundTrip
use sigscheme.Base.{
  ℕ, ◌/◌, ◌%◌, Bool, false, not, ◌&&◌, Option, none, some, [], ◌∷◌, ltb, leb, ◌==◌, if◌then◌else◌,
  length,
}
use sigscheme.Encoding.{Bytes, byte_at, CharInfo, return_size, CharCodec, ccs_iso8859_1}

unfoldable pub char_len : ℕ → ℕ
char_len ch = if ltb 0 ch && leb ch 0xff then 1 else 0

unfoldable pub scan_char : Bytes → CharInfo
scan_char str = if not (length str == 0) then return_size 1 else return_size 0

unfoldable pub str2int : Bool → Bytes → ℕ → Option ℕ
str2int strict src len = if strict && not (len == 1) then none else some (byte_at src 0)

-- `ch & ~BYTE_MASK` is zero just below 256.
unfoldable pub int2str : Bool → ℕ → Option Bytes
int2str strict ch = if strict && not (ch / 256 == 0) then none else some (ch % 256 ∷ [])

abbrev pub codec : Bool → CharCodec
codec strict = record {
  statefulp = false;
  encoding = "ISO-8859-1";
  ccs = ccs_iso8859_1;
  char_len = char_len;
  scan_char = scan_char;
  str2int = str2int strict;
  int2str = int2str strict;
}
