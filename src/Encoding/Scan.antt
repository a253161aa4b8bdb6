-- ===== src/Encoding/Scan.antt =====
-- src/encoding.c: every scanner takes at least one byte of a string that has one, and none behind
-- its end, so that the loops over strings end.
use sigscheme.Base.{ℕ, zero, suc, ◌+◌, ◌-◌, ◌≤◌, ◌<◌, ◌≡◌, Bool, arith, length}
use sigscheme.Encoding.{Bytes, CharInfo}
use sigscheme.Encoding.Laws.{ScansWithin}
use sigscheme.Encoding.Utf8
use sigscheme.Encoding.Eucjp
use sigscheme.Encoding.Euc
use sigscheme.Encoding.Sjis
use sigscheme.Encoding.Unibyte

abbrev Within : Bytes → CharInfo → Type 0
Within str c = (0 < c.size) × (c.size ≤ length str)

scan_trailing-Within :
    (rounds i len : ℕ) (str : Bytes)
    → 0 < length str
    → 0 < i
    → i + rounds ≡ len
    → i ≤ length str
    → Within str (Utf8.scan_trailing rounds i len str)
unfolding Utf8.scan_trailing
scan_trailing-Within zero i len str h p e le = (omega arith, omega arith)
scan_trailing-Within (suc rounds) i len str h p e le =
    ground (arith, scan_trailing-Within rounds (i + 1) len str)

scan_len-Within :
    (strict : Bool) (len : ℕ) (str : Bytes)
    → 0 < length str
    → 0 < len
    → Within str (Utf8.scan_len strict len str)
unfolding Utf8.scan_len
scan_len-Within strict len str h p = ground (arith, scan_trailing-Within (len - 1) 1 len str)

-- utf8_scan_char stays within the string.
pub utf8-ScansWithin : (strict : Bool) → ScansWithin (Utf8.codec strict)
unfolding Utf8.scan_char
utf8-ScansWithin strict str h = ground (
  arith,
  scan_len-Within strict 2 str,
  scan_len-Within strict 3 str,
  scan_len-Within strict 4 str,
)

pub eucjp-ScansWithin : (strict : Bool) → ScansWithin (Eucjp.codec strict)
unfolding Eucjp.scan_char
eucjp-ScansWithin strict str h = ground arith

pub euccn-ScansWithin : (strict : Bool) → ScansWithin (Euc.euccn_codec strict)
unfolding Euc.euccn_scan_char
euccn-ScansWithin strict str h = ground arith

pub euckr-ScansWithin : (strict : Bool) → ScansWithin (Euc.euckr_codec strict)
unfolding Euc.euckr_scan_char
euckr-ScansWithin strict str h = ground arith

pub sjis-ScansWithin : (strict : Bool) → ScansWithin (Sjis.codec strict)
unfolding Sjis.scan_char
sjis-ScansWithin strict str h = ground arith

pub unibyte-ScansWithin : (strict : Bool) → ScansWithin (Unibyte.codec strict)
unfolding Unibyte.scan_char
unibyte-ScansWithin strict str h = ground arith
