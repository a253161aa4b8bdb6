-- ===== src/Encoding/Sjis/RoundTrip.antt =====
-- src/encoding.c, Shift_JIS: which characters round-trip, and what the strict check of
-- sjis_int2str lets through.
use sigscheme.Base.{
  ℕ, ◌+◌, ◌*◌, ◌/◌, ◌%◌, ◌<◌, ◌≡◌, Bool, true, false, not, ◌&&◌, ◌||◌, some, [], ◌∷◌, arith, ltb,
  if◌then◌else◌,
}
use sigscheme.Base.Bits.{byte_mask}
use sigscheme.Encoding.{Bytes, return_error}
use sigscheme.Encoding.Laws.{RoundTrips}
use sigscheme.Encoding.Euc.RoundTrip.{str2int_one, str2int_two}
use sigscheme.Encoding.Sjis.{is_lead, is_trail, scan_char, int2str, codec}

-- The characters of the encoding: a byte that is no lead, or a lead and a trailing byte.
abbrev pub is_sjis : ℕ → Bool
is_sjis ch =
    (ltb ch 256 && not (is_lead ch)) || (ltb ch 65536 && is_lead (ch / 256) && is_trail (ch % 256))

abbrev pub sjis_bytes : ℕ → Bytes
sjis_bytes ch = if ltb ch 256 then ch ∷ [] else ch / 256 ∷ ch % 256 ∷ []

-- The characters of the encoding are written as one or two bytes, which are scanned as one
-- character and read back as it, with and without the strict check.
pub sjis_int2str-RoundTrips :
    (strict : Bool) (ch : ℕ) → is_sjis ch ≡ true → RoundTrips (codec strict) ch (sjis_bytes ch)
sjis_int2str-RoundTrips strict ch h = record {
  nonempty = ground arith;
  writes = unfold int2str in ground (arith, byte_mask ch);
  scans = λ rest. unfold scan_char in ground arith;
  reads = λ rest. ground (arith, str2int_one rest ch, str2int_two rest (ch / 256) (ch % 256));
}

-- Below 2 ^ 16 the strict check of sjis_int2str refuses nothing: it tests the lead byte, which
-- every lead byte passes, and not the trailing one. So each lead byte with a byte that is not
-- trailing is written too, and the strict sjis_scan_char calls what was written an error.
pub sjis_int2str-scan_error :
    (high low : ℕ) (rest : Bytes)
    → high < 256
    → low < 256
    → is_lead high ≡ true
    → is_trail low ≡ false
    → (int2str true (high * 256 + low) ≡ some (high ∷ low ∷ []))
      × (scan_char true (high ∷ low ∷ rest) ≡ return_error)
unfolding int2str scan_char
sjis_int2str-scan_error high low rest hh hl lead trail =
    (ground (arith, byte_mask (high * 256 + low)), ground arith)

-- A character value whose high byte is no lead byte is written without that byte.
pub sjis_int2str_drops_high :
    (strict : Bool) (high low : ℕ)
    → high < 256
    → low < 256
    → is_lead high ≡ false
    → int2str strict (high * 256 + low) ≡ int2str strict low
unfolding int2str
sjis_int2str_drops_high strict high low hh hl h =
    ground (arith, byte_mask (high * 256 + low), byte_mask low)
