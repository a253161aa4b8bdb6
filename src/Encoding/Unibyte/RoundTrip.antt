-- ===== src/Encoding/Unibyte/RoundTrip.antt =====
-- src/encoding.c, the single-byte encodings: every byte round-trips.
use sigscheme.Base.{ℕ, ◌<◌, ◌≡◌, Bool, true, [], ◌∷◌, arith}
use sigscheme.Encoding.{written_len}
use sigscheme.Encoding.Laws.{RoundTrips}
use sigscheme.Encoding.Unibyte.{char_len, scan_char, str2int, int2str, codec}

-- Every value below 256 is written as its byte and read back, with and without the strict check.
pub unibyte_int2str-RoundTrips :
    (strict : Bool) (ch : ℕ) → ch < 256 → RoundTrips (codec strict) ch (ch ∷ [])
unfolding scan_char str2int int2str
unibyte_int2str-RoundTrips strict ch h = record {
  nonempty = ground arith;
  writes = ground arith;
  scans = λ rest. ground arith;
  reads = λ rest. ground arith;
}

-- unibyte_char_len is the number of bytes that the strict unibyte_int2str writes, for all
-- characters but 0.
pub unibyte_char_len-int2str : (ch : ℕ) → 0 < ch → char_len ch ≡ written_len (int2str true ch)
unfolding char_len int2str
unibyte_char_len-int2str ch h = ground arith
