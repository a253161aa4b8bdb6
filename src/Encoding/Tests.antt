-- ===== src/Encoding/Tests.antt =====
-- Runs of the encodings, and their theorems at concrete inputs.
use sigscheme.Base.{ℕ, ◌≤◌, ◌<◌, ◌≡◌, refl, ◌⊎◌, true, false, none, some, [], ◌∷◌, arith}
use sigscheme.Encoding.{Bytes, return_size, return_error, mb_strlen, mb_substring}
use sigscheme.Encoding.Iso2022.{ss3, is_gr_spc_or_del}
use sigscheme.Encoding.Laws.{RoundTrips, Encodes, mb_substring-Encodes, mb_strlen-le}
use sigscheme.Encoding.Scan.{utf8-ScansWithin}
use sigscheme.Encoding.Codecs.{mb_find_codec}
use sigscheme.Encoding.Utf8
use sigscheme.Encoding.Utf8.RoundTrip
use sigscheme.Encoding.Eucjp
use sigscheme.Encoding.Eucjp.RoundTrip as EucjpTrip
use sigscheme.Encoding.Euc
use sigscheme.Encoding.Euc.RoundTrip as EucTrip
use sigscheme.Encoding.Sjis
use sigscheme.Encoding.Sjis.RoundTrip as SjisTrip
use sigscheme.Encoding.Unibyte
use sigscheme.Encoding.Unibyte.RoundTrip as UnibyteTrip

-- U+3042, E3 81 82.
abbrev hiragana : Bytes
hiragana = 0xe3 ∷ 0x81 ∷ 0x82 ∷ []

utf8_runs : Utf8.int2str 0x3042 ≡ some hiragana
unfolding Utf8.int2str
utf8_runs = refl

utf8_overlong : Utf8.scan_char true (0xc0 ∷ 0x80 ∷ []) ≡ return_size 2
unfolding Utf8.scan_char
utf8_overlong = refl

hiragana-RoundTrips : RoundTrips (Utf8.codec true) 0x3042 hiragana
hiragana-RoundTrips = RoundTrip.utf8_int2str-RoundTrips true 0x3042 (omega arith)

utf8_int2str-RoundTrips_example : RoundTrips (Utf8.codec true) 0x3042 hiragana
utf8_int2str-RoundTrips_example = RoundTrip.utf8_int2str-RoundTrips true 0x3042 (omega arith)

-- The letter A and U+3042.
abbrev text : Bytes
text = 0x41 ∷ hiragana

text-Encodes : Encodes (Utf8.codec true) (0x41 ∷ 0x3042 ∷ []) text
text-Encodes = (
  0x41 ∷ [],
  hiragana,
  RoundTrip.utf8_int2str-RoundTrips true 0x41 (omega arith),
  (hiragana, [], hiragana-RoundTrips, refl, refl),
  refl,
)

mb_substring-Encodes_example :
    Encodes (Utf8.codec true) (0x3042 ∷ []) (mb_substring (Utf8.codec true) text 1 1)
mb_substring-Encodes_example =
    mb_substring-Encodes (Utf8.codec true) (0x41 ∷ 0x3042 ∷ []) text 1 1 text-Encodes (omega arith)

mb_substring_runs : mb_substring (Utf8.codec true) text 1 1 ≡ hiragana
unfolding mb_substring Utf8.scan_char
mb_substring_runs = refl

mb_strlen-le_example : (n : ℕ) × (mb_strlen (Utf8.codec true) (0xff ∷ 0x41 ∷ []) ≡ some n) × (n ≤ 2)
mb_strlen-le_example = mb_strlen-le (Utf8.codec true) (utf8-ScansWithin true) (0xff ∷ 0x41 ∷ [])

eucjp_int2str-RoundTrips_example : RoundTrips (Eucjp.codec true) 0x8fb0a1 (0x8f ∷ 0xb0 ∷ 0xa1 ∷ [])
unfolding Eucjp.int2str
eucjp_int2str-RoundTrips_example =
    EucjpTrip.eucjp_int2str-RoundTrips true 0x8fb0a1 (0x8f ∷ 0xb0 ∷ 0xa1 ∷ []) refl

eucjp_int2str-str2int_example :
    (Eucjp.int2str true 0x8fa0 ≡ some (0x8f ∷ 0xa0 ∷ []))
    ⊎ (Eucjp.int2str true 0x8fa0 ≡ none) × (◌≡◌ {A = ℕ} 0x8f ss3) × (is_gr_spc_or_del 0xa0 ≡ true)
unfolding Eucjp.scan_char Eucjp.str2int
eucjp_int2str-str2int_example =
    EucjpTrip.eucjp_int2str-str2int (0x8f ∷ 0xa0 ∷ []) 2 0x8fa0 (omega arith) refl refl

euckr-RoundTrips_example : RoundTrips (Euc.euckr_codec false) 0xb0a1 (0xb0 ∷ 0xa1 ∷ [])
unfolding Euc.int2str
euckr-RoundTrips_example = EucTrip.euckr-RoundTrips false 0xb0a1 (0xb0 ∷ 0xa1 ∷ []) refl

sjis_int2str-RoundTrips_example : RoundTrips (Sjis.codec true) 0x82a0 (0x82 ∷ 0xa0 ∷ [])
sjis_int2str-RoundTrips_example = SjisTrip.sjis_int2str-RoundTrips true 0x82a0 refl

-- 0x817E is the multiplication sign of JIS X 0208.
sjis_int2str-scan_error_example :
    (Sjis.int2str true 0x817e ≡ some (0x81 ∷ 0x7e ∷ []))
    × (Sjis.scan_char true (0x81 ∷ 0x7e ∷ []) ≡ return_error)
sjis_int2str-scan_error_example =
    SjisTrip.sjis_int2str-scan_error 0x81 0x7e [] (omega arith) (omega arith) refl refl

sjis_int2str_drops_high_example : Sjis.int2str true 0x0141 ≡ Sjis.int2str true 0x41
sjis_int2str_drops_high_example =
    SjisTrip.sjis_int2str_drops_high true 0x01 0x41 (omega arith) (omega arith) refl

unibyte_int2str-RoundTrips_example : RoundTrips (Unibyte.codec true) 0xe9 (0xe9 ∷ [])
unibyte_int2str-RoundTrips_example = UnibyteTrip.unibyte_int2str-RoundTrips true 0xe9 (omega arith)

unibyte_char_len_zero : Unibyte.char_len 0 ≡ 0
unfolding Unibyte.char_len
unibyte_char_len_zero = refl

utf8-ScansWithin_example :
    (0 < (Utf8.scan_char true (0xe3 ∷ 0x81 ∷ [])).size)
    × ((Utf8.scan_char true (0xe3 ∷ 0x81 ∷ [])).size ≤ 2)
utf8-ScansWithin_example = utf8-ScansWithin true (0xe3 ∷ 0x81 ∷ []) (omega arith)

-- Every name of the table, and one that is none.
mb_find_codec_runs :
    (mb_find_codec true "UTF-8" ≡ some (Utf8.codec true))
    × (mb_find_codec true "EUC-JP" ≡ some (Eucjp.codec true))
    × (mb_find_codec true "Big5" ≡ none)
unfolding mb_find_codec
mb_find_codec_runs = (refl, refl, refl)
