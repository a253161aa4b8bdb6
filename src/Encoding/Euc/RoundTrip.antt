-- ===== src/Encoding/Euc/RoundTrip.antt =====
-- src/encoding.c, EUC-CN and EUC-KR: the characters of the strict scan are just those that the
-- strict euc_int2str writes.
use sigscheme.Base.{
  ℕ, ◌+◌, ◌*◌, ◌/◌, ◌%◌, ◌^◌, ◌<◌, ◌≡◌, refl, ap, Bool, true, none, some, [], ◌∷◌, ◌++◌, arith,
  length, take, All,
}
use sigscheme.Base.Bits.{bit_or_low, byte_mask}
use sigscheme.Encoding.{Bytes, return_size}
use sigscheme.Encoding.Iso2022.{in_gr94, in_gr96}
use sigscheme.Encoding.Laws.{RoundTrips}
use sigscheme.Encoding.Euc.{
  str2int, int2str, euccn_scan_char, euckr_scan_char, euccn_codec, euckr_codec,
}

pub str2int_zero : (src : Bytes) → str2int src 0 ≡ none
unfolding str2int
str2int_zero src = refl

module _ (rest : Bytes) (a : ℕ) where
  pub str2int_one : str2int (a ∷ rest) 1 ≡ some a
  unfolding str2int
  str2int_one = refl

  pub str2int_two : (b : ℕ) → b < 256 → str2int (a ∷ b ∷ rest) 2 ≡ some (a * 256 + b)
  unfolding str2int
  str2int_two b h = ap some (bit_or_low 8 a b h)

module _ (strict : Bool) (ch : ℕ) (bytes : Bytes) (w : int2str true ch ≡ some bytes) where
  reads_back : (rest : Bytes) → str2int (bytes ++ rest) (length bytes) ≡ some ch
  unfolding int2str
  reads_back rest =
      ground (arith, byte_mask ch, str2int_one rest ch, str2int_two rest (ch / 2 ^ 8) (ch % 256))

  -- Whatever the strict euc_int2str writes is scanned by euccn_scan_char and read back as the same
  -- character, also without the strict check.
  pub euccn-RoundTrips : RoundTrips (euccn_codec strict) ch bytes
  unfolding int2str euccn_scan_char
  euccn-RoundTrips = record {
    nonempty = ground arith;
    writes = ground arith;
    scans = λ rest. ground (arith, byte_mask ch);
    reads = reads_back;
  }

  -- Whatever the strict euc_int2str writes is scanned by euckr_scan_char and read back as the same
  -- character, also without the strict check.
  pub euckr-RoundTrips : RoundTrips (euckr_codec strict) ch bytes
  unfolding int2str euckr_scan_char
  euckr-RoundTrips = record {
    nonempty = ground arith;
    writes = ground arith;
    scans = λ rest. ground (arith, byte_mask ch);
    reads = reads_back;
  }

int2str_one : (a : ℕ) → a < 0x80 → int2str true a ≡ some (a ∷ [])
unfolding int2str
int2str_one a h = ground arith

int2str_two :
    (a b : ℕ)
    → a < 256
    → b < 256
    → in_gr94 a ≡ true
    → in_gr96 b ≡ true
    → int2str true (a * 256 + b) ≡ some (a ∷ b ∷ [])
unfolding int2str
int2str_two a b ha hb h k = ground (arith, byte_mask (a * 256 + b))

-- Every character that the strict euccn_scan_char finds is written back as the bytes that it was
-- read from.
pub euc_int2str-str2int :
    (str : Bytes) (n ch : ℕ)
    → All (λ b. b < 256) str
    → euccn_scan_char true str ≡ return_size n
    → str2int str n ≡ some ch
    → int2str true ch ≡ some (take n str)
unfolding euccn_scan_char
euc_int2str-str2int [] n ch small scanned r = ground (arith, str2int_zero [])
euc_int2str-str2int (a ∷ []) n ch small scanned r = ground (arith, str2int_one [] a, int2str_one a)
euc_int2str-str2int (a ∷ b ∷ rest) n ch small scanned r =
    ground (arith, str2int_one (b ∷ rest) a, str2int_two rest a b, int2str_one a, int2str_two a b)
