-- ===== src/NumberIo/Tests.antt =====
-- The round trip of numbers at a strtol for signed digits, and runs of the conversions.
use sigscheme.Base.{ℕ, ◌≡◌, refl, ap, true, false, some, [], ◌∷◌, arith, ◌==◌, if◌then◌else◌}
use sigscheme.Base.Int.{pos, negsuc, minus_ℕ}
use sigscheme.Object.{int, boolean, err_obj}
use sigscheme.Number.{value, error}
use sigscheme.NumberIo.{
  Text, valid_radixp, int2string, number2string, Strtol, parse_number, p_string2number,
  prepare_radix,
}
use sigscheme.NumberIo.Digits.{IsDigit, value_from}
use sigscheme.NumberIo.RoundTrip.{ReadsDigits, number2string-string2number}

-- A sign and digits, of which it does not check that they are digits.
abbrev signed_digits : Text → ℕ → Strtol
signed_digits [] radix = record { n = pos 0; end = []; erange = false }
signed_digits (c ∷ cs) radix =
    if c == 45
    then record { n = minus_ℕ (value_from radix 0 cs); end = []; erange = false }
    else record { n = pos (value_from radix 0 (c ∷ cs)); end = []; erange = false }

not_minus : (radix c : ℕ) → valid_radixp radix ≡ true → IsDigit radix c → (c == 45) ≡ false
not_minus radix c valid (d, lt, e) = rw e (ground (arith, valid))

signed_digits-ReadsDigits : ReadsDigits signed_digits 127
signed_digits-ReadsDigits radix n true cs valid d f =
    ap (λ m. record { n = minus_ℕ m; end = []; erange = false }) d.value_is
signed_digits-ReadsDigits radix n false [] valid d f = absurd (omega (arith, d.some_digit))
signed_digits-ReadsDigits radix n false (c ∷ cs) valid d f =
    rw (not_minus radix c valid d.valid.0)
      (ap (λ m. record { n = pos m; end = []; erange = false }) d.value_is)

conversion_runs :
    (int2string 8 (record { width = 5; pad = 48; signedp = true }) 246 10
      ≡ some (45 ∷ 48 ∷ 48 ∷ 49 ∷ 48 ∷ []))
    × (int2string 8 (record { width = 5; pad = 32; signedp = false }) 246 16
        ≡ some (32 ∷ 32 ∷ 32 ∷ 102 ∷ 54 ∷ []))
    × (number2string 8 (int (negsuc 127)) (int (pos 2) ∷ [])
        ≡ value (45 ∷ 49 ∷ 48 ∷ 48 ∷ 48 ∷ 48 ∷ 48 ∷ 48 ∷ 48 ∷ []))
    × (prepare_radix (int (pos 3) ∷ []) ≡ error (err_obj "invalid radix" (int (pos 3))))
    × (prepare_radix (int (pos 4294967306) ∷ []) ≡ value 10)
    × (prepare_radix (int (negsuc 4294967285) ∷ []) ≡ value 10)
    × (prepare_radix (int (negsuc 9) ∷ []) ≡ error (err_obj "invalid radix" (int (negsuc 9))))
unfolding int2string number2string prepare_radix
conversion_runs = (refl, refl, refl, refl, refl, refl, refl)

parse_runs :
    (parse_number signed_digits true 127 (35 ∷ 120 ∷ 35 ∷ 101 ∷ 55 ∷ 102 ∷ []) 10 ≡ int (pos 127))
    × (parse_number signed_digits true 127 (35 ∷ 105 ∷ 49 ∷ []) 10 ≡ boolean false)
    × (parse_number signed_digits true 127 (35 ∷ 98 ∷ 35 ∷ 98 ∷ 49 ∷ []) 10 ≡ boolean false)
    × (parse_number signed_digits true 127 (49 ∷ 50 ∷ 56 ∷ []) 10 ≡ boolean false)
    × (parse_number signed_digits true 127 (32 ∷ 49 ∷ []) 10 ≡ boolean false)
unfolding parse_number
parse_runs = (refl, refl, refl, refl, refl)

number2string-string2number_example :
    (str : Text) × (number2string 8 (int (negsuc 127)) (int (pos 16) ∷ []) ≡ value str)
    × (p_string2number signed_digits true 127 str (int (pos 16) ∷ []) ≡ value (int (negsuc 127)))
    × (parse_number signed_digits true 127 (35 ∷ 120 ∷ str) 10 ≡ int (negsuc 127))
number2string-string2number_example =
    number2string-string2number signed_digits true 127 signed_digits-ReadsDigits 8 16 120 10
      (negsuc 127) (omega arith) (omega arith) refl refl refl
