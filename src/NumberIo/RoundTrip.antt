-- ===== src/NumberIo/RoundTrip.antt =====
-- src/number-io.c: a fixnum that is written is read back.
use sigscheme.Base.{
  ℕ, ◌+◌, ◌-◌, ◌^◌, ◌≤◌, ◌<◌, ◌≡◌, refl, ap, ◌∙◌, ◌≢◌, Bool, true, false, not, ◌&&◌, none, some, [],
  ◌∷◌, ◌++◌, arith, ◌==◌, if◌then◌else◌, ==_ne, length, All, length-append,
}
use sigscheme.Base.Int.{ℤ, pos, fits}
use sigscheme.Object.{int}
use sigscheme.Number.{value, ◌>>=◌}
use sigscheme.NumberIo.{
  Text, valid_radixp, minus_sign, number2string, Strtol, is_number_char, all_number_chars,
  checked_strtol, radix_prefix, prefix_of, string2number, parse_end, parse_loop, parse_number,
  p_string2number,
}
use sigscheme.NumberIo.Digits.{IsDigit, Digits}
use sigscheme.NumberIo.Written.{signed, prepare_radix-valid, number2string-Digits}

-- strtol reads an optional sign and digits up to the end of the text, where their value is in range.
abbrev pub ReadsDigits : (Text → ℕ → Strtol) → ℕ → Type 0
ReadsDigits strtol max =
    (radix n : ℕ) (neg : Bool) (cs : Text)
    → valid_radixp radix ≡ true
    → Digits radix n cs
    → fits max (signed neg n) ≡ true
    → strtol (minus_sign neg ++ cs) radix ≡ record { n = signed neg n; end = []; erange = false }

digit_is_number_char :
    (radix c : ℕ)
    → valid_radixp radix ≡ true
    → IsDigit radix c
    → (is_number_char c ≡ true) × (c ≢ 35)
digit_is_number_char radix c valid (d, lt, e) = rw e (ground (arith, valid))

digits_are_number_chars :
    (radix : ℕ) (cs : Text)
    → valid_radixp radix ≡ true
    → All (IsDigit radix) cs
    → all_number_chars cs ≡ true
digits_are_number_chars radix [] valid _ = refl
digits_are_number_chars radix (c ∷ cs) valid (digit, all) = ground (
  arith,
  (digit_is_number_char radix c valid digit).0,
  digits_are_number_chars radix cs valid all,
)

signed_are_number_chars :
    (neg : Bool) (cs : Text)
    → all_number_chars cs ≡ true
    → all_number_chars (minus_sign neg ++ cs) ≡ true
signed_are_number_chars true cs e = e
signed_are_number_chars false cs e = e

and_false : (b : Bool) → (b && false) ≡ false
and_false true = refl
and_false false = refl

-- The first character is no '#'.
abbrev NoPrefix : Text → Type 0
NoPrefix [] = Unit
NoPrefix (h ∷ str) = (h == 35) ≡ false

signed_NoPrefix :
    (radix m : ℕ) (neg : Bool) (cs : Text)
    → valid_radixp radix ≡ true
    → Digits radix m cs
    → NoPrefix (minus_sign neg ++ cs)
signed_NoPrefix radix m true cs valid d = refl
signed_NoPrefix radix m false [] valid d = tt
signed_NoPrefix radix m false (c ∷ cs) valid d =
    ==_ne c 35 (digit_is_number_char radix c valid d.valid.0).1

module _ (strtol : Text → ℕ → Strtol) (strict : Bool) (max : ℕ)
    (reads : ReadsDigits strtol max) where
  checked_strtol-value :
      (str : Text) (z : ℤ)
      → 0 < length str
      → fits max z ≡ true
      → checked_strtol strtol strict max str (record { n = z; end = []; erange = false }) ≡ some z
  checked_strtol-value str z some_char f = ground (arith, some_char, f)

  string2number-Digits :
      (radix m : ℕ) (neg : Bool) (cs : Text)
      → valid_radixp radix ≡ true
      → Digits radix m cs
      → fits max (signed neg m) ≡ true
      → string2number strtol strict max (minus_sign neg ++ cs) radix ≡ some (signed neg m)
  unfolding string2number
  string2number-Digits radix m neg cs valid d f =
      let chars : all_number_chars (minus_sign neg ++ cs) ≡ true =
        signed_are_number_chars neg cs (digits_are_number_chars radix cs valid d.valid) in
      let some_char : 0 < length (minus_sign neg ++ cs) =
        rw (length-append (minus_sign neg) cs) (omega (arith, d.some_digit)) in
      ap
        (λ b.
          if strict && not b
          then none
          else checked_strtol strtol strict max (minus_sign neg ++ cs)
              (strtol (minus_sign neg ++ cs) radix))
        chars
      ∙ ap
          (λ b.
            if b
            then none
            else checked_strtol strtol strict max (minus_sign neg ++ cs)
                (strtol (minus_sign neg ++ cs) radix))
          (and_false strict)
      ∙ ap (checked_strtol strtol strict max (minus_sign neg ++ cs))
          (reads radix m neg cs valid d f)
      ∙ checked_strtol-value (minus_sign neg ++ cs) (signed neg m) some_char f

  parse_loop-NoPrefix :
      (radix : ℕ) (prefixed : Bool) (str : Text)
      → NoPrefix str
      → parse_loop strtol strict max radix prefixed none str
        ≡ parse_end strtol strict max radix none str
  unfolding parse_loop
  parse_loop-NoPrefix radix prefixed [] e = refl
  parse_loop-NoPrefix radix prefixed (h ∷ []) e = ground (arith, e)
  parse_loop-NoPrefix radix prefixed (h ∷ c ∷ str) e = ground (arith, e)

  parse_loop-Digits :
      (radix m : ℕ) (prefixed neg : Bool) (cs : Text)
      → valid_radixp radix ≡ true
      → Digits radix m cs
      → fits max (signed neg m) ≡ true
      → parse_loop strtol strict max radix prefixed none (minus_sign neg ++ cs) ≡ int (signed neg m)
  unfolding parse_end
  parse_loop-Digits radix m prefixed neg cs valid d f =
      parse_loop-NoPrefix radix prefixed (minus_sign neg ++ cs)
        (signed_NoPrefix radix m neg cs valid d)
      ∙ rw (parse_end, string2number-Digits radix m neg cs valid d f) refl

  parse_prefixed :
      (c q r : ℕ) (str : Text)
      → prefix_of c ≡ radix_prefix r
      → parse_number strtol strict max (35 ∷ c ∷ str) q
        ≡ parse_loop strtol strict max r true none str
  unfolding parse_number parse_loop
  parse_prefixed c q r str at = ground (arith, at)

  -- With a strtol that reads signed digits, and fixnums no wider than uintmax_t, what number->string
  -- writes for a fixnum in a valid radix is read back by string->number with this radix, and with any
  -- radix after the prefix of this one.
  pub number2string-string2number :
      (bits r c q : ℕ) (z : ℤ)
      → 0 < bits
      → max + 1 ≤ 2 ^ (bits - 1)
      → valid_radixp r ≡ true
      → fits max z ≡ true
      → prefix_of c ≡ radix_prefix r
      → (str : Text) × (number2string bits (int z) (int (pos r) ∷ []) ≡ value str)
        × (p_string2number strtol strict max str (int (pos r) ∷ []) ≡ value (int z))
        × (parse_number strtol strict max (35 ∷ c ∷ str) q ≡ int z)
  unfolding p_string2number parse_number
  number2string-string2number bits r c q z lt e valid f at =
      let (neg, m, cs, writes, d, same) = number2string-Digits bits max r z lt e valid f in
      let fit : fits max (signed neg m) ≡ true = rw same f in
      (
        minus_sign neg ++ cs,
        writes,
        ap (λ q. q >>= λ r. value (parse_number strtol strict max (minus_sign neg ++ cs) r))
              (prepare_radix-valid r valid)
            ∙ ap value (parse_loop-Digits r m false neg cs valid d fit ∙ ap int same),
        parse_prefixed c q r (minus_sign neg ++ cs) at
            ∙ parse_loop-Digits r m true neg cs valid d fit
            ∙ ap int same,
      )
