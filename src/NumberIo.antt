-- ===== src/NumberIo.antt =====
-- src/number-io.c in a build without SCM_USE_REAL: numbers as strings. A string is the list of its bytes
-- before the one that is 0. An integer of C has `bits` bits.
pub mod Digits
pub mod Written
pub mod RoundTrip
mod Tests
use sigscheme.Base.{
  ℕ, zero, suc, ◌+◌, ◌-◌, ◌/◌, ◌%◌, ◌^◌, Bool, true, false, not, ◌&&◌, ◌||◌, Option, none, some,
  List, [], ◌∷◌, ◌++◌, ltb, leb, ◌==◌, if◌then◌else◌, length,
}
use sigscheme.Base.Int.{ℤ, pos, negsuc, fits}
use sigscheme.Object.{Obj, int, boolean, err_obj, err}
use sigscheme.Number.{Result, value, error, not_reached, ◌>>=◌, ensure_int}

abbrev pub Text : Type 0
Text = List ℕ

-- ScmValueFormat. A width of 0 is any that is not positive.
pub record ValueFormat : Type 0 where
  pub width : ℕ
  pub pad : ℕ
  pub signedp : Bool

-- SCM_VALUE_FORMAT_INIT
abbrev pub plain_format : ValueFormat
plain_format = record { width = 0; pad = 32; signedp = true }

abbrev pub valid_radixp : ℕ → Bool
valid_radixp r = r == 2 || r == 8 || r == 10 || r == 16

-- The int of 32 bits with these bits.
abbrev pub int_of_bits : ℕ → ℤ
int_of_bits m = if ltb m 2147483648 then pos m else negsuc (4294967295 - m)

-- The conversion of a scm_int_t to int, which keeps its last 32 bits.
abbrev pub to_int : ℤ → ℤ
to_int (pos n) = int_of_bits (n % 4294967296)
to_int (negsuc n) = int_of_bits (4294967295 - n % 4294967296)

-- prepare_radix, of a proper list of arguments with SCM_STRICT_ARGCHECK. The list of the arguments that
-- are too many, which its error carries, is left out. The radix is an int before it is tested.
unfoldable pub prepare_radix : List Obj → Result ℕ
prepare_radix [] = value 10
prepare_radix (radix ∷ []) = ensure_int radix >>= λ n. elim (to_int n) [
  | pos r ↦ if valid_radixp r then value r else error (err_obj "invalid radix" radix)
  | negsuc _ ↦ error (err_obj "invalid radix" radix)
]
prepare_radix (radix ∷ _ ∷ _) = error (err "superfluous argument(s)")

abbrev pub digit_char : ℕ → ℕ
digit_char digit = if leb digit 9 then 48 + digit else 97 + digit - 10

-- The loop that fills the buffer from its end; `room` bytes of it are left. `none` is an overrun.
unfoldable pub digit_loop : ℕ → ℕ → ℕ → Text → Option (Text × ℕ)
digit_loop zero un radix p = none
digit_loop (suc room) un radix p = elim (un / radix) [
  | zero ↦ some (digit_char (un % radix) ∷ p, room)
  | suc q ↦ digit_loop room (suc q) radix (digit_char (un % radix) ∷ p)
]

abbrev pub replicate : ℕ → ℕ → Text
replicate zero c = []
replicate (suc n) c = c ∷ replicate n c

abbrev pub minus_sign : Bool → Text
minus_sign true = 45 ∷ []
minus_sign false = []

-- The string with the pad, after a sign that stands before it.
abbrev pub padded : ValueFormat → Bool → Text → Text
padded vfmt sign p =
    let used = length (minus_sign sign) + length p in
    minus_sign sign
    ++ (replicate (if ltb used vfmt.width then vfmt.width - used else 0) vfmt.pad ++ p)

-- The sign in the buffer, where the pad is not 0.
abbrev pub with_sign : ValueFormat → Bool → Text × ℕ → Option Text
with_sign vfmt neg (p, room) =
    if neg && not (vfmt.pad == 48)
    then elim room [ zero ↦ none | suc _ ↦ some (padded vfmt false (45 ∷ p)) ]
    else some (padded vfmt neg p)

abbrev pub is_negative : ℕ → ValueFormat → ℕ → Bool
is_negative bits vfmt n = vfmt.signedp && leb (2 ^ (bits - 1)) n

-- -n of unsigned integers
abbrev pub unsigned_magnitude : ℕ → Bool → ℕ → ℕ
unsigned_magnitude bits neg n = if neg then 2 ^ bits - n else n

abbrev pub written : ValueFormat → Bool → Option (Text × ℕ) → Option Text
written vfmt neg none = none
written vfmt neg (some buffer) = with_sign vfmt neg buffer

-- scm_int2string
unfoldable pub int2string : ℕ → ValueFormat → ℕ → ℕ → Option Text
unfolding digit_loop
int2string bits vfmt n radix =
    let neg = is_negative bits vfmt n in
    written vfmt neg (digit_loop (suc bits) (unsigned_magnitude bits neg n) radix [])

-- The conversion to uintmax_t.
abbrev pub as_unsigned : ℕ → ℤ → ℕ
as_unsigned bits (pos n) = n
as_unsigned bits (negsuc n) = 2 ^ bits - suc n

abbrev pub text_or : Option Text → Result Text
text_or none = not_reached
text_or (some str) = value str

-- number->string. The string object is made of what this gives.
unfoldable pub number2string : ℕ → Obj → List Obj → Result Text
unfolding prepare_radix int2string
number2string bits num args = prepare_radix args >>= λ r.
    ensure_int num >>= λ n. text_or (int2string bits plain_format (as_unsigned bits n) r)

-- What strtol gives: the value, the text from `*end` on, and whether errno is ERANGE.
pub record Strtol : Type 0 where
  pub n : ℤ
  pub end : Text
  pub erange : Bool

abbrev pub is_number_char : ℕ → Bool
is_number_char c =
    (leb 48 c && leb c 57)
    || (leb 97 c && leb c 102)
    || (leb 65 c && leb c 70)
    || c == 45
    || c == 43

abbrev pub all_number_chars : Text → Bool
all_number_chars [] = true
all_number_chars (c ∷ cs) = is_number_char c && all_number_chars cs

abbrev pub not_empty : Text → Bool
not_empty [] = false
not_empty (_ ∷ _) = true

-- The prefix after '#': a radix, or an exactness and whether it is #i.
pub data Prefix : Type 0 where
  radix_prefix : ℕ → Prefix
  exactness_prefix : Bool → Prefix
  no_prefix : Prefix

abbrev pub prefix_of : ℕ → Prefix
prefix_of c =
    if c == 98 || c == 66
    then radix_prefix 2
    else if c == 111 || c == 79
    then radix_prefix 8
    else if c == 100 || c == 68
    then radix_prefix 10
    else if c == 120 || c == 88
    then radix_prefix 16
    else if c == 101 || c == 69
    then exactness_prefix false
    else if c == 105 || c == 73
    then exactness_prefix true
    else no_prefix

-- The strtol of the C library, SCM_STRICT_ARGCHECK and SCM_INT_MAX.
module _ (strtol : Text → ℕ → Strtol) (strict : Bool) (max : ℕ) where
  -- What strtol gave, or `none` for an error.
  abbrev pub checked_strtol : Text → Strtol → Option ℤ
  checked_strtol str r =
      let empty_strp = length r.end == length str in
      if (r.erange && not empty_strp) || not (fits max r.n)
      then none
      else if empty_strp || not_empty r.end
      then none
      else some r.n

  unfoldable pub string2number : Text → ℕ → Option ℤ
  string2number str radix =
      if strict && not (all_number_chars str) then none else checked_strtol str (strtol str radix)

  -- The end of scm_parse_number. The exactness is `none`, or whether it is #i.
  unfoldable pub parse_end : ℕ → Option Bool → Text → Obj
  unfolding string2number
  parse_end radix exactness str = elim (string2number str radix) [
    | none ↦ boolean false
    | some n ↦ elim exactness [
      | none ↦ int n
      | some inexact ↦ if inexact then boolean false else int n
    ]
  ]

  unfoldable pub parse_loop : ℕ → Bool → Option Bool → Text → Obj
  unfolding parse_end
  parse_loop radix prefixed exactness [] = parse_end radix exactness []
  parse_loop radix prefixed exactness (h ∷ []) =
      if h == 35 then boolean false else parse_end radix exactness (h ∷ [])
  parse_loop radix prefixed exactness (h ∷ c ∷ str) = elim (h == 35) [
    | false ↦ parse_end radix exactness (h ∷ c ∷ str)
    | true ↦ elim (prefix_of c) [
      | radix_prefix r ↦ if prefixed then boolean false else parse_loop r true exactness str
      | exactness_prefix inexact ↦ elim exactness [
        | some _ ↦ boolean false
        | none ↦ parse_loop radix prefixed (some inexact) str
      ]
      | no_prefix ↦ boolean false
    ]
  ]

  unfoldable pub parse_number : Text → ℕ → Obj
  unfolding parse_loop
  parse_number str radix = parse_loop radix false none str

  -- string->number of the text of a string object
  unfoldable pub p_string2number : Text → List Obj → Result Obj
  unfolding prepare_radix parse_number
  p_string2number str args = prepare_radix args >>= λ r. value (parse_number str r)
