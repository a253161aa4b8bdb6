-- ===== src/Unicode/Characters.antt =====
-- src/unicode.c: the functions on characters, each with its table.
use sigscheme.Base.{ℕ, Bool, Option, List}
use sigscheme.Base.Int.{ℤ}
use sigscheme.Unicode.{
  UnicodeRange, UnicodeMapping, UnicodeFullMapping, has_property, digit_value, map_simple, map_full,
}

-- The tables of src/unicode-table.c.
pub record UnicodeTables : Type 0 where
  pub alphabetic_ranges : List UnicodeRange
  pub decimal_digit_ranges : List UnicodeRange
  pub whitespace_ranges : List UnicodeRange
  pub uppercase_ranges : List UnicodeRange
  pub lowercase_ranges : List UnicodeRange
  pub case_blocks : List ℕ
  pub upcase_mappings : List UnicodeMapping
  pub downcase_mappings : List UnicodeMapping
  pub foldcase_mappings : List UnicodeMapping
  pub full_upcase_mappings : List UnicodeFullMapping
  pub full_downcase_mappings : List UnicodeFullMapping
  pub full_foldcase_mappings : List UnicodeFullMapping

-- `unicodep` is UNICODEP() and `t` the tables.
module _ (unicodep : Bool) (t : UnicodeTables) where
  unfoldable pub unicode_alphabeticp : ℕ → Bool
  unfolding has_property
  unicode_alphabeticp = has_property unicodep t.alphabetic_ranges

  unfoldable pub unicode_numericp : ℕ → Bool
  unfolding has_property
  unicode_numericp = has_property unicodep t.decimal_digit_ranges

  unfoldable pub unicode_whitespacep : ℕ → Bool
  unfolding has_property
  unicode_whitespacep = has_property unicodep t.whitespace_ranges

  unfoldable pub unicode_upper_casep : ℕ → Bool
  unfolding has_property
  unicode_upper_casep = has_property unicodep t.uppercase_ranges

  unfoldable pub unicode_lower_casep : ℕ → Bool
  unfolding has_property
  unicode_lower_casep = has_property unicodep t.lowercase_ranges

  unfoldable pub unicode_digit_value : ℕ → Option ℕ
  unfolding digit_value
  unicode_digit_value = digit_value unicodep t.decimal_digit_ranges

  unfoldable pub unicode_upcase : ℕ → ℤ
  unfolding map_simple
  unicode_upcase = map_simple unicodep t.case_blocks t.upcase_mappings

  unfoldable pub unicode_downcase : ℕ → ℤ
  unfolding map_simple
  unicode_downcase = map_simple unicodep t.case_blocks t.downcase_mappings

  unfoldable pub unicode_foldcase : ℕ → ℤ
  unfolding map_simple
  unicode_foldcase = map_simple unicodep t.case_blocks t.foldcase_mappings

  unfoldable pub unicode_full_upcase : ℕ → List ℤ
  unfolding map_full
  unicode_full_upcase = map_full unicodep t.case_blocks t.full_upcase_mappings t.upcase_mappings

  unfoldable pub unicode_full_downcase : ℕ → List ℤ
  unfolding map_full
  unicode_full_downcase =
      map_full unicodep t.case_blocks t.full_downcase_mappings t.downcase_mappings

  unfoldable pub unicode_full_foldcase : ℕ → List ℤ
  unfolding map_full
  unicode_full_foldcase =
      map_full unicodep t.case_blocks t.full_foldcase_mappings t.foldcase_mappings
