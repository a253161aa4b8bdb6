-- ===== src/Unicode/Tests.antt =====
-- The theorems on the tables of characters at small tables, and runs of the searches.
use sigscheme.Base.{
  ℕ, zero, suc, ◌≤◌, ◌<◌, ◌≡◌, refl, ap, subst, true, false, none, some, List, [], ◌∷◌, arith,
  get_elem?,
}
use sigscheme.Base.Int.{pos, negsuc}
use sigscheme.Unicode.{
  UnicodeRange, UnicodeMapping, UnicodeFullMapping, found, absent, find_range, has_property,
  case_blockp, map_full,
}
use sigscheme.Unicode.Ranges.{in_range, SortedBy, any, has_property-any}
use sigscheme.Unicode.Mapping.{mapping_range, SortedFull, map_full-find_first}
use sigscheme.Unicode.Characters.{
  UnicodeTables, unicode_full_upcase, unicode_upcase, unicode_digit_value,
}

abbrev range : ℕ → ℕ → ℕ → UnicodeRange
range first last step = record { first = first; last = last; step = step }

-- Every second character from 256 to 302, and all from 1632 to 1641.
abbrev ranges : List UnicodeRange
ranges = range 256 302 2 ∷ range 1632 1641 1 ∷ []

abbrev mappings : List UnicodeMapping
mappings =
    record { range = range 224 246 1; delta = negsuc 31 }
    ∷ record { range = range 257 303 2; delta = negsuc 0 }
    ∷ []

abbrev full_mappings : List UnicodeFullMapping
full_mappings =
    record { c = 223; mapped = 83 ∷ 83 ∷ [] } ∷ record { c = 329; mapped = 700 ∷ 78 ∷ [] } ∷ []

abbrev tables : UnicodeTables
tables = record {
  alphabetic_ranges = ranges;
  decimal_digit_ranges = ranges;
  whitespace_ranges = [];
  uppercase_ranges = [];
  lowercase_ranges = [];
  case_blocks = 3 ∷ [];
  upcase_mappings = mappings;
  downcase_mappings = [];
  foldcase_mappings = [];
  full_upcase_mappings = full_mappings;
  full_downcase_mappings = [];
  full_foldcase_mappings = [];
}

search_runs :
    (find_range ranges 258 ≡ found (range 256 302 2))
    × (find_range ranges 259 ≡ absent)
    × (unicode_digit_value true tables 1635 ≡ some 3)
    × (unicode_upcase true tables 228 ≡ pos 196)
    × (unicode_upcase false tables 228 ≡ pos 228)
    × (unicode_full_upcase true tables 223 ≡ pos 83 ∷ pos 83 ∷ [])
    × (unicode_full_upcase true tables 259 ≡ pos 258 ∷ [])
unfolding find_range unicode_digit_value unicode_upcase unicode_full_upcase
search_runs = (refl, refl, refl, refl, refl, refl, refl)

some_injective : {A : Type 0} (x a : A) → some x ≡ some a → x ≡ a
some_injective x a = ap (λ o. elim o [ none ↦ x | some y ↦ y ])

-- Two elements in order are a sorted table.
two_sorted :
    {A : Type 0} (range_of : A → UnicodeRange) (x y : A)
    → (range_of x).first ≤ (range_of x).last
    → (range_of x).last < (range_of y).first
    → (range_of y).first ≤ (range_of y).last
    → SortedBy range_of (x ∷ y ∷ [])
two_sorted {A} range_of x y p q r zero a at =
    (subst (λ z. (range_of z).first ≤ (range_of z).last) (some_injective x a at) p, after)
  where
    after :
        (j : ℕ) (b : A)
        → 0 < j
        → get_elem? (x ∷ y ∷ []) j ≡ some b
        → (range_of a).last < (range_of b).first
    after zero b lt there = absurd (omega arith)
    after (suc zero) b lt there =
        subst (λ z. (range_of z).last < (range_of b).first) (some_injective x a at)
          (subst (λ z. (range_of x).last < (range_of z).first) (some_injective y b there) q)
    after (suc (suc j)) b lt there = cc
two_sorted {A} range_of x y p q r (suc zero) a at =
    (subst (λ z. (range_of z).first ≤ (range_of z).last) (some_injective y a at) r, after)
  where
    after :
        (j : ℕ) (b : A)
        → 1 < j
        → get_elem? (x ∷ y ∷ []) j ≡ some b
        → (range_of a).last < (range_of b).first
    after zero b lt there = absurd (omega arith)
    after (suc zero) b lt there = absurd (omega arith)
    after (suc (suc j)) b lt there = cc
two_sorted range_of x y p q r (suc (suc i)) a at = cc

ranges_sorted : SortedBy (λ r. r) ranges
ranges_sorted =
    two_sorted (λ r. r) (range 256 302 2) (range 1632 1641 1) (omega arith) (omega arith)
      (omega arith)

mappings_sorted : SortedBy mapping_range mappings
mappings_sorted =
    two_sorted mapping_range (record { range = range 224 246 1; delta = negsuc 31 })
      (record { range = range 257 303 2; delta = negsuc 0 }) (omega arith) (omega arith)
      (omega arith)

full_mappings_sorted : SortedFull full_mappings
full_mappings_sorted zero zero a b lt at there = absurd (omega arith)
full_mappings_sorted zero (suc zero) a b lt at there =
    subst (λ z. z.c < b.c) (some_injective (record { c = 223; mapped = 83 ∷ 83 ∷ [] }) a at)
      (subst (λ z. 223 < z.c) (some_injective (record { c = 329; mapped = 700 ∷ 78 ∷ [] }) b there)
        (omega arith))
full_mappings_sorted (suc i) zero a b lt at there = absurd (omega arith)
full_mappings_sorted (suc zero) (suc zero) a b lt at there = absurd (omega arith)
full_mappings_sorted (suc (suc i)) j a b lt at there = cc
full_mappings_sorted i (suc (suc j)) a b lt at there = cc

has_property-any_example : has_property true ranges 258 ≡ any (in_range 258) ranges
has_property-any_example = has_property-any true ranges 258 ranges_sorted

map_full-find_first_example :
    map_full true (3 ∷ []) full_mappings mappings 223 ≡ pos 83 ∷ pos 83 ∷ []
unfolding case_blockp
map_full-find_first_example =
    map_full-find_first true (3 ∷ []) full_mappings mappings 223 full_mappings_sorted
      mappings_sorted
