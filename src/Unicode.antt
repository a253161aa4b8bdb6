-- ===== src/Unicode.antt =====
-- src/unicode.c: the searches in the tables of character properties and case mappings. The tables are
-- arguments. A character is a natural number.
pub mod Search
pub mod Linear
pub mod Ranges
pub mod Mapping
pub mod Characters
mod Tests
use sigscheme.Base.{
  ℕ, zero, suc, ◌+◌, ◌-◌, ◌/◌, ◌%◌, ◌^◌, Bool, true, false, not, ◌&&◌, ◌||◌, Option, none, some,
  List, [], ◌∷◌, map, ltb, ◌==◌, if◌then◌else◌, length, get_elem?,
}
use sigscheme.Base.Int.{ℤ, pos, ◌+ℤ◌}

-- unicode_range, unicode_mapping and unicode_full_mapping, whose 0 at the end is left out
pub record UnicodeRange : Type 0 where
  pub first : ℕ
  pub last : ℕ
  pub step : ℕ

pub record UnicodeMapping : Type 0 where
  pub range : UnicodeRange
  pub delta : ℤ

pub record UnicodeFullMapping : Type 0 where
  pub c : ℕ
  pub mapped : List ℕ

-- Where the search goes on after an element, or that it ends there, with or without a result.
pub data Probe : Type 0 where
  lower higher hit miss : Probe

-- `stuck` is a read out of bounds, or no end in sight.
pub data Found {ℓ} (A : Type ℓ) : Type ℓ where
  found : A → Found A
  absent stuck : Found A

-- The loop of find_range and that of map_full.
module _ {A : Type 0} (probe : A → Probe) (table : List A) where
  unfoldable pub search_loop : ℕ → ℕ → ℕ → Found A
  search_loop zero low high = stuck
  search_loop (suc fuel) low high = elim (ltb low high) [
    | false ↦ absent
    | true ↦ elim (get_elem? table ((low + high) / 2)) [
      | none ↦ stuck
      | some a ↦ elim (probe a) [
        | lower ↦ search_loop fuel low ((low + high) / 2)
        | higher ↦ search_loop fuel (suc ((low + high) / 2)) high
        | hit ↦ found a
        | miss ↦ absent
      ]
    ]
  ]

  unfoldable pub search : Found A
  unfolding search_loop
  search = search_loop (suc (length table)) 0 (length table)

abbrev pub probe_range : ℕ → UnicodeRange → Probe
probe_range c range =
    if ltb c range.first
    then lower
    else if ltb range.last c
    then higher
    else if range.step == 1 || (c - range.first) % range.step == 0
    then hit
    else miss

unfoldable pub find_range : List UnicodeRange → ℕ → Found UnicodeRange
unfolding search
find_range ranges c = search (probe_range c) ranges

abbrev pub is_found : {A : Type 0} → Found A → Bool
is_found (found _) = true
is_found _ = false

-- IN_RANGESP with UNICODEP: the codec of the moment has Unicode characters.
unfoldable pub has_property : Bool → List UnicodeRange → ℕ → Bool
unfolding find_range
has_property unicodep ranges c = unicodep && is_found (find_range ranges c)

abbrev pub digit_in : ℕ → Found UnicodeRange → Option ℕ
digit_in c (found range) = some ((c - range.first) % 10)
digit_in c _ = none

-- Every run of a range of digits begins with 0; `none` is -1.
unfoldable pub digit_value : Bool → List UnicodeRange → ℕ → Option ℕ
unfolding find_range
digit_value unicodep decimal_digit_ranges c = elim unicodep [
  | false ↦ none
  | true ↦ digit_in c (find_range decimal_digit_ranges c)
]

-- CASE_BLOCKP: one bit for each block of 256 characters.
unfoldable pub case_blockp : List ℕ → ℕ → Bool
case_blockp case_blocks c = elim (get_elem? case_blocks (c / 2 ^ 11)) [
  | none ↦ false
  | some bits ↦ bits / 2 ^ (c / 2 ^ 8 % 8) % 2 == 1
]

abbrev pub mapped_by : ℕ → Found UnicodeMapping → ℤ
mapped_by c (found mapping) = pos c +ℤ mapping.delta
mapped_by c _ = pos c

unfoldable pub map_simple : Bool → List ℕ → List UnicodeMapping → ℕ → ℤ
unfolding case_blockp search ◌+ℤ◌
map_simple unicodep case_blocks mappings c =
    if not (case_blockp case_blocks c) || not unicodep
    then pos c
    else mapped_by c (search (λ mapping. probe_range c mapping.range) mappings)

abbrev pub probe_full : ℕ → UnicodeFullMapping → Probe
probe_full c full = if ltb c full.c then lower else if ltb full.c c then higher else hit

abbrev pub written : ℤ → Found UnicodeFullMapping → List ℤ
written simple (found full) = map pos full.mapped
written simple _ = simple ∷ []

-- The characters written to DST.
unfoldable pub map_full : Bool → List ℕ → List UnicodeFullMapping → List UnicodeMapping → ℕ → List ℤ
unfolding case_blockp search map_simple
map_full unicodep case_blocks full_mappings mappings c =
    let simple = map_simple unicodep case_blocks mappings c in
    if case_blockp case_blocks c && unicodep
    then written simple (search (probe_full c) full_mappings)
    else simple ∷ []
