-- ===== src/Unicode/Mapping.antt =====
-- src/unicode.c: the case mappings of characters against the tables.
use sigscheme.Base.{
  ℕ, ◌<◌, ◌≡◌, refl, ap, ◌∙◌, Bool, true, false, not, ◌&&◌, ◌||◌, Option, none, some, List, [], ◌∷◌,
  map, arith, ◌==◌, if◌then◌else◌, get_elem?,
}
use sigscheme.Base.Int.{ℤ, pos, ◌+ℤ◌}
use sigscheme.Unicode.{
  UnicodeRange, UnicodeMapping, UnicodeFullMapping, probe_range, case_blockp, mapped_by, map_simple,
  probe_full, written, map_full, search,
}
use sigscheme.Unicode.Linear.{find_first, from_option, search-find_first}
use sigscheme.Unicode.Ranges.{in_range, SortedBy, search-in_range}

-- What the tables say of a character: its simple mapping, and its full one.
abbrev pub simple_of : ℕ → Option UnicodeMapping → ℤ
simple_of c none = pos c
simple_of c (some mapping) = pos c +ℤ mapping.delta

abbrev pub full_of : ℤ → Option UnicodeFullMapping → List ℤ
full_of simple none = simple ∷ []
full_of simple (some full) = map pos full.mapped

abbrev pub mapping_range : UnicodeMapping → UnicodeRange
mapping_range mapping = mapping.range

abbrev pub is_full : ℕ → UnicodeFullMapping → Bool
is_full c full = full.c == c

abbrev pub simple_mapping : List UnicodeMapping → ℕ → ℤ
simple_mapping mappings c = simple_of c (find_first (λ m. in_range c (mapping_range m)) mappings)

-- The characters of the full mappings increase.
abbrev pub SortedFull : List UnicodeFullMapping → Type 0
SortedFull table =
    (i j : ℕ) (a b : UnicodeFullMapping)
    → i < j
    → get_elem? table i ≡ some a
    → get_elem? table j ≡ some b
    → a.c < b.c

mapped_by-from_option :
    (c : ℕ) (o : Option UnicodeMapping) → mapped_by c (from_option o) ≡ simple_of c o
mapped_by-from_option c none = refl
mapped_by-from_option c (some mapping) = refl

mapped_by-search :
    (mappings : List UnicodeMapping) (c : ℕ)
    → SortedBy mapping_range mappings
    → mapped_by c (search (λ mapping. probe_range c mapping.range) mappings)
      ≡ simple_mapping mappings c
mapped_by-search mappings c sorted =
    ap (mapped_by c) (search-in_range mapping_range mappings c sorted)
    ∙ mapped_by-from_option c (find_first (λ m. in_range c (mapping_range m)) mappings)

swap :
    (block unicodep : Bool) (a b : ℤ)
    → (if not block || not unicodep then a else b) ≡ (if block && unicodep then b else a)
swap true true a b = refl
swap true false a b = refl
swap false u a b = refl

map_simple-in_range :
    (unicodep : Bool) (case_blocks : List ℕ) (mappings : List UnicodeMapping) (c : ℕ)
    → SortedBy mapping_range mappings
    → map_simple unicodep case_blocks mappings c
      ≡ (if case_blockp case_blocks c && unicodep then simple_mapping mappings c else pos c)
unfolding map_simple
map_simple-in_range unicodep case_blocks mappings c sorted =
    ap (λ z. if not (case_blockp case_blocks c) || not unicodep then pos c else z)
      (mapped_by-search mappings c sorted)
    ∙ swap (case_blockp case_blocks c) unicodep (pos c) (simple_mapping mappings c)

written-from_option :
    (simple : ℤ) (o : Option UnicodeFullMapping) → written simple (from_option o) ≡ full_of simple o
written-from_option simple none = refl
written-from_option simple (some full) = refl

search-full :
    (table : List UnicodeFullMapping) (c : ℕ)
    → SortedFull table
    → search (probe_full c) table ≡ from_option (find_first (is_full c) table)
search-full table c sorted =
    search-find_first (probe_full c) (is_full c) (λ full e. ground (arith, e))
      (λ full ne. ground (arith, ne)) table
      (λ i j a b lt at there. ground (arith, sorted i j a b lt at there))

by_block :
    (active : Bool) (simple : ℤ) (c : ℕ) (o : Option UnicodeFullMapping)
    → (if active
        then written (if active then simple else pos c) (from_option o)
        else (if active then simple else pos c) ∷ [])
      ≡ (if active then full_of simple o else pos c ∷ [])
by_block true simple c o = written-from_option simple o
by_block false simple c o = refl

-- With sorted tables, map_full writes the full mapping of a character that has one, else its simple
-- mapping, and outside of the blocks with mappings and without a Unicode codec the character itself.
pub map_full-find_first :
    (unicodep : Bool) (case_blocks : List ℕ) (full_mappings : List UnicodeFullMapping)
    (mappings : List UnicodeMapping) (c : ℕ)
    → SortedFull full_mappings
    → SortedBy mapping_range mappings
    → map_full unicodep case_blocks full_mappings mappings c ≡ (
        if case_blockp case_blocks c && unicodep
        then full_of (simple_mapping mappings c) (find_first (is_full c) full_mappings)
        else pos c ∷ [])
unfolding map_full
map_full-find_first unicodep case_blocks full_mappings mappings c full_sorted sorted =
    let block : Bool = case_blockp case_blocks c in
    ap
      (λ simple.
        if block && unicodep
        then written simple (search (probe_full c) full_mappings)
        else simple ∷ [])
      (map_simple-in_range unicodep case_blocks mappings c sorted)
    ∙ ap
        (λ result.
          if block && unicodep
          then written (if block && unicodep then simple_mapping mappings c else pos c) result
          else (if block && unicodep then simple_mapping mappings c else pos c) ∷ [])
        (search-full full_mappings c full_sorted)
    ∙ by_block (block && unicodep) (simple_mapping mappings c) c
        (find_first (is_full c) full_mappings)
