-- ===== src/Unicode/Ranges.antt =====
-- src/unicode.c: the properties and case mappings of characters against the tables.
use sigscheme.Base.{
  ℕ, ◌-◌, ◌%◌, ◌≤◌, ◌<◌, ◌≡◌, refl, sym, ap, subst, ◌∙◌, ◌≢◌, ◌⊎◌, inl, inr, Bool, true, false,
  ◌&&◌, ◌||◌, Option, none, some, List, [], ◌∷◌, arith, leb, ◌==◌, ==_iff, Bool-cases, get_elem?,
}
use sigscheme.Unicode.{
  UnicodeRange, lower, higher, hit, probe_range, find_range, is_found, has_property, digit_value,
  digit_in, search,
}
use sigscheme.Unicode.Search.{Ordered}
use sigscheme.Unicode.Linear.{find_first, from_option, search-find_first}

-- The characters FIRST, FIRST + STEP, ..., LAST.
abbrev pub in_range : ℕ → UnicodeRange → Bool
in_range c range = leb range.first c && leb c range.last && ((c - range.first) % range.step == 0)

-- The ranges are in increasing order and do not meet.
abbrev pub SortedBy : {A : Type 0} → (A → UnicodeRange) → List A → Type 0
SortedBy {A} range_of table =
    (i : ℕ) (a : A)
    → get_elem? table i ≡ some a
    → ((range_of a).first ≤ (range_of a).last)
      × ((j : ℕ) (b : A)
          → i < j
          → get_elem? table j ≡ some b
          → (range_of a).last < (range_of b).first)

step_one : (x k : ℕ) → (k == 1 || x % k == 0) ≡ (x % k == 0)
step_one x k = elim (Bool-cases (k == 1)) [
  | inr e ↦ ground (arith, e)
  | inl e ↦
      let rest : x % k ≡ 0 = subst (λ (m : ℕ). x % m ≡ 0) (sym ((==_iff k 1).0 e)) (omega arith) in
      ground (arith, e, rest)
]

probe_range-hit : (c : ℕ) (r : UnicodeRange) → probe_range c r ≡ hit → in_range c r ≡ true
probe_range-hit c r e = ground (arith, step_one (c - r.first) r.step, e)

probe_range-miss : (c : ℕ) (r : UnicodeRange) → probe_range c r ≢ hit → in_range c r ≡ false
probe_range-miss c r ne = ground (arith, step_one (c - r.first) r.step, ne)

probe_range-apart :
    (c : ℕ) (a b : UnicodeRange)
    → a.first ≤ a.last
    → a.last < b.first
    → (probe_range c a ≡ higher) ⊎ (probe_range c b ≡ lower)
probe_range-apart c a b le lt = ground arith

SortedBy-Ordered :
    {A : Type 0} (range_of : A → UnicodeRange) (table : List A) (c : ℕ)
    → SortedBy range_of table
    → Ordered (λ a. probe_range c (range_of a)) table
SortedBy-Ordered range_of table c sorted i j a b lt at there =
    let (le, apart) = sorted i a at in
    probe_range-apart c (range_of a) (range_of b) le (apart j b lt there)

pub search-in_range :
    {A : Type 0} (range_of : A → UnicodeRange) (table : List A) (c : ℕ)
    → SortedBy range_of table
    → search (λ a. probe_range c (range_of a)) table
      ≡ from_option (find_first (λ a. in_range c (range_of a)) table)
search-in_range range_of table c sorted =
    search-find_first (λ a. probe_range c (range_of a)) (λ a. in_range c (range_of a))
      (λ a. probe_range-hit c (range_of a)) (λ a. probe_range-miss c (range_of a)) table
      (SortedBy-Ordered range_of table c sorted)

abbrev pub any : {A : Type 0} → (A → Bool) → List A → Bool
any p [] = false
any p (a ∷ xs) = p a || any p xs

is_found-any :
    {A : Type 0} (p : A → Bool) (xs : List A) → is_found (from_option (find_first p xs)) ≡ any p xs
is_found-any p [] = refl
is_found-any p (a ∷ xs) = ground (arith, is_found-any p xs)

-- In a table of increasing ranges, a character has the property just where the codec is a Unicode one
-- and the character is one of FIRST, FIRST + STEP, ..., LAST of some range.
pub has_property-any :
    (unicodep : Bool) (ranges : List UnicodeRange) (c : ℕ)
    → SortedBy (λ range. range) ranges
    → has_property unicodep ranges c ≡ (unicodep && any (in_range c) ranges)
unfolding has_property find_range
has_property-any unicodep ranges c sorted =
    ap (λ b. unicodep && b)
      (ap is_found (search-in_range (λ range. range) ranges c sorted)
        ∙ is_found-any (in_range c) ranges)

-- The value of a digit is its place in its run of ten.
abbrev pub digit_of : ℕ → Option UnicodeRange → Option ℕ
digit_of c none = none
digit_of c (some range) = some ((c - range.first) % 10)

digit_in-from_option : (c : ℕ) (o : Option UnicodeRange) → digit_in c (from_option o) ≡ digit_of c o
digit_in-from_option c none = refl
digit_in-from_option c (some range) = refl

pub digit_value-find_first :
    (ranges : List UnicodeRange) (c : ℕ)
    → SortedBy (λ range. range) ranges
    → (digit_value true ranges c ≡ digit_of c (find_first (in_range c) ranges))
      × (digit_value false ranges c ≡ none)
unfolding digit_value find_range
digit_value-find_first ranges c sorted = (
  ap (digit_in c) (search-in_range (λ range. range) ranges c sorted)
      ∙ digit_in-from_option c (find_first (in_range c) ranges),
  refl,
)
