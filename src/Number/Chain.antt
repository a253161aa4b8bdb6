-- ===== src/Number/Chain.antt =====
-- src/number.c and src/eval.c: what the comparators, max and min make of all their arguments.
use sigscheme.Base.{
  ◌≡◌, refl, inl, inr, Bool, true, false, not, ◌&&◌, ◌||◌, List, [], ◌∷◌, map, arith, if◌then◌else◌,
  Bool-cases, All,
}
use sigscheme.Base.Int.{ℤ, pos, int_eq, ltb_ℤ}
use sigscheme.Object.{int, boolean}
use sigscheme.Number.{value, compare_ints, compare_numbers}
use sigscheme.Number.Reduction.{
  Operator, partway, last, comparator, p_equal, p_less, p_less_equal, p_greater, p_greater_equal,
  p_max, p_min, reduce_rest, reduce,
}

-- Each integer is in the relation to the next one.
abbrev pub in_order : (ℤ → ℤ → Bool) → ℤ → List ℤ → Bool
in_order rel a [] = true
in_order rel a (b ∷ zs) = rel a b && in_order rel b zs

module _ (op : ℤ → Bool) (rel : ℤ → ℤ → Bool)
    (same : (a b : ℤ) → op (compare_ints a b) ≡ rel a b) where
  comparator-in_order :
      (a b : ℤ) (zs : List ℤ)
      → reduce_rest (comparator op) (int a) (int b) (map int zs)
        ≡ value (boolean (in_order rel a (b ∷ zs)))
  unfolding reduce_rest compare_numbers
  comparator-in_order a b [] = ground (arith, same a b)
  comparator-in_order a b (c ∷ zs) = ground (arith, same a b, comparator-in_order b c zs)

-- Of two or more fixnums, each comparator gives whether each one is in its relation to the next.
pub comparators-in_order :
    (a b : ℤ) (zs : List ℤ)
    → (reduce p_equal (map int (a ∷ b ∷ zs)) ≡ value (boolean (in_order int_eq a (b ∷ zs))))
      × (reduce p_less (map int (a ∷ b ∷ zs)) ≡ value (boolean (in_order ltb_ℤ a (b ∷ zs))))
      × (reduce p_less_equal (map int (a ∷ b ∷ zs))
          ≡ value (boolean (in_order (λ x y. not (ltb_ℤ y x)) a (b ∷ zs))))
      × (reduce p_greater (map int (a ∷ b ∷ zs))
          ≡ value (boolean (in_order (λ x y. ltb_ℤ y x) a (b ∷ zs))))
      × (reduce p_greater_equal (map int (a ∷ b ∷ zs))
          ≡ value (boolean (in_order (λ x y. not (ltb_ℤ x y)) a (b ∷ zs))))
unfolding reduce p_equal p_less p_less_equal p_greater p_greater_equal
comparators-in_order a b zs = (
  comparator-in_order (λ cmp. int_eq cmp (pos 0)) int_eq (λ x y. ground arith) a b zs,
  comparator-in_order (λ cmp. ltb_ℤ cmp (pos 0)) ltb_ℤ (λ x y. ground arith) a b zs,
  comparator-in_order (λ cmp. not (ltb_ℤ (pos 0) cmp)) (λ x y. not (ltb_ℤ y x))
      (λ x y. ground arith) a b zs,
  comparator-in_order (λ cmp. ltb_ℤ (pos 0) cmp) (λ x y. ltb_ℤ y x) (λ x y. ground arith) a b zs,
  comparator-in_order (λ cmp. not (ltb_ℤ cmp (pos 0))) (λ x y. not (ltb_ℤ x y))
      (λ x y. ground arith) a b zs,
)

-- The extreme of integers by a test that says when to keep the left one.
abbrev pub extreme : (ℤ → ℤ → Bool) → ℤ → List ℤ → ℤ
extreme keep a [] = a
extreme keep a (b ∷ zs) = extreme keep (if keep a b then a else b) zs

module _ (op : Operator) (keep : ℤ → ℤ → Bool)
    (at_partway : (a b : ℤ)
      → op (int a) (int b) partway ≡ value (int (if keep a b then a else b), partway))
    (at_last : (a b : ℤ)
      → op (int a) (int b) last ≡ value (int (if keep a b then a else b), last)) where
  reduce_rest-extreme :
      (a b : ℤ) (zs : List ℤ)
      → reduce_rest op (int a) (int b) (map int zs) ≡ value (int (extreme keep a (b ∷ zs)))
  unfolding reduce_rest
  reduce_rest-extreme a b [] = rw (at_last a b) refl
  reduce_rest-extreme a b (c ∷ zs) =
      rw (at_partway a b) (reduce_rest-extreme (if keep a b then a else b) c zs)

abbrev pub among : ℤ → List ℤ → Bool
among m [] = false
among m (z ∷ zs) = int_eq m z || among m zs

-- One of the integers, before which none is to be kept.
abbrev pub IsExtreme : (ℤ → ℤ → Bool) → ℤ → List ℤ → Type 0
IsExtreme keep m zs = (among m zs ≡ true) × All (λ z. keep z m ≡ false) zs

module _ (keep : ℤ → ℤ → Bool) (keep_irrefl : (a : ℤ) → keep a a ≡ false)
    (keep_both : (a b m : ℤ)
      → keep (if keep a b then a else b) m ≡ false
      → (keep a m ≡ false) × (keep b m ≡ false)) where
  extreme-IsExtreme : (a : ℤ) (zs : List ℤ) → IsExtreme keep (extreme keep a zs) (a ∷ zs)
  extreme-IsExtreme a [] = (ground arith, (keep_irrefl a, tt))
  extreme-IsExtreme a (b ∷ zs) =
      let (it, bounds) = extreme-IsExtreme (if keep a b then a else b) zs in
      let (at_a, at_b) = keep_both a b (extreme keep (if keep a b then a else b) zs) bounds.0 in
      (
        elim (Bool-cases (keep a b)) [
          | inl k ↦ ground (arith, it, k)
          | inr k ↦ ground (arith, it, k)
        ],
        (at_a, (at_b, bounds.1)),
      )

abbrev pub greater : ℤ → ℤ → Bool
greater x y = ltb_ℤ y x

-- max and min of one or more fixnums give one of them that no other one exceeds, or is less than.
pub extremes-IsExtreme :
    (a : ℤ) (zs : List ℤ)
    → ((m : ℤ) × (reduce p_max (map int (a ∷ zs)) ≡ value (int m)) × IsExtreme greater m (a ∷ zs))
      × ((m : ℤ) × (reduce p_min (map int (a ∷ zs)) ≡ value (int m)) × IsExtreme ltb_ℤ m (a ∷ zs))
unfolding reduce p_max p_min compare_numbers
extremes-IsExtreme a [] = ((a, ground arith, ground arith), (a, ground arith, ground arith))
extremes-IsExtreme a (b ∷ zs) = (
  (
    extreme greater a (b ∷ zs),
    reduce_rest-extreme p_max greater (λ x y. ground arith) (λ x y. ground arith) a b zs,
    extreme-IsExtreme greater (λ x. ground arith) (λ x y m e. ground arith) a (b ∷ zs),
  ),
  (
    extreme ltb_ℤ a (b ∷ zs),
    reduce_rest-extreme p_min ltb_ℤ (λ x y. ground arith) (λ x y. ground arith) a b zs,
    extreme-IsExtreme ltb_ℤ (λ x. ground arith) (λ x y m e. ground arith) a (b ∷ zs),
  ),
)
