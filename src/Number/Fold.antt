-- ===== src/Number/Fold.antt =====
-- src/number.c and src/eval.c: what the reduction operators make of all their arguments.
use sigscheme.Base.{
  ℕ, ◌<◌, ◌≡◌, refl, ◌∙◌, inl, inr, Bool, true, ◌&&◌, List, [], ◌∷◌, map, arith, if◌then◌else◌,
  Bool-cases, All,
}
use sigscheme.Base.Int.{ℤ, pos, negsuc, ◌+ℤ◌, ◌-ℤ◌, ◌*ℤ◌, fits}
use sigscheme.Object.{Obj, int}
use sigscheme.Number.{Result, value, error, ◌>>=◌, fixnum_overflow}
use sigscheme.Number.Fixnum.{checked, int_multiply-checked}
use sigscheme.Number.Reduction.{
  Operator, partway, last, add_ints, subtract_ints, p_add, p_subtract, p_multiply, reduce_rest,
  reduce,
}

pub add_ints-checked :
    (max : ℕ) (l r : ℤ)
    → fits max l ≡ true
    → fits max r ≡ true
    → add_ints max l r ≡ checked max (l +ℤ r)
unfolding ◌+ℤ◌ ◌-ℤ◌
add_ints-checked max l r f g = ground arith

pub subtract_ints-checked :
    (max : ℕ) (l r : ℤ)
    → fits max l ≡ true
    → fits max r ≡ true
    → subtract_ints max l r ≡ checked max (l -ℤ r)
unfolding ◌+ℤ◌ ◌-ℤ◌
subtract_ints-checked max l r f g = ground arith

-- The result of an operation over all integers, and whether every result on the way is a fixnum.
abbrev pub fold : (ℤ → ℤ → ℤ) → ℤ → List ℤ → ℤ
fold g acc [] = acc
fold g acc (z ∷ zs) = fold g (g acc z) zs

abbrev pub prefixes_fit : ℕ → (ℤ → ℤ → ℤ) → ℤ → List ℤ → Bool
prefixes_fit max g acc [] = true
prefixes_fit max g acc (z ∷ zs) = fits max (g acc z) && prefixes_fit max g (g acc z) zs

abbrev pub folded : ℕ → (ℤ → ℤ → ℤ) → ℤ → List ℤ → Result Obj
folded max g acc zs =
    if prefixes_fit max g acc zs then value (int (fold g acc zs)) else error fixnum_overflow

abbrev pub Fixnums : ℕ → List ℤ → Type 0
Fixnums max zs = All (λ z. fits max z ≡ true) zs

module _ (max : ℕ) (g : ℤ → ℤ → ℤ) (op : Operator)
    (at_partway : (l r : ℤ)
      → fits max l ≡ true
      → fits max r ≡ true
      → op (int l) (int r) partway ≡ (checked max (g l r) >>= λ n. value (int n, partway)))
    (at_last : (l r : ℤ)
      → fits max l ≡ true
      → fits max r ≡ true
      → op (int l) (int r) last ≡ (checked max (g l r) >>= λ n. value (int n, last))) where
  reduce_rest-folded :
      (acc z : ℤ) (zs : List ℤ)
      → fits max acc ≡ true
      → Fixnums max (z ∷ zs)
      → reduce_rest op (int acc) (int z) (map int zs) ≡ folded max g acc (z ∷ zs)
  unfolding reduce_rest
  reduce_rest-folded acc z [] f (h, _) = ground (arith, at_last acc z f h)
  reduce_rest-folded acc z (y ∷ zs) f (h, hs) = elim (Bool-cases (fits max (g acc z))) [
    | inl fit ↦ ground (arith, fit, at_partway acc z f h, reduce_rest-folded (g acc z) y zs fit hs)
    | inr over ↦ ground (arith, over, at_partway acc z f h)
  ]

zero_add : (z : ℤ) → pos 0 +ℤ z ≡ z
unfolding ◌+ℤ◌
zero_add z = ground arith

one_mul : (z : ℤ) → pos 1 *ℤ z ≡ z
unfolding ◌*ℤ◌
one_mul (pos n) = ground arith
one_mul (negsuc n) = ground arith

-- The fold from a unit of the operation is the one from the first integer.
folded_unit :
    (max : ℕ) (g : ℤ → ℤ → ℤ) (unit a : ℤ) (zs : List ℤ)
    → g unit a ≡ a
    → fits max a ≡ true
    → folded max g a zs ≡ folded max g unit (a ∷ zs)
folded_unit max g unit a zs e f = rw e (rw f refl)

-- Of fixnums, + gives the sum where the sum of the first ones is a fixnum wherever one stops, and else
-- the overflow error.
pub p_add-folded :
    (max : ℕ) (zs : List ℤ)
    → Fixnums max zs
    → reduce (p_add max) (map int zs) ≡ folded max ◌+ℤ◌ (pos 0) zs
unfolding reduce p_add
p_add-folded max [] fit = refl
p_add-folded max (a ∷ []) (f, _) = ground (arith, add_ints-checked max (pos 0) a (ground arith) f)
p_add-folded max (a ∷ b ∷ zs) (f, fs) =
    reduce_rest-folded max ◌+ℤ◌ (p_add max) (λ l r h k. rw (add_ints-checked max l r h k) refl)
      (λ l r h k. rw (add_ints-checked max l r h k) refl) a b zs f fs
    ∙ folded_unit max ◌+ℤ◌ (pos 0) a (b ∷ zs) (zero_add a) f

-- Of fixnums, with a greatest one that is not 0, * gives the product where the product of the first
-- ones is a fixnum wherever one stops, and else the overflow error.
pub p_multiply-folded :
    (max : ℕ) (zs : List ℤ)
    → 0 < max
    → Fixnums max zs
    → reduce (p_multiply max) (map int zs) ≡ folded max ◌*ℤ◌ (pos 1) zs
unfolding reduce p_multiply
p_multiply-folded max [] lt fit = refl
p_multiply-folded max (a ∷ []) lt (f, _) =
    ground (arith, int_multiply-checked max (pos 1) a (ground arith) f)
p_multiply-folded max (a ∷ b ∷ zs) lt (f, fs) =
    reduce_rest-folded max ◌*ℤ◌ (p_multiply max)
      (λ l r h k. rw (int_multiply-checked max l r h k) refl)
      (λ l r h k. rw (int_multiply-checked max l r h k) refl) a b zs f fs
    ∙ folded_unit max ◌*ℤ◌ (pos 1) a (b ∷ zs) (one_mul a) f

-- Of fixnums, - gives the negative of one, the difference of the first and all the others where it
-- stays a fixnum on the way, and else the overflow error.
pub p_subtract-folded :
    (max : ℕ) (a b : ℤ) (zs : List ℤ)
    → Fixnums max (a ∷ b ∷ zs)
    → (reduce (p_subtract max) (map int (a ∷ [])) ≡ folded max ◌-ℤ◌ (pos 0) (a ∷ []))
      × (reduce (p_subtract max) (map int (a ∷ b ∷ zs)) ≡ folded max ◌-ℤ◌ a (b ∷ zs))
unfolding reduce p_subtract
p_subtract-folded max a b zs (f, fs) = (
  ground (arith, subtract_ints-checked max (pos 0) a (ground arith) f),
  reduce_rest-folded max ◌-ℤ◌ (p_subtract max)
      (λ l r h k. rw (subtract_ints-checked max l r h k) refl)
      (λ l r h k. rw (subtract_ints-checked max l r h k) refl) a b zs f fs,
)
