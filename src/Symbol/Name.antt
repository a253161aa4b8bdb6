-- ===== src/Symbol/Name.antt =====
-- src/symbol.c: the comparison of names decides their equality.
use sigscheme.Base.{
  ℕ, ◌≡◌, refl, ◌≢◌, inl, inr, true, false, List, [], ◌∷◌, arith, ==_iff, ==-refl, Bool-cases,
}
use sigscheme.Symbol.{name_eq}

pub name_eq_refl : (a : List ℕ) → name_eq a a ≡ true
name_eq_refl [] = refl
name_eq_refl (x ∷ a) = ground (arith, ==-refl x, name_eq_refl a)

pub eq_of_name_eq : (a b : List ℕ) → name_eq a b ≡ true → a ≡ b
eq_of_name_eq [] [] h = refl
eq_of_name_eq (x ∷ a) [] h = cc
eq_of_name_eq [] (y ∷ b) h = cc
eq_of_name_eq (x ∷ a) (y ∷ b) h = ground (arith, (==_iff x y).0, eq_of_name_eq a b)

pub name_eq_ne : (a b : List ℕ) → a ≢ b → name_eq a b ≡ false
name_eq_ne a b h = elim (Bool-cases (name_eq a b)) [
  | inl same ↦ absurd (h (eq_of_name_eq a b same))
  | inr differ ↦ differ
]
