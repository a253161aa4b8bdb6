-- ===== src/Unicode/Linear.antt =====
-- src/unicode.c: the search by halves against a search from the first element on.
use sigscheme.Base.{
  ℕ, zero, suc, ◌<◌, ◌≡◌, refl, sym, ap, ◌∙◌, ◌≢◌, inl, inr, Bool, true, false, Option, none, some,
  List, [], ◌∷◌, arith, if◌then◌else◌, get_elem?,
}
use sigscheme.Unicode.{Probe, hit, Found, found, absent, search}
use sigscheme.Unicode.Search.{Ordered, search-Answers}

abbrev pub find_first : {A : Type 0} → (A → Bool) → List A → Option A
find_first p [] = none
find_first p (a ∷ xs) = if p a then some a else find_first p xs

abbrev pub from_option : {A : Type 0} → Option A → Found A
from_option none = absent
from_option (some a) = found a

find_first-some :
    {A : Type 0} (p : A → Bool) (xs : List A) (i : ℕ) (a : A)
    → get_elem? xs i ≡ some a
    → p a ≡ true
    → ((j : ℕ) (b : A) → j < i → get_elem? xs j ≡ some b → p b ≡ false)
    → find_first p xs ≡ some a
find_first-some p [] i a at e before = cc
find_first-some p (x ∷ xs) zero a at e before = ground (arith, at, e)
find_first-some p (x ∷ xs) (suc i) a at e before =
    rw (before 0 x (omega arith) refl)
      (find_first-some p xs i a at e (λ j b lt there. before (suc j) b (omega arith) there))

find_first-none :
    {A : Type 0} (p : A → Bool) (xs : List A)
    → ((j : ℕ) (b : A) → get_elem? xs j ≡ some b → p b ≡ false)
    → find_first p xs ≡ none
find_first-none p [] none_at = refl
find_first-none p (x ∷ xs) none_at =
    rw (none_at 0 x refl) (find_first-none p xs (λ j b there. none_at (suc j) b there))

module _ {A : Type 0} (probe : A → Probe) (p : A → Bool)
    (hits : (a : A) → probe a ≡ hit → p a ≡ true)
    (misses : (a : A) → probe a ≢ hit → p a ≡ false) where
  -- In an ordered table the search gives the first element for which `p` holds.
  pub search-find_first :
      (table : List A) → Ordered probe table → search probe table ≡ from_option (find_first p table)
  search-find_first table ord = elim (search-Answers probe table ord) [
    | inl (i, a, runs, at, e) ↦
        runs
        ∙ sym (
            ap from_option (
              find_first-some p table i a at (hits a e) (λ j b lt there.
                misses b (λ h. elim (ord j i b a lt there at) [ inl up ↦ cc | inr down ↦ cc ]))))
    | inr (runs, none_at) ↦
        runs
        ∙ sym (ap from_option (find_first-none p table (λ j b there. misses b (none_at j b there))))
  ]
