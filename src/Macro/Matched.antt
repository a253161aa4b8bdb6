-- ===== src/Macro/Matched.antt =====
-- src/macro.c: the two passes of the matcher and its merging of lists against what a pattern captures.
use mathlib.Core.Option
use sigscheme.Base.{
  ℕ, zero, suc, ◌-◌, ◌≡◌, refl, ap, ◌∙◌, inl, inr, Bool, Option, none, some, List, [], ◌∷◌, ◌++◌,
  arith, Option-cases, length, length-append,
}
use sigscheme.Macro.{Datum, null, pair, ident, atom, pvar, reppat}
use sigscheme.Macro.Matcher.{
  Step, matches, mismatch, and_then, Subs, Match, match_rec, match_pair, match_elements, merge_subs,
  reverse_subs, reversex, empty_subs, match_null, merge,
}
use sigscheme.Macro.Shape.{
  ◌>>=◌, Pattern, end, var, const, cons, repeat, pattern_of, rows, zip_pairs, nulls, columns,
}

module _ (same : ℕ → ℕ → Bool) where
  pub match_rec-pair :
      (p : Pattern) (tail form : Datum) (sub : Subs)
      → match_rec same (pair (pattern_of p) tail) form sub
        ≡ match_pair (match_rec same (pattern_of p)) (match_rec same tail) form sub
  unfolding match_rec
  match_rec-pair end tail form sub = refl
  match_rec-pair var tail form sub = refl
  match_rec-pair (const a) tail form sub = refl
  match_rec-pair (cons p q) tail form sub = refl
  match_rec-pair (repeat p) tail form sub = refl

length-zip_pairs :
    (n : ℕ) (row ds : List Datum) → length row ≡ n → length ds ≡ n → length (zip_pairs row ds) ≡ n
length-zip_pairs n [] ds e f = omega (arith, e)
length-zip_pairs zero (a ∷ row) ds e f = absurd (omega (arith, e))
length-zip_pairs (suc n) (a ∷ row) [] e f = absurd (omega (arith, f))
length-zip_pairs (suc n) (a ∷ row) (d ∷ ds) e f =
    omega (arith, length-zip_pairs n row ds (omega arith) (omega arith))

pub length-nulls : (n : ℕ) → length (nulls n) ≡ n
length-nulls zero = refl
length-nulls (suc n) = omega (arith, length-nulls n)

-- Each of the rows has `n` objects.
abbrev pub AreWide : ℕ → List (List Datum) → Type 0
AreWide n [] = Unit
AreWide n (row ∷ more) = (length row ≡ n) × AreWide n more

pub length-columns :
    (n : ℕ) (more : List (List Datum)) → AreWide n more → length (columns n more) ≡ n
length-columns n [] wide = length-nulls n
length-columns n (row ∷ more) (w, wide) =
    length-zip_pairs n row (columns n more) w (length-columns n more wide)

-- Reversing each list of the first argument onto the one of the second.
abbrev pub zip_reversex : List Datum → List Datum → List Datum
zip_reversex (a ∷ as') (d ∷ ds) = reversex a d ∷ zip_reversex as' ds
zip_reversex _ _ = []

zip_reversex-zip_pairs :
    (row as' ds : List Datum)
    → zip_reversex (zip_pairs row as') ds ≡ zip_reversex as' (zip_pairs row ds)
unfolding reversex
zip_reversex-zip_pairs [] [] ds = refl
zip_reversex-zip_pairs [] (a ∷ as') ds = refl
zip_reversex-zip_pairs (r ∷ row) [] [] = refl
zip_reversex-zip_pairs (r ∷ row) [] (d ∷ ds) = refl
zip_reversex-zip_pairs (r ∷ row) (a ∷ as') [] = refl
zip_reversex-zip_pairs (r ∷ row) (a ∷ as') (d ∷ ds) =
    ap (λ ds'. reversex a (pair r d) ∷ ds') (zip_reversex-zip_pairs row as' ds)

pub zip_reversex-nulls : (n : ℕ) (ds : List Datum) → length ds ≡ n → zip_reversex (nulls n) ds ≡ ds
unfolding reversex
zip_reversex-nulls zero [] e = refl
zip_reversex-nulls zero (d ∷ ds) e = absurd (omega (arith, e))
zip_reversex-nulls (suc n) [] e = refl
zip_reversex-nulls (suc n) (d ∷ ds) e =
    ap (λ ds'. d ∷ ds') (zip_reversex-nulls n ds (omega (arith, e)))

merge_subs-append :
    (n : ℕ) (accum row sub : List Datum)
    → length accum ≡ n
    → length row ≡ n
    → merge_subs n (accum ++ sub) (row ++ sub) ≡ zip_pairs row accum ++ sub
unfolding merge_subs
merge_subs-append zero [] [] [] e f = refl
merge_subs-append zero [] [] (d ∷ sub) e f = refl
merge_subs-append zero [] (r ∷ row) sub e f = absurd (omega (arith, f))
merge_subs-append zero (a ∷ accum) row sub e f = absurd (omega (arith, e))
merge_subs-append (suc n) [] row sub e f = absurd (omega (arith, e))
merge_subs-append (suc n) (a ∷ accum) [] sub e f = absurd (omega (arith, f))
merge_subs-append (suc n) (a ∷ accum) (r ∷ row) sub e f =
    ap (λ ds. pair r a ∷ ds)
      (merge_subs-append n accum row sub (omega (arith, e)) (omega (arith, f)))

reverse_subs-append :
    (n : ℕ) (accum sub : List Datum)
    → length accum ≡ n
    → reverse_subs n (accum ++ sub) ≡ zip_reversex accum (nulls n) ++ sub
unfolding reverse_subs
reverse_subs-append zero [] [] e = refl
reverse_subs-append zero [] (d ∷ sub) e = refl
reverse_subs-append zero (a ∷ accum) sub e = absurd (omega (arith, e))
reverse_subs-append (suc n) [] sub e = absurd (omega (arith, e))
reverse_subs-append (suc n) (a ∷ accum) sub e =
    ap (λ ds. reversex a null ∷ ds) (reverse_subs-append n accum sub (omega (arith, e)))

pub empty_subs-append : (n : ℕ) (sub : List Datum) → empty_subs n sub ≡ nulls n ++ sub
empty_subs-append zero sub = refl
empty_subs-append (suc n) sub = ap (λ ds. null ∷ ds) (empty_subs-append n sub)

length_difference : (row sub : List Datum) → length (row ++ sub) - length sub ≡ length row
length_difference row sub = omega (arith, length-append row sub)

-- What the passes make of what a pattern captures.
abbrev pub pushed : List Datum → Subs → Subs
pushed ds none = none
pushed ds (some sub) = some (ds ++ sub)

-- What a step gives where it is no mismatch.
abbrev pub accepted : {A : Type 0} → Step A → Option A
accepted (matches a) = some a
accepted (mismatch _) = none

pub accepted-and_then :
    {A B : Type 0} (m : Step A) (f : A → Step B)
    → accepted (and_then m f) ≡ (accepted m >>= λ a. accepted (f a))
accepted-and_then (matches a) f = refl
accepted-and_then (mismatch _) f = refl

-- `element` matches what `capture` says, with `n` variables.
abbrev pub Agrees : ℕ → (Datum → Option (List Datum)) → (Datum → Match) → Type 0
Agrees n capture element =
    ((form : Datum) (sub : Subs)
      → accepted (element form sub) ≡ Option.map (λ ds. pushed ds sub) (capture form))
    × ((form : Datum) (ds : List Datum) → capture form ≡ some ds → length ds ≡ n)

-- The accumulated lists, and what they are after the loop over elements with these rows.
abbrev pub gathered : List Datum → Subs → Subs
gathered accum none = none
gathered accum (some sub) = some (accum ++ sub)

abbrev pub finish_elements : ℕ → Option (Subs × Datum) → Option Subs
finish_elements n done =
    done >>= λ (accum, rest). accepted (match_null rest (Option.map (reverse_subs n) accum))

merge-gathered :
    (n : ℕ) (row accum : List Datum) (sub : Subs)
    → length accum ≡ n
    → length row ≡ n
    → merge sub (gathered accum sub) (pushed row sub) ≡ gathered (zip_pairs row accum) sub
merge-gathered n row accum none e f = refl
merge-gathered n row accum (some sub) e f =
    rw (length_difference row sub) (rw f (ap some (merge_subs-append n accum row sub e f)))

map-rows :
    (n : ℕ) (row accum : List Datum) (sub : Subs) (more : Option (List (List Datum)))
    → Option.map (λ all. pushed (zip_reversex (zip_pairs row accum) (columns n all)) sub) more
      ≡ Option.map
          (λ all. pushed (zip_reversex accum (columns n all)) sub)
          (more >>= λ all. some (row ∷ all))
map-rows n row accum sub none = refl
map-rows n row accum sub (some all) =
    ap (λ ds. some (pushed ds sub)) (zip_reversex-zip_pairs row accum (columns n all))

module _ (n : ℕ) (capture : Datum → Option (List Datum)) (element : Datum → Match)
    (agrees : Agrees n capture element) where
  pub match_elements-rows :
      (form : Datum) (sub : Subs) (accum : List Datum)
      → length accum ≡ n
      → finish_elements n (accepted (match_elements element none form sub (gathered accum sub)))
        ≡ Option.map (λ all. pushed (zip_reversex accum (columns n all)) sub) (rows capture form)
  unfolding match_elements
  match_elements-rows null none accum e = refl
  match_elements-rows null (some sub) accum e =
      ap (λ ds. some (some ds)) (reverse_subs-append n accum sub e)
  match_elements-rows (pair f fs) sub accum e = elim (Option-cases (capture f)) [
    | inl none_here ↦ rw (accepted-and_then, agrees.0 f sub, none_here) refl
    | inr (row, here) ↦
        let wide = agrees.1 f row here in
        rw (accepted-and_then, agrees.0 f sub)
          (rw here (
            rw (merge-gathered n row accum sub e wide) (
              match_elements-rows fs sub (zip_pairs row accum) (length-zip_pairs n row accum wide e)
              ∙ map-rows n row accum sub (rows capture fs))))
  ]
  match_elements-rows (ident x) none accum e = refl
  match_elements-rows (ident x) (some sub) accum e = refl
  match_elements-rows (atom x) none accum e = refl
  match_elements-rows (atom x) (some sub) accum e = refl
  match_elements-rows (pvar i l) none accum e = refl
  match_elements-rows (pvar i l) (some sub) accum e = refl
  match_elements-rows (reppat p k) none accum e = refl
  match_elements-rows (reppat p k) (some sub) accum e = refl
