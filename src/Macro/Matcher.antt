-- ===== src/Macro/Matcher.antt =====
-- src/macro.c: the matcher. Vectors are left out. Whether identifiers have the same binding is an
-- argument.
use mathlib.Core.Option
use sigscheme.Base.{
  ℕ, zero, suc, ◌-◌, Bool, true, false, Option, none, some, List, [], ◌∷◌, ltb, ◌==◌, if◌then◌else◌,
  length,
}
use sigscheme.Macro.{Datum, null, pair, ident, atom, pvar, reppat, nullp}

-- ctx->sub, the latest variable first; `none` is SCM_INVALID.
abbrev pub Subs : Type 0
Subs = Option (List Datum)

-- What a step of the matcher returns: a mismatch leaves a ctx->sub too.
pub data Step {ℓ} (A : Type ℓ) : Type ℓ where
  matches : A → Step A
  mismatch : Subs → Step A

-- MATCH_REC
abbrev pub and_then : {A B : Type 0} → Step A → (A → Step B) → Step B
and_then (matches a) f = f a
and_then (mismatch sub) f = mismatch sub

abbrev pub Match : Type 0
Match = Subs → Step Subs

abbrev pub push_sub : Datum → Subs → Subs
push_sub form none = none
push_sub form (some sub) = some (form ∷ sub)

abbrev pub count_pairs : Datum → ℕ
count_pairs (pair _ rest) = suc (count_pairs rest)
count_pairs _ = 0

-- The first objects of `from` are pushed on those of `to`; `end` is how many stand before the end.
unfoldable pub merge_subs : ℕ → List Datum → List Datum → List Datum
merge_subs (suc end) (t ∷ to) (f ∷ from) = pair f t ∷ merge_subs end to from
merge_subs _ to _ = to

unfoldable pub reversex : Datum → Datum → Datum
reversex (pair a rest) out = reversex rest (pair a out)
reversex _ out = out

-- The loop that reverses the lists up to the saved ones.
unfoldable pub reverse_subs : ℕ → List Datum → List Datum
unfolding reversex
reverse_subs (suc n) (a ∷ accum) = reversex a null ∷ reverse_subs n accum
reverse_subs _ accum = accum

abbrev pub empty_subs : ℕ → List Datum → List Datum
empty_subs zero sub = sub
empty_subs (suc pvcount) sub = null ∷ empty_subs pvcount sub

-- The merge of what an element gave with what the ones before gave.
abbrev pub merge : Subs → Subs → Subs → Subs
merge (some sub_save) (some accum) (some sub) =
    some (merge_subs (length sub - length sub_save) accum sub)
merge _ _ _ = none

abbrev pub reached : Option ℕ → Bool
reached (some zero) = true
reached _ = false

abbrev pub one_less : Option ℕ → Option ℕ
one_less none = none
one_less (some n) = some (n - 1)

-- The loop over the elements, with those that are left; there is no limit where all are matched.
unfoldable pub match_elements :
    (Datum → Match) → Option ℕ → Datum → Subs → Subs → Step (Subs × Datum)
unfolding merge_subs
match_elements element limit (pair form rest) sub_save accum =
    let step =
      and_then (element form sub_save)
        (λ sub. match_elements element (one_less limit) rest sub_save (merge sub_save accum sub)) in
    if reached limit then matches (accum, pair form rest) else step
match_elements element limit form sub_save accum = matches (accum, form)

abbrev pub subpatp : Datum → Bool
subpatp (pvar _ _) = true
subpatp (reppat _ _) = true
subpatp _ = false

-- `none` is -1: all elements. The outer `none` is a mismatch.
abbrev pub element_limit : Datum → Datum → Option (Option ℕ)
element_limit tail form =
    if nullp tail
    then some none
    else if ltb (count_pairs form) (count_pairs tail)
    then none
    else some (some (count_pairs form - count_pairs tail))

abbrev pub skip_pairs : Datum → Datum
skip_pairs (pair _ rest) = skip_pairs rest
skip_pairs rest = rest

abbrev pub first_forms : ℕ → Datum → Datum
first_forms (suc n) (pair form rest) = pair form (first_forms n rest)
first_forms _ _ = null

abbrev pub forms_after : ℕ → Datum → Datum
forms_after (suc n) (pair form rest) = forms_after n rest
forms_after _ rest = rest

-- A pattern variable that an ellipsis follows.
abbrev pub match_variable : (Datum → Match) → Option ℕ → Datum → Match
match_variable tail none form sub = tail (skip_pairs form) (push_sub form sub)
match_variable tail (some n) form sub =
    tail (forms_after n form) (push_sub (first_forms n form) sub)

-- Any other subpattern that an ellipsis follows.
abbrev pub match_subpattern : (Datum → Match) → (Datum → Match) → ℕ → Option ℕ → Datum → Match
match_subpattern element tail pvcount limit form sub =
    and_then (match_elements element limit form sub (Option.map (empty_subs pvcount) sub))
      (λ (accum, rest). tail rest (Option.map (reverse_subs pvcount) accum))

-- match_reppat at a list: `element` and `tail` match the subpattern and what stands behind it.
unfoldable pub match_reppat : (Datum → Match) → (Datum → Match) → Datum → ℕ → Datum → Datum → Match
unfolding match_elements reverse_subs
match_reppat element tail pat pvcount tail_pat form sub = elim (element_limit tail_pat form) [
  | none ↦ mismatch sub
  | some limit ↦
      if subpatp pat
      then match_variable tail limit form sub
      else match_subpattern element tail pvcount limit form sub
]

abbrev pub match_pair : (Datum → Match) → (Datum → Match) → Datum → Match
match_pair subpat rest (pair form forms) sub = and_then (subpat form sub) (rest forms)
match_pair subpat rest _ sub = mismatch sub

abbrev pub match_null : Datum → Match
match_null null sub = matches sub
match_null _ sub = mismatch sub

abbrev pub match_ident : (ℕ → ℕ → Bool) → ℕ → Datum → Match
match_ident identifierequalp x (ident y) sub =
    if identifierequalp x y then matches sub else mismatch sub
match_ident identifierequalp x _ sub = mismatch sub

abbrev pub match_atom : ℕ → Datum → Match
match_atom a (atom b) sub = if a == b then matches sub else mismatch sub
match_atom a _ sub = mismatch sub

-- A repeatable subpattern outside of a list is what the assertion excludes.
unfoldable pub match_rec : (ℕ → ℕ → Bool) → Datum → Datum → Match
unfolding match_reppat
match_rec same (pair (reppat p pvcount) tail) form sub =
    match_reppat (match_rec same p) (match_rec same tail) p pvcount tail form sub
match_rec same (pair subpat tail) form sub =
    match_pair (match_rec same subpat) (match_rec same tail) form sub
match_rec same (pvar _ _) form sub = matches (push_sub form sub)
match_rec same null form sub = match_null form sub
match_rec same (ident x) form sub = match_ident same x form sub
match_rec same (atom a) form sub = match_atom a form sub
match_rec same (reppat _ _) form sub = mismatch sub

-- ctx->sub after a pass, whatever the pass returned.
abbrev pub ctx_sub : Step Subs → Subs
ctx_sub (matches sub) = sub
ctx_sub (mismatch sub) = sub

-- What the first pass returned decides on a second one, from whose ctx->sub the result is taken.
abbrev pub after_first_pass : Step Subs → Step Subs → Subs
after_first_pass (matches _) second = ctx_sub second
after_first_pass (mismatch sub) second = sub

unfoldable pub match : (ℕ → ℕ → Bool) → Datum → Datum → Subs
unfolding match_rec
match same pattern form =
    after_first_pass (match_rec same pattern form none) (match_rec same pattern form (some []))
