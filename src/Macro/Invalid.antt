-- ===== src/Macro/Invalid.antt =====
-- src/macro.c: the first pass of the matcher leaves ctx->sub invalid, also at a mismatch.
use sigscheme.Base.{ℕ, ◌≡◌, refl, ap, ◌∙◌, Bool, none, arith}
use sigscheme.Macro.{Datum, null, pair, ident, atom, pvar, reppat}
use sigscheme.Macro.Matcher.{
  Subs, Step, matches, mismatch, and_then, Match, match_rec, match_pair, match_elements,
  match_subpattern, match_null, match_atom, skip_pairs, ctx_sub,
}
use sigscheme.Macro.Shape.{Pattern, end, var, const, cons, repeat, pattern_of}
use sigscheme.Macro.Matched.{match_rec-pair}

abbrev StaysInvalid : (Datum → Match) → Type 0
StaysInvalid m = (form : Datum) → ctx_sub (m form none) ≡ none

and_then-invalid :
    (m : Step Subs) (f : Match)
    → ctx_sub m ≡ none
    → ctx_sub (f none) ≡ none
    → ctx_sub (and_then m f) ≡ none
and_then-invalid (matches sub) f e g = ap (λ s. ctx_sub (f s)) e ∙ g
and_then-invalid (mismatch sub) f e g = e

and_then_assoc :
    {A : Type 0} (m : Step Subs) (f : Subs → Step A) (g : A → Step Subs)
    → and_then (and_then m f) g ≡ and_then m (λ s. and_then (f s) g)
and_then_assoc (matches sub) f g = refl
and_then_assoc (mismatch sub) f g = refl

match_null-StaysInvalid : StaysInvalid match_null
match_null-StaysInvalid null = refl
match_null-StaysInvalid (pair _ _) = refl
match_null-StaysInvalid (ident _) = refl
match_null-StaysInvalid (atom _) = refl
match_null-StaysInvalid (pvar _ _) = refl
match_null-StaysInvalid (reppat _ _) = refl

match_atom-StaysInvalid : (a : ℕ) → StaysInvalid (match_atom a)
match_atom-StaysInvalid a (atom b) = ground arith
match_atom-StaysInvalid a null = refl
match_atom-StaysInvalid a (pair _ _) = refl
match_atom-StaysInvalid a (ident _) = refl
match_atom-StaysInvalid a (pvar _ _) = refl
match_atom-StaysInvalid a (reppat _ _) = refl

match_pair-StaysInvalid :
    (mp mq : Datum → Match) → StaysInvalid mp → StaysInvalid mq → StaysInvalid (match_pair mp mq)
match_pair-StaysInvalid mp mq hp hq (pair f fs) =
    and_then-invalid (mp f none) (mq fs) (hp f) (hq fs)
match_pair-StaysInvalid mp mq hp hq null = refl
match_pair-StaysInvalid mp mq hp hq (ident _) = refl
match_pair-StaysInvalid mp mq hp hq (atom _) = refl
match_pair-StaysInvalid mp mq hp hq (pvar _ _) = refl
match_pair-StaysInvalid mp mq hp hq (reppat _ _) = refl

match_subpattern-StaysInvalid :
    (n : ℕ) (element : Datum → Match)
    → StaysInvalid element
    → StaysInvalid (match_subpattern element match_null n none)
unfolding match_elements
match_subpattern-StaysInvalid n element h (pair f fs) =
    ap ctx_sub (and_then_assoc (element f none) _ _)
    ∙ and_then-invalid (element f none) _ (h f) (match_subpattern-StaysInvalid n element h fs)
match_subpattern-StaysInvalid n element h null = refl
match_subpattern-StaysInvalid n element h (ident _) = refl
match_subpattern-StaysInvalid n element h (atom _) = refl
match_subpattern-StaysInvalid n element h (pvar _ _) = refl
match_subpattern-StaysInvalid n element h (reppat _ _) = refl

module _ (same : ℕ → ℕ → Bool) where
  pub match_rec-StaysInvalid : (p : Pattern) → StaysInvalid (match_rec same (pattern_of p))
  unfolding match_rec
  match_rec-StaysInvalid var form = refl
  match_rec-StaysInvalid end form = match_null-StaysInvalid form
  match_rec-StaysInvalid (const a) form = match_atom-StaysInvalid a form
  match_rec-StaysInvalid (cons p q) form =
      ap ctx_sub (match_rec-pair same p (pattern_of q) form none)
      ∙ match_pair-StaysInvalid (match_rec same (pattern_of p)) (match_rec same (pattern_of q))
          (match_rec-StaysInvalid p) (match_rec-StaysInvalid q) form
  match_rec-StaysInvalid (repeat var) form = match_null-StaysInvalid (skip_pairs form)
  match_rec-StaysInvalid (repeat end) form =
      match_subpattern-StaysInvalid 0 match_null match_null-StaysInvalid form
  match_rec-StaysInvalid (repeat (const a)) form =
      match_subpattern-StaysInvalid 0 (match_atom a) (match_atom-StaysInvalid a) form
  match_rec-StaysInvalid (repeat (cons p q)) form =
      match_subpattern-StaysInvalid _ (match_rec same (pattern_of (cons p q)))
        (match_rec-StaysInvalid (cons p q)) form
  match_rec-StaysInvalid (repeat (repeat p)) form =
      match_subpattern-StaysInvalid _ (match_rec same (pattern_of (repeat p)))
        (match_rec-StaysInvalid (repeat p)) form
