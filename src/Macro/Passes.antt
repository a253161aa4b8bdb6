-- ===== src/Macro/Passes.antt =====
-- src/macro.c: both passes of the matcher give what the pattern captures.
use mathlib.Core.Option
use mathlib.Core.Option.{some_inj}
use mathlib.Core.List.{append_assoc, append-nil}
use sigscheme.Base.{
  ℕ, ◌≡◌, refl, sym, ap, ◌∙◌, inl, inr, Bool, false, Option, none, some, List, [], ◌∷◌, ◌++◌, arith,
  Option-cases,
}
use sigscheme.Macro.{Datum, null, pair, ident, atom, pvar, reppat}
use sigscheme.Macro.Matcher.{
  Step, matches, mismatch, ctx_sub, after_first_pass, Subs, Match, match_rec, match_pair,
  match_subpattern, empty_subs, push_sub, match, match_null, skip_pairs, subpatp, match_atom,
}
use sigscheme.Macro.Widths.{rows-AreWide, length-captures, bind-eq_some}
use sigscheme.Macro.Invalid.{match_rec-StaysInvalid}
use sigscheme.Macro.Shape.{
  Pattern, end, var, const, cons, repeat, vars, pattern_of, rows, zip_pairs, nulls, columns,
  captures, capture_pair,
}
use sigscheme.Macro.Matched.{
  match_rec-pair, accepted, accepted-and_then, length-columns, length-nulls, zip_reversex-nulls,
  empty_subs-append, pushed, Agrees, gathered, match_elements-rows,
}

pushed-pushed :
    (rest first : List Datum) (sub : Subs)
    → pushed rest (pushed first sub) ≡ pushed (rest ++ first) sub
pushed-pushed rest first none = refl
pushed-pushed rest first (some sub) = ap some (sym (append_assoc rest first sub))

push_sub-pushed : (form : Datum) (sub : Subs) → push_sub form sub ≡ pushed (form ∷ []) sub
push_sub-pushed form none = refl
push_sub-pushed form (some sub) = refl

match_null-end :
    (form : Datum) (sub : Subs)
    → accepted (match_null form sub) ≡ Option.map (λ ds. pushed ds sub) (captures end form)
unfolding captures
match_null-end null none = refl
match_null-end null (some sub) = refl
match_null-end (pair _ _) sub = refl
match_null-end (ident _) sub = refl
match_null-end (atom _) sub = refl
match_null-end (pvar _ _) sub = refl
match_null-end (reppat _ _) sub = refl

match_atom-const :
    (a : ℕ) (form : Datum) (sub : Subs)
    → accepted (match_atom a form sub) ≡ Option.map (λ ds. pushed ds sub) (captures (const a) form)
unfolding captures
match_atom-const a (atom b) none = ground arith
match_atom-const a (atom b) (some sub) = ground arith
match_atom-const a null sub = refl
match_atom-const a (pair _ _) sub = refl
match_atom-const a (ident _) sub = refl
match_atom-const a (pvar _ _) sub = refl
match_atom-const a (reppat _ _) sub = refl

match_pair-captures :
    (p q : Datum → Option (List Datum)) (mp mq : Datum → Match)
    → ((f : Datum) (sub : Subs) → accepted (mp f sub) ≡ Option.map (λ ds. pushed ds sub) (p f))
    → ((f : Datum) (sub : Subs) → accepted (mq f sub) ≡ Option.map (λ ds. pushed ds sub) (q f))
    → (form : Datum) (sub : Subs)
    → accepted (match_pair mp mq form sub)
      ≡ Option.map (λ ds. pushed ds sub) (capture_pair p q form)
match_pair-captures p q mp mq hp hq (pair f fs) sub = elim (Option-cases (p f)) [
  | inl none_here ↦ rw (accepted-and_then, hp f sub, none_here) refl
  | inr (first, here) ↦
      rw (accepted-and_then, hp f sub)
        (rw here (
          rw (hq fs (pushed first sub)) (elim (Option-cases (q fs)) [
            | inl none_there ↦ rw none_there refl
            | inr (rest, there) ↦ rw there (ap some (pushed-pushed rest first sub))
          ])))
]
match_pair-captures p q mp mq hp hq null sub = refl
match_pair-captures p q mp mq hp hq (ident _) sub = refl
match_pair-captures p q mp mq hp hq (atom _) sub = refl
match_pair-captures p q mp mq hp hq (pvar _ _) sub = refl
match_pair-captures p q mp mq hp hq (reppat _ _) sub = refl

gathered-empty_subs : (n : ℕ) (sub : Subs) → Option.map (empty_subs n) sub ≡ gathered (nulls n) sub
gathered-empty_subs n none = refl
gathered-empty_subs n (some sub) = ap some (empty_subs-append n sub)

match_subpattern-columns :
    (n : ℕ) (capture : Datum → Option (List Datum)) (element : Datum → Match)
    → Agrees n capture element
    → (form : Datum) (sub : Subs)
    → accepted (match_subpattern element match_null n none form sub)
      ≡ Option.map (λ ds. pushed ds sub) (Option.map (columns n) (rows capture form))
match_subpattern-columns n capture element agrees form sub =
    rw (accepted-and_then, gathered-empty_subs n sub)
      (match_elements-rows n capture element agrees form sub (nulls n) (length-nulls n)
        ∙ elim (Option-cases (rows capture form)) [
          | inl none_here ↦ rw none_here refl
          | inr (all, here) ↦ rw here (
              ap (λ ds. some (pushed ds sub))
                (zip_reversex-nulls n (columns n all)
                  (length-columns n all (rows-AreWide capture n form all agrees.1 here))))
        ])

-- The variable of (variable ...) captures the list itself.
skip_pairs-rows :
    (form : Datum) (sub : Subs)
    → accepted (match_null (skip_pairs form) sub)
      ≡ Option.map (λ all. sub) (rows (captures var) form)
unfolding captures
skip_pairs-rows null sub = refl
skip_pairs-rows (pair f fs) sub =
    skip_pairs-rows fs sub ∙ elim (Option-cases (rows (captures var) fs)) [
      | inl none_here ↦ rw none_here refl
      | inr (all, here) ↦ rw here refl
    ]
skip_pairs-rows (ident _) sub = refl
skip_pairs-rows (atom _) sub = refl
skip_pairs-rows (pvar _ _) sub = refl
skip_pairs-rows (reppat _ _) sub = refl

columns-var :
    (form : Datum) (all : List (List Datum))
    → rows (captures var) form ≡ some all
    → columns 1 all ≡ form ∷ []
unfolding captures
columns-var null all e = rw (sym (some_inj.0 e)) refl
columns-var (pair f fs) all e =
    let (more, there, e') = bind-eq_some (rows (captures var) fs) _ e in
    ap (columns 1) (sym (some_inj.0 e')) ∙ ap (zip_pairs (f ∷ [])) (columns-var fs more there)
columns-var (ident _) all e = cc
columns-var (atom _) all e = cc
columns-var (pvar _ _) all e = cc
columns-var (reppat _ _) all e = cc

after_first_pass-mismatch :
    (first second : Step Subs)
    → accepted first ≡ none
    → ctx_sub first ≡ none
    → after_first_pass first second ≡ none
after_first_pass-mismatch (matches _) second e f = cc
after_first_pass-mismatch (mismatch sub) second e f = f

after_first_pass-matches :
    {a sub : Subs} (first second : Step Subs)
    → accepted first ≡ some a
    → accepted second ≡ some sub
    → after_first_pass first second ≡ sub
after_first_pass-matches (matches _) (matches _) e f = some_inj.0 f
after_first_pass-matches (matches _) (mismatch _) e f = cc
after_first_pass-matches (mismatch _) second e f = cc

module _ (same : ℕ → ℕ → Bool) where
  match_rec-repeat :
      (p : Pattern)
      → subpatp (pattern_of p) ≡ false
      → Agrees (vars p) (captures p) (match_rec same (pattern_of p))
      → (form : Datum) (sub : Subs)
      → accepted (match_rec same (pattern_of (repeat p)) form sub)
        ≡ Option.map (λ ds. pushed ds sub) (captures (repeat p) form)
  unfolding match_rec captures
  match_rec-repeat p plain agrees form sub = rw plain (
      match_subpattern-columns (vars p) (captures p) (match_rec same (pattern_of p)) agrees form
        sub)

  match_rec-repeat_var :
      (form : Datum) (sub : Subs)
      → accepted (match_rec same (pattern_of (repeat var)) form sub)
        ≡ Option.map (λ ds. pushed ds sub) (captures (repeat var) form)
  unfolding match_rec captures
  match_rec-repeat_var form sub =
      skip_pairs-rows form (push_sub form sub) ∙ elim (Option-cases (rows (captures var) form)) [
        | inl none_here ↦ rw none_here refl
        | inr (all, here) ↦ rw here (
            ap some (
              push_sub-pushed form sub
              ∙ ap (λ ds. pushed ds sub) (sym (columns-var form all here))))
      ]

  -- A pass of the matcher pushes what the pattern captures, and is a mismatch where it captures nothing.
  pub match_rec-captures :
      (p : Pattern) (form : Datum) (sub : Subs)
      → accepted (match_rec same (pattern_of p) form sub)
        ≡ Option.map (λ ds. pushed ds sub) (captures p form)
  unfolding match_rec captures
  match_rec-captures var form sub = ap some (push_sub-pushed form sub)
  match_rec-captures end form sub = match_null-end form sub
  match_rec-captures (const a) form sub = match_atom-const a form sub
  match_rec-captures (cons p q) form sub =
      ap accepted (match_rec-pair same p (pattern_of q) form sub)
      ∙ match_pair-captures (captures p) (captures q) (match_rec same (pattern_of p))
          (match_rec same (pattern_of q)) (match_rec-captures p) (match_rec-captures q) form sub
  match_rec-captures (repeat var) form sub = match_rec-repeat_var form sub
  match_rec-captures (repeat end) form sub =
      match_rec-repeat end refl (match_rec-captures end, length-captures end) form sub
  match_rec-captures (repeat (const a)) form sub =
      match_rec-repeat (const a) refl (match_rec-captures (const a), length-captures (const a)) form
        sub
  match_rec-captures (repeat (cons p q)) form sub =
      match_rec-repeat (cons p q) refl (match_rec-captures (cons p q), length-captures (cons p q))
        form sub
  match_rec-captures (repeat (repeat p)) form sub =
      match_rec-repeat (repeat p) refl (match_rec-captures (repeat p), length-captures (repeat p))
        form sub

  -- For a pattern without literal identifiers, a match gives just what the pattern captures. It leaves
  -- ctx->sub invalid, which is a mismatch, where the pattern captures nothing; where it captures
  -- something, the second pass, whose result is not looked at, does not stop halfway, and the merged
  -- lists are those of what each element captures.
  pub match-captures :
      (p : Pattern) (form : Datum) → match same (pattern_of p) form ≡ captures p form
  unfolding match
  match-captures p form = elim (Option-cases (captures p form)) [
    | inl none_here ↦
        after_first_pass-mismatch (match_rec same (pattern_of p) form none)
          (match_rec same (pattern_of p) form (some []))
          (rw (match_rec-captures p form none, none_here) refl) (match_rec-StaysInvalid same p form)
        ∙ sym none_here
    | inr (ds, here) ↦
        after_first_pass-matches {a = none} (match_rec same (pattern_of p) form none)
          (match_rec same (pattern_of p) form (some []))
          (rw (match_rec-captures p form none, here) refl)
          (rw (match_rec-captures p form (some []), here) (ap (λ l. some (some l)) (append-nil ds)))
        ∙ sym here
  ]
