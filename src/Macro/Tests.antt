-- ===== src/Macro/Tests.antt =====
-- The theorems on macros at concrete rules, and runs of an expansion.
use sigscheme.Base.{ℕ, suc, ◌+◌, ◌≡◌, refl, inr, Option, none, some, List, [], ◌∷◌, arith, ◌==◌}
use sigscheme.Macro.{Datum, null, pair, ident, atom}
use sigscheme.Macro.Transcription.{
  Wrap, TranscribeRet, TranscriptionContext, replace, transcribe, transcribe_rec,
}
use sigscheme.Macro.Matcher.{match}
use sigscheme.Macro.Shape.{Pattern, end, var, cons, repeat, pattern_of, template_of, captures}
use sigscheme.Macro.Passes.{match-captures}
use sigscheme.Macro.Renaming.{transcribe-again}
use sigscheme.Macro.RoundTrip.{expand_hygienic_macro-same}
use sigscheme.Macro.Expansion.{
  compile_rule, pattern_context, SyntaxRules, rules, syntax_rules, expand_hygienic_macro,
}

-- The identifiers: ..., let, lambda, and three names.
abbrev dots : Datum
dots = ident 0

abbrev list2 : Datum → Datum → Datum
list2 a b = pair a (pair b null)

abbrev name : Datum
name = ident 10

abbrev value : Datum
value = ident 11

abbrev body : Datum
body = ident 12

-- (() ((_ ((name value) ...) . body) ((lambda (name ...) . body) value ...)))
abbrev let_rules : Datum
let_rules = pair null (
    pair
      (list2 (pair (ident 1) (pair (list2 (list2 name value) dots) body))
        (pair (pair (ident 2) (pair (list2 name dots) body)) (list2 value dots)))
      null)

abbrev wrapped : Wrap ℕ
wrapped x n = (100 + x, suc n)

abbrev run : SyntaxRules → Datum → Option (TranscribeRet ℕ)
run (rules compiled) args = expand_hygienic_macro ◌==◌ wrapped 9 compiled args 0
run _ args = none

-- (let ((x 1) (y 2)) x y)
let_runs :
    run (syntax_rules (λ x. x) 0 let_rules) (
      pair
        (list2 (list2 (ident 20) (atom 1)) (list2 (ident 21) (atom 2)))
        (list2 (ident 20) (ident 21)))
    ≡ some (
        replace
          (pair
            (pair (ident 102) (pair (list2 (ident 20) (ident 21)) (list2 (ident 20) (ident 21))))
            (list2 (atom 1) (atom 2)))
          (record { fvars = (2, 102) ∷ []; world = 1 }))
unfolding syntax_rules expand_hygienic_macro
let_runs = refl

-- ((name value) ...) . body
abbrev let_form : Datum
let_form = pair (list2 (list2 name value) dots) body

abbrev let_pattern : Pattern
let_pattern = cons (repeat (cons var (cons var end))) var

abbrev let_args : Datum
let_args =
    pair (list2 (list2 (ident 20) (atom 1)) (list2 (ident 21) (atom 2)))
      (list2 (ident 20) (ident 21))

abbrev let_subs : List Datum
let_subs = list2 (ident 20) (ident 21) ∷ list2 (atom 1) (atom 2) ∷ list2 (ident 20) (ident 21) ∷ []

let_compiled :
    compile_rule (pattern_context (λ x. x) 0 []) let_form let_form
    ≡ inr (pattern_of let_pattern, template_of 0 0 let_pattern)
unfolding compile_rule
let_compiled = refl

let_matched : match ◌==◌ (pattern_of let_pattern) let_args ≡ some let_subs
unfolding match
let_matched = refl

match-captures_example :
    match ◌==◌ (pattern_of let_pattern) let_args ≡ captures let_pattern let_args
match-captures_example = match-captures ◌==◌ let_pattern let_args

expand_hygienic_macro-same_example :
    expand_hygienic_macro ◌==◌ wrapped 12
      ((pattern_of let_pattern, template_of 0 0 let_pattern) ∷ [])
      let_args
      0
    ≡ some (replace let_args (record { fvars = []; world = 0 }))
expand_hygienic_macro-same_example =
    expand_hygienic_macro-same (λ x. x) 0 ◌==◌ wrapped let_form (pattern_of let_pattern)
      (template_of 0 0 let_pattern) let_args let_subs [] 12 0 (((tt, (tt, tt)), (tt, tt)), tt)
      let_compiled let_matched (omega arith)

-- A template in which an identifier stands twice, and what it becomes.
abbrev twice : Datum
twice = pair (ident 2) (list2 (ident 3) (ident 2))

abbrev twice_wrapped : Datum
twice_wrapped = pair (ident 102) (list2 (ident 103) (ident 102))

abbrev after_twice : TranscriptionContext ℕ
after_twice = record { fvars = (3, 103) ∷ (2, 102) ∷ []; world = 2 }

twice_runs : transcribe wrapped 1 twice [] 0 ≡ replace twice_wrapped after_twice
unfolding transcribe
twice_runs = refl

transcribe-again_example :
    transcribe_rec (λ x n. (200 + x, n)) 1 twice [] [] after_twice
    ≡ replace twice_wrapped after_twice
transcribe-again_example =
    transcribe-again wrapped (λ x n. (200 + x, n)) 1 twice twice_wrapped [] 0 after_twice
      after_twice twice_runs (λ x w e. e)
