-- ===== src/Macro/Expansion.antt =====
-- src/macro.c: syntax-rules, and the expansion of a macro by the first rule that matches.
use sigscheme.Base.{ℕ, ◌⊎◌, inl, inr, Bool, true, false, Option, none, some, List, [], ◌∷◌}
use sigscheme.Macro.{
  Datum, null, pair, ident, CompilationContext, CompileError, compiled, refused, compile,
}
use sigscheme.Macro.Matcher.{match}
use sigscheme.Macro.Transcription.{Wrap, TranscribeRet, transcribe}

-- The rules of a macro: a compiled pattern and a compiled template each.
abbrev pub Rule : Type 0
Rule = Datum × Datum

pub data SyntaxRules : Type 0 where
  rules : List Rule → SyntaxRules
  missing_rules : SyntaxRules
  bad_literals : SyntaxRules
  malformed_rule : SyntaxRules
  bad_pattern : SyntaxRules
  uncompiled : CompileError → SyntaxRules

-- The check of the literals; `none` is an error.
abbrev pub literal_list : Datum → Option (List ℕ)
literal_list null = some []
literal_list (pair (ident x) rest) = elim (literal_list rest) [
  | some xs ↦ some (x ∷ xs)
  | none ↦ none
]
literal_list _ = none

abbrev pub pattern_context : (ℕ → ℕ) → ℕ → List ℕ → CompilationContext
pattern_context unwrap ellipsis literals = record {
  syms = [];
  vals = [];
  pvlen = 0;
  literals = literals;
  ellipsis = unwrap ellipsis;
  unwrap = unwrap;
  pattern_mode = true;
}

-- Both compilations of a rule, of the pattern without its first identifier.
unfoldable pub compile_rule : CompilationContext → Datum → Datum → CompileError ⊎ Rule
unfolding compile
compile_rule ctx pattern template = elim (compile pattern ctx) [
  | refused e ↦ inl e
  | compiled pat ctx' ↦ elim (compile template (record ctx' { pattern_mode = false })) [
    | refused e ↦ inl e
    | compiled tmpl _ ↦ inr (pat, tmpl)
  ]
]

abbrev pub add_rule : CompileError ⊎ Rule → SyntaxRules → SyntaxRules
add_rule (inl e) _ = uncompiled e
add_rule (inr rule) (rules more) = rules (rule ∷ more)
add_rule (inr rule) more = more

unfoldable pub compile_rules : CompilationContext → Datum → SyntaxRules
unfolding compile_rule
compile_rules ctx (pair (pair (pair (ident _) pattern) (pair template null)) more) =
    add_rule (compile_rule ctx pattern template) (compile_rules ctx more)
compile_rules ctx (pair (pair (pair _ pattern) (pair template null)) more) = bad_pattern
compile_rules ctx (pair _ more) = malformed_rule
compile_rules ctx _ = rules []

unfoldable pub syntax_rules : (ℕ → ℕ) → ℕ → Datum → SyntaxRules
unfolding compile_rules
syntax_rules unwrap ellipsis (pair literals null) = missing_rules
syntax_rules unwrap ellipsis (pair literals more) = elim (literal_list literals) [
  | none ↦ bad_literals
  | some names ↦ compile_rules (pattern_context unwrap ellipsis names) more
]
syntax_rules unwrap ellipsis _ = missing_rules

-- `none` is the error that no pattern matches.
unfoldable pub expand_hygienic_macro :
    {W : Type 0} → (ℕ → ℕ → Bool) → Wrap W → ℕ → List Rule → Datum → W → Option (TranscribeRet W)
unfolding match transcribe
expand_hygienic_macro same wrap fuel [] args world = none
expand_hygienic_macro same wrap fuel ((pat, tmpl) ∷ more) args world =
    let rest = expand_hygienic_macro same wrap fuel more args world in
    elim (match same pat args) [
      | some sub ↦ some (transcribe wrap fuel tmpl sub world)
      | none ↦ rest
    ]
