-- ===== src/Macro/RoundTrip.antt =====
-- src/macro.c: a macro whose template is its pattern expands a use to the arguments themselves.
use sigscheme.Base.{
  ℕ, suc, ◌+◌, ◌<◌, ◌≡◌, refl, sym, ap, subst, ◌∙◌, ◌⊎◌, inl, inr, Bool, false, some, List, [], ◌∷◌,
  ◌++◌, arith, Bool-cases,
}
use sigscheme.Macro.{
  Datum, null, pair, ident, atom, pvar, reppat, CompilationContext, CompileError, Compilation,
  compiled, refused, ellipsisp, compile_rec, compile_element, compile_repeatable, compile_list,
  pure, compile,
}
use sigscheme.Macro.Matcher.{match}
use sigscheme.Macro.Transcription.{Wrap, replace}
use sigscheme.Macro.Expansion.{Rule, pattern_context, compile_rule, expand_hygienic_macro}
use sigscheme.Macro.Shape.{vars, pattern_of, template_of, Productive, cons}
use sigscheme.Macro.Inversion.{compiled_inj, compile_list-compiled}
use sigscheme.Macro.Compiled.{
  IsSource, levels, Distinct, in_template, shape, names, Regular, ellipsisp-template,
}
use sigscheme.Macro.Patterns.{compile_rec-CompilesTo}
use sigscheme.Macro.Templates.{
  Segment, TemplateAt, compile_identifier-template, compile_element-TemplateAt,
  compile_repeatable-TemplateAt,
}
use sigscheme.Macro.Instance.{size, transcribe-match}

module _ (unwrap : ℕ → ℕ) (ellipsis : ℕ) where
  compile_last-TemplateAt :
      (obj rest : Datum) (level : ℕ)
      → TemplateAt unwrap ellipsis obj level
      → TemplateAt unwrap ellipsis rest level
      → (syms vals : List ℕ) (n off : ℕ) (d : Datum) (ctx : CompilationContext) → Distinct syms
      → Segment
          (names unwrap ellipsis rest ++ names unwrap ellipsis obj)
          (levels level (cons (shape unwrap ellipsis obj) (shape unwrap ellipsis rest)))
          syms
          vals
          off
      → Regular unwrap ellipsis obj
      → Regular unwrap ellipsis rest
      → compile_list obj null
          (compile_element (compile_rec obj level) (compile_rec rest level) rest)
          (pure null)
          (in_template unwrap ellipsis syms vals n)
        ≡ compiled d ctx
      → (d ≡ template_of off level (cons (shape unwrap ellipsis obj) (shape unwrap ellipsis rest)))
        × (ctx
            ≡ in_template unwrap ellipsis syms vals
                (n + vars (cons (shape unwrap ellipsis obj) (shape unwrap ellipsis rest))))
        × Productive (cons (shape unwrap ellipsis obj) (shape unwrap ellipsis rest))
  unfolding ellipsisp
  compile_last-TemplateAt obj rest level ho hr syms vals n off d ctx distinct at ro rr e =
      let (plain, choice) =
        compile_list-compiled obj null
          (compile_element (compile_rec obj level) (compile_rec rest level) rest) (pure null)
          (in_template unwrap ellipsis syms vals n) e in
      elim choice [
        | inl (seen, runs) ↦ cc
        | inr (unseen, runs) ↦
            compile_element-TemplateAt unwrap ellipsis obj rest level ho hr syms vals n off d ctx
              distinct at ro rr runs
      ]

  compile_rec-TemplateAt :
      (form : Datum) (level : ℕ) → IsSource form → TemplateAt unwrap ellipsis form level
  unfolding compile_rec
  compile_rec-TemplateAt (pair obj (pair next rest)) level (so, sr) syms vals n off d ctx distinct
        at (no_more, ro, rr) e =
      let (plain, choice) =
        compile_list-compiled obj next
          (compile_element (compile_rec obj level) (compile_rec (pair next rest) level)
            (pair next rest))
          (compile_repeatable (compile_rec obj (suc level)) (compile_rec rest level) rest)
          (in_template unwrap ellipsis syms vals n) e in
      elim choice [
        | inl (seen, runs) ↦
            let seen' = sym (ellipsisp-template unwrap ellipsis syms vals n next) ∙ seen in
            let (pat, last, productive) =
              compile_repeatable-TemplateAt unwrap ellipsis obj level
                (compile_rec-TemplateAt obj (suc level) so) syms vals n off d ctx distinct
                (rw seen' at at) ro (rw (no_more seen') at runs) in
            (pat ∙ rw seen' refl, last ∙ rw seen' refl, rw seen' productive)
        | inr (unseen, runs) ↦
            let unseen' = sym (ellipsisp-template unwrap ellipsis syms vals n next) ∙ unseen in
            let (pat, last, productive) =
              compile_element-TemplateAt unwrap ellipsis obj (pair next rest) level
                (compile_rec-TemplateAt obj level so)
                (compile_rec-TemplateAt (pair next rest) level sr) syms vals n off d ctx distinct
                (rw unseen' at at) ro (rr unseen') runs in
            (pat ∙ rw unseen' refl, last ∙ rw unseen' refl, rw unseen' productive)
      ]
  compile_rec-TemplateAt (pair obj null) level (so, sr) syms vals n off d ctx distinct at (ro, rr)
        e =
      compile_last-TemplateAt obj null level (compile_rec-TemplateAt obj level so)
        (compile_rec-TemplateAt null level sr) syms vals n off d ctx distinct at ro rr e
  compile_rec-TemplateAt (pair obj (ident x)) level (so, sr) syms vals n off d ctx distinct at
        (ro, rr) e =
      compile_last-TemplateAt obj (ident x) level (compile_rec-TemplateAt obj level so)
        (compile_rec-TemplateAt (ident x) level sr) syms vals n off d ctx distinct at ro rr e
  compile_rec-TemplateAt (pair obj (atom a)) level (so, sr) syms vals n off d ctx distinct at
        (ro, rr) e =
      compile_last-TemplateAt obj (atom a) level (compile_rec-TemplateAt obj level so)
        (compile_rec-TemplateAt (atom a) level sr) syms vals n off d ctx distinct at ro rr e
  compile_rec-TemplateAt (pair obj (pvar _ _)) level (so, sr) syms vals n off d ctx distinct at r
        e =
      absurd sr
  compile_rec-TemplateAt (pair obj (reppat _ _)) level (so, sr) syms vals n off d ctx distinct at r
        e =
      absurd sr
  compile_rec-TemplateAt (ident x) level source syms vals n off d ctx distinct at r e =
      let (same_d, same_ctx) =
        compile_identifier-template unwrap ellipsis x level syms vals n off d ctx distinct at e in
      (same_d, same_ctx, tt)
  compile_rec-TemplateAt null level source syms vals n off d ctx distinct at r e =
      let (same_d, same_ctx) = compiled_inj e in
      (sym same_d, sym same_ctx ∙ ap (in_template unwrap ellipsis syms vals) (omega arith), tt)
  compile_rec-TemplateAt (atom a) level source syms vals n off d ctx distinct at r e =
      let (same_d, same_ctx) = compiled_inj e in
      (sym same_d, sym same_ctx ∙ ap (in_template unwrap ellipsis syms vals) (omega arith), tt)
  compile_rec-TemplateAt (pvar _ _) level source syms vals n off d ctx distinct at r e =
      absurd source
  compile_rec-TemplateAt (reppat _ _) level source syms vals n off d ctx distinct at r e =
      absurd source

compile-eq_compiled :
    {d : Datum} {last : CompilationContext} (form : Datum) (ctx : CompilationContext)
    → compile form ctx ≡ compiled d last
    → compile_rec form 0 ctx ≡ compiled d last
unfolding compile
compile-eq_compiled form ctx e = elim (Bool-cases (ellipsisp ctx form)) [
  | inl dots_here ↦ cc (rw dots_here at e)
  | inr plain ↦ rw plain at e
]

compile_result :
    (m : Compilation) (k : Datum → CompilationContext → CompileError ⊎ Rule) (rule : Rule)
    → (elim m as (λ _. CompileError ⊎ Rule) [ compiled d ctx ↦ k d ctx | refused e ↦ inl e ])
      ≡ inr rule
    → (d : Datum) × (ctx : CompilationContext) × (m ≡ compiled d ctx) × (k d ctx ≡ inr rule)
compile_result (compiled d ctx) k rule e = (d, ctx, refl, e)
compile_result (refused _) k rule e = cc

compile_rule-same :
    (unwrap : ℕ → ℕ) (ellipsis : ℕ) (form pat tmpl : Datum)
    → IsSource form
    → compile_rule (pattern_context unwrap ellipsis []) form form ≡ inr (pat, tmpl)
    → (pat ≡ pattern_of (shape unwrap (unwrap ellipsis) form))
      × (tmpl ≡ template_of 0 0 (shape unwrap (unwrap ellipsis) form))
      × Productive (shape unwrap (unwrap ellipsis) form)
unfolding compile_rule
compile_rule-same unwrap ellipsis form pat tmpl source e =
    let dots_id = unwrap ellipsis in
    let (d, ctx, as_pattern, e') =
      compile_result (compile form (pattern_context unwrap ellipsis [])) _ (pat, tmpl) e in
    let (t, last, as_template, e'') =
      compile_result (compile form (record ctx { pattern_mode = false })) _ (pat, tmpl) e' in
    let (pat_is, ctx_is, distinct, regular) =
      compile_rec-CompilesTo unwrap dots_id form 0 source [] [] 0 d ctx
        (compile-eq_compiled form _ as_pattern) in
    let runs =
      subst (λ c. compile_rec form 0 (record c { pattern_mode = false }) ≡ compiled t last) ctx_is
        (compile-eq_compiled form _ as_template) in
    let (tmpl_is, last_is, productive) =
      compile_rec-TemplateAt unwrap dots_id form 0 source (names unwrap dots_id form ++ [])
        (levels 0 (shape unwrap dots_id form) ++ []) (0 + vars (shape unwrap dots_id form)) 0 t last
        (distinct tt) ([], [], [], [], refl, refl, refl, refl) regular runs in
    let same_pat : pat ≡ d = cc in
    let same_tmpl : tmpl ≡ t = cc in (same_pat ∙ pat_is, same_tmpl ∙ tmpl_is, productive)

-- A rule without literals whose template is its own pattern, in a form without markers, that compiles
-- without an error, expands every use that its compiled pattern matches to the arguments themselves,
-- with fuel above the number of pairs in these.
pub expand_hygienic_macro-same :
    {W : Type 0} (unwrap : ℕ → ℕ) (ellipsis : ℕ) (same : ℕ → ℕ → Bool) (wrap : Wrap W)
    (form pat tmpl args : Datum) (ds : List Datum) (more : List Rule) (fuel : ℕ) (world : W)
    → IsSource form
    → compile_rule (pattern_context unwrap ellipsis []) form form ≡ inr (pat, tmpl)
    → match same pat args ≡ some ds
    → size args < fuel
    → expand_hygienic_macro same wrap fuel ((pat, tmpl) ∷ more) args world
      ≡ some (replace args (record { fvars = []; world = world }))
unfolding expand_hygienic_macro
expand_hygienic_macro-same unwrap ellipsis same wrap form pat tmpl args ds more fuel world source
      rule matched f =
    let (pat_is, tmpl_is, productive) =
      compile_rule-same unwrap ellipsis form pat tmpl source rule in
    rw (expand_hygienic_macro, matched)
      (ap some (
        rw tmpl_is (
          transcribe-match same wrap (shape unwrap (unwrap ellipsis) form) args ds fuel world
            productive (rw pat_is at matched) f)))
