-- ===== src/Macro/Templates.antt =====
-- src/macro.c: what a form is compiled to as a template, after it was compiled as a pattern.
use mathlib.Core.List.{append_assoc}
use sigscheme.Base.{
  ℕ, suc, ◌+◌, ◌-◌, ◌≡◌, refl, sym, ap, subst, ◌∙◌, inl, inr, false, some, List, [], ◌∷◌, ◌++◌,
  arith, ltb, ◌==◌, ==-refl, Bool-cases, length, length-append,
}
use sigscheme.Macro.{
  Datum, null, pair, ident, atom, pvar, reppat, CompilationContext, compiled, compile_rec,
  compile_identifier, memq, list_find_index, level_at, compile_element, compile_repeatable,
}
use sigscheme.Macro.Shape.{Pattern, end, var, const, cons, repeat, vars, template_of, Productive}
use sigscheme.Macro.Inversion.{compiled_inj, compile_element-compiled, compile_repeatable-compiled}
use sigscheme.Macro.Compiled.{levels, Distinct, in_template, dots, shape, names, Regular}

length-levels : (level : ℕ) (p : Pattern) → length (levels level p) ≡ vars p
length-levels level end = refl
length-levels level var = refl
length-levels level (const a) = refl
length-levels level (cons p q) = omega (
  arith,
  length-append (levels level q) (levels level p),
  length-levels level p,
  length-levels level q,
)
length-levels level (repeat p) = length-levels (suc level) p

-- `ns` and `ls` stand in `syms` and `vals` behind `off` others.
abbrev pub Segment : List ℕ → List ℕ → List ℕ → List ℕ → ℕ → Type 0
Segment ns ls syms vals off =
    (after : List ℕ) × (before : List ℕ) × (la : List ℕ) × (lb : List ℕ) × (syms
      ≡ after ++ (ns ++ before))
    × (vals ≡ la ++ (ls ++ lb))
    × (length after ≡ off)
    × (length la ≡ off)

Segment-append :
    (ms ns ks ls syms vals : List ℕ) (off : ℕ)
    → length ms ≡ length ks
    → Segment (ms ++ ns) (ks ++ ls) syms vals off
    → Segment ms ks syms vals off × Segment ns ls syms vals (off + length ms)
Segment-append ms ns ks ls syms vals off e (after, before, la, lb, es, ev, ea, el) = (
  (
    after,
    ns ++ before,
    la,
    ls ++ lb,
    es ∙ ap (λ xs. after ++ xs) (append_assoc ms ns before),
    ev ∙ ap (λ xs. la ++ xs) (append_assoc ks ls lb),
    ea,
    el,
  ),
  (
    after ++ ms,
    before,
    la ++ ks,
    lb,
    es
        ∙ ap (λ xs. after ++ xs) (append_assoc ms ns before)
        ∙ sym (append_assoc after ms (ns ++ before)),
    ev ∙ ap (λ xs. la ++ xs) (append_assoc ks ls lb) ∙ sym (append_assoc la ks (ls ++ lb)),
    omega (arith, ea, length-append after ms),
    omega (arith, el, length-append la ks, e),
  ),
)

memq-append :
    (y x : ℕ) (after before : List ℕ) → memq y (after ++ x ∷ before) ≡ false → (y == x) ≡ false
memq-append y x [] before e = ground arith
memq-append y x (a ∷ after) before e = memq-append y x after before (ground arith)

list_find_index-length :
    (x : ℕ) (after before : List ℕ)
    → Distinct (after ++ x ∷ before)
    → list_find_index x (after ++ x ∷ before) ≡ some (length after)
unfolding list_find_index
list_find_index-length x [] before distinct = rw (==-refl x) refl
list_find_index-length x (a ∷ after) before (fresh, distinct) =
    let other : (x == a) ≡ false = ground (arith, memq-append a x after before fresh) in
    rw other (rw (list_find_index-length x after before distinct) refl)

level_at-length : (level : ℕ) (la lb : List ℕ) → level_at (la ++ level ∷ lb) (length la) ≡ level
level_at-length level [] lb = refl
level_at-length level (a ∷ la) lb = level_at-length level la lb

module _ (unwrap : ℕ → ℕ) (ellipsis : ℕ) where
  length-names :
      (form : Datum) → length (names unwrap ellipsis form) ≡ vars (shape unwrap ellipsis form)
  length-names (pair obj (pair next rest)) = elim (Bool-cases (dots unwrap ellipsis next)) [
    | inl seen ↦ rw seen (length-names obj)
    | inr unseen ↦ rw unseen (
        omega (
          arith,
          length-append (names unwrap ellipsis (pair next rest)) (names unwrap ellipsis obj),
          length-names obj,
          length-names (pair next rest),
        ))
  ]
  length-names (pair obj null) = omega (arith, length-names obj)
  length-names (pair obj (ident x)) = omega (arith, length-names obj)
  length-names (pair obj (atom a)) = omega (arith, length-names obj)
  length-names (pair obj (pvar _ _)) = omega (arith, length-names obj)
  length-names (pair obj (reppat _ _)) = omega (arith, length-names obj)
  length-names (ident x) = refl
  length-names null = refl
  length-names (atom a) = refl
  length-names (pvar _ _) = refl
  length-names (reppat _ _) = refl

  -- The names and levels of a form stand behind `off` others in those of the context.
  abbrev pub IsAt : Datum → ℕ → List ℕ → List ℕ → ℕ → Type 0
  IsAt form level syms vals off =
      Segment (names unwrap ellipsis form) (levels level (shape unwrap ellipsis form)) syms vals off

  pub compile_identifier-template :
      (x level : ℕ) (syms vals : List ℕ) (n off : ℕ) (d : Datum) (ctx : CompilationContext)
      → Distinct syms
      → IsAt (ident x) level syms vals off
      → compile_identifier x level (in_template unwrap ellipsis syms vals n) ≡ compiled d ctx
      → (d ≡ pvar off level) × (ctx ≡ in_template unwrap ellipsis syms vals (n + 1))
  unfolding compile_identifier
  compile_identifier-template x level syms vals n off d ctx distinct
        (after, before, la, lb, es, ev, ea, el) e =
      let found : list_find_index x syms ≡ some off =
        rw es (list_find_index-length x after before (subst Distinct es distinct)) ∙ ap some ea in
      let at : level_at vals off ≡ level = rw ev (rw (← el) (level_at-length level la lb)) in
      let before_it : ltb level level ≡ false = ground arith in
      let runs : compile_identifier x level (in_template unwrap ellipsis syms vals n)
          ≡ compiled (pvar off level) (in_template unwrap ellipsis syms vals (suc n)) =
        rw (compile_identifier, found) (rw at (rw (before_it, ==-refl level) refl)) in
      let (same_d, same_ctx) = compiled_inj (sym e ∙ runs) in
      (same_d, same_ctx ∙ ap (in_template unwrap ellipsis syms vals) (omega arith))

  -- What the compiler of templates makes of a form whose variables are those of the pattern.
  abbrev pub TemplateAt : Datum → ℕ → Type 0
  TemplateAt form level =
      (syms vals : List ℕ) (n off : ℕ) (d : Datum) (ctx : CompilationContext)
      → Distinct syms
      → IsAt form level syms vals off
      → Regular unwrap ellipsis form
      → compile_rec form level (in_template unwrap ellipsis syms vals n) ≡ compiled d ctx
      → (d ≡ template_of off level (shape unwrap ellipsis form))
        × (ctx ≡ in_template unwrap ellipsis syms vals (n + vars (shape unwrap ellipsis form)))
        × Productive (shape unwrap ellipsis form)

  -- The parts of a list are beside one another.
  IsAt-cons :
      (obj rest : Datum) (level : ℕ) (syms vals : List ℕ) (off : ℕ)
      → Segment
          (names unwrap ellipsis rest ++ names unwrap ellipsis obj)
          (levels level (cons (shape unwrap ellipsis obj) (shape unwrap ellipsis rest)))
          syms
          vals
          off
      → IsAt rest level syms vals off
        × IsAt obj level syms vals (off + vars (shape unwrap ellipsis rest))
  IsAt-cons obj rest level syms vals off at =
      let (r, o) =
        Segment-append (names unwrap ellipsis rest) (names unwrap ellipsis obj)
          (levels level (shape unwrap ellipsis rest)) (levels level (shape unwrap ellipsis obj))
          syms vals off (length-names rest ∙ sym (length-levels level (shape unwrap ellipsis rest)))
          at in
      (r, subst (λ n. IsAt obj level syms vals (off + n)) (length-names rest) o)

  pub compile_element-TemplateAt :
      (obj rest : Datum) (level : ℕ)
      → TemplateAt obj level
      → TemplateAt rest level
      → (syms vals : List ℕ) (n off : ℕ) (d : Datum) (ctx : CompilationContext) → Distinct syms
      → Segment
          (names unwrap ellipsis rest ++ names unwrap ellipsis obj)
          (levels level (cons (shape unwrap ellipsis obj) (shape unwrap ellipsis rest)))
          syms
          vals
          off
      → Regular unwrap ellipsis obj
      → Regular unwrap ellipsis rest
      → compile_element
          (compile_rec obj level)
          (compile_rec rest level)
          rest
          (in_template unwrap ellipsis syms vals n)
        ≡ compiled d ctx
      → (d ≡ template_of off level (cons (shape unwrap ellipsis obj) (shape unwrap ellipsis rest)))
        × (ctx
            ≡ in_template unwrap ellipsis syms vals
                (n + vars (cons (shape unwrap ellipsis obj) (shape unwrap ellipsis rest))))
        × Productive (cons (shape unwrap ellipsis obj) (shape unwrap ellipsis rest))
  compile_element-TemplateAt obj rest level ho hr syms vals n off d ctx distinct at ro rr e =
      let (a, next, t, here, there, no_dots, ed) =
        compile_element-compiled (compile_rec obj level) (compile_rec rest level) rest
          (in_template unwrap ellipsis syms vals n) e in
      let (at_rest, at_obj) = IsAt-cons obj rest level syms vals off at in
      let (ea, en, pa) =
        ho syms vals n (off + vars (shape unwrap ellipsis rest)) a next distinct at_obj ro here in
      let (et, el, pt) =
        hr syms vals (n + vars (shape unwrap ellipsis obj)) off t ctx distinct at_rest rr
          (sym (ap (compile_rec rest level) en) ∙ there) in
      (
        ed ∙ rw (ea, et) refl,
        el ∙ ap (in_template unwrap ellipsis syms vals) (omega arith),
        (pa, pt),
      )

  pub compile_repeatable-TemplateAt :
      (obj : Datum) (level : ℕ)
      → TemplateAt obj (suc level)
      → (syms vals : List ℕ) (n off : ℕ) (d : Datum) (ctx : CompilationContext) → Distinct syms
      → IsAt obj (suc level) syms vals off
      → Regular unwrap ellipsis obj
      → compile_repeatable
          (compile_rec obj (suc level))
          (compile_rec null level)
          null
          (in_template unwrap ellipsis syms vals n)
        ≡ compiled d ctx
      → (d ≡ template_of off level (repeat (shape unwrap ellipsis obj)))
        × (ctx ≡ in_template unwrap ellipsis syms vals (n + vars (shape unwrap ellipsis obj)))
        × Productive (repeat (shape unwrap ellipsis obj))
  unfolding compile_rec
  compile_repeatable-TemplateAt obj level ho syms vals n off d ctx distinct at ro e =
      let (subpat, next, t, here, there, _, varies, ed) =
        compile_repeatable-compiled (compile_rec obj (suc level)) (compile_rec null level) null
          (in_template unwrap ellipsis syms vals n) e in
      let (pat, last, productive) = ho syms vals n off subpat next distinct at ro here in
      let (same_t, same_ctx) = compiled_inj there in
      let count : (n + vars (shape unwrap ellipsis obj)) - n ≡ vars (shape unwrap ellipsis obj) =
        omega arith in
      let more : (n + vars (shape unwrap ellipsis obj) == n) ≡ false = rw last at varies in
      (
        ed ∙ rw (pat, last, ← same_t, count) refl,
        sym same_ctx ∙ last,
        (ground (arith, more), productive),
      )
