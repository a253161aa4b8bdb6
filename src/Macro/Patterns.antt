-- ===== src/Macro/Patterns.antt =====
-- src/macro.c: what a form without literals is compiled to as a pattern.
use mathlib.Core.List.{append_assoc}
use sigscheme.Base.{
  ℕ, suc, ◌+◌, ◌-◌, ◌≡◌, refl, sym, ap, ◌∙◌, inl, inr, false, not, List, ◌∷◌, ◌++◌, arith,
  Bool-cases,
}
use sigscheme.Macro.{
  Datum, null, pair, ident, atom, pvar, reppat, CompilationContext, compiled, ellipsisp, nullp,
  compile_rec, compile_identifier, memq, compile_element, compile_repeatable, compile_list, pure,
}
use sigscheme.Macro.Shape.{cons, repeat, vars, pattern_of}
use sigscheme.Macro.Inversion.{
  compiled_inj, compile_element-compiled, compile_repeatable-compiled, compile_list-compiled,
}
use sigscheme.Macro.Compiled.{
  IsSource, levels, Distinct, in_pattern, shape, names, Regular, ellipsisp-pattern,
}

module _ (unwrap : ℕ → ℕ) (ellipsis : ℕ) where
  abbrev pub CompilesTo : Datum → ℕ → List ℕ → List ℕ → ℕ → Datum → CompilationContext → Type 0
  CompilesTo form level syms vals n d ctx =
      (d ≡ pattern_of (shape unwrap ellipsis form))
      × (ctx
          ≡ in_pattern unwrap ellipsis (names unwrap ellipsis form ++ syms)
              (levels level (shape unwrap ellipsis form) ++ vals)
              (n + vars (shape unwrap ellipsis form)))
      × (Distinct syms → Distinct (names unwrap ellipsis form ++ syms))
      × Regular unwrap ellipsis form

  placed :
      (obj rest : Datum) (level : ℕ) (syms vals : List ℕ) (n : ℕ)
      → in_pattern unwrap ellipsis
          (names unwrap ellipsis rest ++ (names unwrap ellipsis obj ++ syms))
          (levels level (shape unwrap ellipsis rest)
            ++ (levels level (shape unwrap ellipsis obj) ++ vals))
          (n + vars (shape unwrap ellipsis obj) + vars (shape unwrap ellipsis rest))
        ≡ in_pattern unwrap ellipsis
            ((names unwrap ellipsis rest ++ names unwrap ellipsis obj) ++ syms)
            ((levels level (shape unwrap ellipsis rest) ++ levels level (shape unwrap ellipsis obj))
              ++ vals)
            (n + (vars (shape unwrap ellipsis obj) + vars (shape unwrap ellipsis rest)))
  placed obj rest level syms vals n =
      let e1 = append_assoc (names unwrap ellipsis rest) (names unwrap ellipsis obj) syms in
      let e2 =
        append_assoc (levels level (shape unwrap ellipsis rest))
          (levels level (shape unwrap ellipsis obj)) vals in
      let e3 : n + vars (shape unwrap ellipsis obj) + vars (shape unwrap ellipsis rest)
          ≡ n + (vars (shape unwrap ellipsis obj) + vars (shape unwrap ellipsis rest)) =
        omega arith in
      rw (e1, e2, e3) refl

  -- What the compiler of patterns makes of a list, from what it makes of its parts.
  CompilesTo-cons :
      (obj rest : Datum) (level : ℕ) (syms vals : List ℕ) (n : ℕ) (a t d : Datum)
      (next ctx : CompilationContext)
      → CompilesTo obj level syms vals n a next
      → CompilesTo rest level
          (names unwrap ellipsis obj ++ syms)
          (levels level (shape unwrap ellipsis obj) ++ vals)
          (n + vars (shape unwrap ellipsis obj))
          t
          ctx
      → d ≡ pair a t
      → (d ≡ pattern_of (cons (shape unwrap ellipsis obj) (shape unwrap ellipsis rest)))
        × (ctx
            ≡ in_pattern unwrap ellipsis
                ((names unwrap ellipsis rest ++ names unwrap ellipsis obj) ++ syms)
                (levels level (cons (shape unwrap ellipsis obj) (shape unwrap ellipsis rest))
                  ++ vals)
                (n + vars (cons (shape unwrap ellipsis obj) (shape unwrap ellipsis rest))))
        × (Distinct syms
            → Distinct ((names unwrap ellipsis rest ++ names unwrap ellipsis obj) ++ syms))
  CompilesTo-cons obj rest level syms vals n a t d next ctx (ea, ec, da, ra) (et, ec', dt, rt) ed =
      (
        ed ∙ rw (ea, et) refl,
        ec' ∙ placed obj rest level syms vals n,
        λ distinct. rw append_assoc (dt (da distinct)),
      )

  nullp-null : (d : Datum) → not (nullp d) ≡ false → d ≡ null
  nullp-null null e = refl
  nullp-null (pair _ _) e = cc
  nullp-null (ident _) e = cc
  nullp-null (atom _) e = cc
  nullp-null (pvar _ _) e = cc
  nullp-null (reppat _ _) e = cc

  compile_identifier-pattern :
      (x level : ℕ) (syms vals : List ℕ) (n : ℕ) (d : Datum) (ctx : CompilationContext)
      → compile_identifier x level (in_pattern unwrap ellipsis syms vals n) ≡ compiled d ctx
      → CompilesTo (ident x) level syms vals n d ctx
  unfolding compile_identifier
  compile_identifier-pattern x level syms vals n d ctx e = elim (Bool-cases (memq x syms)) [
    | inl again ↦ cc (rw again at e)
    | inr fresh ↦
        let (same_d, same_ctx) = compiled_inj (rw fresh at e) in
        (
          sym same_d,
          sym same_ctx
              ∙ ap (λ m. in_pattern unwrap ellipsis (x ∷ syms) (level ∷ vals) m) (omega arith),
          (λ distinct. (fresh, distinct)),
          tt,
        )
  ]

  abbrev Compiles : Datum → ℕ → Type 0
  Compiles form level =
      (syms vals : List ℕ) (n : ℕ) (d : Datum) (ctx : CompilationContext)
      → compile_rec form level (in_pattern unwrap ellipsis syms vals n) ≡ compiled d ctx
      → CompilesTo form level syms vals n d ctx

  compile_element-CompilesTo :
      (obj rest : Datum) (level : ℕ)
      → Compiles obj level
      → Compiles rest level
      → (syms vals : List ℕ) (n : ℕ) (d : Datum) (ctx : CompilationContext)
      → compile_element
          (compile_rec obj level)
          (compile_rec rest level)
          rest
          (in_pattern unwrap ellipsis syms vals n)
        ≡ compiled d ctx
      → ((d ≡ pattern_of (cons (shape unwrap ellipsis obj) (shape unwrap ellipsis rest)))
          × (ctx
              ≡ in_pattern unwrap ellipsis
                  ((names unwrap ellipsis rest ++ names unwrap ellipsis obj) ++ syms)
                  (levels level (cons (shape unwrap ellipsis obj) (shape unwrap ellipsis rest))
                    ++ vals)
                  (n + vars (cons (shape unwrap ellipsis obj) (shape unwrap ellipsis rest))))
          × (Distinct syms
              → Distinct ((names unwrap ellipsis rest ++ names unwrap ellipsis obj) ++ syms)))
        × Regular unwrap ellipsis obj
        × Regular unwrap ellipsis rest
  compile_element-CompilesTo obj rest level ho hr syms vals n d ctx e =
      let (a, next, t, here, there, no_dots, ed) =
        compile_element-compiled (compile_rec obj level) (compile_rec rest level) rest
          (in_pattern unwrap ellipsis syms vals n) e in
      let first = ho syms vals n a next here in
      let more =
        hr (names unwrap ellipsis obj ++ syms) (levels level (shape unwrap ellipsis obj) ++ vals)
          (n + vars (shape unwrap ellipsis obj)) t ctx
          (sym (ap (compile_rec rest level) first.1) ∙ there) in
      (CompilesTo-cons obj rest level syms vals n a t d next ctx first more ed, first.3, more.3)

  compile_repeatable-CompilesTo :
      (obj rest : Datum) (level : ℕ)
      → Compiles obj (suc level)
      → (syms vals : List ℕ) (n : ℕ) (d : Datum) (ctx : CompilationContext)
      → compile_repeatable
          (compile_rec obj (suc level))
          (compile_rec rest level)
          rest
          (in_pattern unwrap ellipsis syms vals n)
        ≡ compiled d ctx
      → (d ≡ pattern_of (repeat (shape unwrap ellipsis obj)))
        × (ctx
            ≡ in_pattern unwrap ellipsis
                (names unwrap ellipsis obj ++ syms)
                (levels (suc level) (shape unwrap ellipsis obj) ++ vals)
                (n + vars (shape unwrap ellipsis obj)))
        × (Distinct syms → Distinct (names unwrap ellipsis obj ++ syms))
        × (rest ≡ null)
        × Regular unwrap ellipsis obj
  unfolding compile_rec
  compile_repeatable-CompilesTo obj rest level ho syms vals n d ctx e =
      let (subpat, next, t, here, there, placed_last, _, ed) =
        compile_repeatable-compiled (compile_rec obj (suc level)) (compile_rec rest level) rest
          (in_pattern unwrap ellipsis syms vals n) e in
      let (pat, last, distinct, regular) = ho syms vals n subpat next here in
      let no_more = nullp-null rest (rw last at placed_last) in
      let (same_t, same_ctx) = compiled_inj (rw no_more at there) in
      let count : (n + vars (shape unwrap ellipsis obj)) - n ≡ vars (shape unwrap ellipsis obj) =
        omega arith in
      (ed ∙ rw (pat, last, ← same_t, count) refl, sym same_ctx ∙ last, distinct, no_more, regular)

  -- A list whose first element is the last one.
  compile_last-CompilesTo :
      (obj rest : Datum) (level : ℕ)
      → Compiles obj level
      → Compiles rest level
      → (syms vals : List ℕ) (n : ℕ) (d : Datum) (ctx : CompilationContext)
      → compile_list obj null
          (compile_element (compile_rec obj level) (compile_rec rest level) rest)
          (pure null)
          (in_pattern unwrap ellipsis syms vals n)
        ≡ compiled d ctx
      → (d ≡ pattern_of (cons (shape unwrap ellipsis obj) (shape unwrap ellipsis rest)))
        × (ctx
            ≡ in_pattern unwrap ellipsis
                ((names unwrap ellipsis rest ++ names unwrap ellipsis obj) ++ syms)
                (levels level (cons (shape unwrap ellipsis obj) (shape unwrap ellipsis rest))
                  ++ vals)
                (n + vars (cons (shape unwrap ellipsis obj) (shape unwrap ellipsis rest))))
        × (Distinct syms
            → Distinct ((names unwrap ellipsis rest ++ names unwrap ellipsis obj) ++ syms))
        × (Regular unwrap ellipsis obj × Regular unwrap ellipsis rest)
  unfolding ellipsisp
  compile_last-CompilesTo obj rest level ho hr syms vals n d ctx e =
      let (plain, choice) =
        compile_list-compiled obj null
          (compile_element (compile_rec obj level) (compile_rec rest level) rest) (pure null)
          (in_pattern unwrap ellipsis syms vals n) e in
      elim choice [
        | inl (seen, runs) ↦ cc
        | inr (unseen, runs) ↦
            let ((pat, last, distinct), regular, regular_rest) =
              compile_element-CompilesTo obj rest level ho hr syms vals n d ctx runs in
            (pat, last, distinct, (regular, regular_rest))
      ]

  -- What a form is compiled to as a pattern, where no error is raised.
  pub compile_rec-CompilesTo : (form : Datum) (level : ℕ) → IsSource form → Compiles form level
  unfolding compile_rec
  compile_rec-CompilesTo (pair obj (pair next rest)) level (so, sr) syms vals n d ctx e =
      let (plain, choice) =
        compile_list-compiled obj next
          (compile_element (compile_rec obj level) (compile_rec (pair next rest) level)
            (pair next rest))
          (compile_repeatable (compile_rec obj (suc level)) (compile_rec rest level) rest)
          (in_pattern unwrap ellipsis syms vals n) e in
      elim choice [
        | inl (seen, runs) ↦
            let (pat, last, distinct, no_more, regular) =
              compile_repeatable-CompilesTo obj rest level
                (compile_rec-CompilesTo obj (suc level) so) syms vals n d ctx runs in
            let seen' = sym (ellipsisp-pattern unwrap ellipsis syms vals n next) ∙ seen in
            (
              pat ∙ rw seen' refl,
              last ∙ rw seen' refl,
              (λ apart. rw seen' (distinct apart)),
              ((λ _. no_more), regular, (λ unseen. cc)),
            )
        | inr (unseen, runs) ↦
            let ((pat, last, distinct), regular, regular_rest) =
              compile_element-CompilesTo obj (pair next rest) level
                (compile_rec-CompilesTo obj level so)
                (compile_rec-CompilesTo (pair next rest) level sr) syms vals n d ctx runs in
            let unseen' = sym (ellipsisp-pattern unwrap ellipsis syms vals n next) ∙ unseen in
            (
              pat ∙ rw unseen' refl,
              last ∙ rw unseen' refl,
              (λ apart. rw unseen' (distinct apart)),
              ((λ seen. cc), regular, (λ _. regular_rest)),
            )
      ]
  compile_rec-CompilesTo (pair obj null) level (so, sr) syms vals n d ctx e =
      compile_last-CompilesTo obj null level (compile_rec-CompilesTo obj level so)
        (compile_rec-CompilesTo null level sr) syms vals n d ctx e
  compile_rec-CompilesTo (pair obj (ident x)) level (so, sr) syms vals n d ctx e =
      compile_last-CompilesTo obj (ident x) level (compile_rec-CompilesTo obj level so)
        (compile_rec-CompilesTo (ident x) level sr) syms vals n d ctx e
  compile_rec-CompilesTo (pair obj (atom x)) level (so, sr) syms vals n d ctx e =
      compile_last-CompilesTo obj (atom x) level (compile_rec-CompilesTo obj level so)
        (compile_rec-CompilesTo (atom x) level sr) syms vals n d ctx e
  compile_rec-CompilesTo (pair obj (pvar _ _)) level (so, sr) syms vals n d ctx e = absurd sr
  compile_rec-CompilesTo (pair obj (reppat _ _)) level (so, sr) syms vals n d ctx e = absurd sr
  compile_rec-CompilesTo (ident x) level source syms vals n d ctx e =
      compile_identifier-pattern x level syms vals n d ctx e
  compile_rec-CompilesTo null level source syms vals n d ctx e =
      let (same_d, same_ctx) = compiled_inj e in
      (
        sym same_d,
        sym same_ctx ∙ ap (in_pattern unwrap ellipsis syms vals) (omega arith),
        (λ distinct. distinct),
        tt,
      )
  compile_rec-CompilesTo (atom a) level source syms vals n d ctx e =
      let (same_d, same_ctx) = compiled_inj e in
      (
        sym same_d,
        sym same_ctx ∙ ap (in_pattern unwrap ellipsis syms vals) (omega arith),
        (λ distinct. distinct),
        tt,
      )
  compile_rec-CompilesTo (pvar _ _) level source syms vals n d ctx e = absurd source
  compile_rec-CompilesTo (reppat _ _) level source syms vals n d ctx e = absurd source
