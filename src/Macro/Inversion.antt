-- ===== src/Macro/Inversion.antt =====
-- src/macro.c: what follows where the compiler of patterns and templates raises no error.
use sigscheme.Base.{
  ℕ, ◌-◌, ◌≡◌, refl, sym, ap, ◌∙◌, ◌⊎◌, inl, inr, true, false, not, ◌&&◌, ◌==◌, Bool-cases,
}
use sigscheme.Macro.{
  Datum, pair, reppat, CompilationContext, Compilation, compiled, refused, Compile, ◌>>=◌,
  ellipsisp, nullp, compile_tail, compile_element, compile_repeatable, compile_list,
  check_repeatable,
}

bind_result :
    {d : Datum} {last : CompilationContext} (m : Compilation) (f : Datum → Compile)
    (ctx : CompilationContext)
    → ((λ _. m) >>= f) ctx ≡ compiled d last
    → (a : Datum) × (next : CompilationContext) × (m ≡ compiled a next)
      × (f a next ≡ compiled d last)
bind_result (compiled a next) f ctx e = (a, next, refl, e)
bind_result (refused _) f ctx e = cc

compile_tail-compiled :
    {d : Datum} {last : CompilationContext} (tail : Compile) (rest : Datum)
    (ctx : CompilationContext)
    → compile_tail tail rest ctx ≡ compiled d last
    → (tail ctx ≡ compiled d last) × (ellipsisp ctx rest ≡ false)
compile_tail-compiled tail rest ctx e = elim (Bool-cases (ellipsisp ctx rest)) [
  | inl dots ↦ cc (rw dots at e)
  | inr plain ↦ (rw plain at e, plain)
]

pub compiled_inj :
    {a b : Datum} {c d : CompilationContext} → compiled a c ≡ compiled b d → (a ≡ b) × (c ≡ d)
compiled_inj e = (cc, cc)

pub compile_element-compiled :
    {d : Datum} {last : CompilationContext} (obj tail : Compile) (rest : Datum)
    (ctx : CompilationContext)
    → compile_element obj tail rest ctx ≡ compiled d last
    → (a : Datum) × (next : CompilationContext) × (t : Datum) × (obj ctx ≡ compiled a next)
      × (tail next ≡ compiled t last)
      × (ellipsisp next rest ≡ false)
      × (d ≡ pair a t)
compile_element-compiled obj tail rest ctx e =
    let (a, next, here, e') = bind_result (obj ctx) _ ctx e in
    let (t, end, there, e'') = bind_result (compile_tail tail rest next) _ next e' in
    let (same_d, same_ctx) = compiled_inj e'' in
    let (runs, plain) = compile_tail-compiled tail rest next there in
    (a, next, t, here, runs ∙ ap (compiled t) same_ctx, plain, sym same_d)

check_repeatable-compiled :
    {d : Datum} {last : CompilationContext} (before : ℕ) (subpat rest : Datum)
    (ctx : CompilationContext)
    → check_repeatable before subpat rest ctx ≡ compiled d last
    → (d ≡ reppat subpat (ctx.pvlen - before))
      × (last ≡ ctx)
      × ((ctx.pattern_mode && not (nullp rest)) ≡ false)
      × ((not ctx.pattern_mode && ctx.pvlen == before) ≡ false)
check_repeatable-compiled before subpat rest ctx e =
    elim (Bool-cases (ctx.pattern_mode && not (nullp rest))) [
      | inl misplaced ↦ cc (rw misplaced at e)
      | inr placed ↦ elim (Bool-cases (not ctx.pattern_mode && ctx.pvlen == before)) [
        | inl constant ↦ cc (rw (placed, constant) at e)
        | inr varies ↦
            let (same_d, same_ctx) = compiled_inj (rw (placed, varies) at e) in
            (sym same_d, sym same_ctx, placed, varies)
      ]
    ]

pub compile_repeatable-compiled :
    {d : Datum} {last : CompilationContext} (obj tail : Compile) (rest : Datum)
    (ctx : CompilationContext)
    → compile_repeatable obj tail rest ctx ≡ compiled d last
    → (subpat : Datum) × (next : CompilationContext) × (t : Datum) × (obj ctx
        ≡ compiled subpat next)
      × (tail next ≡ compiled t last)
      × ((next.pattern_mode && not (nullp rest)) ≡ false)
      × ((not next.pattern_mode && next.pvlen == ctx.pvlen) ≡ false)
      × (d ≡ pair (reppat subpat (next.pvlen - ctx.pvlen)) t)
compile_repeatable-compiled obj tail rest ctx e =
    let (subpat, next, here, e') = bind_result (obj ctx) _ ctx e in
    let (o, next', checked, e'') =
      bind_result (check_repeatable ctx.pvlen subpat rest next) _ next e' in
    let (same_o, same_next, placed, varies) =
      check_repeatable-compiled ctx.pvlen subpat rest next checked in
    let (t, end, there, e''') = bind_result (compile_tail tail rest next') _ next' e'' in
    let (same_d, same_ctx) = compiled_inj e''' in
    let (runs, plain) = compile_tail-compiled tail rest next' there in
    (
      subpat,
      next,
      t,
      here,
      ap tail (sym same_next) ∙ runs ∙ ap (compiled t) same_ctx,
      placed,
      varies,
      sym same_d ∙ ap (λ o'. pair o' t) same_o,
    )

pub compile_list-compiled :
    {d : Datum} {last : CompilationContext} (obj next : Datum) (single repeated : Compile)
    (ctx : CompilationContext)
    → compile_list obj next single repeated ctx ≡ compiled d last
    → (ellipsisp ctx obj ≡ false)
      × (((ellipsisp ctx next ≡ true) × (repeated ctx ≡ compiled d last))
          ⊎ ((ellipsisp ctx next ≡ false) × (single ctx ≡ compiled d last)))
compile_list-compiled obj next single repeated ctx e = elim (Bool-cases (ellipsisp ctx obj)) [
  | inl dots ↦ cc (rw dots at e)
  | inr plain ↦ (
    plain,
    elim (Bool-cases (ellipsisp ctx next)) [
      | inl dots ↦ inl (dots, rw (plain, dots) at e)
      | inr single_here ↦ inr (single_here, rw (plain, single_here) at e)
    ],
  )
]
