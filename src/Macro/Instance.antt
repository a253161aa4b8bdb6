-- ===== src/Macro/Instance.antt =====
-- src/macro.c: a template that has the form of its pattern is transcribed to what the pattern matched.
use mathlib.Core.Option.{some_inj}
use sigscheme.Base.{
  ℕ, zero, suc, ◌+◌, ◌<◌, ◌≡◌, refl, sym, ap, subst, ◌∙◌, Bool, Option, some, List, [], ◌∷◌, ◌++◌,
  arith, length, get_elem?, length-append,
}
use sigscheme.Macro.{Datum, null, pair, ident, atom, pvar, reppat}
use sigscheme.Macro.Transcription.{
  follow, TranscriptionContext, replace, splice, pvar_exhausted, Wrap, transcribe_rec,
  transcribe_reppat, transcribe_pvar, transcribe, append_forms, sub_at,
}
use mathlib.Core.List.{append_assoc}
use sigscheme.Macro.Matcher.{match}
use sigscheme.Macro.Shape.{
  Pattern, end, var, const, cons, repeat, vars, template_of, pattern_of, Productive, rows, columns,
  captures,
}
use sigscheme.Macro.Matched.{length-columns}
use sigscheme.Macro.Widths.{bind-eq_some, map-eq_some, rows-AreWide, length-captures}
use sigscheme.Macro.Passes.{match-captures}
use sigscheme.Macro.Reference.{
  refer, length-indices, Refers, RefersBehind, Refers-append, Refers-Behind, RefersBehind-zip_pairs,
  RefersBehind-nulls,
}
use sigscheme.Macro.Exhausted.{transcribe_reppat-end, transcribe_rec-exhausted}

-- How many pairs a form has; more rounds than this are enough for each loop.
abbrev pub size : Datum → ℕ
size (pair a d) = suc (size a + size d)
size _ = 0

-- A template at a level gives the form that its variables are taken from.
abbrev pub Restores : {W : Type 0} → Wrap W → ℕ → Pattern → Type 0
Restores {W = W} wrap fuel p =
    (sub : List Datum) (indices : List ℕ) (off : ℕ) (ds : List Datum) (form : Datum)
    (ctx : TranscriptionContext W)
    → captures p form ≡ some ds
    → Refers sub indices off ds
    → size form < fuel
    → transcribe_rec wrap fuel (template_of off (length indices) p) sub indices ctx
      ≡ replace form ctx

module _ {W : Type 0} (wrap : Wrap W) (fuel : ℕ) (p : Pattern) (has : 0 < vars p)
    (pp : Productive p) (restores : Restores wrap fuel p) (sub : List Datum) (indices : List ℕ)
    (off : ℕ) where
  transcribe_reppat-rows :
      (rounds k : ℕ) (form : Datum) (all : List (List Datum)) (ctx : TranscriptionContext W)
      → rows (captures p) form ≡ some all
      → RefersBehind sub indices k off (columns (vars p) all)
      → size form < rounds
      → size form < fuel
      → transcribe_reppat rounds
          (length indices)
          (λ k'.
            transcribe_rec wrap fuel
              (template_of off (suc (length indices)) p)
              sub
              (indices ++ k' ∷ []))
          k
          ctx
        ≡ splice form ctx
  unfolding transcribe_reppat
  transcribe_reppat-rows zero k form all ctx e behind lt f = absurd (omega arith)
  transcribe_reppat-rows (suc rounds) k null all ctx e behind lt f =
      let inner = indices ++ k ∷ [] in
      let longer = length-indices indices k in
      transcribe_reppat-end (length indices)
        (λ k'.
          transcribe_rec wrap fuel (template_of off (suc (length indices)) p) sub
            (indices ++ k' ∷ []))
        k ctx (suc rounds) (omega arith)
        (subst
          (λ n.
            transcribe_rec wrap fuel (template_of off n p) sub inner ctx
            ≡ pvar_exhausted (length indices) ctx)
          longer
          (transcribe_rec-exhausted wrap fuel p sub inner off (length indices) ctx (omega arith) has
            pp (omega (arith, longer))
            (RefersBehind-nulls sub indices k off (vars p) (
              subst (λ all'. RefersBehind sub indices k off (columns (vars p) all'))
                (sym (some_inj.0 e)) behind))))
  transcribe_reppat-rows (suc rounds) k (pair a form) all ctx e behind lt f =
      let inner = indices ++ k ∷ [] in
      let longer = length-indices indices k in
      let (row, here, e') = bind-eq_some (captures p a) _ e in
      let (more, there, e'') = bind-eq_some (rows (captures p) form) _ e' in
      let behind' =
        subst (λ all'. RefersBehind sub indices k off (columns (vars p) all'))
          (sym (some_inj.0 e'')) behind in
      let wide =
        length-columns (vars p) more
          (rows-AreWide (captures p) (vars p) form more (length-captures p) there) in
      let (refers, later) =
        RefersBehind-zip_pairs sub indices k off row (columns (vars p) more)
          (length-captures p a row here ∙ sym wide) behind' in
      let now =
        subst (λ n. transcribe_rec wrap fuel (template_of off n p) sub inner ctx ≡ replace a ctx)
          longer (restores sub inner off row a ctx here refers (omega arith)) in
      rw now (
        rw
          (transcribe_reppat-rows rounds (suc k) form more ctx there later (omega arith)
            (omega arith))
          refl)
  transcribe_reppat-rows (suc rounds) k (ident _) all ctx e behind lt f = cc
  transcribe_reppat-rows (suc rounds) k (atom _) all ctx e behind lt f = cc
  transcribe_reppat-rows (suc rounds) k (pvar _ _) all ctx e behind lt f = cc
  transcribe_reppat-rows (suc rounds) k (reppat _ _) all ctx e behind lt f = cc

append_forms-null :
    (capture : Datum → Option (List Datum)) (form : Datum) (all : List (List Datum))
    → rows capture form ≡ some all
    → append_forms form null ≡ form
append_forms-null capture null all e = refl
append_forms-null capture (pair a form) all e =
    let (row, here, e') = bind-eq_some (capture a) _ e in
    let (more, there, e'') = bind-eq_some (rows capture form) _ e' in
    ap (λ d. pair a d) (append_forms-null capture form more there)
append_forms-null capture (ident _) all e = cc
append_forms-null capture (atom _) all e = cc
append_forms-null capture (pvar _ _) all e = cc
append_forms-null capture (reppat _ _) all e = cc

module _ {W : Type 0} (wrap : Wrap W) (fuel : ℕ) where
  transcribe_rec-Restores : (p : Pattern) → Productive p → Restores wrap fuel p
  unfolding transcribe_rec transcribe_pvar captures
  transcribe_rec-Restores var productive sub indices off ds form ctx e refers f =
      let at = (subst (Refers sub indices off) (sym (some_inj.0 e)) refers).0 in
      rw (transcribe_pvar, at) refl
  transcribe_rec-Restores end productive sub indices off ds null ctx e refers f = refl
  transcribe_rec-Restores end productive sub indices off ds (pair _ _) ctx e refers f = cc
  transcribe_rec-Restores end productive sub indices off ds (ident _) ctx e refers f = cc
  transcribe_rec-Restores end productive sub indices off ds (atom _) ctx e refers f = cc
  transcribe_rec-Restores end productive sub indices off ds (pvar _ _) ctx e refers f = cc
  transcribe_rec-Restores end productive sub indices off ds (reppat _ _) ctx e refers f = cc
  transcribe_rec-Restores (const a) productive sub indices off ds (atom b) ctx e refers f =
      ground arith
  transcribe_rec-Restores (const a) productive sub indices off ds null ctx e refers f = cc
  transcribe_rec-Restores (const a) productive sub indices off ds (pair _ _) ctx e refers f = cc
  transcribe_rec-Restores (const a) productive sub indices off ds (ident _) ctx e refers f = cc
  transcribe_rec-Restores (const a) productive sub indices off ds (pvar _ _) ctx e refers f = cc
  transcribe_rec-Restores (const a) productive sub indices off ds (reppat _ _) ctx e refers f = cc
  transcribe_rec-Restores (cons p q) (pp, pq) sub indices off ds (pair a b) ctx e refers f =
      let (first, here, e') = bind-eq_some (captures p a) _ e in
      let (rest, there, e'') = bind-eq_some (captures q b) _ e' in
      let (refers_q, refers_p) =
        Refers-append sub indices off rest first
          (subst (Refers sub indices off) (sym (some_inj.0 e'')) refers) in
      let refers_p' =
        subst (λ n. Refers sub indices (off + n) first) (length-captures q b rest there) refers_p in
      rw
        (transcribe_rec-Restores p pp sub indices (off + vars q) first a ctx here refers_p'
          (omega arith))
        (rw (transcribe_rec-Restores q pq sub indices off rest b ctx there refers_q (omega arith))
          refl)
  transcribe_rec-Restores (cons p q) productive sub indices off ds null ctx e refers f = cc
  transcribe_rec-Restores (cons p q) productive sub indices off ds (ident _) ctx e refers f = cc
  transcribe_rec-Restores (cons p q) productive sub indices off ds (atom _) ctx e refers f = cc
  transcribe_rec-Restores (cons p q) productive sub indices off ds (pvar _ _) ctx e refers f = cc
  transcribe_rec-Restores (cons p q) productive sub indices off ds (reppat _ _) ctx e refers f = cc
  transcribe_rec-Restores (repeat p) (has, pp) sub indices off ds form ctx e refers f =
      let (all, there, e') = map-eq_some (columns (vars p)) (rows (captures p) form) e in
      rw
        (transcribe_reppat-rows wrap fuel p has pp (transcribe_rec-Restores p pp) sub indices off
          fuel 0 form all ctx there
          (Refers-Behind sub indices off _ (subst (Refers sub indices off) (sym e') refers)) f f)
        (rw (append_forms-null (captures p) form all there) refl)

get_elem?-length :
    (before ds : List Datum) (d : Datum) → get_elem? (before ++ d ∷ ds) (length before) ≡ some d
get_elem?-length [] ds d = refl
get_elem?-length (b ∷ before) ds d = get_elem?-length before ds d

Refers-whole : (before ds : List Datum) → Refers (before ++ ds) [] (length before) ds
unfolding follow
Refers-whole before [] = tt
Refers-whole before (d ∷ ds) =
    let longer : length (before ++ d ∷ []) ≡ suc (length before) =
      omega (arith, length-append before (d ∷ [])) in
    (
      rw (refer, sub_at, get_elem?-length before ds d) refl,
      subst (λ n. Refers (before ++ d ∷ ds) [] n ds) longer
          (subst (λ sub. Refers sub [] (length (before ++ d ∷ [])) ds)
            (append_assoc before (d ∷ []) ds) (Refers-whole (before ++ d ∷ []) ds)),
    )

-- A template that has the form of its pattern, with a variable in each repeated part, is transcribed
-- to the form that the pattern matched, by loops of at most as many rounds as this form has pairs.
pub transcribe-match :
    {W : Type 0} (same : ℕ → ℕ → Bool) (wrap : Wrap W) (p : Pattern) (form : Datum)
    (ds : List Datum) (fuel : ℕ) (world : W)
    → Productive p
    → match same (pattern_of p) form ≡ some ds
    → size form < fuel
    → transcribe wrap fuel (template_of 0 0 p) ds world
      ≡ replace form (record { fvars = []; world = world })
unfolding transcribe
transcribe-match same wrap p form ds fuel world productive matched f =
    transcribe_rec-Restores wrap fuel p productive ds [] 0 ds form _
      (sym (match-captures same p form) ∙ matched) (Refers-whole [] ds) f
