-- ===== src/Macro/Renaming.antt =====
-- src/macro.c: the identifiers of a template are wrapped once in an expansion.
use sigscheme.Base.{
  ℕ, zero, suc, ◌≡◌, refl, sym, ap, subst, ◌∙◌, inl, inr, none, some, List, [], ◌∷◌, ◌++◌, ltb,
  ◌==◌, ==_iff, ==-refl, Bool-cases, Option-cases, length,
}
use sigscheme.Macro.{Datum, null, pair, ident, atom, pvar, reppat}
use sigscheme.Macro.Transcription.{
  TranscriptionContext, TranscribeRet, replace, splice, pvar_exhausted, assertion_failed, no_fuel,
  Wrap, Transcribe, transcribe_rec, transcribe_reppat, transcribe_pvar, transcribe_ident,
  transcribe, from_referent, recurse, add_behind, after_round, splice_before, append_forms,
  find_fvar, Referent, object, exhausted, invalid, follow, sub_at,
}

-- What was wrapped is found as it was.
abbrev pub Extends : {W : Type 0} → TranscriptionContext W → TranscriptionContext W → Type 0
Extends ctx later = (x w : ℕ) → find_fvar x ctx.fvars ≡ some w → find_fvar x later.fvars ≡ some w

-- What came of a context comes again of each later one, by `again`, which changes nothing in it.
abbrev pub Again : {W : Type 0} → TranscriptionContext W → TranscribeRet W → Transcribe W → Type 0
Again ctx (replace d ctx') again =
    Extends ctx ctx' × ((later : _) → Extends ctx' later → again later ≡ replace d later)
Again ctx (splice d ctx') again =
    Extends ctx ctx' × ((later : _) → Extends ctx' later → again later ≡ splice d later)
Again ctx (pvar_exhausted at ctx') again =
    Extends ctx ctx' × ((later : _) → Extends ctx' later → again later ≡ pvar_exhausted at later)
Again ctx assertion_failed again = Unit
Again ctx no_fuel again = Unit

add_fvar :
    (x wrapped : ℕ) (fvars : List (ℕ × ℕ)) (y w : ℕ)
    → find_fvar x fvars ≡ none
    → find_fvar y fvars ≡ some w
    → find_fvar y ((x, wrapped) ∷ fvars) ≡ some w
add_fvar x wrapped fvars y w new e = elim (Bool-cases (x == y)) [
  | inl same ↦ cc (subst (λ n. find_fvar n fvars ≡ none) ((==_iff x y).0 same) new, e)
  | inr other_name ↦ rw other_name e
]

module _ {W : Type 0} where
  -- To an earlier context, and to what does the same in later ones.
  Again-earlier :
      (ctx c : TranscriptionContext W) (r : TranscribeRet W) (again again' : Transcribe W)
      → Extends ctx c
      → ((later : TranscriptionContext W) → Extends c later → again' later ≡ again later)
      → Again c r again
      → Again ctx r again'
  Again-earlier ctx c (replace d c') again again' ext same (ext', runs) = (
    λ x w e. ext' x w (ext x w e),
    λ later f. same later (λ x w e. f x w (ext' x w e)) ∙ runs later f,
  )
  Again-earlier ctx c (splice d c') again again' ext same (ext', runs) = (
    λ x w e. ext' x w (ext x w e),
    λ later f. same later (λ x w e. f x w (ext' x w e)) ∙ runs later f,
  )
  Again-earlier ctx c (pvar_exhausted at c') again again' ext same (ext', runs) = (
    λ x w e. ext' x w (ext x w e),
    λ later f. same later (λ x w e. f x w (ext' x w e)) ∙ runs later f,
  )
  Again-earlier ctx c assertion_failed again again' ext same h = tt
  Again-earlier ctx c no_fuel again again' ext same h = tt

  Again-add_behind :
      (front : Datum → Datum) (c : TranscriptionContext W) (r : TranscribeRet W)
      (again : Transcribe W)
      → Again c r again
      → Again c (add_behind front r) (λ later. add_behind front (again later))
  Again-add_behind front c (replace d c') again (ext, runs) =
      (ext, λ later f. ap (add_behind front) (runs later f))
  Again-add_behind front c (splice d c') again h = tt
  Again-add_behind front c (pvar_exhausted at c') again (ext, runs) =
      (ext, λ later f. ap (add_behind front) (runs later f))
  Again-add_behind front c assertion_failed again h = tt
  Again-add_behind front c no_fuel again h = tt

  Again-splice_before :
      (d : Datum) (c : TranscriptionContext W) (r : TranscribeRet W) (again : Transcribe W)
      → Again c r again
      → Again c (splice_before d r) (λ later. splice_before d (again later))
  Again-splice_before d c (replace e c') again h = tt
  Again-splice_before d c (splice e c') again (ext, runs) =
      (ext, λ later f. ap (splice_before d) (runs later f))
  Again-splice_before d c (pvar_exhausted at c') again (ext, runs) =
      (ext, λ later f. ap (splice_before d) (runs later f))
  Again-splice_before d c assertion_failed again h = tt
  Again-splice_before d c no_fuel again h = tt

  Again-recurse :
      (ctx : TranscriptionContext W) (r : TranscribeRet W) (first rest rest' : Transcribe W)
      → Again ctx r first
      → ((c : TranscriptionContext W) → Again c (rest c) rest')
      → Again ctx (recurse rest r) (λ later. recurse rest' (first later))
  Again-recurse ctx (replace d c) first rest rest' (ext, runs) more =
      Again-earlier ctx c (add_behind (λ forms. pair d forms) (rest c))
        (λ later. add_behind (λ forms. pair d forms) (rest' later))
        (λ later. recurse rest' (first later)) ext (λ later f. ap (recurse rest') (runs later f))
        (Again-add_behind (λ forms. pair d forms) c (rest c) rest' (more c))
  Again-recurse ctx (splice d c) first rest rest' (ext, runs) more =
      Again-earlier ctx c (add_behind (append_forms d) (rest c))
        (λ later. add_behind (append_forms d) (rest' later)) (λ later. recurse rest' (first later))
        ext (λ later f. ap (recurse rest') (runs later f))
        (Again-add_behind (append_forms d) c (rest c) rest' (more c))
  Again-recurse ctx (pvar_exhausted at c) first rest rest' (ext, runs) more =
      (ext, λ later f. ap (recurse rest') (runs later f))
  Again-recurse ctx assertion_failed first rest rest' h more = tt
  Again-recurse ctx no_fuel first rest rest' h more = tt

  Again-after_round :
      (level : ℕ) (ctx : TranscriptionContext W) (r : TranscribeRet W)
      (round next next' : Transcribe W)
      → Again ctx r round
      → ((c : TranscriptionContext W) → Again c (next c) next')
      → Again ctx (after_round level next r) (λ later. after_round level next' (round later))
  Again-after_round level ctx (replace d c) round next next' (ext, runs) more =
      Again-earlier ctx c (splice_before d (next c)) (λ later. splice_before d (next' later))
        (λ later. after_round level next' (round later)) ext
        (λ later f. ap (after_round level next') (runs later f))
        (Again-splice_before d c (next c) next' (more c))
  Again-after_round level ctx (splice d c) round next next' h more = tt
  Again-after_round level ctx (pvar_exhausted at c) round next next' (ext, runs) more =
      elim (Bool-cases (at == level)) [
        | inl same ↦
            rw same (ext, λ later f. ap (after_round level next') (runs later f) ∙ rw same refl)
        | inr other_level ↦ elim (Bool-cases (ltb at level)) [
          | inl outer ↦
              rw (other_level, outer)
                (
                  ext,
                  λ later f.
                      ap (after_round level next') (runs later f) ∙ rw (other_level, outer) refl,
                )
          | inr inner ↦ rw (other_level, inner) tt
        ]
      ]
  Again-after_round level ctx assertion_failed round next next' h more = tt
  Again-after_round level ctx no_fuel round next next' h more = tt

  known :
      (wrap : Wrap W) (x wrapped : ℕ) (ctx : TranscriptionContext W)
      → find_fvar x ctx.fvars ≡ some wrapped
      → transcribe_ident wrap x ctx ≡ replace (ident wrapped) ctx
  unfolding transcribe_ident
  known wrap x wrapped ctx e = rw (transcribe_ident, e) refl

  Again-transcribe_ident :
      (wrap wrap' : Wrap W) (x : ℕ) (ctx : TranscriptionContext W)
      → Again ctx (transcribe_ident wrap x ctx) (transcribe_ident wrap' x)
  unfolding transcribe_ident
  Again-transcribe_ident wrap wrap' x ctx = elim (Option-cases (find_fvar x ctx.fvars)) [
    | inl new ↦
        let wrapped = (wrap x ctx.world).0 in
        let added = λ (y w : ℕ) (e : find_fvar y ctx.fvars ≡ some w).
          add_fvar x wrapped ctx.fvars y w new e in
        let ctx' : TranscriptionContext W = record {
          fvars = (x, wrapped) ∷ ctx.fvars;
          world = (wrap x ctx.world).1;
        } in
        let runs : transcribe_ident wrap x ctx ≡ replace (ident wrapped) ctx' =
          rw (transcribe_ident, new) refl in
        subst (λ r. Again ctx r (transcribe_ident wrap' x)) (sym runs)
          (added, λ later f. known wrap' x wrapped later (f x wrapped (rw (==-refl x) refl)))
    | inr (wrapped, old) ↦
        subst (λ r. Again ctx r (transcribe_ident wrap' x)) (sym (known wrap x wrapped ctx old))
          (λ y w e. e, λ later f. known wrap' x wrapped later (f x wrapped old))
  ]

  Again-from_referent :
      (r : Referent) (ctx : TranscriptionContext W)
      → Again ctx (from_referent r ctx) (from_referent r)
  Again-from_referent (object d) ctx = (λ x w e. e, λ later f. refl)
  Again-from_referent (exhausted at) ctx = (λ x w e. e, λ later f. refl)
  Again-from_referent invalid ctx = tt

  Again-transcribe_pvar :
      (index level : ℕ) (sub : List Datum) (indices : List ℕ) (ctx : TranscriptionContext W)
      → Again ctx
          (transcribe_pvar index level sub indices ctx)
          (transcribe_pvar index level sub indices)
  unfolding transcribe_pvar
  Again-transcribe_pvar index level sub indices ctx =
      Again-from_referent (follow level 0 indices (sub_at sub index)) ctx

  Again-transcribe_reppat :
      (fuel level : ℕ) (round round' : ℕ → Transcribe W) (k : ℕ) (ctx : TranscriptionContext W)
      → ((j : ℕ) (c : TranscriptionContext W) → Again c (round j c) (round' j))
      → Again ctx (transcribe_reppat fuel level round k ctx) (transcribe_reppat fuel level round' k)
  unfolding transcribe_reppat
  Again-transcribe_reppat zero level round round' k ctx again = tt
  Again-transcribe_reppat (suc fuel) level round round' k ctx again =
      Again-after_round level ctx (round k ctx) (round' k)
        (transcribe_reppat fuel level round (suc k)) (transcribe_reppat fuel level round' (suc k))
        (again k ctx) (λ c. Again-transcribe_reppat fuel level round round' (suc k) c again)

  Again-transcribe_rec :
      (wrap wrap' : Wrap W) (fuel : ℕ) (template : Datum) (sub : List Datum) (indices : List ℕ)
      (ctx : TranscriptionContext W)
      → Again ctx
          (transcribe_rec wrap fuel template sub indices ctx)
          (transcribe_rec wrap' fuel template sub indices)
  unfolding transcribe_rec
  Again-transcribe_rec wrap wrap' fuel (pair template rest) sub indices ctx =
      Again-recurse ctx (transcribe_rec wrap fuel template sub indices ctx)
        (transcribe_rec wrap' fuel template sub indices) (transcribe_rec wrap fuel rest sub indices)
        (transcribe_rec wrap' fuel rest sub indices)
        (Again-transcribe_rec wrap wrap' fuel template sub indices ctx)
        (λ c. Again-transcribe_rec wrap wrap' fuel rest sub indices c)
  Again-transcribe_rec wrap wrap' fuel (pvar index level) sub indices ctx =
      Again-transcribe_pvar index level sub indices ctx
  Again-transcribe_rec wrap wrap' fuel (reppat form n) sub indices ctx =
      Again-transcribe_reppat fuel (length indices)
        (λ k. transcribe_rec wrap fuel form sub (indices ++ k ∷ []))
        (λ k. transcribe_rec wrap' fuel form sub (indices ++ k ∷ [])) 0 ctx
        (λ k c. Again-transcribe_rec wrap wrap' fuel form sub (indices ++ k ∷ []) c)
  Again-transcribe_rec wrap wrap' fuel (ident x) sub indices ctx =
      Again-transcribe_ident wrap wrap' x ctx
  Again-transcribe_rec wrap wrap' fuel (atom a) sub indices ctx = (λ x w e. e, λ later f. refl)
  Again-transcribe_rec wrap wrap' fuel null sub indices ctx = (λ x w e. e, λ later f. refl)

-- Within an expansion an identifier of the template becomes one identifier wherever it stands: with
-- the identifiers that an expansion has wrapped, and any more, its template is transcribed to the same
-- form again, and nothing is wrapped, whatever wraps identifiers.
pub transcribe-again :
    {W : Type 0} (wrap wrap' : Wrap W) (fuel : ℕ) (template form : Datum) (sub : List Datum)
    (world : W) (ctx later : TranscriptionContext W)
    → transcribe wrap fuel template sub world ≡ replace form ctx
    → Extends ctx later
    → transcribe_rec wrap' fuel template sub [] later ≡ replace form later
unfolding transcribe
transcribe-again {W} wrap wrap' fuel template form sub world ctx later e ext =
    let start : TranscriptionContext W = record { fvars = []; world = world } in
    (subst (λ r. Again start r (transcribe_rec wrap' fuel template sub [])) e
        (Again-transcribe_rec wrap wrap' fuel template sub [] start)).1
      later ext
