-- ===== src/Macro/Exhausted.antt =====
-- src/macro.c: where the variables of a template have no object any more, the template has none.
use native.Mathlib.Decide.{dec_lt}
use sigscheme.Base.{
  ℕ, zero, suc, ◌+◌, ◌<◌, ◌≡◌, refl, subst, List, [], ◌∷◌, ◌++◌, arith, ==-refl, length,
}
use sigscheme.Macro.{Datum, null, pair, atom}
use sigscheme.Macro.Transcription.{
  TranscriptionContext, replace, splice, pvar_exhausted, Wrap, transcribe_rec, transcribe_reppat,
  transcribe_pvar, Transcribe,
}
use sigscheme.Macro.Shape.{Pattern, end, var, const, cons, repeat, vars, template_of, Productive}
use sigscheme.Macro.Reference.{length-indices, AreExhausted, AreExhausted-add, AreExhausted-deeper}

abbrev constant_of : Pattern → Datum
constant_of (const a) = atom a
constant_of (cons p q) = pair (constant_of p) (constant_of q)
constant_of _ = null

-- One round of the loop, by what it comes to.
module _ {W : Type 0} (level : ℕ) (round : ℕ → Transcribe W) (k : ℕ)
    (ctx : TranscriptionContext W) where
  transcribe_reppat-outer :
      (fuel at : ℕ)
      → 0 < fuel
      → round k ctx ≡ pvar_exhausted at ctx
      → at < level
      → transcribe_reppat fuel level round k ctx ≡ pvar_exhausted at ctx
  unfolding transcribe_reppat
  transcribe_reppat-outer zero at f e lt = absurd (omega arith)
  transcribe_reppat-outer (suc fuel) at f e lt = rw e (ground arith)

  pub transcribe_reppat-end :
      (fuel : ℕ)
      → 0 < fuel
      → round k ctx ≡ pvar_exhausted level ctx
      → transcribe_reppat fuel level round k ctx ≡ splice null ctx
  unfolding transcribe_reppat
  transcribe_reppat-end zero f e = absurd (omega arith)
  transcribe_reppat-end (suc fuel) f e = rw e (rw (==-refl level) refl)

module _ {W : Type 0} (wrap : Wrap W) (fuel : ℕ) where
  transcribe_rec-constant :
      (p : Pattern) (sub : List Datum) (indices : List ℕ) (off level : ℕ)
      (ctx : TranscriptionContext W)
      → vars p ≡ 0
      → Productive p
      → transcribe_rec wrap fuel (template_of off level p) sub indices ctx
        ≡ replace (constant_of p) ctx
  unfolding transcribe_rec
  transcribe_rec-constant end sub indices off level ctx e productive = refl
  transcribe_rec-constant var sub indices off level ctx e productive = absurd (omega (arith, e))
  transcribe_rec-constant (const a) sub indices off level ctx e productive = refl
  transcribe_rec-constant (cons p q) sub indices off level ctx e (pp, pq) =
      rw (transcribe_rec-constant p sub indices (off + vars q) level ctx (omega (arith, e)) pp)
        (rw (transcribe_rec-constant q sub indices off level ctx (omega (arith, e)) pq) refl)
  transcribe_rec-constant (repeat p) sub indices off level ctx e (some_var, pp) =
      absurd (omega (arith, e, some_var))

  -- Where the variables have no object any more, the template has none.
  pub transcribe_rec-exhausted :
      (p : Pattern) (sub : List Datum) (indices : List ℕ) (off level : ℕ)
      (ctx : TranscriptionContext W)
      → 0 < fuel
      → 0 < vars p
      → Productive p
      → level < length indices
      → AreExhausted sub indices level off (vars p)
      → transcribe_rec wrap fuel (template_of off (length indices) p) sub indices ctx
        ≡ pvar_exhausted level ctx
  unfolding transcribe_rec transcribe_pvar
  transcribe_rec-exhausted end sub indices off level ctx f v productive lt gone =
      absurd (omega arith)
  transcribe_rec-exhausted var sub indices off level ctx f v productive lt gone = rw gone.0 refl
  transcribe_rec-exhausted (const a) sub indices off level ctx f v productive lt gone =
      absurd (omega arith)
  transcribe_rec-exhausted (cons p q) sub indices off level ctx f v (pp, pq) lt gone =
      let (gone_q, gone_p) =
        AreExhausted-add sub indices level off (vars q) (vars p)
          (subst (AreExhausted sub indices level off) (omega arith) gone) in
      elim (dec_lt 0 (vars p)) [
        | yes has ↦
            rw (transcribe_rec-exhausted p sub indices (off + vars q) level ctx f has pp lt gone_p)
              refl
        | no none_here ↦
            rw
              (transcribe_rec-constant p sub indices (off + vars q) (length indices) ctx
                (omega arith) pp)
              (rw
                (transcribe_rec-exhausted q sub indices off level ctx f (omega arith) pq lt gone_q)
                refl)
      ]
  transcribe_rec-exhausted (repeat p) sub indices off level ctx f v (has, pp) lt gone =
      let inner = indices ++ 0 ∷ [] in
      let longer = length-indices indices 0 in
      rw
        (transcribe_reppat-outer (length indices)
          (λ k.
            transcribe_rec wrap fuel (template_of off (suc (length indices)) p) sub
              (indices ++ k ∷ []))
          0 ctx fuel level f
          (subst
            (λ n.
              transcribe_rec wrap fuel (template_of off n p) sub inner ctx
              ≡ pvar_exhausted level ctx)
            longer
            (transcribe_rec-exhausted p sub inner off level ctx f has pp (omega (arith, longer))
              (AreExhausted-deeper sub indices 0 level off (vars p) gone)))
          lt)
        refl
