-- ===== src/Env/Wrap.antt =====
-- src/env.c: a wrapped identifier means what the identifier means.
use sigscheme.Base.{
  ℕ, zero, suc, ◌-◌, ◌≤◌, ◌<◌, ◌≡◌, refl, sym, ap, ◌∙◌, inl, inr, Option, some, arith, Option-cases,
}
use sigscheme.Object.{Obj, symbol, farsymbol, Heap, update, car, cdr, ok}
use sigscheme.Object.Chain.{EndsAfter}
use sigscheme.Env.Frames.{
  env_depth_loop-EndsAfter, lookup_n_frames-all, outer_env_self, lookup_n_frames-sum,
}
use sigscheme.Env.{
  VarRef, invalid_ref, ref_or_diverge, ref_cdr_of, deref, env_depth, env_depth_loop, outer_env,
  lookup_frame_loop, lookup_frame, lookup_n_frames, lookup_frames, lookup_far_symbol,
  lookup_environment, wrap_identifier,
}

-- The heap after MAKE_FARSYMBOL.
abbrev with_farsymbol : Obj → ℕ → Heap → Heap
with_farsymbol sym depth h = record h {
  next = suc h.next;
  far = update h.far h.next (record { sym = sym; depth = depth });
}

-- A far symbol changes no pair, and so no frame.
module _ (name : Obj) (depth : ℕ) (h : Heap) where
  abbrev grown : Heap
  grown = with_farsymbol name depth h

  car-grown : (o : Obj) → car grown o ≡ car h o
  car-grown o = ground arith

  cdr-grown : (o : Obj) → cdr grown o ≡ cdr h o
  cdr-grown o = ground arith

  deref-grown : (ref : VarRef) → deref grown ref ≡ deref h ref
  deref-grown ref = ground arith

  lookup_frame_loop-grown :
      (fuel : ℕ) (var formals : Obj) (actuals : VarRef)
      → lookup_frame_loop fuel grown var formals actuals
        ≡ lookup_frame_loop fuel h var formals actuals
  unfolding lookup_frame_loop
  lookup_frame_loop-grown zero var formals actuals = refl
  lookup_frame_loop-grown (suc fuel) var formals actuals = rw (car-grown formals) (
      rw (cdr-grown formals) (
        rw (deref-grown actuals) (
          rw (lookup_frame_loop-grown fuel var (cdr h formals) (ref_cdr_of (deref h actuals)))
            refl)))

  lookup_frame-grown :
      (fuel : ℕ) (var frame : Obj)
      → lookup_frame fuel grown var frame ≡ lookup_frame fuel h var frame
  unfolding lookup_frame
  lookup_frame-grown fuel var frame =
      rw (car-grown frame) (lookup_frame_loop-grown fuel var (car h frame) (ref_cdr_of frame))

  lookup_n_frames-grown :
      (fuel : ℕ) (id : Obj) (n : ℕ) (env : Obj)
      → lookup_n_frames fuel grown id n env ≡ lookup_n_frames fuel h id n env
  unfolding lookup_n_frames
  lookup_n_frames-grown fuel id zero env = refl
  lookup_n_frames-grown fuel id (suc n) env = rw (car-grown env) (
      rw (cdr-grown env) (
        rw (lookup_frame-grown fuel id (car h env))
          (rw (lookup_n_frames-grown fuel id n (cdr h env)) refl)))

  EndsAfter-grown :
      (env : Obj) (n : ℕ) (tail : Obj) → EndsAfter h env n tail → EndsAfter grown env n tail
  EndsAfter-grown env zero tail e = e
  EndsAfter-grown env (suc n) tail (c, e) =
      (c, rw (cdr-grown env) (EndsAfter-grown (cdr h env) n tail e))

  outer_env-grown : (m : ℕ) (env : Obj) → outer_env m grown env ≡ outer_env m h env
  unfolding outer_env
  outer_env-grown zero env = refl
  outer_env-grown (suc m) env = rw (cdr-grown env) (outer_env-grown m (cdr h env))

  far-grown : grown.far h.next ≡ record { sym = name; depth = depth }
  far-grown = ground arith

  -- A new far symbol, bound in no frame, is looked up as its symbol in its outer environment.
  lookup_environment-grown :
      (fuel rounds : ℕ) (env : Obj) (n : ℕ) (tail : Obj) (ref : VarRef)
      → EndsAfter h env n tail
      → n < rounds
      → lookup_frames fuel rounds h (farsymbol h.next) env ≡ some invalid_ref
      → depth ≤ n
      → lookup_n_frames fuel h name depth (outer_env (n - depth) h env) ≡ some ref
      → lookup_environment fuel rounds (farsymbol h.next) env grown ≡ ok ref grown
  unfolding lookup_environment lookup_far_symbol env_depth
  lookup_environment-grown fuel rounds env n tail ref e f fresh le found =
      let w = farsymbol h.next in
      let e' = EndsAfter-grown env n tail e in
      let missing : lookup_frames fuel rounds grown w env ≡ some invalid_ref =
        lookup_n_frames-all fuel rounds grown w env n tail e' f
        ∙ lookup_n_frames-grown fuel w n env
        ∙ sym (lookup_n_frames-all fuel rounds h w env n tail e f)
        ∙ fresh in
      let deep : env_depth_loop rounds grown env 0 ≡ some n =
        env_depth_loop-EndsAfter rounds grown env n 0 tail e' f ∙ ap some (omega arith) in
      let outer = outer_env-grown (n - depth) env in
      let found' : lookup_n_frames fuel grown name depth (outer_env (n - depth) grown env)
          ≡ some ref =
        lookup_n_frames-grown fuel name depth (outer_env (n - depth) grown env)
        ∙ ap (lookup_n_frames fuel h name depth) outer
        ∙ found in
      ground (arith, missing, deep, far-grown, found')

-- A far symbol was made in an environment that its frames still end in, and is bound in none of the
-- frames that were there.
abbrev pub WellScoped : ℕ → Heap → Obj → ℕ → Obj → Type 0
WellScoped fuel h (symbol _) n env = Unit
WellScoped fuel h (farsymbol f) n env =
    let depth = (h.far f).depth in
    (depth ≤ n)
    × (lookup_n_frames fuel h (farsymbol f) depth (outer_env (n - depth) h env) ≡ some invalid_ref)
WellScoped fuel h _ n env = ⊥

ref_or_diverge-ok :
    (o : Option VarRef) (ref : VarRef) (h : Heap) → ref_or_diverge o h ≡ ok ref h → o ≡ some ref
ref_or_diverge-ok o ref h e = ground arith

-- In an environment of n frames, scm_wrap_identifier of an identifier that was made in one of its
-- tails makes a new far symbol, and when this is bound in no frame, looking it up ends with the
-- same location, or the same absence of one, as looking up the identifier.
pub wrap_identifier-lookup_environment :
    (fuel rounds : ℕ) (h : Heap) (id env : Obj) (n : ℕ) (tail : Obj) (ref : VarRef)
    → EndsAfter h env n tail
    → n < rounds
    → WellScoped fuel h id n env
    → lookup_frames fuel rounds h (farsymbol h.next) env ≡ some invalid_ref
    → lookup_environment fuel rounds id env h ≡ ok ref h
    → (g : Heap) × (wrap_identifier fuel id n env h ≡ ok (farsymbol h.next) g)
      × (lookup_environment fuel rounds (farsymbol h.next) env g ≡ ok ref g)
unfolding wrap_identifier lookup_environment lookup_far_symbol env_depth outer_env
wrap_identifier-lookup_environment fuel rounds h (symbol a) env n tail ref e f scoped fresh found =
    let all = lookup_n_frames-all fuel rounds h (symbol a) env n tail e f in
    let here : lookup_n_frames fuel h (symbol a) n (outer_env (n - n) h env) ≡ some ref =
      rw (outer_env_self n h env) (sym all ∙ ref_or_diverge-ok _ ref h found) in
    (
      with_farsymbol (symbol a) n h,
      refl,
      lookup_environment-grown (symbol a) n h fuel rounds env n tail ref e f fresh (omega arith)
          here,
    )
wrap_identifier-lookup_environment fuel rounds h (farsymbol a) env n tail ref e f (le, captured)
      fresh found =
    let id = farsymbol a in
    let depth = (h.far a).depth in
    let all = lookup_n_frames-all fuel rounds h id env n tail e f in
    let parts = lookup_n_frames-sum fuel h id n depth env le in
    let deep : env_depth_loop rounds h env 0 ≡ some n =
      env_depth_loop-EndsAfter rounds h env n 0 tail e f ∙ ap some (omega arith) in
    elim (Option-cases (lookup_n_frames fuel h id (n - depth) env)) [
      | inl starved ↦ absurd (ground (arith, starved, all, parts))
      | inr (invalid_ref, missing) ↦
          let here : lookup_n_frames fuel h (h.far a).sym depth (outer_env (n - depth) h env)
              ≡ some ref =
            let missing' : lookup_frames fuel rounds h id env ≡ some invalid_ref =
              ground (arith, missing, all, parts, captured) in
            let found' : ref_or_diverge _ h ≡ ok ref h = ground (arith, missing', deep) in
            ref_or_diverge-ok _ ref h found' in
          (
            with_farsymbol (h.far a).sym depth h,
            ground (arith, missing),
            lookup_environment-grown (h.far a).sym depth h fuel rounds env n tail ref e f fresh le
                here,
          )
      | inr (first, bound) ↦
          let here : lookup_n_frames fuel h id n (outer_env (n - n) h env) ≡ some ref =
            let found' : lookup_frames fuel rounds h id env ≡ some first =
              ground (arith, bound, all, parts) in
            let same : first ≡ ref = ground (arith, found') in
            rw (outer_env_self n h env) (sym all ∙ found' ∙ ap some same) in
          (
            with_farsymbol id n h,
            ground (arith, bound),
            lookup_environment-grown id n h fuel rounds env n tail ref e f fresh (omega arith) here,
          )
    ]
wrap_identifier-lookup_environment fuel rounds h _ env n tail ref e f scoped fresh found =
    absurd scoped
