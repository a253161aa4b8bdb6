-- ===== src/Env/Frames.antt =====
-- src/env.c: searches through a number of frames.
use sigscheme.Base.{
  ℕ, zero, suc, ◌+◌, ◌-◌, ◌≤◌, ◌<◌, ◌≡◌, refl, sym, ap, ◌∙◌, Option, none, some, arith,
}
use sigscheme.Object.{Obj, Heap, car, cdr}
use sigscheme.Object.Chain.{EndsAfter}
use sigscheme.Env.{
  VarRef, invalid_ref, ref_wild, ref_car, ref_cdr, found_or, env_depth_loop, outer_env,
  lookup_frame, lookup_n_frames, lookup_frames,
}

pub env_depth_loop-EndsAfter :
    (rounds : ℕ) (h : Heap) (env : Obj) (n depth : ℕ) (tail : Obj)
    → EndsAfter h env n tail
    → n < rounds
    → env_depth_loop rounds h env depth ≡ some (depth + n)
unfolding env_depth_loop
env_depth_loop-EndsAfter zero h env n depth tail e f = absurd (omega arith)
env_depth_loop-EndsAfter (suc rounds) h env zero depth tail (e, t) f = ground arith
env_depth_loop-EndsAfter (suc rounds) h env (suc n) depth tail (c, e) f =
    ground (arith, env_depth_loop-EndsAfter rounds h (cdr h env) n (depth + 1) tail e (omega arith))

-- In an environment of n frames, n frames are all frames.
pub lookup_n_frames-all :
    (fuel rounds : ℕ) (h : Heap) (id env : Obj) (n : ℕ) (tail : Obj)
    → EndsAfter h env n tail
    → n < rounds
    → lookup_frames fuel rounds h id env ≡ lookup_n_frames fuel h id n env
unfolding lookup_frames lookup_n_frames
lookup_n_frames-all fuel zero h id env n tail e f = absurd (omega arith)
lookup_n_frames-all fuel (suc rounds) h id env zero tail (e, t) f = ground arith
lookup_n_frames-all fuel (suc rounds) h id env (suc n) tail (c, e) f =
    ground (arith, lookup_n_frames-all fuel rounds h id (cdr h env) n tail e (omega arith))

found_or_assoc : (a b c : Option VarRef) → found_or (found_or a b) c ≡ found_or a (found_or b c)
found_or_assoc none b c = refl
found_or_assoc (some invalid_ref) b c = refl
found_or_assoc (some ref_wild) b c = refl
found_or_assoc (some (ref_car p)) b c = refl
found_or_assoc (some (ref_cdr p)) b c = refl

-- The first m frames, and then the others.
lookup_n_frames-split :
    (fuel : ℕ) (h : Heap) (id : Obj) (m n : ℕ) (env : Obj)
    → lookup_n_frames fuel h id (m + n) env
      ≡ found_or (lookup_n_frames fuel h id m env) (lookup_n_frames fuel h id n (outer_env m h env))
unfolding lookup_n_frames outer_env
lookup_n_frames-split fuel h id zero n env =
    ap (λ (k : ℕ). lookup_n_frames fuel h id k env) (omega arith)
lookup_n_frames-split fuel h id (suc m) n env =
    let first = lookup_frame fuel h id (car h env) in
    let shift : suc m + n ≡ suc (m + n) = omega arith in
    ap (λ (k : ℕ). lookup_n_frames fuel h id k env) shift
    ∙ ap (found_or first) (lookup_n_frames-split fuel h id m n (cdr h env))
    ∙ sym (found_or_assoc first _ _)

pub outer_env_self : (n : ℕ) (h : Heap) (env : Obj) → outer_env (n - n) h env ≡ env
unfolding outer_env
outer_env_self n h env = let none_left : n - n ≡ 0 = omega arith in rw none_left refl

pub lookup_n_frames-sum :
    (fuel : ℕ) (h : Heap) (id : Obj) (n depth : ℕ) (env : Obj)
    → depth ≤ n
    → lookup_n_frames fuel h id n env
      ≡ found_or
          (lookup_n_frames fuel h id (n - depth) env)
          (lookup_n_frames fuel h id depth (outer_env (n - depth) h env))
lookup_n_frames-sum fuel h id n depth env le =
    let whole : n ≡ n - depth + depth = omega arith in
    ap (λ (k : ℕ). lookup_n_frames fuel h id k env) whole
    ∙ lookup_n_frames-split fuel h id (n - depth) depth env
