-- ===== src/Env/Add.antt =====
-- src/env.c: a variable that is added to the first frame of an environment is found there.
use sigscheme.Base.{ℕ, suc, ◌<◌, ◌≡◌, refl, ◌≢◌, ◌⊎◌, inl, inr, true, some, arith}
use sigscheme.Object.{Obj, null, cons, Heap, make_cons, set_car, set_cdr, obj_eq, obj_eq_iff, ok}
use sigscheme.Env.{ref_car, lookup_frame_loop, lookup_frame, lookup_frames, add_environment}

-- A frame whose first formal is the variable.
lookup_frames-first :
    (fuel rounds : ℕ) (h : Heap) (var : Obj) (e f a b : ℕ)
    → (h.pair e).car ≡ cons f
    → (h.pair f).car ≡ cons a
    → (h.pair f).cdr ≡ cons b
    → (h.pair a).car ≡ var
    → lookup_frames (suc fuel) (suc rounds) h var (cons e) ≡ some (ref_car b)
unfolding lookup_frames lookup_frame lookup_frame_loop
lookup_frames-first fuel rounds h var e f a b ef fa fb av =
    let same : obj_eq var var ≡ true = (obj_eq_iff var var).1 refl in ground (arith, same)

-- scm_add_environment at a toplevel environment makes a frame of the variable with its value, and
-- otherwise adds it to the first frame, which is another pair than the environment's; looking the
-- variable up then finds a location with this value.
pub add_environment-lookup_frames :
    (fuel rounds : ℕ) (h : Heap) (var val env : Obj)
    → (env ≡ null)
      ⊎ ((e : ℕ) × (f : ℕ) × (env ≡ cons e)
          × ((h.pair e).car ≡ cons f)
          × (e < h.next)
          × (f < h.next)
          × (e ≢ f))
    → (env' : Obj) × (g : Heap) × (b : ℕ) × (add_environment var val env h ≡ ok env' g)
      × (lookup_frames (suc fuel) (suc rounds) g var env' ≡ some (ref_car b))
      × ((g.pair b).car ≡ val)
unfolding add_environment
add_environment-lookup_frames fuel rounds h var val env (inl top) =
    let n = h.next in
    let g =
      make_cons (cons (suc (suc n))) null
        (make_cons (cons n) (cons (suc n)) (make_cons val null (make_cons var null h))) in
    let found =
      lookup_frames-first fuel rounds g var (suc (suc (suc n))) (suc (suc n)) n (suc n)
        (ground arith) (ground arith) (ground arith) (ground arith) in
    (cons (suc (suc (suc n))), g, suc n, rw top refl, found, ground arith)
add_environment-lookup_frames fuel rounds h var val env (inr (e, f, at, frame, le, lf, ne)) =
    let n = h.next in
    let h1 = make_cons var (h.pair f).car h in
    let h2 = make_cons val (h1.pair f).cdr h1 in
    let g = set_cdr f (cons (suc n)) (set_car f (cons n) h2) in
    let found =
      lookup_frames-first fuel rounds g var e f n (suc n) (ground arith) (ground arith)
        (ground arith) (ground arith) in
    (cons e, g, suc n, rw at (rw frame refl), found, ground arith)
