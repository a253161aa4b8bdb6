-- ===== src/Env/Extend.antt =====
-- src/env.c: lookups in an environment with a new frame.
use mathlib.Core.Path.{ap₂}
use sigscheme.Base.{ℕ, zero, suc, ◌<◌, ◌≡◌, refl, ap, ◌∙◌, true, false, some, List, arith, length}
use sigscheme.Object.{Obj, cons, Heap, car, cdr, is_cons, make_cons, ok}
use sigscheme.Object.Chain.{
  IsListIn, IsListIn-IsList, IsListIn-frame, SameBelow, make_cons-SameBelow,
}
use sigscheme.Env.{
  VarRef, ref_car, ref_cdr, found_or, ref_cdr_of, deref, lookup_frame_loop, lookup_frame,
  lookup_frames, extend_environment,
}
use sigscheme.Env.Lookup.{location, lookup_frame-location}

-- An object whose pair, if it is one, was made before the address.
abbrev pub Below : ℕ → Obj → Type 0
Below b (cons p) = p < b
Below b _ = Unit

abbrev pub RefBelow : ℕ → VarRef → Type 0
RefBelow b (ref_car p) = p < b
RefBelow b (ref_cdr p) = p < b
RefBelow b _ = Unit

-- The pairs that were made refer to pairs that were made.
abbrev pub Closed : Heap → Type 0
Closed h = (p : ℕ) → p < h.next → Below h.next (h.pair p).car × Below h.next (h.pair p).cdr

-- A heap that has grown, where the old pairs are the same.
module _ (h g : Heap) (closed : Closed h) (same : SameBelow h.next h g) where
  car-same : (o : Obj) → Below h.next o → (car g o ≡ car h o) × Below h.next (car h o)
  car-same (cons p) lt = (ap (λ r. r.car) (same p lt), (closed p lt).0)
  car-same _ lt = (refl, tt)

  cdr-same : (o : Obj) → Below h.next o → (cdr g o ≡ cdr h o) × Below h.next (cdr h o)
  cdr-same (cons p) lt = (ap (λ r. r.cdr) (same p lt), (closed p lt).1)
  cdr-same _ lt = (refl, tt)

  deref-same :
      (ref : VarRef)
      → RefBelow h.next ref
      → (deref g ref ≡ deref h ref) × Below h.next (deref h ref)
  deref-same (ref_car p) lt = car-same (cons p) lt
  deref-same (ref_cdr p) lt = cdr-same (cons p) lt
  deref-same _ lt = (refl, tt)

  ref_cdr_of-RefBelow : (o : Obj) → Below h.next o → RefBelow h.next (ref_cdr_of o)
  ref_cdr_of-RefBelow (cons p) lt = lt
  ref_cdr_of-RefBelow _ lt = tt

  lookup_frame_loop-same :
      (fuel : ℕ) (var formals : Obj) (actuals : VarRef)
      → Below h.next formals
      → RefBelow h.next actuals
      → lookup_frame_loop fuel g var formals actuals ≡ lookup_frame_loop fuel h var formals actuals
  unfolding lookup_frame_loop
  lookup_frame_loop-same zero var formals actuals a b = refl
  lookup_frame_loop-same (suc fuel) var formals actuals a b =
      let (here, _) = car-same formals a in
      let (there, below) = cdr-same formals a in
      let (cell, cell_below) = deref-same actuals b in
      let ih =
        lookup_frame_loop-same fuel var (cdr h formals) (ref_cdr_of (deref h actuals)) below
          (ref_cdr_of-RefBelow (deref h actuals) cell_below) in
      rw here (rw there (rw cell (rw ih refl)))

  lookup_frame-same :
      (fuel : ℕ) (var frame : Obj)
      → Below h.next frame
      → lookup_frame fuel g var frame ≡ lookup_frame fuel h var frame
  unfolding lookup_frame
  lookup_frame-same fuel var frame a =
      let (here, below) = car-same frame a in
      rw here (
        lookup_frame_loop-same fuel var (car h frame) (ref_cdr_of frame) below
          (ref_cdr_of-RefBelow frame a))

  lookup_frames-same :
      (fuel rounds : ℕ) (var env : Obj)
      → Below h.next env
      → lookup_frames fuel rounds g var env ≡ lookup_frames fuel rounds h var env
  unfolding lookup_frames
  lookup_frames-same fuel zero var env a = refl
  lookup_frames-same fuel (suc rounds) var env a =
      let (here, frame_below) = car-same env a in
      let (there, below) = cdr-same env a in
      let first = lookup_frame-same fuel var (car h env) frame_below in
      let ih = lookup_frames-same fuel rounds var (cdr h env) below in
      rw here (rw there (rw first (rw ih refl)))

-- In a heap whose pairs refer to pairs that were made, and for proper or dotted formals,
-- scm_extend_environment makes a frame in front of the environment, changes no older pair, and a
-- variable is then looked up first among the new formals, and where it is none of them, it is
-- found where it was found before.
pub extend_environment-lookup_frames :
    (fuel rounds : ℕ) (h : Heap) (var formals actuals env tail : Obj) (xs : List Obj)
    → Closed h
    → Below h.next env
    → IsListIn h.next h formals xs tail
    → is_cons tail ≡ false
    → length xs < fuel
    → (env' : Obj) × (g : Heap) × (extend_environment formals actuals env h ≡ ok env' g)
      × SameBelow h.next h g
      × (car g (car g env') ≡ formals)
      × (cdr g (car g env') ≡ actuals)
      × (lookup_frames fuel (suc rounds) g var env'
          ≡ found_or
              (some (location g (car g env') var xs tail))
              (lookup_frames fuel rounds h var env))
unfolding extend_environment lookup_frames
extend_environment-lookup_frames fuel rounds h var formals actuals env tail xs closed below list end
      f =
    let h1 = make_cons formals actuals h in
    let g = make_cons (cons h.next) env h1 in
    let env' = cons (suc h.next) in
    let same : SameBelow h.next h g = λ p lt.
      make_cons-SameBelow (cons h.next) env h1 p (omega arith)
      ∙ make_cons-SameBelow formals actuals h p lt in
    let top : g.pair (suc h.next) ≡ record { car = cons h.next; cdr = env; is_mutable = true } =
      ground arith in
    let frame : g.pair h.next ≡ record { car = formals; cdr = actuals; is_mutable = true } =
      ground arith in
    let first : car g env' ≡ cons h.next = ap (λ r. r.car) top in
    let rest : cdr g env' ≡ env = ap (λ r. r.cdr) top in
    let has_formals : car g (car g env') ≡ formals = rw first (ap (λ r. r.car) frame) in
    let has_actuals : cdr g (car g env') ≡ actuals = rw first (ap (λ r. r.cdr) frame) in
    let grown =
      IsListIn-IsList h.next g xs formals tail
        (IsListIn-frame h.next h.next h g xs formals tail list same (omega arith)) in
    let found =
      lookup_frame-location fuel g var (car g env') tail xs (rw has_formals grown) end f in
    let older = lookup_frames-same h g closed same fuel rounds var env below in
    (
      env',
      g,
      refl,
      same,
      has_formals,
      has_actuals,
      ap₂ found_or found (ap (lookup_frames fuel rounds g var) rest ∙ older),
    )
