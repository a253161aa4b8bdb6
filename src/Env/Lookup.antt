-- ===== src/Env/Lookup.antt =====
-- src/env.c: what a lookup in a frame finds, for proper and dotted formals.
use sigscheme.Base.{
  ℕ, zero, suc, ◌≤◌, ◌<◌, ◌≡◌, ◌≢◌, inl, inr, true, false, Option, none, some, List, [], ◌∷◌, arith,
  if◌then◌else◌, Option-cases, length,
}
use sigscheme.Object.{Obj, Heap, car, cdr, is_cons, obj_eq}
use sigscheme.Object.Chain.{IsList, nth_cdr}
use sigscheme.Env.{
  VarRef, invalid_ref, ref_wild, ref_car_of, ref_cdr_of, deref, lookup_frame_loop, lookup_frame,
}

-- Where the variable is in a list of formals.
abbrev pub index_of : Obj → List Obj → Option ℕ
index_of var [] = none
index_of var (x ∷ xs) =
    if obj_eq var x then some 0 else elim (index_of var xs) [ none ↦ none | some i ↦ some (suc i) ]

-- The location of the variable in a frame of the formals `xs` with `tail` behind them: the i-th
-- actual, or for `tail` itself the list of the actuals that are left.
abbrev pub location : Heap → Obj → Obj → List Obj → Obj → VarRef
location h frame var xs tail = elim (index_of var xs) [
  | some i ↦ ref_car_of (nth_cdr h frame (suc i))
  | none ↦ if obj_eq var tail then ref_cdr_of (nth_cdr h frame (length xs)) else invalid_ref
]

deref-ref_cdr_of : (h : Heap) (o : Obj) → deref h (ref_cdr_of o) ≡ cdr h o
deref-ref_cdr_of h o = ground arith

lookup_frame_loop-location :
    (xs : List Obj) (fuel : ℕ) (h : Heap) (var formals tail frame : Obj)
    → IsList h formals xs tail
    → is_cons tail ≡ false
    → length xs < fuel
    → lookup_frame_loop fuel h var formals (ref_cdr_of frame) ≡ some (location h frame var xs tail)
unfolding lookup_frame_loop
lookup_frame_loop-location xs zero h var formals tail frame l t f = absurd (omega arith)
lookup_frame_loop-location [] (suc fuel) h var formals tail frame l t f = rw l (ground arith)
lookup_frame_loop-location (x ∷ xs) (suc fuel) h var formals tail frame (p, e, a, l) t f =
    let ih =
      lookup_frame_loop-location xs fuel h var (h.pair p).cdr tail (cdr h frame) l t
        (omega arith) in
    rw e (rw (deref-ref_cdr_of h frame) (ground (arith, ih)))

-- In a frame with proper or dotted formals, scm_lookup_frame finds the actual at the first formal
-- that is EQ to the variable; where there is none, the list of the actuals that are left if the
-- variable is EQ to the end of the formals, and nothing otherwise. Fuel above the number of
-- formals is enough.
pub lookup_frame-location :
    (fuel : ℕ) (h : Heap) (var frame tail : Obj) (xs : List Obj)
    → IsList h (car h frame) xs tail
    → is_cons tail ≡ false
    → length xs < fuel
    → lookup_frame fuel h var frame ≡ some (location h frame var xs tail)
unfolding lookup_frame
lookup_frame-location fuel h var frame tail xs l t f =
    lookup_frame_loop-location xs fuel h var (car h frame) tail frame l t f

index_of-lt : (var : Obj) (xs : List Obj) (i : ℕ) → index_of var xs ≡ some i → i < length xs
index_of-lt var [] i e = cc
index_of-lt var (x ∷ xs) i e = elim (Option-cases (index_of var xs)) [
  | inl missing ↦ ground arith
  | inr (j, found) ↦ let below = index_of-lt var xs j found in ground arith
]

-- A frame with a pair for every formal has no wild references.
pub location-Pairs :
    (h : Heap) (frame var tail : Obj) (xs : List Obj)
    → ((i : ℕ) → i ≤ length xs → is_cons (nth_cdr h frame i) ≡ true)
    → location h frame var xs tail ≢ ref_wild
location-Pairs h frame var tail xs pairs e =
    let not_wild : (o : Obj) → is_cons o ≡ true → ref_car_of o ≢ ref_wild = λ o c w. ground arith in
    let not_wild_cdr : (o : Obj) → is_cons o ≡ true → ref_cdr_of o ≢ ref_wild =
      λ o c w. ground arith in
    elim (Option-cases (index_of var xs)) [
      | inl missing ↦ let last = not_wild_cdr _ (pairs (length xs) (omega arith)) in ground arith
      | inr (i, found) ↦
          let here = not_wild _ (pairs (suc i) (index_of-lt var xs i found)) in ground arith
    ]
