-- ===== src/Env/Extension.antt =====
-- src/env.c: which actuals fit which formals, and what a lookup in a frame that was found valid
-- makes of them.
use sigscheme.Base.{
  ℕ, zero, suc, ◌+◌, ◌≤◌, ◌<◌, ◌≡◌, ap, ◌∙◌, ◌≢◌, Bool, true, false, ◌&&◌, ◌||◌, some, List, [],
  ◌∷◌, arith, leb, ◌==◌, if◌then◌else◌, length, All,
}
use sigscheme.Base.Int.{pos}
use sigscheme.Object.{Obj, cons, Heap, car, cdr, is_null, is_cons, is_identifier}
use sigscheme.Object.Chain.{IsList, EndsAfter, nth_cdr, IsList-EndsAfter}
use sigscheme.Pairs.Length.{encoded_length, scm_length-EndsAfter, finite_length-scm_length}
use sigscheme.Env.{ref_wild, ref_car_of, lookup_frame}
use sigscheme.Env.Validate.{
  encode_error, validate_formals, validate_formals_loop, validate_actuals,
  valid_environment_extensionp, valid_environment_extension_lengthp, valid_framep,
}
use sigscheme.Env.Lookup.{location, lookup_frame-location, location-Pairs, index_of}

abbrev pub IsIdentifier : Obj → Type 0
IsIdentifier o = is_identifier o ≡ true

-- A list of formals: identifiers, and behind them '() or one more.
pub record Formals (h : Heap) (o : Obj) (xs : List Obj) (tail : Obj) : Type 0 where
  pub list : IsList h o xs tail
  pub names : All IsIdentifier xs
  pub end : is_null tail || is_identifier tail ≡ true

pub Formals-not_cons :
    (tail : Obj) → is_null tail || is_identifier tail ≡ true → is_cons tail ≡ false
Formals-not_cons tail e = ground arith

validate_formals_loop-Formals :
    (xs : List Obj) (fuel : ℕ) (h : Heap) (o : Obj) (len : ℕ) (tail : Obj)
    → IsList h o xs tail
    → All IsIdentifier xs
    → is_null tail || is_identifier tail ≡ true
    → length xs < fuel
    → validate_formals_loop fuel h o len ≡ some (encoded_length (len + length xs) tail)
unfolding validate_formals_loop
validate_formals_loop-Formals xs zero h o len tail l n t f = absurd (omega arith)
validate_formals_loop-Formals [] (suc fuel) h o len tail l n t f = rw l (ground arith)
validate_formals_loop-Formals (x ∷ xs) (suc fuel) h o len tail (p, e, a, l) (here, n) t f =
    let ih =
      validate_formals_loop-Formals xs fuel h (h.pair p).cdr (len + 1) tail l n t (omega arith) in
    rw e (rw a (ground (arith, ih)))

validate_formals-Formals :
    (strict : Bool) (fuel : ℕ) (h : Heap) (o : Obj) (xs : List Obj) (tail : Obj)
    → Formals h o xs tail
    → length xs < fuel
    → validate_formals strict fuel h o ≡ some (encoded_length (length xs) tail)
unfolding validate_formals
validate_formals-Formals true fuel h o xs tail r f =
    validate_formals_loop-Formals xs fuel h o 0 tail r.list r.names r.end f
    ∙ ap (λ (k : ℕ). some (encoded_length k tail)) (omega arith)
validate_formals-Formals false fuel h o xs tail r f =
    let e = IsList-EndsAfter h xs o tail r.list (Formals-not_cons tail r.end) in
    finite_length-scm_length fuel h o (length xs) tail e f
    ∙ scm_length-EndsAfter fuel h o (length xs) tail e (omega arith)

validate_actuals-EndsAfter :
    (strict : Bool) (fuel : ℕ) (h : Heap) (o : Obj) (n : ℕ) (tail : Obj)
    → EndsAfter h o n tail
    → n < fuel
    → validate_actuals strict fuel h o ≡ some (if is_null tail then pos n else encode_error)
unfolding validate_actuals
validate_actuals-EndsAfter true fuel h o n tail e f =
    let length_o = scm_length-EndsAfter fuel h o n tail e (omega arith) in ground (arith, length_o)
validate_actuals-EndsAfter false fuel h o n tail e f =
    let length_o = scm_length-EndsAfter fuel h o n tail e (omega arith) in
    ground (arith, finite_length-scm_length fuel h o n tail e f, length_o)

-- Whether the actuals fit, by numbers and ends alone.
abbrev pub fits : ℕ → Obj → ℕ → Obj → Bool
fits m formals_end n actuals_end =
    if is_null formals_end
    then is_null actuals_end && m == n
    else if is_null actuals_end
    then leb m n
    else true

-- scm_valid_environment_extensionp, with and without the strict check, for fewer than 2^63 - 1
-- formals and actuals that end: proper formals need just as many actuals in a proper list, dotted
-- formals at least as many in a proper list, and any dotted list of actuals, however short, is let
-- through to dotted formals.
pub valid_environment_extensionp-fits :
    (strict : Bool) (fuel : ℕ) (h : Heap) (formals : Obj) (xs : List Obj) (formals_end : Obj)
    (actuals : Obj) (n : ℕ) (actuals_end : Obj)
    → Formals h formals xs formals_end
    → EndsAfter h actuals n actuals_end
    → length xs < fuel
    → n < fuel
    → length xs < 0x7fff_ffff_ffff_ffff
    → valid_environment_extensionp strict fuel h formals actuals
      ≡ some (fits (length xs) formals_end n actuals_end)
unfolding valid_environment_extensionp valid_environment_extension_lengthp
valid_environment_extensionp-fits strict fuel h formals xs formals_end actuals n actuals_end r e f g
      b =
    let left = validate_formals-Formals strict fuel h formals xs formals_end r f in
    let right = validate_actuals-EndsAfter strict fuel h actuals n actuals_end e g in
    ground (arith, left, right)

EndsAfter-before :
    (h : Heap) (o : Obj) (n : ℕ) (tail : Obj) (i : ℕ)
    → EndsAfter h o n tail
    → i < n
    → is_cons (nth_cdr h o i) ≡ true
EndsAfter-before h o zero tail i e lt = absurd (omega arith)
EndsAfter-before h o (suc n) tail zero e lt = e.0
EndsAfter-before h o (suc n) tail (suc i) e lt =
    EndsAfter-before h (cdr h o) n tail i e.1 (omega arith)

past_end : (h : Heap) (o : Obj) (i : ℕ) → is_cons o ≡ false → is_cons (nth_cdr h o i) ≡ false
past_end h o zero e = e
past_end h o (suc i) e =
    let next : is_cons (cdr h o) ≡ false = ground arith in past_end h (cdr h o) i next

EndsAfter-behind :
    (h : Heap) (o : Obj) (n : ℕ) (tail : Obj) (i : ℕ)
    → EndsAfter h o n tail
    → n ≤ i
    → is_cons (nth_cdr h o i) ≡ false
EndsAfter-behind h o zero tail i (same, e) le = past_end h o i e
EndsAfter-behind h o (suc n) tail zero e le = absurd (omega arith)
EndsAfter-behind h o (suc n) tail (suc i) e le =
    EndsAfter-behind h (cdr h o) n tail i e.1 (omega arith)

-- In a frame that valid_framep accepts, with fewer than 2^63 - 1 formals and actuals that end,
-- where the formals are a proper list or the actuals are one, a lookup finds what it should, and
-- never steps to an object that is no pair.
pub lookup_frame-valid :
    (strict : Bool) (fuel : ℕ) (h : Heap) (var frame : Obj) (xs : List Obj) (formals_end : Obj)
    (n : ℕ) (actuals_end : Obj)
    → Formals h (car h frame) xs formals_end
    → EndsAfter h (cdr h frame) n actuals_end
    → length xs < fuel
    → n < fuel
    → length xs < 0x7fff_ffff_ffff_ffff
    → valid_framep strict fuel h frame ≡ some true
    → is_null formals_end || is_null actuals_end ≡ true
    → (lookup_frame fuel h var frame ≡ some (location h frame var xs formals_end))
      × (location h frame var xs formals_end ≢ ref_wild)
unfolding valid_framep
lookup_frame-valid strict fuel h var frame xs formals_end n actuals_end r e f g b valid proper =
    let end = Formals-not_cons formals_end r.end in
    let fitting =
      valid_environment_extensionp-fits strict fuel h (car h frame) xs formals_end (cdr h frame) n
        actuals_end r e f g b in
    let enough : length xs ≤ n = ground arith in
    let pairs : (i : ℕ) → i ≤ length xs → is_cons (nth_cdr h frame i) ≡ true = elim [
      | zero ↦ λ le. ground arith
      | suc i ↦ λ le. EndsAfter-before h (cdr h frame) n actuals_end i e (omega arith)
    ] in
    (
      lookup_frame-location fuel h var frame formals_end xs r.list end f,
      location-Pairs h frame var formals_end xs pairs,
    )

-- With fewer than 2^63 - 1 formals, dotted, and dotted actuals that are too few, valid_framep
-- accepts the frame, and a lookup of a formal that has no actual ends at CAR of an object that is
-- no pair.
pub lookup_frame-short_dotted :
    (strict : Bool) (fuel : ℕ) (h : Heap) (var : Obj) (p : ℕ) (xs : List Obj) (formals_end : Obj)
    (n : ℕ) (actuals_end : Obj) (i : ℕ)
    → Formals h (h.pair p).car xs formals_end
    → EndsAfter h (h.pair p).cdr n actuals_end
    → length xs < fuel
    → n < fuel
    → length xs < 0x7fff_ffff_ffff_ffff
    → is_null formals_end ≡ false
    → is_null actuals_end ≡ false
    → index_of var xs ≡ some i
    → n ≤ i
    → (valid_framep strict fuel h (cons p) ≡ some true)
      × (lookup_frame fuel h var (cons p) ≡ some ref_wild)
unfolding valid_framep
lookup_frame-short_dotted strict fuel h var p xs formals_end n actuals_end i r e f g b dotted short
      found le =
    let end = Formals-not_cons formals_end r.end in
    let fitting =
      valid_environment_extensionp-fits strict fuel h (h.pair p).car xs formals_end (h.pair p).cdr n
        actuals_end r e f g b in
    let wild : (o : Obj) → is_cons o ≡ false → ref_car_of o ≡ ref_wild = λ o c. ground arith in
    let here = wild _ (EndsAfter-behind h (h.pair p).cdr n actuals_end i e le) in
    (
      ground arith,
      lookup_frame-location fuel h var (cons p) formals_end xs r.list end f
          ∙ ap some (ground arith),
    )
