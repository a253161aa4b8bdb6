-- ===== src/Macro/Reference.antt =====
-- src/macro.c: what the markers of a template refer to on the levels of the ellipses around them.
use sigscheme.Base.{
  ℕ, zero, suc, ◌+◌, ◌≡◌, refl, ap, subst, ◌∙◌, some, List, [], ◌∷◌, ◌++◌, arith, length,
  length-append,
}
use sigscheme.Macro.{Datum, null, pair, ident, atom, pvar, reppat}
use sigscheme.Macro.Transcription.{
  Referent, object, exhausted, invalid, follow, step_into, form_tail, sub_at,
}
use sigscheme.Macro.Shape.{zip_pairs, nulls}

-- The object of a variable with as many levels as there are indices.
abbrev pub refer : List Datum → List ℕ → ℕ → Referent
refer sub indices index = follow (length indices) 0 indices (sub_at sub index)

abbrev pub step_in : ℕ → ℕ → Referent → Referent
step_in level k (object d) = step_into level (form_tail d k)
step_in level k (exhausted at) = exhausted at
step_in level k invalid = invalid

follow-zero : (i : ℕ) (r : Referent) → follow zero i [] r ≡ r
unfolding follow
follow-zero i (object d) = refl
follow-zero i (exhausted at) = refl
follow-zero i invalid = refl

follow_again :
    (indices : List ℕ) (k i : ℕ) (r : Referent)
    → follow (suc (length indices)) i (indices ++ k ∷ []) r
      ≡ step_in (i + length indices) k (follow (length indices) i indices r)
unfolding follow
follow_again [] k i (object d) =
    follow-zero (suc i) (step_into i (form_tail d k))
    ∙ ap (λ n. step_into n (form_tail d k)) (omega arith)
follow_again [] k i (exhausted at) = refl
follow_again [] k i invalid = refl
follow_again (j ∷ indices) k i (object d) =
    follow_again indices k (suc i) (step_into i (form_tail d j))
    ∙ ap (λ n. step_in n k (follow (length indices) (suc i) indices (step_into i (form_tail d j))))
        (omega arith)
follow_again (j ∷ indices) k i (exhausted at) = refl
follow_again (j ∷ indices) k i invalid = refl

pub length-indices : (indices : List ℕ) (k : ℕ) → length (indices ++ k ∷ []) ≡ suc (length indices)
length-indices indices k = omega (arith, length-append indices (k ∷ []))

refer_again :
    (sub : List Datum) (indices : List ℕ) (k index : ℕ)
    → refer sub (indices ++ k ∷ []) index ≡ step_in (length indices) k (refer sub indices index)
refer_again sub indices k index = rw (length-indices indices k) (
    follow_again indices k 0 (sub_at sub index)
    ∙ ap (λ n. step_in n k (refer sub indices index)) (omega arith))

-- The variables from `off` on refer to these objects.
abbrev pub Refers : List Datum → List ℕ → ℕ → List Datum → Type 0
Refers sub indices off [] = Unit
Refers sub indices off (d ∷ ds) =
    (refer sub indices off ≡ object d) × Refers sub indices (suc off) ds

-- They refer to lists that these lists end, behind `k` elements.
abbrev pub RefersBehind : List Datum → List ℕ → ℕ → ℕ → List Datum → Type 0
RefersBehind sub indices k off [] = Unit
RefersBehind sub indices k off (d ∷ ds) =
    ((whole : Datum) × (refer sub indices off ≡ object whole) × (form_tail whole k ≡ some d))
    × RefersBehind sub indices k (suc off) ds

-- The `n` variables from `off` on have no object any more at a level.
abbrev pub AreExhausted : List Datum → List ℕ → ℕ → ℕ → ℕ → Type 0
AreExhausted sub indices level off zero = Unit
AreExhausted sub indices level off (suc n) =
    (refer sub indices off ≡ exhausted level) × AreExhausted sub indices level (suc off) n

pub Refers-append :
    (sub : List Datum) (indices : List ℕ) (off : ℕ) (rest first : List Datum)
    → Refers sub indices off (rest ++ first)
    → Refers sub indices off rest × Refers sub indices (off + length rest) first
Refers-append sub indices off [] first refers =
    (tt, subst (λ n. Refers sub indices n first) (omega arith) refers)
Refers-append sub indices off (d ∷ rest) first (here, refers) =
    let (r, f) = Refers-append sub indices (suc off) rest first refers in
    ((here, r), subst (λ n. Refers sub indices n first) (omega arith) f)

pub AreExhausted-add :
    (sub : List Datum) (indices : List ℕ) (level off n m : ℕ)
    → AreExhausted sub indices level off (n + m)
    → AreExhausted sub indices level off n × AreExhausted sub indices level (off + n) m
AreExhausted-add sub indices level off zero m gone = (
  tt,
  subst (λ o. AreExhausted sub indices level o m) (omega arith)
      (subst (AreExhausted sub indices level off) (omega arith) gone),
)
AreExhausted-add sub indices level off (suc n) m gone =
    let e : suc n + m ≡ suc (n + m) = omega arith in
    let gone' = subst (AreExhausted sub indices level off) e gone in
    let (g, h) = AreExhausted-add sub indices level (suc off) n m gone'.1 in
    ((gone'.0, g), subst (λ o. AreExhausted sub indices level o m) (omega arith) h)

pub Refers-Behind :
    (sub : List Datum) (indices : List ℕ) (off : ℕ) (ds : List Datum)
    → Refers sub indices off ds
    → RefersBehind sub indices 0 off ds
Refers-Behind sub indices off [] refers = tt
Refers-Behind sub indices off (d ∷ ds) (here, refers) =
    ((d, here, refl), Refers-Behind sub indices (suc off) ds refers)

form_tail-suc :
    (whole : Datum) (k : ℕ) (a d : Datum)
    → form_tail whole k ≡ some (pair a d)
    → form_tail whole (suc k) ≡ some d
form_tail-suc (pair b rest) zero a d e = cc
form_tail-suc (pair b rest) (suc k) a d e = form_tail-suc rest k a d e
form_tail-suc null zero a d e = cc
form_tail-suc (ident _) zero a d e = cc
form_tail-suc (atom _) zero a d e = cc
form_tail-suc (pvar _ _) zero a d e = cc
form_tail-suc (reppat _ _) zero a d e = cc
form_tail-suc null (suc k) a d e = cc
form_tail-suc (ident _) (suc k) a d e = cc
form_tail-suc (atom _) (suc k) a d e = cc
form_tail-suc (pvar _ _) (suc k) a d e = cc
form_tail-suc (reppat _ _) (suc k) a d e = cc

-- At the index `k` the variables refer to the first elements, and behind it to the others.
pub RefersBehind-zip_pairs :
    (sub : List Datum) (indices : List ℕ) (k off : ℕ) (row ds : List Datum)
    → length row ≡ length ds
    → RefersBehind sub indices k off (zip_pairs row ds)
    → Refers sub (indices ++ k ∷ []) off row × RefersBehind sub indices (suc k) off ds
RefersBehind-zip_pairs sub indices k off [] [] e behind = (tt, tt)
RefersBehind-zip_pairs sub indices k off [] (d ∷ ds) e behind = absurd (omega (arith, e))
RefersBehind-zip_pairs sub indices k off (r ∷ row) [] e behind = absurd (omega (arith, e))
RefersBehind-zip_pairs sub indices k off (r ∷ row) (d ∷ ds) e ((whole, at, tail), behind) =
    let (refers, behind') =
      RefersBehind-zip_pairs sub indices k (suc off) row ds (omega (arith, e)) behind in
    (
      (refer_again sub indices k off ∙ rw at (rw tail refl), refers),
      ((whole, at, form_tail-suc whole k r d tail), behind'),
    )

pub RefersBehind-nulls :
    (sub : List Datum) (indices : List ℕ) (k off n : ℕ)
    → RefersBehind sub indices k off (nulls n)
    → AreExhausted sub (indices ++ k ∷ []) (length indices) off n
RefersBehind-nulls sub indices k off zero behind = tt
RefersBehind-nulls sub indices k off (suc n) ((whole, at, tail), behind) = (
  refer_again sub indices k off ∙ rw at (rw tail refl),
  RefersBehind-nulls sub indices k (suc off) n behind,
)

pub AreExhausted-deeper :
    (sub : List Datum) (indices : List ℕ) (k level off n : ℕ)
    → AreExhausted sub indices level off n
    → AreExhausted sub (indices ++ k ∷ []) level off n
AreExhausted-deeper sub indices k level off zero gone = tt
AreExhausted-deeper sub indices k level off (suc n) (here, gone) = (
  refer_again sub indices k off ∙ rw here refl,
  AreExhausted-deeper sub indices k level (suc off) n gone,
)
