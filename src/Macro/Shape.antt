-- ===== src/Macro/Shape.antt =====
-- What the patterns of src/macro.c without literal identifiers look like, and what they capture.
use mathlib.Core.Option
use sigscheme.Base.{
  ℕ, zero, suc, ◌+◌, ◌<◌, Option, none, some, List, [], ◌∷◌, ◌++◌, ◌==◌, if◌then◌else◌,
}
use sigscheme.Macro.{Datum, null, pair, ident, atom, pvar, reppat, pvmark}

infixl 5 ◌>>=◌
abbrev pub ◌>>=◌ : {A B : Type 0} → Option A → (A → Option B) → Option B
none >>= f = none
some a >>= f = f a

-- A pattern of variables, atoms and pairs; `repeat p` is (p ...).
pub data Pattern : Type 0 where
  end : Pattern
  var : Pattern
  const : ℕ → Pattern
  cons : Pattern → Pattern → Pattern
  repeat : Pattern → Pattern

abbrev pub vars : Pattern → ℕ
vars end = 0
vars var = 1
vars (const a) = 0
vars (cons p q) = vars p + vars q
vars (repeat p) = vars p

-- As it is compiled as a pattern, and as a template at a level, where `off` variables stand behind it.
abbrev pub pattern_of : Pattern → Datum
pattern_of end = null
pattern_of var = pvmark
pattern_of (const a) = atom a
pattern_of (cons p q) = pair (pattern_of p) (pattern_of q)
pattern_of (repeat p) = pair (reppat (pattern_of p) (vars p)) null

abbrev pub template_of : ℕ → ℕ → Pattern → Datum
template_of off level end = null
template_of off level var = pvar off level
template_of off level (const a) = atom a
template_of off level (cons p q) =
    pair (template_of (off + vars q) level p) (template_of off level q)
template_of off level (repeat p) = pair (reppat (template_of off (suc level) p) (vars p)) null

-- Every repeated part has a variable.
abbrev pub Productive : Pattern → Type 0
Productive end = Unit
Productive var = Unit
Productive (const a) = Unit
Productive (cons p q) = Productive p × Productive q
Productive (repeat p) = (0 < vars p) × Productive p

-- What each element of a list captures; `none` where one does not match or the list is none.
abbrev pub rows : (Datum → Option (List Datum)) → Datum → Option (List (List Datum))
rows capture null = some []
rows capture (pair form forms) =
    capture form >>= λ row. rows capture forms >>= λ more. some (row ∷ more)
rows capture (ident _) = none
rows capture (atom _) = none
rows capture (pvar _ _) = none
rows capture (reppat _ _) = none

abbrev pub zip_pairs : List Datum → List Datum → List Datum
zip_pairs (a ∷ as') (d ∷ ds) = pair a d ∷ zip_pairs as' ds
zip_pairs _ _ = []

abbrev pub nulls : ℕ → List Datum
nulls zero = []
nulls (suc n) = null ∷ nulls n

-- For each variable, the list of what it stands for in each row.
abbrev pub columns : ℕ → List (List Datum) → List Datum
columns n [] = nulls n
columns n (row ∷ more) = zip_pairs row (columns n more)

abbrev pub capture_pair :
    (Datum → Option (List Datum)) → (Datum → Option (List Datum)) → Datum → Option (List Datum)
capture_pair p q (pair form forms) = p form >>= λ first. q forms >>= λ rest. some (rest ++ first)
capture_pair p q _ = none

-- What the variables of a pattern stand for in a form that it matches, the last variable first.
unfoldable pub captures : Pattern → Datum → Option (List Datum)
captures var form = some (form ∷ [])
captures (cons p q) form = capture_pair (captures p) (captures q) form
captures (repeat p) form = Option.map (columns (vars p)) (rows (captures p) form)
captures end null = some []
captures (const a) (atom b) = if a == b then some [] else none
captures _ _ = none
