-- ===== src/Macro/Compiled.antt =====
-- src/macro.c: what a pattern without literals is compiled to, in the two modes of the compiler.
use sigscheme.Base.{ℕ, suc, ◌≡◌, refl, Bool, true, false, List, [], ◌∷◌, ◌++◌, ◌==◌, if◌then◌else◌}
use sigscheme.Macro.{
  Datum, null, pair, ident, atom, pvar, reppat, CompilationContext, ellipsisp, memq,
}
use sigscheme.Macro.Shape.{Pattern, end, var, const, cons, repeat}

-- A form that a program can hold has no markers.
abbrev pub IsSource : Datum → Type 0
IsSource null = Unit
IsSource (pair a d) = IsSource a × IsSource d
IsSource (ident x) = Unit
IsSource (atom a) = Unit
IsSource (pvar _ _) = ⊥
IsSource (reppat _ _) = ⊥

-- The levels of the variables of a pattern, the last one first.
abbrev pub levels : ℕ → Pattern → List ℕ
levels level end = []
levels level var = level ∷ []
levels level (const a) = []
levels level (cons p q) = levels level q ++ levels level p
levels level (repeat p) = levels (suc level) p

abbrev pub Distinct : List ℕ → Type 0
Distinct [] = Unit
Distinct (x ∷ xs) = (memq x xs ≡ false) × Distinct xs

module _ (unwrap : ℕ → ℕ) (ellipsis : ℕ) where
  -- A context without literals.
  abbrev pub in_pattern : List ℕ → List ℕ → ℕ → CompilationContext
  in_pattern syms vals pvlen = record {
    syms = syms;
    vals = vals;
    pvlen = pvlen;
    literals = [];
    ellipsis = ellipsis;
    unwrap = unwrap;
    pattern_mode = true;
  }

  abbrev pub in_template : List ℕ → List ℕ → ℕ → CompilationContext
  in_template syms vals pvlen = record (in_pattern syms vals pvlen) { pattern_mode = false }

  abbrev pub dots : Datum → Bool
  dots (ident x) = unwrap x == ellipsis
  dots _ = false

  -- The pattern that a form is, and its variables, the last one first.
  abbrev pub shape : Datum → Pattern
  shape (pair obj (pair next rest)) =
      let more = cons (shape obj) (shape (pair next rest)) in
      if dots next then repeat (shape obj) else more
  shape (pair obj rest) = cons (shape obj) (shape rest)
  shape (ident x) = var
  shape (atom a) = const a
  shape _ = end

  abbrev pub names : Datum → List ℕ
  names (pair obj (pair next rest)) =
      let more = names (pair next rest) ++ names obj in if dots next then names obj else more
  names (pair obj rest) = names rest ++ names obj
  names (ident x) = x ∷ []
  names _ = []

  -- Nothing stands behind an ellipsis.
  abbrev pub Regular : Datum → Type 0
  Regular (pair obj (pair next rest)) =
      (dots next ≡ true → rest ≡ null)
      × Regular obj
      × (dots next ≡ false → Regular (pair next rest))
  Regular (pair obj rest) = Regular obj × Regular rest
  Regular _ = Unit

  pub ellipsisp-pattern :
      (syms vals : List ℕ) (n : ℕ) (d : Datum) → ellipsisp (in_pattern syms vals n) d ≡ dots d
  unfolding ellipsisp
  ellipsisp-pattern syms vals n (ident x) = refl
  ellipsisp-pattern syms vals n null = refl
  ellipsisp-pattern syms vals n (pair _ _) = refl
  ellipsisp-pattern syms vals n (atom _) = refl
  ellipsisp-pattern syms vals n (pvar _ _) = refl
  ellipsisp-pattern syms vals n (reppat _ _) = refl

  pub ellipsisp-template :
      (syms vals : List ℕ) (n : ℕ) (d : Datum) → ellipsisp (in_template syms vals n) d ≡ dots d
  unfolding ellipsisp
  ellipsisp-template syms vals n (ident x) = refl
  ellipsisp-template syms vals n null = refl
  ellipsisp-template syms vals n (pair _ _) = refl
  ellipsisp-template syms vals n (atom _) = refl
  ellipsisp-template syms vals n (pvar _ _) = refl
  ellipsisp-template syms vals n (reppat _ _) = refl
