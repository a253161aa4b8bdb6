-- ===== src/Macro/Widths.antt =====
-- src/macro.c: how many lists the matcher has for a pattern, by what the pattern captures.
use mathlib.Core.Option
use mathlib.Core.Option.{some_inj}
use sigscheme.Base.{
  ℕ, ◌≡◌, refl, sym, ap, subst, ◌∙◌, Option, none, some, List, arith, length, length-append,
}
use sigscheme.Macro.{Datum, null, pair, ident, atom, pvar, reppat}
use sigscheme.Macro.Shape.{
  ◌>>=◌, Pattern, end, var, const, cons, repeat, vars, rows, columns, captures,
}
use sigscheme.Macro.Matched.{AreWide, length-columns}

pub bind-eq_some :
    {A B : Type 0} (m : Option A) (f : A → Option B) {b : B}
    → (m >>= f) ≡ some b
    → (a : A) × (m ≡ some a) × (f a ≡ some b)
bind-eq_some none f e = cc
bind-eq_some (some a) f e = (a, refl, e)

pub map-eq_some :
    {A B : Type 0} (f : A → B) (m : Option A) {b : B}
    → Option.map f m ≡ some b
    → (a : A) × (m ≡ some a) × (f a ≡ b)
map-eq_some f none e = cc
map-eq_some f (some a) e = (a, refl, some_inj.0 e)

pub rows-AreWide :
    (capture : Datum → Option (List Datum)) (n : ℕ) (form : Datum) (all : List (List Datum))
    → ((f : Datum) (row : List Datum) → capture f ≡ some row → length row ≡ n)
    → rows capture form ≡ some all
    → AreWide n all
rows-AreWide capture n null all wide e = subst (AreWide n) (some_inj.0 e) tt
rows-AreWide capture n (pair f fs) all wide e =
    let (row, here, e') = bind-eq_some (capture f) _ e in
    let (more, there, e'') = bind-eq_some (rows capture fs) _ e' in
    subst (AreWide n) (some_inj.0 e'') (wide f row here, rows-AreWide capture n fs more wide there)
rows-AreWide capture n (ident _) all wide e = cc
rows-AreWide capture n (atom _) all wide e = cc
rows-AreWide capture n (pvar _ _) all wide e = cc
rows-AreWide capture n (reppat _ _) all wide e = cc

pub length-captures :
    (p : Pattern) (form : Datum) (ds : List Datum) → captures p form ≡ some ds → length ds ≡ vars p
unfolding captures
length-captures var form ds e = ap length (sym (some_inj.0 e))
length-captures (cons p q) (pair f fs) ds e =
    let (first, here, e') = bind-eq_some (captures p f) _ e in
    let (rest, there, e'') = bind-eq_some (captures q fs) _ e' in
    ap length (sym (some_inj.0 e''))
    ∙ omega (
      arith,
      length-append rest first,
      length-captures p f first here,
      length-captures q fs rest there,
    )
length-captures (cons p q) null ds e = cc
length-captures (cons p q) (ident _) ds e = cc
length-captures (cons p q) (atom _) ds e = cc
length-captures (cons p q) (pvar _ _) ds e = cc
length-captures (cons p q) (reppat _ _) ds e = cc
length-captures (repeat p) form ds e =
    let (all, there, e') = map-eq_some (columns (vars p)) (rows (captures p) form) e in
    ap length (sym e')
    ∙ length-columns (vars p) all
        (rows-AreWide (captures p) (vars p) form all (length-captures p) there)
length-captures end null ds e = ap length (sym (some_inj.0 e))
length-captures end (pair _ _) ds e = cc
length-captures end (ident _) ds e = cc
length-captures end (atom _) ds e = cc
length-captures end (pvar _ _) ds e = cc
length-captures end (reppat _ _) ds e = cc
length-captures (const a) (atom b) ds e = ground arith
length-captures (const a) null ds e = cc
length-captures (const a) (pair _ _) ds e = cc
length-captures (const a) (ident _) ds e = cc
length-captures (const a) (pvar _ _) ds e = cc
length-captures (const a) (reppat _ _) ds e = cc
