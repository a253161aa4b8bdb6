-- ===== src/Pairs/Append.antt =====
-- src/list.c: append builds the list that it should, shares the last list, and leaves every older
-- pair alone.
use mathlib.Core.List.{append_assoc, append-nil}
use sigscheme.Base.{
  ℕ, zero, suc, ◌+◌, ◌≤◌, ◌<◌, ◌≡◌, refl, sym, ap, subst, ◌∙◌, Bool, true, false, List, [], ◌∷◌,
  ◌++◌, arith, length, length-append,
}
use sigscheme.Object.{Obj, null, cons, Heap, is_cons, ok, ◌>>=◌}
use sigscheme.Object.Chain.{IsListIn, IsListIn-frame, SameBelow, SameBelow-trans}
use sigscheme.Pairs.Traverse.{
  Queue, empty_queue, queue_append, append_elements, append_args, p_append,
}
use sigscheme.Pairs.Queue.{Holds, holds_none, append_elements-Added, queue_append-Holds}

-- The arguments of append: lists of objects, of which the last may be anything, with the elements
-- of all but the last in a row.
abbrev pub Appends : ℕ → Heap → List Obj → List Obj → Obj → Type 0
Appends b h [] elements last = ⊥
Appends b h (arg ∷ []) elements last = (elements ≡ []) × (arg ≡ last)
Appends b h (arg ∷ args) elements last =
    (xs : List Obj) × (rest : List Obj) × IsListIn b h arg xs null
    × (elements ≡ xs ++ rest)
    × Appends b h args rest last

Appends-frame :
    (b : ℕ) (h g : Heap) (args elements : List Obj) (last : Obj)
    → Appends b h args elements last
    → SameBelow b h g
    → Appends b g args elements last
Appends-frame b h g [] elements last a same = a
Appends-frame b h g (arg ∷ []) elements last a same = a
Appends-frame b h g (arg ∷ next ∷ args) elements last (xs, rest, l, e, a) same = (
  xs,
  rest,
  IsListIn-frame b b h g xs arg null l same (omega arith),
  e,
  Appends-frame b h g (next ∷ args) rest last a same,
)

append_args_last :
    (strict : Bool) (fuel rounds : ℕ) (h : Heap) (q : Queue) (p : ℕ)
    → is_cons (h.pair p).cdr ≡ false
    → append_args strict fuel (suc rounds) q (cons p) h ≡ queue_append q (h.pair p).car h
unfolding append_args
append_args_last strict fuel rounds h q p c = rw (c, ◌>>=◌)

append_args_more :
    (strict : Bool) (fuel rounds : ℕ) (h k : Heap) (q q₁ : Queue) (p : ℕ)
    → is_cons (h.pair p).cdr ≡ true
    → append_elements fuel q (h.pair p).car h ≡ ok (q₁, null) k
    → append_args strict fuel (suc rounds) q (cons p) h
      ≡ append_args strict fuel rounds q₁ (h.pair p).cdr k
unfolding append_args
append_args_more true fuel rounds h k q q₁ p c run = rw (c, run, ◌>>=◌)
append_args_more false fuel rounds h k q q₁ p c run = rw (c, run, ◌>>=◌)

append_args-Appends :
    (strict : Bool) (fuel rounds lo : ℕ) (h : Heap) (q : Queue) (zs args elements : List Obj)
    (o last : Obj)
    → Holds lo h q zs
    → IsListIn lo h o args null
    → Appends lo h args elements last
    → lo ≤ h.next
    → length elements < fuel
    → length args ≤ rounds
    → (ret : Obj) × (g : Heap) × (append_args strict fuel rounds q o h ≡ ok ret g)
      × IsListIn g.next g ret (zs ++ elements) last
      × SameBelow lo h g
append_args-Appends strict fuel zero lo h q zs [] elements o last hold l a le f r = absurd a
append_args-Appends strict fuel zero lo h q zs (arg ∷ args) elements o last hold l a le f r =
    absurd (omega arith)
append_args-Appends strict fuel (suc rounds) lo h q zs [] elements o last hold l a le f r = absurd a
append_args-Appends strict fuel (suc rounds) lo h q zs (arg ∷ []) elements o last hold
      (p, e, lt, c, d) (n, same) le f r =
    let (ret, g, run, list, kept, _) = queue_append-Holds lo h q zs (h.pair p).car hold in
    (
      ret,
      g,
      rw e (append_args_last strict fuel rounds h q p (ap is_cons d) ∙ run),
      subst (λ es. IsListIn g.next g ret es last) (sym (append-nil zs) ∙ ap (λ y. zs ++ y) (sym n))
          (subst (λ t. IsListIn g.next g ret zs t) (c ∙ same) list),
      kept,
    )
append_args-Appends strict fuel (suc rounds) lo h q zs (arg ∷ next ∷ args) elements o last hold
      (p, e, lt, c, d) (xs, rest, la, es, a) le f r =
    let total : length elements ≡ length xs + length rest = ap length es ∙ length-append xs rest in
    let (q₁, k, run, added) =
      append_elements-Added fuel lo h q zs xs (h.pair p).car null hold (rw c la) refl le
        (omega arith) in
    let (ret, g, run', list, kept) =
      append_args-Appends strict fuel rounds lo k q₁ (zs ++ xs) (next ∷ args) rest (h.pair p).cdr
        last added.holds
        (IsListIn-frame lo lo h k (next ∷ args) (h.pair p).cdr null d added.same (omega arith))
        (Appends-frame lo h k (next ∷ args) rest last a added.same) (omega (arith, added.grows))
        (omega arith) (omega arith) in
    (
      ret,
      g,
      rw e (append_args_more strict fuel rounds h k q q₁ p (ap is_cons d.1) run ∙ run'),
      subst (λ t. IsListIn g.next g ret t last)
          (append_assoc zs xs rest ∙ ap (λ y. zs ++ y) (sym es)) list,
      SameBelow-trans lo h k g added.same kept,
    )

p_append_run :
    (strict : Bool) (fuel : ℕ) (h : Heap) (o : Obj) (p : ℕ)
    → o ≡ cons p
    → p_append strict fuel o h ≡ append_args strict fuel fuel empty_queue o h
unfolding p_append
p_append_run strict fuel h o p e = rw e refl

-- append of proper lists before its last argument gives a list of all their elements in order that
-- ends in the last argument itself, whatever that is, and changes no older pair. It needs as many
-- rounds as there are elements and arguments.
pub p_append-Appends :
    (strict : Bool) (fuel : ℕ) (h : Heap) (o : Obj) (args elements : List Obj) (last : Obj)
    → IsListIn h.next h o args null
    → Appends h.next h args elements last
    → length elements + length args < fuel
    → (ret : Obj) × (g : Heap) × (p_append strict fuel o h ≡ ok ret g)
      × IsListIn g.next g ret elements last
      × SameBelow h.next h g
p_append-Appends strict fuel h o [] elements last l a f = absurd a
p_append-Appends strict fuel h o (arg ∷ args) elements last l a f =
    let (ret, g, run, list, same) =
      append_args-Appends strict fuel fuel h.next h empty_queue [] (arg ∷ args) elements o last
        (holds_none refl refl) l a (omega arith) (omega arith) (omega arith) in
    (ret, g, p_append_run strict fuel h o l.0 l.1 ∙ run, list, same)
