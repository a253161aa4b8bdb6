-- ===== src/Pairs/Reverse.antt =====
-- src/list.c: reverse builds the list that it should, and leaves every older pair alone.
use mathlib.Core.List.{reverse_aux, reverse}
use sigscheme.Base.{
  ℕ, zero, suc, ◌≤◌, ◌<◌, ◌≡◌, refl, subst, Bool, false, not, ◌&&◌, List, [], ◌∷◌, arith,
  if◌then◌else◌, length,
}
use sigscheme.Object.{Obj, null, cons, Heap, make_cons, is_null, is_cons, ok, raise, err_obj}
use sigscheme.Object.Chain.{
  IsListIn, IsListIn-frame, IsListIn-make_cons, SameBelow, SameBelow-trans, make_cons-SameBelow,
}
use sigscheme.Pairs.Traverse.{reverse_loop, p_reverse}

-- What the loop of reverse gives: the elements so far in front, and the end of the list.
record Reversed (b : ℕ) (h : Heap) (xs : List Obj) (ret : Obj) (g : Heap) : Type 0 where
  list : IsListIn g.next g ret xs null
  same : SameBelow b h g

reverse_loop_end :
    (fuel : ℕ) (h : Heap) (ret rest : Obj)
    → is_cons rest ≡ false
    → reverse_loop (suc fuel) ret rest h ≡ ok (ret, rest) h
unfolding reverse_loop
reverse_loop_end fuel h ret (cons p) c = cc
reverse_loop_end fuel h ret _ c = refl

reverse_loop-Reversed :
    (fuel b : ℕ) (h : Heap) (xs ys : List Obj) (ret rest tail : Obj)
    → IsListIn b h rest xs tail
    → is_cons tail ≡ false
    → IsListIn h.next h ret ys null
    → b ≤ h.next
    → length xs < fuel
    → (ret' : Obj) × (g : Heap) × (reverse_loop fuel ret rest h ≡ ok (ret', tail) g)
      × Reversed b h (reverse_aux xs ys) ret' g
unfolding reverse_loop
reverse_loop-Reversed zero b h xs ys ret rest tail l t r le f = absurd (omega arith)
reverse_loop-Reversed (suc fuel) b h [] ys ret rest tail l t r le f =
    (ret, h, rw l (reverse_loop_end fuel h ret tail t), record { list = r; same = λ p lt. refl })
reverse_loop-Reversed (suc fuel) b h (x ∷ xs) ys ret rest tail (p, e, lt, a, l) t r le f =
    let a' = (h.pair p).car in
    let g = make_cons a' ret h in
    let same : SameBelow b h g = λ q q_lt. make_cons-SameBelow a' ret h q (omega arith) in
    let (ret', k, run, rev) =
      reverse_loop-Reversed fuel b g xs (a' ∷ ys) (cons h.next) (h.pair p).cdr tail
        (IsListIn-frame b b h g xs (h.pair p).cdr tail l same (omega arith)) t
        (IsListIn-make_cons h ys a' ret null r) (omega arith) (omega arith) in
    (
      ret',
      k,
      rw e run,
      record {
        list = subst (λ z. IsListIn k.next k ret' (reverse_aux xs (z ∷ ys)) null) a rev.list;
        same = SameBelow-trans b h g k same rev.same;
      },
    )

p_reverse_run :
    (strict : Bool) (fuel : ℕ) (h g : Heap) (lst ret tail : Obj)
    → reverse_loop fuel null lst h ≡ ok (ret, tail) g
    → p_reverse strict fuel lst h ≡ (
        if strict && not (is_null tail)
        then raise (err_obj "proper list required but got" lst) g
        else ok ret g)
unfolding p_reverse
p_reverse_run strict fuel h g lst ret tail run = ground (arith, run)

-- reverse makes a new list of the same elements in the opposite order, and changes no older pair.
-- At a dotted list the strict check raises an error; without it the elements up to the end count.
pub p_reverse-reverse :
    (strict : Bool) (fuel : ℕ) (h : Heap) (lst : Obj) (xs : List Obj) (tail : Obj)
    → IsListIn h.next h lst xs tail
    → is_cons tail ≡ false
    → length xs < fuel
    → (ret : Obj) × (g : Heap) × (p_reverse strict fuel lst h ≡ (
        if strict && not (is_null tail)
        then raise (err_obj "proper list required but got" lst) g
        else ok ret g))
      × IsListIn g.next g ret (reverse xs) null
      × SameBelow h.next h g
p_reverse-reverse strict fuel h lst xs tail l t f =
    let (ret, g, run, rev) =
      reverse_loop-Reversed fuel h.next h xs [] null lst tail l t refl (omega arith) f in
    (ret, g, p_reverse_run strict fuel h g lst ret tail run, rev.list, rev.same)
