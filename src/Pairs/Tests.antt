-- ===== src/Pairs/Tests.antt =====
-- Runs of the list procedures, and their theorems at concrete heaps.
use sigscheme.Base.{ℕ, zero, suc, ◌+◌, ◌≡◌, refl, ap, true, false, some, [], ◌∷◌, arith, get_or}
use sigscheme.Base.Int.{pos, negsuc}
use sigscheme.Object.{
  boolean, undef, make_cons, set_car, set_cdr, raise, err_obj, obj_eq, Obj, null, int, symbol, cons,
  Pair, Heap, unbound, is_cons, ok,
}
use sigscheme.Object.Chain.{IsListIn, SameBelow, IsList, nth_cdr}
use sigscheme.Pairs.{
  p_nullp, p_list, pairp, p_cons, p_set_car, p_set_cdr, p_caar, p_cadr, p_cdar, p_cddr, p_caddr,
  p_cdddr, p_listp, scm_length, encode_circular, p_length,
}
use sigscheme.Pairs.Length.{scm_length-EndsAfter, p_length-IsList}
use sigscheme.Pairs.Circular.{Circular, scm_length-Circular}
use sigscheme.Pairs.Reverse.{p_reverse-reverse}
use sigscheme.Pairs.Append.{p_append-Appends}
use sigscheme.Pairs.Search.{p_assq-assoc_answer}
use sigscheme.Pairs.Traverse.{
  p_list_tail, p_memv, p_member, p_assv, p_assoc, p_reverse, p_append, p_assq,
}

abbrev pair : Obj → Obj → Pair
pair a d = record { car = a; cdr = d; is_mutable = true }

abbrev a : Obj
a = symbol 0

abbrev b : Obj
b = symbol 1

-- 0 is (a b), 2 is (b . a), 3 is the circle #0=(a b . #0#), 5 is (#0 #2) for append, 7 is ((a . b)).
abbrev cells : ℕ → Pair
cells p =
    get_or
      (pair a (cons 1)
        ∷ pair b null
        ∷ pair b a
        ∷ pair a (cons 4)
        ∷ pair b (cons 3)
        ∷ pair (cons 0) (cons 6)
        ∷ pair (cons 2) null
        ∷ pair (cons 8) null
        ∷ pair a b
        ∷ [])
      p (pair null null)

abbrev heap : Heap
heap = record {
  next = 9;
  pair = cells;
  far = λ _. record { sym = null; depth = 0 };
  vcell = λ _. unbound;
}

scm_length_runs : scm_length 3 heap (cons 3) ≡ some encode_circular
unfolding scm_length
scm_length_runs = refl

scm_length-EndsAfter_example : scm_length 2 heap (cons 2) ≡ some (negsuc 1)
scm_length-EndsAfter_example =
    scm_length-EndsAfter 2 heap (cons 2) 1 a (refl, (refl, refl)) (omega arith)

ab-IsList : IsList heap (cons 0) (a ∷ b ∷ []) null
ab-IsList = (0, refl, refl, (1, refl, refl, refl))

ab-IsListIn : IsListIn 9 heap (cons 0) (a ∷ b ∷ []) null
ab-IsListIn = (0, refl, omega arith, refl, (1, refl, omega arith, refl, refl))

p_length-IsList_example : p_length false 3 (cons 0) heap ≡ ok (int (pos 2)) heap
p_length-IsList_example =
    p_length-IsList false 3 heap (cons 0) (a ∷ b ∷ []) null ab-IsList refl (omega arith)
      (omega arith)

mutual
  circle_from_a : (n : ℕ) → is_cons (nth_cdr heap (cons 3) n) ≡ true
  circle_from_a zero = refl
  circle_from_a (suc n) = circle_from_b n

  circle_from_b : (n : ℕ) → is_cons (nth_cdr heap (cons 4) n) ≡ true
  circle_from_b zero = refl
  circle_from_b (suc n) = circle_from_a n

circle-Circular : Circular heap (cons 3) 0 2
circle-Circular n le =
    let twice : n + 2 ≡ suc (suc n) = omega arith in ap (nth_cdr heap (cons 3)) twice

scm_length-Circular_example : scm_length 3 heap (cons 3) ≡ some encode_circular
scm_length-Circular_example =
    scm_length-Circular heap (cons 3) 0 2 3 circle_from_a (omega arith) circle-Circular
      (omega arith)

p_reverse-reverse_example :
    (ret : Obj) × (g : Heap) × (p_reverse true 3 (cons 0) heap ≡ ok ret g)
    × IsListIn g.next g ret (b ∷ a ∷ []) null
    × SameBelow 9 heap g
p_reverse-reverse_example =
    p_reverse-reverse true 3 heap (cons 0) (a ∷ b ∷ []) null ab-IsListIn refl (omega arith)

p_append-Appends_example :
    (ret : Obj) × (g : Heap) × (p_append true 5 (cons 5) heap ≡ ok ret g)
    × IsListIn g.next g ret (a ∷ b ∷ []) (cons 2)
    × SameBelow 9 heap g
p_append-Appends_example =
    p_append-Appends true 5 heap (cons 5) (cons 0 ∷ cons 2 ∷ []) (a ∷ b ∷ []) (cons 2)
      (5, refl, omega arith, refl, (6, refl, omega arith, refl, refl))
      (a ∷ b ∷ [], [], ab-IsListIn, refl, (refl, refl)) (omega arith)

p_assq-assoc_answer_example : p_assq true 2 a (cons 7) heap ≡ ok (cons 8) heap
p_assq-assoc_answer_example =
    p_assq-assoc_answer true 2 heap a (cons 7) (cons 8 ∷ []) null (7, refl, refl, refl) refl
      (omega arith)

pairs_run :
    (pairp (cons 0) ≡ boolean true)
    × (p_nullp null ≡ boolean true)
    × (p_nullp (p_list (cons 0)) ≡ boolean false)
    × (p_cons a b heap ≡ ok (cons 9) (make_cons a b heap))
    × (p_set_car (cons 0) b heap ≡ ok undef (set_car 0 b heap))
    × (p_set_cdr (cons 0) b heap ≡ ok undef (set_cdr 0 b heap))
    × (p_caar (cons 5) heap ≡ ok a heap)
    × (p_cadr (cons 0) heap ≡ ok b heap)
    × (p_cdar (cons 5) heap ≡ ok (cons 1) heap)
    × (p_cddr (cons 0) heap ≡ ok null heap)
    × (p_caddr (cons 0) heap ≡ raise (err_obj "pair required but got" null) heap)
    × (p_cdddr (cons 3) heap ≡ ok (cons 4) heap)
    × (p_listp 3 (cons 2) heap ≡ ok (boolean false) heap)
unfolding pairp p_nullp p_list p_cons p_set_car p_set_cdr p_caar p_cadr p_cdar p_cddr p_caddr
    p_cdddr p_listp scm_length
pairs_run = (refl, refl, refl, refl, refl, refl, refl, refl, refl, refl, refl, refl, refl)

searches_run :
    (p_list_tail 3 (cons 0) (int (pos 1)) heap ≡ ok (cons 1) heap)
    × (p_memv true 3 b (cons 0) heap ≡ ok (cons 1) heap)
    × (p_member (λ h. obj_eq) true 3 b (cons 0) heap ≡ ok (cons 1) heap)
    × (p_assv true 2 a (cons 7) heap ≡ ok (cons 8) heap)
    × (p_assoc (λ h. obj_eq) true 2 b (cons 7) heap ≡ ok (boolean false) heap)
unfolding p_list_tail p_memv p_member p_assv p_assoc
searches_run = (refl, refl, refl, refl, refl)
