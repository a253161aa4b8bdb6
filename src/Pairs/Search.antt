-- ===== src/Pairs/Search.antt =====
-- src/list.c: list-tail, list-ref, memq and assq against the lists of elements.
use sigscheme.Base.{
  ℕ, zero, suc, ◌≤◌, ◌<◌, ◌≡◌, refl, sym, inl, inr, Bool, true, false, not, ◌&&◌, ◌||◌, Option,
  none, some, List, [], ◌∷◌, arith, if◌then◌else◌, Bool-cases, length, get_elem?, drop,
}
use sigscheme.Base.Int.{pos}
use sigscheme.Object.{
  Obj, invalid, boolean, int, cons, Heap, car, is_null, is_cons, obj_eq, ok, raise, err_obj,
  Outcome,
}
use sigscheme.Object.Chain.{IsList}
use sigscheme.Pairs.Traverse.{
  list_tail_loop, p_list_ref, is_valid, Compare, by_eq, member_loop, p_memq, assoc_loop, p_assq,
}

list_tail_loop-IsList :
    (h : Heap) (xs : List Obj) (o tail : Obj) (k : ℕ)
    → IsList h o xs tail
    → is_cons tail ≡ false
    → k ≤ length xs
    → IsList h (list_tail_loop h o k) (drop k xs) tail
unfolding list_tail_loop
list_tail_loop-IsList h xs o tail zero l t le = l
list_tail_loop-IsList h [] o tail (suc k) l t le = absurd (omega arith)
list_tail_loop-IsList h (x ∷ xs) o tail (suc k) (p, e, a, l) t le =
    rw e (list_tail_loop-IsList h xs (h.pair p).cdr tail k l t (omega arith))

list_tail_loop-past :
    (h : Heap) (xs : List Obj) (o tail : Obj) (k : ℕ)
    → IsList h o xs tail
    → is_cons tail ≡ false
    → length xs < k
    → list_tail_loop h o k ≡ invalid
unfolding list_tail_loop
list_tail_loop-past h xs o tail zero l t lt = absurd (omega arith)
list_tail_loop-past h [] o tail (suc k) l t lt = rw (l, t) refl
list_tail_loop-past h (x ∷ xs) o tail (suc k) (p, e, a, l) t lt =
    rw e (list_tail_loop-past h xs (h.pair p).cdr tail k l t (omega arith))

-- What list-ref gives: the element, or the error.
abbrev pub element_or : Heap → ℕ → Option Obj → Outcome Obj
element_or h k none = raise (err_obj "out of range" (int (pos k))) h
element_or h k (some x) = ok x h

list_ref_tail :
    (h : Heap) (xs : List Obj) (o tail : Obj) (k n : ℕ)
    → IsList h o xs tail
    → is_cons tail ≡ false
    → is_valid tail ≡ true
    → element_or h n (get_elem? xs k) ≡ (
        if not (is_valid (list_tail_loop h o k)) || not (is_cons (list_tail_loop h o k))
        then raise (err_obj "out of range" (int (pos n))) h
        else ok (car h (list_tail_loop h o k)) h)
unfolding list_tail_loop
list_ref_tail h [] o tail zero n l t v = rw (l, t, v) refl
list_ref_tail h [] o tail (suc k) n l t v = rw (l, t) refl
list_ref_tail h (x ∷ xs) o tail zero n (p, e, a, l) t v = rw (e, a) refl
list_ref_tail h (x ∷ xs) o tail (suc k) n (p, e, a, l) t v =
    rw e (list_ref_tail h xs (h.pair p).cdr tail k n l t v)

-- list-ref gives the k-th element of a proper or dotted list and is out of range exactly when
-- there is none.
pub p_list_ref-get_elem? :
    (fuel : ℕ) (h : Heap) (lst : Obj) (xs : List Obj) (tail : Obj) (k : ℕ)
    → IsList h lst xs tail
    → is_cons tail ≡ false
    → is_valid tail ≡ true
    → p_list_ref fuel lst (int (pos k)) h ≡ element_or h k (get_elem? xs k)
unfolding p_list_ref
p_list_ref-get_elem? fuel h lst xs tail k l t v = sym (list_ref_tail h xs lst tail k k l t v)

-- The first element from which `test` holds on, with the list from there.
abbrev pub find_from : (Obj → Bool) → List Obj → Option (List Obj)
find_from test [] = none
find_from test (x ∷ xs) = if test x then some (x ∷ xs) else find_from test xs

-- What a search answers that found `ys`, the list from the element on, or nothing.
abbrev pub FoundAt : Heap → Obj → Outcome Obj → Option (List Obj) → Outcome Obj → Type 0
FoundAt h tail missing none r = r ≡ missing
FoundAt h tail missing (some ys) r = (rest : Obj) × (r ≡ ok rest h) × IsList h rest ys tail

-- Where the end of the list is reached: #f, or with the strict check an error at a dotted list.
abbrev pub not_found : Bool → Heap → Obj → Obj → Outcome Obj
not_found strict h tail lst =
    if strict && not (is_null tail)
    then raise (err_obj "proper list required but got" lst) h
    else ok (boolean false) h

member_loop-find_from :
    (strict : Bool) (cmp : Compare) (obj lst : Obj) (fuel : ℕ) (h : Heap) (xs : List Obj)
    (o tail : Obj)
    → IsList h o xs tail
    → is_cons tail ≡ false
    → length xs < fuel
    → FoundAt h tail
        (not_found strict h tail lst)
        (find_from (cmp h obj) xs)
        (member_loop strict cmp obj lst fuel o h)
unfolding member_loop
member_loop-find_from strict cmp obj lst zero h xs o tail l t f = absurd (omega arith)
member_loop-find_from strict cmp obj lst (suc fuel) h [] o tail l t f = rw (l, t) (ground arith)
member_loop-find_from strict cmp obj lst (suc fuel) h (x ∷ xs) o tail (p, e, a, l) t f =
    elim (Bool-cases (cmp h obj x)) [
      | inl hit ↦ rw (e, a, hit) (cons p, refl, (p, refl, a, l))
      | inr miss ↦
          rw (e, a, miss)
            (member_loop-find_from strict cmp obj lst fuel h xs (h.pair p).cdr tail l t
              (omega arith))
    ]

-- memq gives the list from the first element that is EQ to the object, and otherwise #f, where the
-- strict check demands a proper list. It needs as many rounds as there are elements.
pub p_memq-find_from :
    (strict : Bool) (fuel : ℕ) (h : Heap) (obj lst : Obj) (xs : List Obj) (tail : Obj)
    → IsList h lst xs tail
    → is_cons tail ≡ false
    → length xs < fuel
    → FoundAt h tail
        (not_found strict h tail lst)
        (find_from (obj_eq obj) xs)
        (p_memq strict fuel obj lst h)
unfolding p_memq
p_memq-find_from strict fuel h obj lst xs tail l t f =
    member_loop-find_from strict by_eq obj lst fuel h xs lst tail l t f

-- What assq makes of the entries: the first that is no pair is an error, the first whose car is
-- the object is the answer.
abbrev pub assoc_answer : Compare → Heap → Obj → Outcome Obj → List Obj → Outcome Obj
assoc_answer cmp h obj missing [] = missing
assoc_answer cmp h obj missing (x ∷ xs) =
    if is_cons x
    then (if cmp h (car h x) obj then ok x h else assoc_answer cmp h obj missing xs)
    else raise (err_obj "pair required but got" x) h

assoc_loop_lem :
    (strict : Bool) (cmp : Compare) (obj alist : Obj) (fuel : ℕ) (h : Heap) (xs : List Obj)
    (o tail : Obj)
    → IsList h o xs tail
    → is_cons tail ≡ false
    → length xs < fuel
    → assoc_loop strict cmp obj alist fuel o h
      ≡ assoc_answer cmp h obj (not_found strict h tail alist) xs
unfolding assoc_loop
assoc_loop_lem strict cmp obj alist zero h xs o tail l t f = absurd (omega arith)
assoc_loop_lem strict cmp obj alist (suc fuel) h [] o tail l t f = rw (l, t) (ground arith)
assoc_loop_lem strict cmp obj alist (suc fuel) h (x ∷ xs) o tail (p, e, a, l) t f =
    let ih = assoc_loop_lem strict cmp obj alist fuel h xs (h.pair p).cdr tail l t (omega arith) in
    rw (e, a) (ground (arith, ih))

-- assq gives the first entry whose car is EQ to the object, unless an entry before it is no pair,
-- which is an error; without such an entry the answer is #f, where the strict check demands a
-- proper list. It needs as many rounds as there are entries.
pub p_assq-assoc_answer :
    (strict : Bool) (fuel : ℕ) (h : Heap) (obj alist : Obj) (xs : List Obj) (tail : Obj)
    → IsList h alist xs tail
    → is_cons tail ≡ false
    → length xs < fuel
    → p_assq strict fuel obj alist h ≡ assoc_answer by_eq h obj (not_found strict h tail alist) xs
unfolding p_assq
p_assq-assoc_answer strict fuel h obj alist xs tail l t f =
    assoc_loop_lem strict by_eq obj alist fuel h xs alist tail l t f
