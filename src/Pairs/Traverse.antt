-- ===== src/Pairs/Traverse.antt =====
-- src/list.c: append, reverse, list-tail, list-ref, memq and assq with their kin. `strict` is
-- SCM_STRICT_ARGCHECK.
use sigscheme.Base.{ℕ, zero, suc, Bool, true, false, not, ◌||◌, Option, none, some, if◌then◌else◌}
use sigscheme.Base.Int.{ℤ, pos, negsuc}
use sigscheme.Object.{
  Obj, null, invalid, boolean, int, cons, Heap, car, cdr, set_cdr, make_cons, is_null, is_cons,
  obj_eq, err_obj, Proc, pure, ◌>>=◌, ◌>>◌, diverge, mk_cons, ok, raise, out_of_fuel,
}
use sigscheme.Pairs.{read_car, read_cdr, check_termination}

-- Where a queue adds next: the variable that holds its list, or the cdr of a pair.
pub data Ref : Type 0 where
  off_heap : Ref
  ref_cdr : ℕ → Ref

-- ScmQueue with the variable `ret` that it was pointed to.
pub record Queue : Type 0 where
  pub ret : Obj
  pub place : Ref

-- SCM_QUEUE_POINT_TO(q, ret), where ret is '().
abbrev pub empty_queue : Queue
empty_queue = record { ret = null; place = off_heap }

-- SCM_SET(q, v)
abbrev pub set_place : Queue → Obj → Heap → Queue × Heap
set_place q v h = elim q.place [
  | off_heap ↦ (record q { ret = v }, h)
  | ref_cdr p ↦ (q, set_cdr p v h)
]

-- SCM_QUEUE_ADD: a new pair at the place, and the place is its cdr.
unfoldable pub queue_add : Queue → Obj → Proc Queue
queue_add q dat h =
    let p = h.next in
    let (q', h') = set_place q (cons p) (make_cons dat null h) in
    ok (record q' { place = ref_cdr p }) h'

-- SCM_QUEUE_SLOPPY_APPEND, and the list that the queue has built.
unfoldable pub queue_append : Queue → Obj → Proc Obj
queue_append q lst h = let (q', h') = set_place q lst h in ok q'.ret h'

-- `FOR_EACH (elm, lst) SCM_QUEUE_ADD(q, elm)`: the queue, and what `lst` is at the end.
unfoldable pub append_elements : ℕ → Queue → Obj → Proc (Queue × Obj)
append_elements zero q lst = diverge
append_elements (suc fuel) q (cons p) = do
  elm ← read_car (cons p)
  rest ← read_cdr (cons p)
  q' ← queue_add q elm
  append_elements fuel q' rest
append_elements (suc fuel) q lst = pure (q, lst)

-- FOR_EACH_BUTLAST over the arguments; the last one is appended as it is.
unfoldable pub append_args : Bool → ℕ → ℕ → Queue → Obj → Proc Obj
append_args strict fuel zero q args = diverge
append_args strict fuel (suc rounds) q args = do
  lst ← read_car args
  rest ← read_cdr args
  elim (is_cons rest) [
    | true ↦ do
      (q', term) ← append_elements fuel q lst
      check_termination strict term rest
      append_args strict fuel rounds q' rest
    | false ↦ queue_append q lst
  ]

unfoldable pub p_append : Bool → ℕ → Obj → Proc Obj
p_append strict fuel args =
    if is_null args then pure null else append_args strict fuel fuel empty_queue args

-- `FOR_EACH (elm, rest) ret = CONS(elm, ret)`: the list, and what `rest` is at the end.
unfoldable pub reverse_loop : ℕ → Obj → Obj → Proc (Obj × Obj)
reverse_loop zero ret rest = diverge
reverse_loop (suc fuel) ret (cons p) = do
  elm ← read_car (cons p)
  rest ← read_cdr (cons p)
  ret' ← mk_cons elm ret
  reverse_loop fuel ret' rest
reverse_loop (suc fuel) ret rest = pure (ret, rest)

unfoldable pub p_reverse : Bool → ℕ → Obj → Proc Obj
p_reverse strict fuel lst = do
  (ret, rest) ← reverse_loop fuel null lst
  check_termination strict rest lst
  pure ret

-- The rounds of `while (k--)` for k of at least 0.
unfoldable pub list_tail_loop : Heap → Obj → ℕ → Obj
list_tail_loop h lst zero = lst
list_tail_loop h lst (suc k) =
    let rest = list_tail_loop h (cdr h lst) k in if is_cons lst then rest else invalid

-- For a negative k the loop ends only at an object that is no pair.
list_tail_negative : ℕ → Heap → Obj → Option Obj
list_tail_negative zero h lst = none
list_tail_negative (suc fuel) h lst =
    let rest = list_tail_negative fuel h (cdr h lst) in if is_cons lst then rest else some invalid

-- scm_list_tail
list_tail : ℕ → Heap → Obj → ℤ → Option Obj
unfolding list_tail_loop list_tail_negative
list_tail fuel h lst (pos k) = some (list_tail_loop h lst k)
list_tail fuel h lst (negsuc k) = list_tail_negative fuel h lst

-- VALIDP
abbrev pub is_valid : Obj → Bool
is_valid invalid = false
is_valid _ = true

-- The procedures take k as an object; ENSURE_INT refuses anything else.
unfoldable pub p_list_tail : ℕ → Obj → Obj → Proc Obj
unfolding list_tail
p_list_tail fuel lst (int k) h = elim (list_tail fuel h lst k) [
  | none ↦ out_of_fuel
  | some ret ↦ if is_valid ret then ok ret h else raise (err_obj "out of range" (int k)) h
]
p_list_tail fuel lst k h = raise (err_obj "integer required but got" k) h

unfoldable pub p_list_ref : ℕ → Obj → Obj → Proc Obj
unfolding list_tail
p_list_ref fuel lst (int k) h = elim (list_tail fuel h lst k) [
  | none ↦ out_of_fuel
  | some tail ↦
      if not (is_valid tail) || not (is_cons tail)
      then raise (err_obj "out of range" (int k)) h
      else ok (car h tail) h
]
p_list_ref fuel lst k h = raise (err_obj "integer required but got" k) h

-- The comparison of two objects in the heap: EQ, EQVP or EQUALP.
abbrev pub Compare : Type 0
Compare = Heap → Obj → Obj → Bool

abbrev pub by_eq : Compare
by_eq h a b = obj_eq a b

-- MEMBER_BODY: the rest of the list from the element on.
unfoldable pub member_loop : Bool → Compare → Obj → Obj → ℕ → Obj → Proc Obj
member_loop strict cmp obj lst zero rest h = out_of_fuel
member_loop strict cmp obj lst (suc fuel) rest h =
    let later = member_loop strict cmp obj lst fuel (cdr h rest) h in
    let end = (check_termination strict rest lst >> pure (boolean false)) h in
    if is_cons rest then (if cmp h obj (car h rest) then ok rest h else later) else end

unfoldable pub p_memq : Bool → ℕ → Obj → Obj → Proc Obj
unfolding member_loop
p_memq strict fuel obj lst = member_loop strict by_eq obj lst fuel lst

-- EQVP is EQ where numbers and characters are immediate.
unfoldable pub p_memv : Bool → ℕ → Obj → Obj → Proc Obj
unfolding member_loop
p_memv strict fuel obj lst = member_loop strict by_eq obj lst fuel lst

-- `equalp` is EQUALP.
unfoldable pub p_member : Compare → Bool → ℕ → Obj → Obj → Proc Obj
unfolding member_loop
p_member equalp strict fuel obj lst = member_loop strict equalp obj lst fuel lst

-- ASSOC_BODY: the first pair of the list whose car is the object.
unfoldable pub assoc_loop : Bool → Compare → Obj → Obj → ℕ → Obj → Proc Obj
assoc_loop strict cmp obj alist zero rest h = out_of_fuel
assoc_loop strict cmp obj alist (suc fuel) rest h =
    let entry = car h rest in
    let later = assoc_loop strict cmp obj alist fuel (cdr h rest) h in
    let end = (check_termination strict rest alist >> pure (boolean false)) h in
    if is_cons rest
    then (if not (is_cons entry)
        then raise (err_obj "pair required but got" entry) h
        else if cmp h (car h entry) obj
        then ok entry h
        else later)
    else end

unfoldable pub p_assq : Bool → ℕ → Obj → Obj → Proc Obj
unfolding assoc_loop
p_assq strict fuel obj alist = assoc_loop strict by_eq obj alist fuel alist

unfoldable pub p_assv : Bool → ℕ → Obj → Obj → Proc Obj
unfolding assoc_loop
p_assv strict fuel obj alist = assoc_loop strict by_eq obj alist fuel alist

unfoldable pub p_assoc : Compare → Bool → ℕ → Obj → Obj → Proc Obj
unfolding assoc_loop
p_assoc equalp strict fuel obj alist = assoc_loop strict equalp obj alist fuel alist
