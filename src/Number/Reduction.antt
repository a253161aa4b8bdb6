-- ===== src/Number/Reduction.antt =====
-- src/number.c and src/eval.c: the reduction operators on fixnums, and the reduction of their arguments.
use sigscheme.Base.{ℕ, Bool, true, false, not, List, [], ◌∷◌, if◌then◌else◌}
use sigscheme.Base.Int.{ℤ, pos, int_eq, ◌+ℤ◌, ◌-ℤ◌, ltb_ℤ}
use sigscheme.Object.{Obj, invalid, int, boolean, err}
use sigscheme.Number.{
  Result, value, error, not_reached, ◌>>=◌, fixnum_overflow, int_min, int_max, positive, negative,
  int_multiply, int_quotient, ensure_int, compare_numbers,
}

-- enum ScmReductionState. `reduce_0` and `reduce_1` say that there was no argument or one.
pub data ReductionState : Type 0 where
  reduce_0 reduce_1 partway last stop : ReductionState

-- A reduction operator gives its result and the state that it leaves.
abbrev pub Operator : Type 0
Operator = Obj → Obj → ReductionState → Result (Obj × ReductionState)

abbrev pub operand : Obj → ReductionState → ℤ → Result ℤ
operand left partway start = ensure_int left
operand left last start = ensure_int left
operand left _ start = value start

-- An operator that combines the integer of `left`, or `start` where there is one argument, with `right`.
abbrev pub combine : (ℤ → ℤ → Result ℤ) → ℤ → Operator
combine f start left right state =
    operand left state start >>= λ l. ensure_int right >>= λ r. f l r >>= λ n. value (int n, state)

abbrev pub add_ints : ℕ → ℤ → ℤ → Result ℤ
add_ints max l r =
    if (if positive r then ltb_ℤ (int_max max -ℤ r) l else ltb_ℤ l (int_min max -ℤ r))
    then error fixnum_overflow
    else value (l +ℤ r)

unfoldable pub p_add : ℕ → Operator
unfolding ◌+ℤ◌ ◌-ℤ◌
p_add max left right reduce_0 = value (int (pos 0), reduce_0)
p_add max left right stop = not_reached
p_add max left right state = combine (add_ints max) (pos 0) left right state

unfoldable pub p_multiply : ℕ → Operator
unfolding int_multiply
p_multiply max left right reduce_0 = value (int (pos 1), reduce_0)
p_multiply max left right stop = not_reached
p_multiply max left right state = combine (int_multiply max) (pos 1) left right state

abbrev pub subtract_ints : ℕ → ℤ → ℤ → Result ℤ
subtract_ints max l r =
    if (if negative r then ltb_ℤ (int_max max +ℤ r) l else ltb_ℤ l (int_min max +ℤ r))
    then error fixnum_overflow
    else value (l -ℤ r)

abbrev pub at_least_1 : Result (Obj × ReductionState)
at_least_1 = error (err "at least 1 argument required")

unfoldable pub p_subtract : ℕ → Operator
unfolding ◌+ℤ◌ ◌-ℤ◌
p_subtract max left right reduce_0 = at_least_1
p_subtract max left right stop = not_reached
p_subtract max left right state = combine (subtract_ints max) (pos 0) left right state

unfoldable pub p_divide : ℕ → Operator
unfolding int_quotient
p_divide max left right reduce_0 = at_least_1
p_divide max left right stop = not_reached
p_divide max left right state = combine (int_quotient max) (pos 1) left right state

-- COMPARATOR_BODY: `op` is the test of the result of compare_numbers against 0.
abbrev pub compare_step : (ℤ → Bool) → Obj → Obj → ReductionState → Result (Obj × ReductionState)
compare_step op left right state = compare_numbers left right >>= λ cmp.
    if op cmp
    then value (elim state [ last ↦ boolean true | _ ↦ right ], state)
    else value (boolean false, stop)

abbrev pub comparator : (ℤ → Bool) → Operator
comparator op left right reduce_0 = error (err "at least 2 arguments required")
comparator op left right reduce_1 = error (err "at least 2 arguments required")
comparator op left right partway = compare_step op left right partway
comparator op left right last = compare_step op left right last
comparator op left right stop = not_reached

unfoldable pub p_equal : Operator
unfolding compare_numbers
p_equal = comparator (λ cmp. int_eq cmp (pos 0))

unfoldable pub p_less : Operator
unfolding compare_numbers
p_less = comparator (λ cmp. ltb_ℤ cmp (pos 0))

unfoldable pub p_less_equal : Operator
unfolding compare_numbers
p_less_equal = comparator (λ cmp. not (ltb_ℤ (pos 0) cmp))

unfoldable pub p_greater : Operator
unfolding compare_numbers
p_greater = comparator (λ cmp. ltb_ℤ (pos 0) cmp)

unfoldable pub p_greater_equal : Operator
unfolding compare_numbers
p_greater_equal = comparator (λ cmp. not (ltb_ℤ cmp (pos 0)))

unfoldable pub p_max : Operator
unfolding compare_numbers
p_max left right reduce_0 = at_least_1
p_max left right state =
    compare_numbers left right >>= λ cmp. value (if ltb_ℤ (pos 0) cmp then left else right, state)

unfoldable pub p_min : Operator
unfolding compare_numbers
p_min left right reduce_0 = at_least_1
p_min left right state =
    compare_numbers left right >>= λ cmp. value (if ltb_ℤ cmp (pos 0) then left else right, state)

-- The loop of reduce over all arguments but the last, and the last call.
unfoldable pub reduce_rest : Operator → Obj → Obj → List Obj → Result Obj
reduce_rest func left right [] = func left right last >>= λ end. value end.0
reduce_rest func left right (next ∷ args) = func left right partway >>= λ step. elim step.1 [
  | stop ↦ value step.0
  | _ ↦ reduce_rest func step.0 next args
]

-- reduce, of arguments that are evaluated and a proper list.
unfoldable pub reduce : Operator → List Obj → Result Obj
unfolding reduce_rest
reduce func [] = func invalid invalid reduce_0 >>= λ end. value end.0
reduce func (left ∷ []) = func left left reduce_1 >>= λ end. value end.0
reduce func (left ∷ right ∷ args) = reduce_rest func left right args
