-- ===== src/Continuation.antt =====
-- src/continuation.c: the dynamic extent and the stack of nested continuations. The procedures that
-- are called, and what they do to the rest of the program, are arguments.
pub mod Extent
pub mod Throw
pub mod Wind
mod Tests
use sigscheme.Base.{
  ℕ, zero, suc, Bool, true, false, not, ◌&&◌, Option, none, some, List, [], ◌∷◌, ◌==◌,
  if◌then◌else◌,
}
use sigscheme.Object.{Obj, update}

-- A pair of the list of a dynamic extent, known by `cell`, with its MAKE_DYNEXT_FRAME.
pub record DynextFrame : Type 0 where
  pub cell : ℕ
  pub before : Obj
  pub after : Obj

-- l_current_dynamic_extent, l_continuation_stack, and of each continuation the dyn_ext of its frame,
-- where this is valid. `next` is the cell of the next pair, `world` the rest of the program.
pub record Extents (W : Type 0) : Type 0 where
  pub current : List DynextFrame
  pub next : ℕ
  pub stack : List ℕ
  pub frame : ℕ → Option (List DynextFrame)
  pub world : W

-- scm_call of a procedure without arguments that returns.
abbrev pub Call : Type 0 → Type 0
Call W = Obj → Extents W → Extents W

-- EQ of two extents
abbrev pub same_extent : List DynextFrame → List DynextFrame → Bool
same_extent [] [] = true
same_extent (f ∷ _) (g ∷ _) = f.cell == g.cell
same_extent _ _ = false

abbrev pub is_outermost : List DynextFrame → Bool
is_outermost [] = true
is_outermost (_ ∷ _) = false

pub wind_onto_dynamic_extent : {W : Type 0} → Obj → Obj → Extents W → Extents W
wind_onto_dynamic_extent before after s = record s {
  current = (record { cell = s.next; before = before; after = after }) ∷ s.current;
  next = suc s.next;
}

-- `none` is the error on a corrupted extent.
abbrev pub unwind_from : {W : Type 0} → List DynextFrame → Extents W → Option (Extents W)
unwind_from [] s = none
unwind_from (_ ∷ rest) s = some (record s { current = rest })

pub unwind_dynamic_extent : {W : Type 0} → Extents W → Option (Extents W)
unwind_dynamic_extent s = unwind_from s.current s

-- The frames from the current extent to `unwound`, the outermost one first.
pub path_loop : List DynextFrame → List DynextFrame → List DynextFrame → List DynextFrame
path_loop current [] retpath = retpath
path_loop current (frame ∷ outer) retpath =
    if same_extent (frame ∷ outer) current
    then retpath
    else path_loop current outer (frame ∷ retpath)

pub call_befores : {W : Type 0} → Call W → List DynextFrame → Extents W → Extents W
call_befores call [] s = s
call_befores call (frame ∷ retpath) s = call_befores call retpath (call frame.before s)

pub enter_dynamic_extent : {W : Type 0} → Call W → List DynextFrame → Extents W → Extents W
unfolding path_loop call_befores
enter_dynamic_extent call dest s = call_befores call (path_loop s.current dest []) s

-- POP of the current extent, and the call of its frame's `after`.
abbrev pub pop_frame : {W : Type 0} → Call W → List DynextFrame → Extents W → Extents W
pop_frame call [] s = s
pop_frame call (frame ∷ outer) s = call frame.after (record s { current = outer })

-- `none` stands for running out of fuel.
pub exit_dynamic_extent :
    {W : Type 0} → Call W → ℕ → List DynextFrame → Extents W → Option (Extents W)
exit_dynamic_extent call zero dest s = none
exit_dynamic_extent call (suc fuel) dest s =
    let rest = exit_dynamic_extent call fuel dest (pop_frame call s.current s) in
    if not (is_outermost s.current) && not (same_extent s.current dest) then rest else some s

pub scm_enter_dynamic_extent : {W : Type 0} → Call W → List DynextFrame → Extents W → Extents W
unfolding enter_dynamic_extent
scm_enter_dynamic_extent call dest s = record (enter_dynamic_extent call dest s) { current = dest }

-- What the thunk returns is part of the world.
pub dynamic_wind : {W : Type 0} → Call W → Obj → Obj → Obj → Extents W → Option (Extents W)
unfolding wind_onto_dynamic_extent unwind_dynamic_extent
dynamic_wind call before thunk after s =
    elim (unwind_dynamic_extent
      (call thunk (wind_onto_dynamic_extent before after (call before s)))) [
        | none ↦ none
        | some unwound ↦ some (call after unwound)
      ]

pub continuation_stack_push : {W : Type 0} → ℕ → Extents W → Extents W
continuation_stack_push cont s = record s { stack = cont ∷ s.stack }

-- continuation_stack_unwind: whether `dest_cont` was found, and the state with all continuations
-- down to it taken off and without their frames.
pub unwind_stack : {W : Type 0} → ℕ → List ℕ → Extents W → Bool × Extents W
unwind_stack dest_cont [] s = (false, record s { stack = [] })
unwind_stack dest_cont (cont ∷ rest) s =
    let expired = record s { stack = rest; frame = update s.frame cont none } in
    if dest_cont == cont then (true, expired) else unwind_stack dest_cont rest expired

pub continuation_stack_unwind : {W : Type 0} → ℕ → Extents W → Bool × Extents W
unfolding unwind_stack
continuation_stack_unwind dest_cont s = unwind_stack dest_cont s.stack s

-- Where scm_call_continuation comes to: LONGJMP to the call of call/cc with this dyn_ext, the error
-- on an expired continuation, or out of fuel.
pub data Jump (W : Type 0) : Type 0 where
  long_jump : List DynextFrame → Extents W → Jump W
  expired_continuation : Extents W → Jump W
  no_fuel : Jump W

abbrev pub jump_to : {W : Type 0} → List DynextFrame → Option (Extents W) → Jump W
jump_to dyn_ext none = no_fuel
jump_to dyn_ext (some s) = long_jump dyn_ext s

abbrev pub if_nested : {W : Type 0} → Call W → ℕ → List DynextFrame → Bool × Extents W → Jump W
unfolding exit_dynamic_extent
if_nested call fuel dyn_ext (true, s) = jump_to dyn_ext (exit_dynamic_extent call fuel dyn_ext s)
if_nested call fuel dyn_ext (false, s) = expired_continuation s

pub call_continuation : {W : Type 0} → Call W → ℕ → ℕ → Extents W → Jump W
unfolding continuation_stack_unwind
call_continuation call fuel cont s = elim (s.frame cont) [
  | none ↦ expired_continuation s
  | some dyn_ext ↦ if_nested call fuel dyn_ext (continuation_stack_unwind cont s)
]

-- What scm_call_with_current_continuation does when it is jumped back to.
abbrev pub jump_back : {W : Type 0} → Call W → Jump W → Jump W
unfolding enter_dynamic_extent
jump_back call (long_jump dyn_ext s) = long_jump dyn_ext (enter_dynamic_extent call dyn_ext s)
jump_back call jump = jump
