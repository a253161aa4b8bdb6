-- ===== src/Continuation/Tests.antt =====
-- The theorems on continuations at concrete states, and runs of the operations. The world is the list
-- of the procedures that were called.
use sigscheme.Base.{ℕ, ◌+◌, ◌*◌, ◌≡◌, refl, some, List, [], ◌∷◌, arith, ◌==◌, if◌then◌else◌}
use sigscheme.Object.{Obj, symbol}
use sigscheme.Continuation.{
  DynextFrame, Extents, Call, long_jump, dynamic_wind, scm_enter_dynamic_extent,
  continuation_stack_push, call_continuation, jump_back, exit_dynamic_extent,
}
use sigscheme.Continuation.Extent.{Descending, call_afters}
use sigscheme.Continuation.Throw.{Expired, call_continuation-leaves}
use sigscheme.Continuation.Wind.{dynamic_wind-Balanced}

abbrev pub logged : Call (List Obj)
logged proc s = record s { world = proc ∷ s.world }

abbrev pub frame_of : ℕ → DynextFrame
frame_of cell = record { cell = cell; before = symbol (2 * cell); after = symbol (2 * cell + 1) }

-- Three nested frames, with a continuation of the outermost one and one of the innermost one.
abbrev pub nested : Extents (List Obj)
nested = record {
  current = frame_of 2 ∷ frame_of 1 ∷ frame_of 0 ∷ [];
  next = 3;
  stack = 1 ∷ 0 ∷ [];
  frame = λ k.
      if k == 0 then some (frame_of 0 ∷ []) else some (frame_of 2 ∷ frame_of 1 ∷ frame_of 0 ∷ []);
  world = [];
}

continuation_runs :
    (exit_dynamic_extent logged 2 [] (record nested { current = frame_of 0 ∷ [] })
      ≡ some (record nested { current = []; world = symbol 1 ∷ [] }))
    × ((scm_enter_dynamic_extent logged
          (frame_of 1 ∷ frame_of 0 ∷ [])
          (record nested { current = [] })).world
        ≡ symbol 2 ∷ symbol 0 ∷ [])
    × ((continuation_stack_push 7 nested).stack ≡ 7 ∷ 1 ∷ 0 ∷ [])
unfolding exit_dynamic_extent scm_enter_dynamic_extent continuation_stack_push
continuation_runs = (refl, refl, refl)

call_continuation-leaves_example :
    (t : Extents (List Obj)) × Expired (1 ∷ 0 ∷ []) [] nested t
    × (jump_back logged (call_continuation logged 3 0 nested)
        ≡ long_jump
            (frame_of 0 ∷ [])
            (call_afters logged (frame_of 2 ∷ frame_of 1 ∷ []) (frame_of 0 ∷ []) t))
    × ((call_afters logged (frame_of 2 ∷ frame_of 1 ∷ []) (frame_of 0 ∷ []) t).current
        ≡ frame_of 0 ∷ [])
call_continuation-leaves_example =
    call_continuation-leaves logged 0 (1 ∷ []) [] (frame_of 2 ∷ frame_of 1 ∷ []) (frame_of 0 ∷ [])
      nested 3 (λ proc s. refl) refl refl refl refl (omega arith, (omega arith, (omega arith, tt)))
      (omega arith)

dynamic_wind-Balanced_example :
    (f : DynextFrame) × (t : Extents (List Obj)) × (f.before ≡ symbol 8)
    × (f.after ≡ symbol 10)
    × (t.current ≡ f ∷ nested.current)
    × Descending t.next t.current
    × (t.world ≡ symbol 8 ∷ [])
    × (dynamic_wind logged (symbol 8) (symbol 9) (symbol 10) nested
        ≡ some (logged (symbol 10) (record (logged (symbol 9) t) { current = nested.current })))
    × Descending
        (logged (symbol 10) (record (logged (symbol 9) t) { current = nested.current })).next
        (logged (symbol 10) (record (logged (symbol 9) t) { current = nested.current })).current
dynamic_wind-Balanced_example =
    dynamic_wind-Balanced logged (symbol 8) (symbol 9) (symbol 10) nested (λ proc s. refl)
      (λ proc s. omega arith) (omega arith, (omega arith, (omega arith, tt)))
