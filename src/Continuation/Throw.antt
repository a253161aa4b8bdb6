-- ===== src/Continuation/Throw.antt =====
-- src/continuation.c: the call of a continuation, up to what call/cc does when it is jumped back to.
use sigscheme.Base.{
  ℕ, ◌<◌, ◌≡◌, refl, ap, ◌∙◌, Bool, true, false, ◌||◌, none, some, List, [], ◌∷◌, ◌++◌, arith, ◌==◌,
  if◌then◌else◌, length,
}
use sigscheme.Object.{update}
use sigscheme.Continuation.{
  DynextFrame, Extents, Call, unwind_stack, continuation_stack_unwind, call_continuation, long_jump,
  jump_back, if_nested, jump_to,
}
use sigscheme.Continuation.Extent.{Descending, Balanced, call_afters, exit-loop, enter-current}

abbrev pub listed : ℕ → List ℕ → Bool
listed k [] = false
listed k (cont ∷ rest) = k == cont || listed k rest

-- The continuations `taken` are off the stack and expired, and nothing else has changed.
abbrev pub Expired : {W : Type 0} → List ℕ → List ℕ → Extents W → Extents W → Type 0
Expired taken older s t =
    (t.stack ≡ older)
    × (t.current ≡ s.current)
    × (t.next ≡ s.next)
    × (t.world ≡ s.world)
    × ((k : ℕ) → t.frame k ≡ (if listed k taken then none else s.frame k))

unwind_stack-found :
    {W : Type 0} (cont : ℕ) (newer older : List ℕ) (s : Extents W)
    → listed cont newer ≡ false
    → (t : Extents W) × (unwind_stack cont (newer ++ cont ∷ older) s ≡ (true, t))
      × Expired (newer ++ cont ∷ []) older s t
unfolding unwind_stack
unwind_stack-found cont [] older s apart = (
  record s { stack = older; frame = update s.frame cont none },
  ground arith,
  (refl, refl, refl, refl, λ k. ground arith),
)
unwind_stack-found cont (c ∷ newer) older s apart =
    let expired = record s { stack = newer ++ cont ∷ older; frame = update s.frame c none } in
    let (t, runs, (st, cu, ne, wo, fr)) =
      unwind_stack-found cont newer older expired (ground (arith, apart)) in
    (t, ground (arith, apart, runs), (st, cu, ne, wo, λ k. ground (arith, fr k)))

-- In an extent whose pairs are ordered by age, and with calls that come back to the extent they were
-- made in, calling a valid continuation on the stack whose extent is around the current one, with
-- fuel for more frames than are left, comes back to its call of call/cc in its own extent. The
-- `after` of each frame that is left has been called, the innermost first, each in the extent around
-- its frame, and no `before`. Before these calls the continuation and those made since have expired,
-- and no others.
pub call_continuation-leaves :
    {W : Type 0} (call : Call W) (cont : ℕ) (newer older : List ℕ) (inner dest : List DynextFrame)
    (s : Extents W) (fuel : ℕ)
    → Balanced call
    → s.stack ≡ newer ++ cont ∷ older
    → listed cont newer ≡ false
    → s.frame cont ≡ some dest
    → s.current ≡ inner ++ dest
    → Descending s.next (inner ++ dest)
    → length inner < fuel
    → (t : Extents W) × Expired (newer ++ cont ∷ []) older s t
      × (jump_back call (call_continuation call fuel cont s)
          ≡ long_jump dest (call_afters call inner dest t))
      × ((call_afters call inner dest t).current ≡ dest)
unfolding call_continuation continuation_stack_unwind if_nested jump_back
call_continuation-leaves call cont newer older inner dest s fuel balanced on_stack apart valid at
      desc lt =
    let (t, runs, left) = unwind_stack-found cont newer older s apart in
    let (exits, ends) = exit-loop call balanced s.next inner dest t fuel (left.1 ∙ at) desc lt in
    let there : call_continuation call fuel cont s
        ≡ long_jump dest (call_afters call inner dest t) =
      rw (call_continuation, valid) refl
      ∙ ap (if_nested call fuel dest) (ap (λ stack. unwind_stack cont stack s) on_stack ∙ runs)
      ∙ ap (jump_to dest) exits in
    (
      t,
      left,
      ap (jump_back call) there
          ∙ ap (long_jump dest)
              (enter-current call balanced dest (call_afters call inner dest t) ends),
      ends,
    )
