-- ===== src/Continuation/Wind.antt =====
-- src/continuation.c: dynamic-wind where the procedures return.
use sigscheme.Base.{ℕ, ◌≤◌, ◌≡◌, refl, sym, ap, subst, ◌∙◌, some, List, [], ◌∷◌, arith}
use sigscheme.Object.{Obj}
use sigscheme.Continuation.{
  Extents, Call, dynamic_wind, unwind_dynamic_extent, unwind_from, wind_onto_dynamic_extent,
  DynextFrame,
}
use sigscheme.Continuation.Extent.{Descending, Balanced}

-- A call takes no pair back.
abbrev pub TakesOn : {W : Type 0} → Call W → Type 0
TakesOn {W = W} call = (proc : Obj) (s : Extents W) → s.next ≤ (call proc s).next

Descending-le :
    (n m : ℕ) (extent : List DynextFrame) → n ≤ m → Descending n extent → Descending m extent
Descending-le n m [] le desc = desc
Descending-le n m (f ∷ outer) le (lt, desc) = (omega arith, desc)

unwind_dynamic_extent-cons :
    {W : Type 0} (f : DynextFrame) (outer : List DynextFrame) (u : Extents W)
    → u.current ≡ f ∷ outer
    → unwind_dynamic_extent u ≡ some (record u { current = outer })
unfolding unwind_dynamic_extent
unwind_dynamic_extent-cons f outer u at = ap (λ extent. unwind_from extent u) at

-- With calls that come back to the extent they were made in and take no pair back, and in an extent
-- whose pairs are ordered by age, dynamic-wind calls `before` and `after` in its own extent and the
-- thunk in one with a new frame in front. It never raises the error on a corrupted extent, and both
-- extents stay ordered.
pub dynamic_wind-Balanced :
    {W : Type 0} (call : Call W) (before thunk after : Obj) (s : Extents W)
    → Balanced call
    → TakesOn call
    → Descending s.next s.current
    → (f : DynextFrame) × (t : Extents W) × (f.before ≡ before)
      × (f.after ≡ after)
      × (t.current ≡ f ∷ s.current)
      × Descending t.next t.current
      × (t.world ≡ (call before s).world)
      × (dynamic_wind call before thunk after s
          ≡ some (call after (record (call thunk t) { current = s.current })))
      × Descending
          (call after (record (call thunk t) { current = s.current })).next
          (call after (record (call thunk t) { current = s.current })).current
unfolding dynamic_wind wind_onto_dynamic_extent
dynamic_wind-Balanced call before thunk after s balanced more desc =
    let begun = call before s in
    let f : DynextFrame = record { cell = begun.next; before = before; after = after } in
    let t = wind_onto_dynamic_extent before after begun in
    let at : t.current ≡ f ∷ s.current = ap (λ extent. f ∷ extent) (balanced before s) in
    let inside : Descending t.next t.current = (
      omega arith,
      subst (Descending begun.next) (sym (balanced before s))
          (Descending-le s.next begun.next s.current (more before s) desc),
    ) in
    let left = record (call thunk t) { current = s.current } in
    let grown = more after left in
    let grown_inside = more thunk t in
    (
      f,
      t,
      refl,
      refl,
      at,
      inside,
      refl,
      rw
          (
            dynamic_wind,
            unwind_dynamic_extent-cons f s.current (call thunk t) (balanced thunk t ∙ at),
          )
          refl,
      subst (Descending (call after left).next) (sym (balanced after left))
          (Descending-le s.next (call after left).next s.current (omega arith) desc),
    )
