-- ===== src/Continuation/Extent.antt =====
-- src/continuation.c: which procedures are called on the way to another dynamic extent.
use sigscheme.Base.{
  ℕ, zero, suc, ◌<◌, ◌≡◌, refl, true, false, some, List, [], ◌∷◌, ◌++◌, arith, ==_ne, length,
}
use sigscheme.Continuation.{
  DynextFrame, Extents, Call, same_extent, path_loop, enter_dynamic_extent, call_befores,
  exit_dynamic_extent,
}

-- The pairs of an extent are older the further out they are, and all older than `n`.
abbrev pub Descending : ℕ → List DynextFrame → Type 0
Descending n [] = Unit
Descending n (f ∷ outer) = (f.cell < n) × Descending f.cell outer

-- The call of a procedure that returns comes back to the extent it was called in.
abbrev pub Balanced : {W : Type 0} → Call W → Type 0
Balanced {W = W} call = (proc : _) (s : Extents W) → (call proc s).current ≡ s.current

-- The calls of `after`, from the innermost frame on, each in the extent around its frame.
abbrev pub call_afters :
    {W : Type 0} → Call W → List DynextFrame → List DynextFrame → Extents W → Extents W
call_afters call [] dest s = s
call_afters call (f ∷ inner) dest s =
    call_afters call inner dest (call f.after (record s { current = inner ++ dest }))

Descending-lt :
    (n k : ℕ) (inner dest : List DynextFrame) (g : DynextFrame)
    → n < k
    → Descending n (inner ++ g ∷ dest)
    → g.cell < k
Descending-lt n k [] dest g lt (older, _) = omega arith
Descending-lt n k (f ∷ inner) dest g lt (older, rest) =
    Descending-lt f.cell k inner dest g (omega arith) rest

inner-same_extent :
    (n : ℕ) (f : DynextFrame) (inner dest : List DynextFrame)
    → Descending n (f ∷ inner ++ dest)
    → same_extent (f ∷ inner ++ dest) dest ≡ false
inner-same_extent n f inner [] desc = refl
inner-same_extent n f [] (g ∷ dest) (_, (lt, _)) = ==_ne f.cell g.cell (λ e. omega arith)
inner-same_extent n f (h ∷ inner) (g ∷ dest) (_, (lt, desc)) =
    let below = Descending-lt h.cell f.cell inner dest g lt desc in
    ==_ne f.cell g.cell (λ e. omega arith)

same_extent_refl : (dest : List DynextFrame) → same_extent dest dest ≡ true
same_extent_refl [] = refl
same_extent_refl (f ∷ dest) = ground arith

module _ {W : Type 0} (call : Call W) (balanced : Balanced call) where
  pub exit-loop :
      (n : ℕ) (inner dest : List DynextFrame) (s : Extents W) (fuel : ℕ)
      → s.current ≡ inner ++ dest
      → Descending n (inner ++ dest)
      → length inner < fuel
      → (exit_dynamic_extent call fuel dest s ≡ some (call_afters call inner dest s))
        × ((call_afters call inner dest s).current ≡ dest)
  unfolding exit_dynamic_extent
  exit-loop n inner dest s zero at desc lt = elim lt [ ]
  exit-loop n [] [] s (suc fuel) at desc lt = (rw at refl, at)
  exit-loop n [] (f ∷ dest) s (suc fuel) at desc lt =
      (rw at (rw (same_extent_refl (f ∷ dest)) refl), at)
  exit-loop n (f ∷ inner) dest s (suc fuel) at desc lt =
      let popped = call f.after (record s { current = inner ++ dest }) in
      let (runs, ends) =
        exit-loop f.cell inner dest popped fuel (balanced _ _) desc.1 (omega arith) in
      (rw at (rw (inner-same_extent n f inner dest desc) runs), ends)

  pub enter-current :
      (dest : List DynextFrame) (s : Extents W)
      → s.current ≡ dest
      → enter_dynamic_extent call dest s ≡ s
  unfolding enter_dynamic_extent path_loop call_befores
  enter-current [] s at = refl
  enter-current (f ∷ dest) s at = rw at (rw (same_extent_refl (f ∷ dest)) refl)
