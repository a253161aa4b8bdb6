-- ===== src/Gc/RootCells.antt =====
-- src/storage-gc.c: what can be reached from the roots, and the cells among them.
use sigscheme.Base.{
  ℕ, suc, ◌+◌, ◌≤◌, ◌<◌, ◌≡◌, refl, subst, inl, inr, Bool, true, false, ◌&&◌, List, [], ◌∷◌, ◌++◌,
  arith, ltb, leb, if◌then◌else◌, Bool-cases, length, All,
}
use sigscheme.Gc.Memory.{Cell, CellHeap, cell_in}
use sigscheme.Gc.MarkBits.{mark_bit, has, is_some, fields_at, IsMarked, On, cells_of}
use sigscheme.Gc.Mark.{GcObj, constant, cell, Content, Enclosure, in_heaps, within_heapp, Roots}

-- An object is in a list of objects.
pub data Among (obj : GcObj) : List GcObj → Type 0 where
  here : {objs : List GcObj} → Among obj (obj ∷ objs)
  there : {other : GcObj} {objs : List GcObj} → Among obj objs → Among obj (other ∷ objs)

abbrev pub global_roots : Roots → List GcObj
global_roots roots = roots.protected ++ (roots.vector_elements ++ roots.symbol_hash)

-- The cells that can be reached from the roots, those of the stack only where they are cells at all.
pub data Reachable (content : ℕ → Content) (h : List CellHeap) (roots : Roots) : ℕ → Type 0 where
  from_stack : {a : ℕ} → Among (cell a) roots.stack → has a h ≡ true → Reachable content h roots a
  from_global : {a : ℕ} → Among (cell a) (global_roots roots) → Reachable content h roots a
  from_cell :
      {a b : ℕ}
      → Reachable content h roots a
      → Among (cell b) (fields_at content h a)
      → Reachable content h roots b

-- The enclosure holds every cell.
abbrev pub Encloses : Enclosure → List CellHeap → Type 0
Encloses e h = (a : ℕ) → has a h ≡ true → (e.lowest ≤ a) × (a < e.highest)

pub All-Among :
    (P : ℕ → Type 0) (objs : List GcObj) → ((a : ℕ) → Among (cell a) objs → P a) → All (On P) objs
All-Among P [] f = tt
All-Among P (constant ∷ objs) f = (tt, All-Among P objs (λ a m. f a (there m)))
All-Among P (cell a ∷ objs) f = (f a here, All-Among P objs (λ b m. f b (there m)))

pub Among-All :
    (g : List CellHeap) (objs : List GcObj) (a : ℕ)
    → Among (cell a) objs
    → All (IsMarked g) objs
    → mark_bit a g ≡ true
Among-All g [] a m all = elim m [ ]
Among-All g (_ ∷ objs) a here (m, _) = m
Among-All g (_ ∷ objs) a (there in_rest) (_, rest) = Among-All g objs a in_rest rest

-- The list of `cells_of` at its first object, by the test of it.
cells_of_split :
    (Q : List GcObj → Type 0) (ok : ℕ → Bool) (a : ℕ) (objs : List GcObj)
    → (ok a ≡ true → Q (cell a ∷ cells_of ok objs))
    → (ok a ≡ false → Q (cells_of ok objs))
    → Q (cells_of ok (cell a ∷ objs))
cells_of_split Q ok a objs ins out = elim (Bool-cases (ok a)) [
  | inl e ↦ rw e (ins e)
  | inr e ↦ rw e (out e)
]

pub All-cells_of :
    (P : ℕ → Type 0) (ok : ℕ → Bool) (objs : List GcObj)
    → ((a : ℕ) → Among (cell a) objs → ok a ≡ true → P a)
    → All (On P) (cells_of ok objs)
All-cells_of P ok [] f = tt
All-cells_of P ok (constant ∷ objs) f = All-cells_of P ok objs (λ a m. f a (there m))
All-cells_of P ok (cell a ∷ objs) f =
    let rest = All-cells_of P ok objs (λ b m. f b (there m)) in
    cells_of_split (All (On P)) ok a objs (λ e. (f a here e, rest)) (λ e. rest)

pub cells_of-All :
    (g : List CellHeap) (ok : ℕ → Bool) (objs : List GcObj) (a : ℕ)
    → Among (cell a) objs
    → ok a ≡ true
    → All (IsMarked g) (cells_of ok objs)
    → mark_bit a g ≡ true
cells_of-All g ok [] a m e all = elim m [ ]
cells_of-All g ok (_ ∷ objs) a here e all =
    (subst
      (λ (o : Bool). All (IsMarked g) (if o then cell a ∷ cells_of ok objs else cells_of ok objs)) e
      all).0
cells_of-All g ok (constant ∷ objs) a (there m) e all = cells_of-All g ok objs a m e all
cells_of-All g ok (cell b ∷ objs) a (there m) e all = cells_of-All g ok objs a m e (
    cells_of_split (λ cells. All (IsMarked g) cells → All (IsMarked g) (cells_of ok objs)) ok b objs
      (λ _ all'. all'.1) (λ _ all'. all') all)

in_heap-cell_in :
    (a base : ℕ) (cells : List Cell)
    → (leb base a && ltb a (base + length cells)) ≡ is_some (cell_in a base cells)
in_heap-cell_in a base [] = ground arith
in_heap-cell_in a base (c ∷ cells) = ground (arith, in_heap-cell_in a (suc base) cells)

in_heaps-has : (a : ℕ) (h : List CellHeap) → in_heaps a h ≡ has a h
unfolding in_heaps
in_heaps-has a [] = refl
in_heaps-has a (heap ∷ h) = ground (arith, in_heaps-has a h, in_heap-cell_in a heap.0 heap.1)

pub within_heapp-has :
    (e : Enclosure) (h : List CellHeap) (a : ℕ) → Encloses e h → within_heapp e h (cell a) ≡ has a h
unfolding within_heapp
within_heapp-has e h a enc = elim (Bool-cases (has a h)) [
  | inl it ↦ ground (arith, in_heaps-has a h, it, enc a it)
  | inr it ↦ ground (arith, in_heaps-has a h, it)
]
