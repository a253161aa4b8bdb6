-- ===== src/Gc/Memory.antt =====
-- src/storage-gc.c: the heaps of cells. Of a cell it matters here whether it is free and whether it is
-- marked; a heap is the address of its first cell with its cells, and the list of free cells that are
-- linked by SCM_FREECELL_NEXT is the list of their addresses.
use mathlib.Core.Option
use sigscheme.Base.{
  ℕ, suc, ◌+◌, ◌≡◌, inl, inr, Bool, true, false, Option, none, some, List, [], ◌∷◌, arith, ◌==◌,
  if◌then◌else◌, Option-cases,
}

pub data Cell : Type 0 where
  free live : Bool → Cell

abbrev pub is_free : Cell → Bool
is_free (free _) = true
is_free (live _) = false

-- SCM_CELL_MARKEDP
abbrev pub is_marked : Cell → Bool
is_marked (free mark) = mark
is_marked (live mark) = mark

-- SCM_MARK
abbrev pub marked : Cell → Cell
marked (free _) = free true
marked (live _) = live true

abbrev pub CellHeap : Type 0
CellHeap = ℕ × List Cell

-- l_heaps and l_freelist
pub record Cells : Type 0 where
  pub heaps : List CellHeap
  pub freelist : List ℕ

-- The cell at an address.
abbrev pub cell_in : ℕ → ℕ → List Cell → Option Cell
cell_in a base [] = none
cell_in a base (cell ∷ cells) = if base == a then some cell else cell_in a (suc base) cells

abbrev pub or_else : Option Cell → Option Cell → Option Cell
or_else none other = other
or_else (some cell) other = some cell

abbrev pub cell_at : ℕ → List CellHeap → Option Cell
cell_at a [] = none
cell_at a (heap ∷ heaps) = or_else (cell_in a heap.0 heap.1) (cell_at a heaps)

abbrev pub mark_in : ℕ → ℕ → List Cell → List Cell
mark_in a base [] = []
mark_in a base (cell ∷ cells) =
    if base == a then marked cell ∷ cells else cell ∷ mark_in a (suc base) cells

-- The heaps with the cell at an address marked.
abbrev pub mark_at : ℕ → List CellHeap → List CellHeap
mark_at a [] = []
mark_at a (heap ∷ heaps) = elim (cell_in a heap.0 heap.1) [
  | none ↦ heap ∷ mark_at a heaps
  | some _ ↦ (heap.0, mark_in a heap.0 heap.1) ∷ heaps
]

-- The number of cells that have no mark.
abbrev pub unmarked_in : List Cell → ℕ
unmarked_in [] = 0
unmarked_in (cell ∷ cells) = (if is_marked cell then 0 else 1) + unmarked_in cells

abbrev pub unmarked : List CellHeap → ℕ
unmarked [] = 0
unmarked (heap ∷ heaps) = unmarked_in heap.1 + unmarked heaps

cell_in-mark_in :
    (a b base : ℕ) (cells : List Cell)
    → cell_in b base (mark_in a base cells)
      ≡ (if a == b then Option.map marked (cell_in b base cells) else cell_in b base cells)
cell_in-mark_in a b base [] = ground arith
cell_in-mark_in a b base (cell ∷ cells) = ground (arith, cell_in-mark_in a b (suc base) cells)

unmarked_in-mark_in :
    (a base : ℕ) (cells : List Cell) (cell : Cell)
    → cell_in a base cells ≡ some cell
    → is_marked cell ≡ false
    → unmarked_in (mark_in a base cells) + 1 ≡ unmarked_in cells
unmarked_in-mark_in a base [] cell e m = cc
unmarked_in-mark_in a base (c ∷ cells) cell e m =
    ground (arith, unmarked_in-mark_in a (suc base) cells cell)

-- Marking a cell changes no other one.
pub cell_at-mark_at :
    (a b : ℕ) (heaps : List CellHeap)
    → cell_at b (mark_at a heaps)
      ≡ (if a == b then Option.map marked (cell_at b heaps) else cell_at b heaps)
cell_at-mark_at a b [] = ground arith
cell_at-mark_at a b (heap ∷ heaps) = elim (Option-cases (cell_in a heap.0 heap.1)) [
  | inl missing ↦ ground (arith, missing, cell_at-mark_at a b heaps)
  | inr (cell, found) ↦ ground (arith, found, cell_in-mark_in a b heap.0 heap.1)
]

pub unmarked-mark_at :
    (a : ℕ) (heaps : List CellHeap) (cell : Cell)
    → cell_at a heaps ≡ some cell
    → is_marked cell ≡ false
    → unmarked (mark_at a heaps) + 1 ≡ unmarked heaps
unmarked-mark_at a [] cell e m = cc
unmarked-mark_at a (heap ∷ heaps) cell e m = elim (Option-cases (cell_in a heap.0 heap.1)) [
  | inl missing ↦ ground (arith, missing, unmarked-mark_at a heaps cell)
  | inr (c, found) ↦ ground (arith, found, unmarked_in-mark_in a heap.0 heap.1 c found)
]
