-- ===== src/Gc/Collect.antt =====
-- src/storage-gc.c: a collection, new heaps and the allocation of cells.
use sigscheme.Base.{
  ℕ, zero, suc, ◌+◌, false, none, some, List, [], ◌∷◌, ◌++◌, ltb, leb, if◌then◌else◌, length,
}
use sigscheme.Gc.Memory.{free, Cell, Cells}
use sigscheme.Gc.Mark.{Content, Enclosure, Roots, gc_mark}
use sigscheme.Gc.Sweep.{gc_sweep}

-- l_heap_size, l_heap_alloc_threshold and l_n_heaps_max
pub record StorageConf : Type 0 where
  pub heap_size : ℕ
  pub heap_alloc_threshold : ℕ
  pub n_heaps_max : ℕ

pub record Storage : Type 0 where
  pub cells : Cells
  pub enclosure : Enclosure

-- What a collection comes to. `exhausted` is the fatal error, `stuck` that marking ran out of fuel or
-- met an address outside of all heaps, and `assertion` a failed SCM_ASSERT.
pub data Outcome {ℓ} (A : Type ℓ) : Type ℓ where
  exhausted stuck assertion : Outcome A
  done : A → Outcome A

-- The cells of a new heap, and their addresses in increasing order before the other free cells.
abbrev pub fresh_cells : ℕ → List Cell
fresh_cells zero = []
fresh_cells (suc n) = free false ∷ fresh_cells n

unfoldable pub link_cells : ℕ → ℕ → List ℕ → List ℕ
link_cells cell zero next = next
link_cells cell (suc n) next = cell ∷ link_cells (suc cell) n next

abbrev pub widen : Enclosure → ℕ → ℕ → Enclosure
widen e low high = record {
  lowest = if ltb low e.lowest then low else e.lowest;
  highest = if ltb e.highest high then high else e.highest;
}

unfoldable pub with_heap : ℕ → ℕ → Storage → Storage
unfolding link_cells
with_heap heap heap_size s = record {
  cells = record {
    heaps = s.cells.heaps ++ ((heap, fresh_cells heap_size) ∷ []);
    freelist = link_cells heap heap_size s.cells.freelist;
  };
  enclosure = widen s.enclosure heap (heap + heap_size);
}

-- `heap` is the address that the allocator gives.
unfoldable pub add_heap : StorageConf → ℕ → Storage → Outcome Storage
unfolding with_heap
add_heap conf heap s =
    if leb conf.n_heaps_max (length s.cells.heaps)
    then exhausted
    else done (with_heap heap conf.heap_size s)

unfoldable pub gc_mark_and_sweep :
    StorageConf → (ℕ → Content) → ℕ → Roots → ℕ → Storage → Outcome Storage
unfolding gc_mark gc_sweep add_heap
gc_mark_and_sweep conf content fuel roots heap s =
    elim (gc_mark content fuel s.enclosure s.cells.heaps roots) [
      | none ↦ stuck
      | some heaps ↦
          let (cells, n_collected) =
            gc_sweep (record { heaps = heaps; freelist = s.cells.freelist }) in
          let swept : Storage = record { cells = cells; enclosure = s.enclosure } in
          if ltb n_collected conf.heap_alloc_threshold then add_heap conf heap swept else done swept
    ]

-- The cell is taken off the list of free cells; the caller gives it its type.
abbrev pub take_cell : Storage → Outcome (ℕ × Storage)
take_cell s = elim s.cells.freelist [
  | [] ↦ assertion
  | cell ∷ next ↦
      done (cell, record s { cells = record { heaps = s.cells.heaps; freelist = next } })
]

unfoldable pub alloc_cell :
    StorageConf → (ℕ → Content) → ℕ → Roots → ℕ → Storage → Outcome (ℕ × Storage)
unfolding gc_mark_and_sweep
alloc_cell conf content fuel roots heap s = elim s.cells.freelist [
  | _ ∷ _ ↦ take_cell s
  | [] ↦ elim (gc_mark_and_sweep conf content fuel roots heap s) [
    | exhausted ↦ exhausted
    | stuck ↦ stuck
    | assertion ↦ assertion
    | done collected ↦ take_cell collected
  ]
]
