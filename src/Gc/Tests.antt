-- ===== src/Gc/Tests.antt =====
-- The theorems on protected variables at a concrete vector.
use sigscheme.Base.{
  ℕ, ◌≤◌, ◌≡◌, refl, subst, ◌↔◌, ◌⊎◌, inl, inr, true, false, none, some, List, [], ◌∷◌, arith,
  length,
}
use sigscheme.Gc.{ProtectedVars, no_protected_vars, gc_protect}
use mathlib.Core.Option
use Prim.Native.Nat.{compare, lt, eq, gt}
use sigscheme.Gc.Memory.{Cells, free, live, is_free, cell_at, CellHeap}
use sigscheme.Gc.Mark.{constant, cell, Content, cons_cell, symbol_cell, Roots, gc_mark}
use sigscheme.Gc.Collect.{Storage, StorageConf, exhausted, done, alloc_cell, gc_mark_and_sweep}
use sigscheme.Gc.MarkBits.{fields_at, mark_bit}
use sigscheme.Gc.RootCells.{Reachable, from_stack, from_global, from_cell, Among, here, there}
use sigscheme.Gc.Safety.{Sound, gc_mark-Reachable}
use sigscheme.Gc.Collected.{Collection, gc_mark_and_sweep-Collects}
use sigscheme.Gc.Allocate.{Gives, alloc_cell-Gives}
use sigscheme.Gc.Sweep.{gc_sweep, all_free_at, FreelistExact}

-- The second of three slots is empty.
abbrev vars : ProtectedVars
vars = record { slots = some 16 ∷ none ∷ some 32 ∷ []; n_empty = 1 }

gc_protect_runs :
    (gc_protect 48 vars ≡ some (record { slots = some 16 ∷ some 48 ∷ some 32 ∷ []; n_empty = 0 }))
    × (gc_protect 48 no_protected_vars ≡ some (record { slots = some 48 ∷ []; n_empty = 0 }))
unfolding gc_protect
gc_protect_runs = (refl, refl)

-- A marked cell, one that nothing refers to, and a free one, at the addresses 8, 9 and 10.
abbrev cells : Cells
cells = record { heaps = (8, live true ∷ live false ∷ free false ∷ []) ∷ []; freelist = 10 ∷ [] }

gc_sweep_runs : gc_sweep cells ≡ (
  record { heaps = (8, live false ∷ free false ∷ free false ∷ []) ∷ []; freelist = 9 ∷ 10 ∷ [] },
  1,
)
unfolding gc_sweep
gc_sweep_runs = refl

cells-FreelistExact : FreelistExact cells
cells-FreelistExact a = ground arith

-- Of six cells from the address 8 on, the pair at 8 refers to the symbol at 9 and to itself, and the
-- pair at 10 to a constant; the cell at 11 is free.
abbrev contents : ℕ → Content
contents a = elim (compare a 9) [
  | lt ↦ cons_cell (cell 9) (cell 8)
  | eq ↦ symbol_cell constant
  | gt ↦ cons_cell constant constant
]

abbrev storage : Storage
storage = record {
  cells = record {
    heaps = (8, live false ∷ live false ∷ live false ∷ free false ∷ []) ∷ [];
    freelist = 11 ∷ [];
  };
  enclosure = record { lowest = 8; highest = 12 };
}

-- The word 96 on the stack is no cell.
abbrev some_roots : Roots
some_roots = record {
  stack = cell 96 ∷ constant ∷ [];
  protected = cell 8 ∷ [];
  vector_elements = [];
  symbol_hash = constant ∷ [];
}

abbrev conf : StorageConf
conf = record { heap_size = 2; heap_alloc_threshold = 2; n_heaps_max = 2 }

gc_mark_runs :
    gc_mark contents 5 storage.enclosure storage.cells.heaps some_roots
    ≡ some ((8, live true ∷ live true ∷ live false ∷ free false ∷ []) ∷ [])
unfolding gc_mark
gc_mark_runs = refl

alloc_cell_runs :
    alloc_cell conf contents 5 some_roots 40 storage
    ≡ done (11, record storage { cells = record { heaps = storage.cells.heaps; freelist = [] } })
unfolding alloc_cell
alloc_cell_runs = refl

pair_fields : (b : ℕ) → Among (cell b) (cell 9 ∷ cell 8 ∷ []) → (b ≡ 8) ⊎ (b ≡ 9)
pair_fields _ here = inr refl
pair_fields _ (there here) = inl refl
pair_fields b (there (there m)) = elim m [ ]

symbol_fields : (b : ℕ) → Among (cell b) (constant ∷ []) → (b ≡ 8) ⊎ (b ≡ 9)
symbol_fields b (there m) = elim m [ ]

storage-Reachable :
    (a : ℕ) → Reachable contents storage.cells.heaps some_roots a → (a ≡ 8) ⊎ (a ≡ 9)
storage-Reachable a (from_stack here it) = absurd (ground arith)
storage-Reachable a (from_stack (there (there m)) it) = elim m [ ]
storage-Reachable _ (from_global here) = inl refl
storage-Reachable a (from_global (there (there m))) = elim m [ ]
storage-Reachable b (from_cell {a} p m) = elim (storage-Reachable a p) [
  | inl e ↦
      pair_fields b
        (subst (λ (k : ℕ). Among (cell b) (fields_at contents storage.cells.heaps k)) e m)
  | inr e ↦
      symbol_fields b
        (subst (λ (k : ℕ). Among (cell b) (fields_at contents storage.cells.heaps k)) e m)
]

storage-Sound : Sound contents storage.enclosure storage.cells.heaps some_roots
storage-Sound = record {
  clean = λ a. ground arith;
  encloses = λ a e. ground arith;
  no_dangling =
      λ a r. elim (storage-Reachable a r) [ inl e ↦ ground (arith, e) | inr e ↦ ground (arith, e) ];
}

storage-FreelistExact : FreelistExact storage.cells
storage-FreelistExact a = ground arith

gc_mark-Reachable_example :
    (g : List CellHeap) × (gc_mark contents 5 storage.enclosure storage.cells.heaps some_roots
      ≡ some g)
    × ((a : ℕ) → (mark_bit a g ≡ true) ↔ Reachable contents storage.cells.heaps some_roots a)
    × ((a : ℕ)
        → Option.map is_free (cell_at a g) ≡ Option.map is_free (cell_at a storage.cells.heaps))
    × (length g ≡ 1)
    × ((a : ℕ) → all_free_at a g ≡ all_free_at a storage.cells.heaps)
gc_mark-Reachable_example =
    gc_mark-Reachable contents 5 storage.enclosure storage.cells.heaps some_roots storage-Sound
      (omega arith)

gc_mark_and_sweep-Collects_example :
    Collection conf contents some_roots 40 storage
      (gc_mark_and_sweep conf contents 5 some_roots 40 storage)
gc_mark_and_sweep-Collects_example =
    gc_mark_and_sweep-Collects conf contents 5 some_roots 40 storage storage-Sound
      storage-FreelistExact (omega arith)

alloc_cell-Gives_example :
    ((2 ≤ 1) × (alloc_cell conf contents 5 some_roots 40 storage ≡ exhausted))
    ⊎ ((a : ℕ) × (t : Storage) × (alloc_cell conf contents 5 some_roots 40 storage ≡ done (a, t))
        × Gives a t)
alloc_cell-Gives_example =
    alloc_cell-Gives conf contents 5 some_roots 40 storage storage-Sound storage-FreelistExact
      (omega arith) (omega arith) (omega arith)
