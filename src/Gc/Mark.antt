-- ===== src/Gc/Mark.antt =====
-- src/storage-gc.c: marking. The fields that an object refers to are those of the fatty storage; SCM_USE_VALUECONS is off.
use sigscheme.Base.{
  ℕ, zero, suc, ◌+◌, Bool, true, false, ◌&&◌, ◌||◌, Option, none, some, List, [], ◌∷◌, ◌++◌, ltb,
  leb, if◌then◌else◌, length,
}
use sigscheme.Gc.Memory.{Cell, free, live, is_marked, CellHeap, cell_at, mark_at}

-- ScmObj: a constant, or the address of a cell.
pub data GcObj : Type 0 where
  constant : GcObj
  cell : ℕ → GcObj

-- SCM_TYPE of a cell with the objects that it refers to. `other` is every type without any.
pub data Content : Type 0 where
  cons_cell : GcObj → GcObj → Content
  symbol_cell : GcObj → Content
  closure_cell : GcObj → GcObj → Content
  macro_cell farsymbol_cell subpat_cell value_packet_cell : GcObj → Content
  vector_cell : List GcObj → Content
  other_cell : Content

-- The objects that mark_obj goes on with, in its order. The jump to mark_loop is the last of them.
abbrev pub fields : Content → List GcObj
fields (cons_cell car cdr) = car ∷ cdr ∷ []
fields (symbol_cell vcell) = vcell ∷ []
fields (closure_cell exp env) = exp ∷ env ∷ []
fields (macro_cell rules) = rules ∷ []
fields (farsymbol_cell sym) = sym ∷ []
fields (subpat_cell obj) = obj ∷ []
fields (value_packet_cell values) = values ∷ []
fields (vector_cell elements) = elements
fields other_cell = []

-- The type of a free cell is ScmFreeCell, whatever it was before.
abbrev pub fields_of : Content → Cell → List GcObj
fields_of content (free _) = []
fields_of content (live _) = fields content

-- A row of objects is marked one after the other.
unfoldable pub mark_each :
    (List CellHeap → GcObj → Option (List CellHeap))
    → List CellHeap
    → List GcObj
    → Option (List CellHeap)
mark_each mark heaps [] = some heaps
mark_each mark heaps (obj ∷ objs) = elim (mark heaps obj) [
  | none ↦ none
  | some heaps' ↦ mark_each mark heaps' objs
]

-- `none` is out of fuel, or an address outside of all heaps.
unfoldable pub mark_obj : (ℕ → Content) → ℕ → List CellHeap → GcObj → Option (List CellHeap)
unfolding mark_each
mark_obj content zero heaps obj = none
mark_obj content (suc fuel) heaps constant = some heaps
mark_obj content (suc fuel) heaps (cell a) = elim (cell_at a heaps) [
  | none ↦ none
  | some c ↦
      if is_marked c
      then some heaps
      else mark_each (mark_obj content fuel) (mark_at a heaps) (fields_of (content a) c)
]

-- The search of within_heapp. Every heap is as long as its list of cells.
unfoldable pub in_heaps : ℕ → List CellHeap → Bool
in_heaps ptr [] = false
in_heaps ptr (heap ∷ heaps) =
    (leb heap.0 ptr && ltb ptr (heap.0 + length heap.1)) || in_heaps ptr heaps

-- l_heaps_lowest and l_heaps_highest
pub record Enclosure : Type 0 where
  pub lowest : ℕ
  pub highest : ℕ

-- A word that is no multiple of the size of a cell counts as a constant here: it is no cell either.
unfoldable pub within_heapp : Enclosure → List CellHeap → GcObj → Bool
unfolding in_heaps
within_heapp e heaps constant = false
within_heapp e heaps (cell ptr) =
    if ltb ptr e.lowest || leb e.highest ptr then false else in_heaps ptr heaps

-- gc_mark_locations_n
unfoldable pub mark_locations :
    (ℕ → Content) → ℕ → Enclosure → List CellHeap → List GcObj → Option (List CellHeap)
unfolding within_heapp mark_obj
mark_locations content fuel e heaps [] = some heaps
mark_locations content fuel e heaps (obj ∷ objs) = elim (within_heapp e heaps obj) [
  | false ↦ mark_locations content fuel e heaps objs
  | true ↦ elim (mark_obj content fuel heaps obj) [
    | none ↦ none
    | some heaps' ↦ mark_locations content fuel e heaps' objs
  ]
]

-- What marking starts from: the words that the scan of the stack and the registers finds, the
-- protected variables, the vector whose cell is being made, and the symbol table.
pub record Roots : Type 0 where
  pub stack : List GcObj
  pub protected : List GcObj
  pub vector_elements : List GcObj
  pub symbol_hash : List GcObj

-- gc_mark_global_vars
unfoldable pub mark_global_vars : (ℕ → Content) → ℕ → List CellHeap → Roots → Option (List CellHeap)
unfolding mark_each mark_obj
mark_global_vars content fuel heaps roots =
    mark_each (mark_obj content fuel) heaps
      (roots.protected ++ (roots.vector_elements ++ roots.symbol_hash))

unfoldable pub gc_mark :
    (ℕ → Content) → ℕ → Enclosure → List CellHeap → Roots → Option (List CellHeap)
unfolding mark_locations mark_global_vars
gc_mark content fuel e heaps roots = elim (mark_locations content fuel e heaps roots.stack) [
  | none ↦ none
  | some heaps' ↦ mark_global_vars content fuel heaps' roots
]
