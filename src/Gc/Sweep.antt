-- ===== src/Gc/Sweep.antt =====
-- src/storage-gc.c: the sweep over the cells of all heaps, and the list of free cells.
use mathlib.Core.Path.{ap₂}
use mathlib.Core.List.{map}
use sigscheme.Gc.Memory.{Cell, free, live, is_free, CellHeap, Cells}
use sigscheme.Base.{
  ℕ, suc, ◌+◌, ◌≡◌, refl, ap, true, false, ◌&&◌, List, [], ◌∷◌, arith, ◌==◌, if◌then◌else◌, length,
}

-- The inner loop: the cells that it leaves, the list of free cells, and the number of new ones.
unfoldable pub sweep_cells : ℕ → List Cell → List ℕ → List Cell × List ℕ × ℕ
sweep_cells cell [] new_freelist = ([], new_freelist, 0)
sweep_cells cell (live true ∷ cells) new_freelist =
    let (rest, freelist, n_collected) = sweep_cells (suc cell) cells new_freelist in
    (live false ∷ rest, freelist, n_collected)
sweep_cells cell (live false ∷ cells) new_freelist =
    let (rest, freelist, n_collected) = sweep_cells (suc cell) cells (cell ∷ new_freelist) in
    (free false ∷ rest, freelist, suc n_collected)
sweep_cells cell (free _ ∷ cells) new_freelist =
    let (rest, freelist, n_collected) = sweep_cells (suc cell) cells new_freelist in
    (free false ∷ rest, freelist, n_collected)

unfoldable pub sweep_heaps : List CellHeap → List ℕ → List CellHeap × List ℕ × ℕ
unfolding sweep_cells
sweep_heaps [] new_freelist = ([], new_freelist, 0)
sweep_heaps ((base, cells) ∷ heaps) new_freelist =
    let (swept, freelist, n_collected) = sweep_cells base cells new_freelist in
    let (rest, freelist', sum_collected) = sweep_heaps heaps freelist in
    ((base, swept) ∷ rest, freelist', n_collected + sum_collected)

unfoldable pub gc_sweep : Cells → Cells × ℕ
unfolding sweep_heaps
gc_sweep c =
    let (heaps, freelist, sum_collected) = sweep_heaps c.heaps c.freelist in
    (record { heaps = heaps; freelist = freelist }, sum_collected)

-- What becomes of a cell: a marked one loses its mark, any other is free.
abbrev pub swept : Cell → Cell
swept (live true) = live false
swept _ = free false

abbrev pub is_garbage : Cell → ℕ
is_garbage (live false) = 1
is_garbage _ = 0

abbrev pub all_swept : List CellHeap → List CellHeap
all_swept heaps = map (λ heap. (heap.0, map swept heap.1)) heaps

abbrev pub garbage : List Cell → ℕ
garbage [] = 0
garbage (cell ∷ cells) = is_garbage cell + garbage cells

abbrev pub all_garbage : List CellHeap → ℕ
all_garbage [] = 0
all_garbage (heap ∷ heaps) = garbage heap.1 + all_garbage heaps

-- How often an address is in the list of free cells, and how many free cells have it.
abbrev pub occurrences : ℕ → List ℕ → ℕ
occurrences a [] = 0
occurrences a (x ∷ xs) = (if x == a then 1 else 0) + occurrences a xs

abbrev pub free_at : ℕ → ℕ → List Cell → ℕ
free_at a base [] = 0
free_at a base (cell ∷ cells) =
    (if is_free cell && base == a then 1 else 0) + free_at a (suc base) cells

abbrev pub all_free_at : ℕ → List CellHeap → ℕ
all_free_at a [] = 0
all_free_at a (heap ∷ heaps) = free_at a heap.0 heap.1 + all_free_at a heaps

-- The list of free cells has every free cell just as often as there is one of its address, and so
-- no other cell.
abbrev pub FreelistExact : Cells → Type 0
FreelistExact c = (a : ℕ) → occurrences a c.freelist ≡ all_free_at a c.heaps

sweep_cells-swept :
    (base : ℕ) (cells : List Cell) (fl : List ℕ)
    → ((sweep_cells base cells fl).0 ≡ map swept cells)
      × ((sweep_cells base cells fl).2 ≡ garbage cells)
unfolding sweep_cells
sweep_cells-swept base [] fl = (refl, refl)
sweep_cells-swept base (live true ∷ cells) fl =
    let (same, n) = sweep_cells-swept (suc base) cells fl in
    (ap (◌∷◌ (live false)) same, omega arith)
sweep_cells-swept base (live false ∷ cells) fl =
    let (same, n) = sweep_cells-swept (suc base) cells (base ∷ fl) in
    (ap (◌∷◌ (free false)) same, omega arith)
sweep_cells-swept base (free m ∷ cells) fl =
    let (same, n) = sweep_cells-swept (suc base) cells fl in
    (ap (◌∷◌ (free false)) same, omega arith)

sweep_cells-free_at :
    (a base : ℕ) (cells : List Cell) (fl : List ℕ)
    → occurrences a (sweep_cells base cells fl).1 + free_at a base cells
      ≡ occurrences a fl + free_at a base (map swept cells)
unfolding sweep_cells
sweep_cells-free_at a base [] fl = refl
sweep_cells-free_at a base (live true ∷ cells) fl =
    ground (arith, sweep_cells-free_at a (suc base) cells fl)
sweep_cells-free_at a base (live false ∷ cells) fl =
    ground (arith, sweep_cells-free_at a (suc base) cells (base ∷ fl))
sweep_cells-free_at a base (free m ∷ cells) fl =
    ground (arith, sweep_cells-free_at a (suc base) cells fl)

sweep_heaps-swept :
    (heaps : List CellHeap) (fl : List ℕ)
    → ((sweep_heaps heaps fl).0 ≡ all_swept heaps) × ((sweep_heaps heaps fl).2 ≡ all_garbage heaps)
unfolding sweep_heaps
sweep_heaps-swept [] fl = (refl, refl)
sweep_heaps-swept ((base, cells) ∷ heaps) fl =
    let (same, n) = sweep_cells-swept base cells fl in
    let (rest, sum) = sweep_heaps-swept heaps (sweep_cells base cells fl).1 in
    (ap₂ ◌∷◌ (ap (λ (c : List Cell). (base, c)) same) rest, omega arith)

sweep_heaps-free_at :
    (a : ℕ) (heaps : List CellHeap) (fl : List ℕ)
    → occurrences a (sweep_heaps heaps fl).1 + all_free_at a heaps
      ≡ occurrences a fl + all_free_at a (all_swept heaps)
unfolding sweep_heaps
sweep_heaps-free_at a [] fl = refl
sweep_heaps-free_at a ((base, cells) ∷ heaps) fl = omega (
  arith,
  sweep_cells-free_at a base cells fl,
  sweep_heaps-free_at a heaps (sweep_cells base cells fl).1,
)

length-sweep_cells :
    (base : ℕ) (cells : List Cell) (fl : List ℕ)
    → length (sweep_cells base cells fl).1 ≡ length fl + (sweep_cells base cells fl).2
unfolding sweep_cells
length-sweep_cells base [] fl = omega arith
length-sweep_cells base (live true ∷ cells) fl = length-sweep_cells (suc base) cells fl
length-sweep_cells base (live false ∷ cells) fl =
    omega (arith, length-sweep_cells (suc base) cells (base ∷ fl))
length-sweep_cells base (free m ∷ cells) fl = length-sweep_cells (suc base) cells fl

length-sweep_heaps :
    (heaps : List CellHeap) (fl : List ℕ)
    → length (sweep_heaps heaps fl).1 ≡ length fl + (sweep_heaps heaps fl).2
unfolding sweep_heaps
length-sweep_heaps [] fl = omega arith
length-sweep_heaps ((base, cells) ∷ heaps) fl = omega (
  arith,
  length-sweep_cells base cells fl,
  length-sweep_heaps heaps (sweep_cells base cells fl).1,
)

pub length-gc_sweep :
    (c : Cells) → length (gc_sweep c).0.freelist ≡ length c.freelist + (gc_sweep c).1
unfolding gc_sweep
length-gc_sweep c = length-sweep_heaps c.heaps c.freelist

-- gc_sweep takes the mark off every marked cell and frees every other one, returns how many cells it
-- freed, and keeps the list of free cells exact: before and after, each address is in the list just
-- as often as there are free cells of this address.
pub gc_sweep-swept :
    (c : Cells)
    → FreelistExact c
    → ((gc_sweep c).0.heaps ≡ all_swept c.heaps)
      × ((gc_sweep c).1 ≡ all_garbage c.heaps)
      × FreelistExact (gc_sweep c).0
unfolding gc_sweep
gc_sweep-swept c exact =
    let (same, n) = sweep_heaps-swept c.heaps c.freelist in
    (same, n, λ a. rw same (omega (arith, exact a, sweep_heaps-free_at a c.heaps c.freelist)))
