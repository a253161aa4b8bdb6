-- ===== src/Gc/Collected.antt =====
-- src/storage-gc.c: what a collection, with the heap that it may add, leaves at each address.
use mathlib.Core.Option
use sigscheme.Base.{
  ℕ, zero, suc, ◌+◌, ◌≤◌, ◌<◌, ◌≡◌, refl, sym, ap, subst, ◌∙◌, ◌⊎◌, inl, inr, Bool, true, false,
  Option, some, List, [], ◌∷◌, ◌++◌, map, arith, ltb, leb, if◌then◌else◌, Bool-cases, length,
}
use sigscheme.Gc.Memory.{
  Cell, free, live, is_free, CellHeap, Cells, cell_in, cell_at, or_else, unmarked,
}
use sigscheme.Gc.MarkBits.{bit_of, has, is_some}
use sigscheme.Gc.Mark.{Content, Roots, gc_mark}
use sigscheme.Gc.RootCells.{Reachable}
use sigscheme.Gc.Safety.{Sound, gc_mark-Reachable}
use sigscheme.Gc.Sweep.{
  gc_sweep, length-gc_sweep, swept, all_swept, occurrences, free_at, all_free_at, FreelistExact,
  gc_sweep-swept,
}
use sigscheme.Gc.Collect.{
  StorageConf, Storage, Outcome, exhausted, done, fresh_cells, link_cells, with_heap, add_heap,
  gc_mark_and_sweep,
}

cell_in-swept :
    (a base : ℕ) (cells : List Cell)
    → cell_in a base (map swept cells) ≡ Option.map swept (cell_in a base cells)
cell_in-swept a base [] = refl
cell_in-swept a base (c ∷ cells) = ground (arith, cell_in-swept a (suc base) cells)

cell_at-all_swept :
    (a : ℕ) (h : List CellHeap) → cell_at a (all_swept h) ≡ Option.map swept (cell_at a h)
cell_at-all_swept a [] = refl
cell_at-all_swept a (heap ∷ h) =
    ground (arith, cell_in-swept a heap.0 heap.1, cell_at-all_swept a h)

length-all_swept : (h : List CellHeap) → length (all_swept h) ≡ length h
length-all_swept [] = refl
length-all_swept (heap ∷ h) = omega (arith, length-all_swept h)

cell_at-append :
    (a : ℕ) (h : List CellHeap) (new : CellHeap)
    → cell_at a (h ++ (new ∷ [])) ≡ or_else (cell_at a h) (cell_in a new.0 new.1)
cell_at-append a [] new = ground arith
cell_at-append a (heap ∷ h) new = ground (arith, cell_at-append a h new)

all_free_at-append :
    (a : ℕ) (h : List CellHeap) (new : CellHeap)
    → all_free_at a (h ++ (new ∷ [])) ≡ all_free_at a h + free_at a new.0 new.1
all_free_at-append a [] new = omega arith
all_free_at-append a (heap ∷ h) new = omega (arith, all_free_at-append a h new)

link_cells-fresh_cells :
    (a base n : ℕ) (next : List ℕ)
    → occurrences a (link_cells base n next) ≡ occurrences a next + free_at a base (fresh_cells n)
unfolding link_cells
link_cells-fresh_cells a base zero next = omega arith
link_cells-fresh_cells a base (suc n) next =
    omega (arith, link_cells-fresh_cells a (suc base) n next)

-- What becomes of the cells: from the heaps `h` to the storage `t`.
pub record Collects (content : ℕ → Content) (h : List CellHeap) (roots : Roots) (t : Storage)
    : Type 0 where
  pub keeps :
      (a : ℕ)
      → Reachable content h roots a
      → cell_at a h ≡ some (live false)
      → cell_at a t.cells.heaps ≡ some (live false)
  pub frees :
      (a : ℕ)
      → has a h ≡ true
      → ¬ Reachable content h roots a
      → cell_at a t.cells.heaps ≡ some (free false)
  pub stay_free :
      (a : ℕ) → cell_at a h ≡ some (free false) → cell_at a t.cells.heaps ≡ some (free false)
  pub freelist_exact : FreelistExact t.cells

not_reached : {P : Type 0} {b : Bool} → (b ≡ true → P) → ¬ P → b ≡ false
not_reached {b = true} f n = absurd (n (f refl))
not_reached {b = false} f n = refl

-- A cell of the heaps `h`, the same one marked or not as in `g`, and what the sweep makes of it.
swept_kept :
    (o p : Option Cell)
    → Option.map is_free p ≡ Option.map is_free o
    → (bit_of p ≡ true → o ≡ some (live false) → Option.map swept p ≡ some (live false))
      × (bit_of p ≡ false → is_some o ≡ true → Option.map swept p ≡ some (free false))
      × (o ≡ some (free false) → Option.map swept p ≡ some (free false))
swept_kept o p e = (ground arith, ground arith, ground arith)

with_heap-Collects :
    (content : ℕ → Content) (h : List CellHeap) (roots : Roots) (heap n : ℕ) (t : Storage)
    → Collects content h roots t
    → ((with_heap heap n t).cells.heaps ≡ t.cells.heaps ++ ((heap, fresh_cells n) ∷ []))
      × Collects content h roots (with_heap heap n t)
unfolding with_heap
with_heap-Collects content h roots heap n t c =
    let same : (a : ℕ) (x : Cell)
        → cell_at a t.cells.heaps ≡ some x
        → cell_at a (t.cells.heaps ++ ((heap, fresh_cells n) ∷ [])) ≡ some x =
      λ (a : ℕ) (x : Cell) e.
        cell_at-append a t.cells.heaps (heap, fresh_cells n) ∙ ground (arith, e) in
    (
      refl,
      record {
        keeps = λ a r e. same a (live false) (c.keeps a r e);
        frees = λ a it n. same a (free false) (c.frees a it n);
        stay_free = λ a e. same a (free false) (c.stay_free a e);
        freelist_exact = λ a. omega (
          arith,
          c.freelist_exact a,
          link_cells-fresh_cells a heap n t.cells.freelist,
          all_free_at-append a t.cells.heaps (heap, fresh_cells n),
        );
      },
    )

pub gc_mark_and_sweep-runs :
    (conf : StorageConf) (content : ℕ → Content) (fuel : ℕ) (roots : Roots) (heap : ℕ) (s : Storage)
    (g : List CellHeap)
    → gc_mark content fuel s.enclosure s.cells.heaps roots ≡ some g
    → gc_mark_and_sweep conf content fuel roots heap s ≡ (
        let before : Cells = record { heaps = g; freelist = s.cells.freelist } in
        let t : Storage = record { cells = (gc_sweep before).0; enclosure = s.enclosure } in
        if ltb (gc_sweep before).1 conf.heap_alloc_threshold then add_heap conf heap t else done t)
unfolding gc_mark_and_sweep
gc_mark_and_sweep-runs conf content fuel roots heap s g runs = ground (arith, runs)

-- A collection of the storage `s` up to the sweep, and what follows by how many cells are free in `t`,
-- that the sweep leaves.
abbrev pub Collection : StorageConf → (ℕ → Content) → Roots → ℕ → Storage → Outcome Storage → Type 0
Collection conf content roots heap s outcome =
    (t : Storage) × Collects content s.cells.heaps roots t
    × (length t.cells.heaps ≡ length s.cells.heaps)
    × (((conf.heap_alloc_threshold + length s.cells.freelist ≤ length t.cells.freelist)
          × (outcome ≡ done t))
        ⊎ ((length t.cells.freelist < conf.heap_alloc_threshold + length s.cells.freelist)
            × (((conf.n_heaps_max ≤ length s.cells.heaps) × (outcome ≡ exhausted))
                ⊎ ((length s.cells.heaps < conf.n_heaps_max)
                    × (u : Storage) × (outcome ≡ done u)
                    × (u.cells.heaps ≡ t.cells.heaps ++ ((heap, fresh_cells conf.heap_size) ∷ []))
                    × Collects content s.cells.heaps roots u))))

add_heap-Collection :
    (conf : StorageConf) (content : ℕ → Content) (roots : Roots) (heap : ℕ) (s t : Storage)
    → Collects content s.cells.heaps roots t
    → length t.cells.heaps ≡ length s.cells.heaps
    → length t.cells.freelist < conf.heap_alloc_threshold + length s.cells.freelist
    → Collection conf content roots heap s (add_heap conf heap t)
unfolding add_heap
add_heap-Collection conf content roots heap s t c as_long few =
    elim (Bool-cases (leb conf.n_heaps_max (length t.cells.heaps))) [
      | inl full ↦
          (t, c, as_long, inr (few, inl (ground (arith, full, as_long), ground (arith, full))))
      | inr space ↦
          let (heaps, d) = with_heap-Collects content s.cells.heaps roots heap conf.heap_size t c in
          (
            t,
            c,
            as_long,
            inr (
              few,
              inr (
                ground (arith, space, as_long),
                with_heap heap conf.heap_size t,
                ground (arith, space),
                heaps,
                d,
              ),
            ),
          )
    ]

-- A collection of sound heaps ends. Its sweep neither adds nor drops a heap, leaves every live cell
-- that can be reached from the roots as it is, frees every cell that cannot, and keeps the list of
-- free cells exact. Where this list has grown by at least the threshold, that is all; where it has
-- grown by less, a heap of free cells is added, which leaves all this true of the cells, or, where
-- there are as many heaps as there may be, the collection ends with the fatal error.
pub gc_mark_and_sweep-Collects :
    (conf : StorageConf) (content : ℕ → Content) (fuel : ℕ) (roots : Roots) (heap : ℕ) (s : Storage)
    → Sound content s.enclosure s.cells.heaps roots
    → FreelistExact s.cells
    → unmarked s.cells.heaps < fuel
    → Collection conf content roots heap s (gc_mark_and_sweep conf content fuel roots heap s)
gc_mark_and_sweep-Collects conf content fuel roots heap s sound exact lt =
    let h = s.cells.heaps in
    let (g, runs, iff, kept, as_long, free_kept) =
      gc_mark-Reachable content fuel s.enclosure h roots sound lt in
    let before : Cells = record { heaps = g; freelist = s.cells.freelist } in
    let (same, n, still) = gc_sweep-swept before (λ a. exact a ∙ sym (free_kept a)) in
    let t : Storage = record { cells = (gc_sweep before).0; enclosure = s.enclosure } in
    let at : (a : ℕ) → cell_at a t.cells.heaps ≡ Option.map swept (cell_at a g) =
      λ (a : ℕ). ap (cell_at a) same ∙ cell_at-all_swept a g in
    let c : Collects content h roots t = record {
      keeps = λ a r e. at a ∙ (swept_kept (cell_at a h) (cell_at a g) (kept a)).0 ((iff a).1 r) e;
      frees = λ a it none_to.
          at a
          ∙ (swept_kept (cell_at a h) (cell_at a g) (kept a)).1 (not_reached (iff a).0 none_to) it;
      stay_free = λ a e. at a ∙ (swept_kept (cell_at a h) (cell_at a g) (kept a)).2 e;
      freelist_exact = still;
    } in
    let lengths = ap length same ∙ length-all_swept g ∙ as_long in
    let grown = length-gc_sweep before in
    let collected = gc_mark_and_sweep-runs conf content fuel roots heap s g runs in
    elim (Bool-cases (ltb (gc_sweep before).1 conf.heap_alloc_threshold)) [
      | inr enough ↦
          (t, c, lengths, inl (ground (arith, enough, grown), ground (arith, collected, enough)))
      | inl few ↦
          let runs_on : gc_mark_and_sweep conf content fuel roots heap s ≡ add_heap conf heap t =
            ground (arith, collected, few) in
          subst (Collection conf content roots heap s) (sym runs_on)
            (add_heap-Collection conf content roots heap s t c lengths (ground (arith, few, grown)))
    ]

-- What it comes to, without how many cells it freed.
pub gc_mark_and_sweep-done :
    (conf : StorageConf) (content : ℕ → Content) (fuel : ℕ) (roots : Roots) (heap : ℕ) (s : Storage)
    → Sound content s.enclosure s.cells.heaps roots
    → FreelistExact s.cells
    → unmarked s.cells.heaps < fuel
    → ((conf.n_heaps_max ≤ length s.cells.heaps)
        × (gc_mark_and_sweep conf content fuel roots heap s ≡ exhausted))
      ⊎ ((t : Storage) × (gc_mark_and_sweep conf content fuel roots heap s ≡ done t)
          × Collects content s.cells.heaps roots t)
gc_mark_and_sweep-done conf content fuel roots heap s sound exact lt =
    let (t, c, _, rest) =
      gc_mark_and_sweep-Collects conf content fuel roots heap s sound exact lt in
    elim rest [
      | inl (_, ends) ↦ inr (t, ends, c)
      | inr (_, inl full) ↦ inl full
      | inr (_, inr (_, u, ends, _, d)) ↦ inr (u, ends, d)
    ]
