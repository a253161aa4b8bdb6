-- ===== src/Gc/Allocate.antt =====
-- src/storage-gc.c: the cell that scm_alloc_cell gives.
use sigscheme.Base.{
  ℕ, zero, suc, ◌+◌, ◌≤◌, ◌<◌, ◌≡◌, refl, sym, ap, ◌⊎◌, inl, inr, List, [], ◌∷◌, arith, ltb, leb,
  ◌==◌, if◌then◌else◌, ==-refl, Bool-cases, length,
}
use sigscheme.Gc.Memory.{Cells, unmarked}
use sigscheme.Gc.Mark.{Content, Roots}
use sigscheme.Gc.Sweep.{gc_sweep, length-gc_sweep, occurrences, all_free_at, FreelistExact}
use sigscheme.Gc.Safety.{Sound, gc_mark-Reachable}
use sigscheme.Gc.Collect.{
  StorageConf, Storage, Outcome, exhausted, done, link_cells, with_heap, add_heap,
  gc_mark_and_sweep, alloc_cell, take_cell, stuck, assertion,
}
use sigscheme.Gc.Collected.{gc_mark_and_sweep-runs, gc_mark_and_sweep-done}

length-link_cells : (base n : ℕ) (next : List ℕ) → length (link_cells base n next) ≡ n + length next
unfolding link_cells
length-link_cells base zero next = omega arith
length-link_cells base (suc n) next = omega (arith, length-link_cells (suc base) n next)

length-with_heap :
    (heap n : ℕ) (s : Storage)
    → length (with_heap heap n s).cells.freelist ≡ n + length s.cells.freelist
unfolding with_heap
length-with_heap heap n s = length-link_cells heap n s.cells.freelist

done_injective : {s t : Storage} → done s ≡ done t → t ≡ s
done_injective {s = s} e = sym (
    ap (λ (o : Outcome Storage). elim o [ done x ↦ x | exhausted ↦ s | stuck ↦ s | assertion ↦ s ])
      e)

add_heap-done :
    (conf : StorageConf) (heap : ℕ) (s t : Storage)
    → 0 < conf.heap_size
    → add_heap conf heap s ≡ done t
    → 0 < length t.cells.freelist
unfolding add_heap
add_heap-done conf heap s t pos e =
    elim (Bool-cases (leb conf.n_heaps_max (length s.cells.heaps))) [
      | inl full ↦ absurd (ground (arith, full, e))
      | inr space ↦
          let it : t ≡ with_heap heap conf.heap_size s =
            done_injective (ground (arith, space, e)) in
          rw it (omega (arith, length-with_heap heap conf.heap_size s))
    ]

-- Some cell is free after a collection.
gc_mark_and_sweep-free :
    (conf : StorageConf) (content : ℕ → Content) (fuel : ℕ) (roots : Roots) (heap : ℕ)
    (s t : Storage)
    → Sound content s.enclosure s.cells.heaps roots
    → unmarked s.cells.heaps < fuel
    → 0 < conf.heap_alloc_threshold
    → 0 < conf.heap_size
    → gc_mark_and_sweep conf content fuel roots heap s ≡ done t
    → 0 < length t.cells.freelist
gc_mark_and_sweep-free conf content fuel roots heap s t sound lt threshold size e =
    let (g, runs, _, _, _, _) =
      gc_mark-Reachable content fuel s.enclosure s.cells.heaps roots sound lt in
    let before : Cells = record { heaps = g; freelist = s.cells.freelist } in
    let swept : Storage = record { cells = (gc_sweep before).0; enclosure = s.enclosure } in
    let collected = gc_mark_and_sweep-runs conf content fuel roots heap s g runs in
    elim (Bool-cases (ltb (gc_sweep before).1 conf.heap_alloc_threshold)) [
      | inl few ↦ add_heap-done conf heap swept t size (ground (arith, collected, few, e))
      | inr enough ↦
          let it : t ≡ swept = done_injective (ground (arith, collected, enough, e)) in
          rw it (ground (arith, enough, length-gc_sweep before))
    ]

-- The cell that is given is a free one, and only it is off the list of free cells.
pub record Gives (a : ℕ) (t : Storage) : Type 0 where
  pub was_free : 0 < all_free_at a t.cells.heaps
  pub off_list :
      (b : ℕ)
      → occurrences b t.cells.freelist + (if a == b then 1 else 0) ≡ all_free_at b t.cells.heaps

List-cases : (xs : List ℕ) → (xs ≡ []) ⊎ ((x : ℕ) × (rest : List ℕ) × (xs ≡ x ∷ rest))
List-cases [] = inl refl
List-cases (x ∷ rest) = inr (x, rest, refl)

take_cell-Gives :
    (s : Storage)
    → 0 < length s.cells.freelist
    → FreelistExact s.cells
    → (a : ℕ) × (t : Storage) × (take_cell s ≡ done (a, t)) × Gives a t
take_cell-Gives s some_free exact = elim (List-cases s.cells.freelist) [
  | inl e ↦ absurd (ground (arith, e))
  | inr (a, next, e) ↦
      let t : Storage = record s { cells = record { heaps = s.cells.heaps; freelist = next } } in
      (
        a,
        t,
        ground (arith, e),
        record {
          was_free = ground (arith, e, exact a, ==-refl a);
          off_list = λ b. ground (arith, e, exact b);
        },
      )
]

-- With room in a heap and a threshold of at least one cell, scm_alloc_cell gives a free cell and takes
-- just it off the list of free cells, or there are as many heaps as there may be; the assertion that
-- there is a free cell holds.
pub alloc_cell-Gives :
    (conf : StorageConf) (content : ℕ → Content) (fuel : ℕ) (roots : Roots) (heap : ℕ) (s : Storage)
    → Sound content s.enclosure s.cells.heaps roots
    → FreelistExact s.cells
    → unmarked s.cells.heaps < fuel
    → 0 < conf.heap_alloc_threshold
    → 0 < conf.heap_size
    → ((conf.n_heaps_max ≤ length s.cells.heaps)
        × (alloc_cell conf content fuel roots heap s ≡ exhausted))
      ⊎ ((a : ℕ) × (t : Storage) × (alloc_cell conf content fuel roots heap s ≡ done (a, t))
          × Gives a t)
unfolding alloc_cell
alloc_cell-Gives conf content fuel roots heap s sound exact lt threshold size =
    elim (List-cases s.cells.freelist) [
      | inr (x, rest, e) ↦
          let (a, t, runs, gives) = take_cell-Gives s (ground (arith, e)) exact in
          inr (a, t, ground (arith, e, runs), gives)
      | inl e ↦ elim (gc_mark_and_sweep-done conf content fuel roots heap s sound exact lt) [
        | inl (full, ends) ↦ inl (full, ground (arith, e, ends))
        | inr (c, collected, collects) ↦
            let some_free =
              gc_mark_and_sweep-free conf content fuel roots heap s c sound lt threshold size
                collected in
            let (a, t, runs, gives) = take_cell-Gives c some_free collects.freelist_exact in
            inr (a, t, ground (arith, e, collected, runs), gives)
      ]
    ]
