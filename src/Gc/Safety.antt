-- ===== src/Gc/Safety.antt =====
-- src/storage-gc.c: what a collection keeps and what it frees.
use mathlib.Core.Option
use sigscheme.Base.{
  ℕ, ◌<◌, ◌≡◌, refl, sym, ◌∙◌, ◌≢◌, ◌↔◌, inl, inr, Bool, true, false, some, List, arith, length,
  All,
}
use sigscheme.Gc.Memory.{is_free, CellHeap, cell_at, unmarked}
use sigscheme.Gc.MarkBits.{mark_bit, has, fields_at, IsMarked, On, cells_of, fields_in-kept}
use sigscheme.Gc.Mark.{
  GcObj, cell, Content, Enclosure, within_heapp, other_cell, mark_global_vars, Roots, gc_mark,
}
use sigscheme.Gc.Reach.{Ready, Marks-trans, Ready-kept, mark_each_from, mark_locations-Marks}
use sigscheme.Gc.RootCells.{
  global_roots, Reachable, from_stack, from_global, from_cell, Encloses, All-Among, Among-All,
  All-cells_of, cells_of-All, within_heapp-has,
}
use sigscheme.Gc.Sweep.{all_free_at}

-- No cell is marked, the enclosure holds every cell, and what can be reached is a cell.
pub record Sound (content : ℕ → Content) (e : Enclosure) (h : List CellHeap) (roots : Roots)
    : Type 0 where
  pub clean : (a : ℕ) → mark_bit a h ≡ false
  pub encloses : Encloses e h
  pub no_dangling : (a : ℕ) → Reachable content h roots a → has a h ≡ true

within_heapp-kept :
    (e : Enclosure) (h k : List CellHeap)
    → Encloses e h
    → ((a : ℕ) → Option.map is_free (cell_at a k) ≡ Option.map is_free (cell_at a h))
    → (a : ℕ) → within_heapp e k (cell a) ≡ has a h
within_heapp-kept e h k enc kept a =
    let same : (b : ℕ) → has b k ≡ has b h =
      λ (b : ℕ). (fields_in-kept other_cell (cell_at b h) (cell_at b k) (kept b)).1 in
    within_heapp-has e k a (λ b it. enc b (sym (same b) ∙ it)) ∙ same a

-- What is marked is closed under the fields of cells, so that all that can be reached is marked.
Reachable-marked :
    (content : ℕ → Content) (h g : List CellHeap) (roots : Roots)
    → ((a : ℕ) → mark_bit a g ≡ true → All (IsMarked g) (fields_at content h a))
    → All (IsMarked g) (cells_of (λ (a : ℕ). has a h) roots.stack)
    → All (IsMarked g) (global_roots roots)
    → (a : ℕ) → Reachable content h roots a
    → mark_bit a g ≡ true
Reachable-marked content h g roots closed stack global a (from_stack m it) =
    cells_of-All g (λ (b : ℕ). has b h) roots.stack a m it stack
Reachable-marked content h g roots closed stack global a (from_global m) =
    Among-All g (global_roots roots) a m global
Reachable-marked content h g roots closed stack global b (from_cell {a} p m) =
    Among-All g (fields_at content h a) b m
      (closed a (Reachable-marked content h g roots closed stack global a p))

-- With more fuel than there are cells without a mark, gc_mark comes to heaps in which just the cells
-- that can be reached from the roots are marked, and as many heaps with the same cells free as before.
pub gc_mark-Reachable :
    (content : ℕ → Content) (fuel : ℕ) (e : Enclosure) (h : List CellHeap) (roots : Roots)
    → Sound content e h roots
    → unmarked h < fuel
    → (g : List CellHeap) × (gc_mark content fuel e h roots ≡ some g)
      × ((a : ℕ) → (mark_bit a g ≡ true) ↔ Reachable content h roots a)
      × ((a : ℕ) → Option.map is_free (cell_at a g) ≡ Option.map is_free (cell_at a h))
      × (length g ≡ length h)
      × ((a : ℕ) → all_free_at a g ≡ all_free_at a h)
unfolding gc_mark mark_global_vars
gc_mark-Reachable content fuel e h roots sound lt =
    let F : ℕ → List GcObj = fields_at content h in
    let P : ℕ → Type 0 = Reachable content h roots in
    let ok : ℕ → Bool = λ (a : ℕ). has a h in
    let P-fields : (a : ℕ) → P a → All (On P) (F a) =
      λ a p. All-Among P (F a) (λ b m. from_cell p m) in
    let ready : Ready content F P P-fields h = record {
      fits = λ a. refl;
      present = sound.no_dangling;
    } in
    let (k, first_runs, first) =
      mark_locations-Marks content F P P-fields e ok fuel h roots.stack
        (λ l keeps. within_heapp-kept e h l sound.encloses keeps) ready
        (All-cells_of P ok roots.stack (λ a m it. from_stack m it)) lt in
    let (g, runs, rest) =
      mark_each_from content F P P-fields k (global_roots roots) fuel
        (Ready-kept content F P P-fields h k first.kept ready)
        (All-Among P (global_roots roots) (λ a m. from_global m)) (omega (arith, first.less)) in
    let (both, stack) =
      Marks-trans content F P P-fields h k g (cells_of ok roots.stack) (global_roots roots) first
        rest in
    let not_new : (a : ℕ) → mark_bit a h ≢ true = λ a m. absurd (ground (arith, sound.clean a)) in
    let closed : (a : ℕ) → mark_bit a g ≡ true → All (IsMarked g) (F a) =
      λ a m. elim (both.done a m) [ inl old ↦ absurd (not_new a old) | inr new ↦ new ] in
    let back : (a : ℕ) → mark_bit a g ≡ true → P a =
      λ a m. elim (both.sound a m) [ inl old ↦ absurd (not_new a old) | inr new ↦ new ] in
    (
      g,
      ground (arith, first_runs, runs),
      λ a. (back a, Reachable-marked content h g roots closed stack both.target a),
      both.kept,
      both.as_long,
      both.free_kept,
    )
