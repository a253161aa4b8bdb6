-- ===== src/Gc/MarkBits.antt =====
-- src/storage-gc.c: the mark bits of the heaps and the fields of their cells, address by address.
use mathlib.Core.Option
use sigscheme.Base.{
  ℕ, suc, ◌≡◌, refl, subst, inl, inr, Bool, true, false, not, ◌||◌, Option, none, some, List, [],
  ◌∷◌, arith, ◌==◌, if◌then◌else◌, ==_iff, Bool-cases, Option-cases, length,
}
use sigscheme.Gc.Memory.{
  Cell, is_free, is_marked, marked, CellHeap, cell_in, mark_in, cell_at, mark_at, cell_at-mark_at,
}
use sigscheme.Gc.Sweep.{free_at, all_free_at}
use sigscheme.Gc.Mark.{GcObj, constant, cell, Content, fields_of}

abbrev pub bit_of : Option Cell → Bool
bit_of none = false
bit_of (some c) = is_marked c

abbrev pub mark_bit : ℕ → List CellHeap → Bool
mark_bit a heaps = bit_of (cell_at a heaps)

abbrev pub is_some : Option Cell → Bool
is_some none = false
is_some (some _) = true

-- Whether the address is that of a cell.
abbrev pub has : ℕ → List CellHeap → Bool
has a heaps = is_some (cell_at a heaps)

abbrev pub fields_in : Content → Option Cell → List GcObj
fields_in content none = []
fields_in content (some c) = fields_of content c

abbrev pub fields_at : (ℕ → Content) → List CellHeap → ℕ → List GcObj
fields_at content heaps a = fields_in (content a) (cell_at a heaps)

-- A cell that is free or not as before has the same fields.
pub fields_in-kept :
    (content : Content) (o p : Option Cell)
    → Option.map is_free p ≡ Option.map is_free o
    → (fields_in content p ≡ fields_in content o) × (is_some p ≡ is_some o)
fields_in-kept content o p e = ground arith

abbrev pub IsMarked : List CellHeap → GcObj → Type 0
IsMarked heaps constant = Unit
IsMarked heaps (cell a) = mark_bit a heaps ≡ true

abbrev pub On : (ℕ → Type 0) → GcObj → Type 0
On P constant = Unit
On P (cell a) = P a

if_marked_kind :
    (same : Bool) (o : Option Cell)
    → Option.map is_free (if same then Option.map marked o else o) ≡ Option.map is_free o
if_marked_kind same o = ground arith

if_marked_bit :
    (same : Bool) (o : Option Cell)
    → is_some o || not same ≡ true
    → bit_of (if same then Option.map marked o else o) ≡ (same || bit_of o)
if_marked_bit same o e = ground arith

pub kind-mark_at :
    (a b : ℕ) (h : List CellHeap)
    → Option.map is_free (cell_at b (mark_at a h)) ≡ Option.map is_free (cell_at b h)
kind-mark_at a b h = rw (cell_at-mark_at a b h) (if_marked_kind (a == b) (cell_at b h))

pub bit-mark_at :
    (a b : ℕ) (h : List CellHeap)
    → has a h ≡ true
    → mark_bit b (mark_at a h) ≡ (a == b || mark_bit b h)
bit-mark_at a b h there =
    let known : is_some (cell_at b h) || not (a == b) ≡ true = elim (Bool-cases (a == b)) [
      | inl same ↦
          let it : a ≡ b = (==_iff a b).0 same in
          let there_b : is_some (cell_at b h) ≡ true =
            subst (λ (k : ℕ). is_some (cell_at k h) ≡ true) it there in
          ground (arith, there_b)
      | inr differ ↦ ground (arith, differ)
    ] in
    rw (cell_at-mark_at a b h) (if_marked_bit (a == b) (cell_at b h) known)

abbrev pub cells_of : (ℕ → Bool) → List GcObj → List GcObj
cells_of ok [] = []
cells_of ok (constant ∷ objs) = cells_of ok objs
cells_of ok (cell a ∷ objs) = if ok a then cell a ∷ cells_of ok objs else cells_of ok objs

pub length-mark_at : (a : ℕ) (h : List CellHeap) → length (mark_at a h) ≡ length h
length-mark_at a [] = refl
length-mark_at a (heap ∷ h) = elim (Option-cases (cell_in a heap.0 heap.1)) [
  | inl missing ↦ ground (arith, missing, length-mark_at a h)
  | inr (c, found) ↦ ground (arith, found)
]

free_at-mark_in :
    (a b base : ℕ) (cells : List Cell)
    → free_at b base (mark_in a base cells) ≡ free_at b base cells
free_at-mark_in a b base [] = refl
free_at-mark_in a b base (c ∷ cells) = ground (arith, free_at-mark_in a b (suc base) cells)

pub all_free_at-mark_at :
    (a b : ℕ) (h : List CellHeap) → all_free_at b (mark_at a h) ≡ all_free_at b h
all_free_at-mark_at a b [] = refl
all_free_at-mark_at a b (heap ∷ h) = elim (Option-cases (cell_in a heap.0 heap.1)) [
  | inl missing ↦ ground (arith, missing, all_free_at-mark_at a b h)
  | inr (c, found) ↦ ground (arith, found, free_at-mark_in a b heap.0 heap.1)
]
