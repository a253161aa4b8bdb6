-- ===== src/Vector/Tests.antt =====
-- The theorems on vectors at a concrete store, and runs of the procedures.
use sigscheme.Base.{
  ℕ, ◌≤◌, ◌<◌, ◌≡◌, refl, ◌⊎◌, true, false, none, some, [], ◌∷◌, arith, ◌==◌, if◌then◌else◌,
}
use sigscheme.Base.Int.{pos, negsuc}
use sigscheme.Object.{
  Obj, Pair, Heap, null, undef, unbound, boolean, int, symbol, cons, other, ok, raise, err_obj,
}
use sigscheme.Object.Chain.{IsListIn, SameBelow}
use sigscheme.Vector.{
  Vectors, VectorCell, vector_of, make, p_vectorp, p_make_vector, p_vector_length, p_vector_ref,
  p_vector_setx, p_vector2list, p_list2vector, p_vector, p_vector_fillx, p_vector_mutablep,
}
use sigscheme.Vector.RoundTrip.{list2vector-vector2list}
use sigscheme.Vector.Access.{p_vector_setx-p_vector_ref}

abbrev pair_at : ℕ → Pair
pair_at p =
    if p == 0
    then record { car = symbol 0; cdr = cons 1; is_mutable = true }
    else record { car = symbol 1; cdr = null; is_mutable = true }

-- The list of two symbols.
abbrev heap : Heap
heap = record {
  next = 2;
  pair = pair_at;
  far = λ _. record { sym = null; depth = 0 };
  vcell = λ _. unbound;
}

abbrev literal : VectorCell
literal = record { elements = symbol 0 ∷ symbol 1 ∷ []; is_mutable = false }

abbrev store : Vectors
store = record { next = 1; vector = λ p. if p == 0 then some literal else none }

vector_runs :
    (p_vectorp store (other 0) ≡ boolean true)
    × (p_vector_length store (other 0) heap ≡ ok (int (pos 2)) heap)
    × (p_vector_mutablep store (other 0) heap ≡ ok (boolean false) heap)
    × (p_vector_ref store (other 0) (int (negsuc 0)) heap
        ≡ raise (err_obj "index out of range" (int (negsuc 0))) heap)
    × (p_vector_setx true store (other 0) (int (pos 0)) null heap
        ≡ raise (err_obj "attempted to modify immutable vector" (other 0)) heap)
    × (p_vector_fillx true store null null heap
        ≡ raise (err_obj "vector required but got" null) heap)
    × (p_make_vector store (int (pos 2)) [] heap
        ≡ ok (other 1, make (undef ∷ undef ∷ []) store) heap)
    × (p_vector 2 store (cons 0) heap ≡ ok (other 1, make (symbol 0 ∷ symbol 1 ∷ []) store) heap)
unfolding p_vectorp p_vector_length p_vector_mutablep p_vector_ref p_vector_setx p_vector_fillx
    p_make_vector p_vector
vector_runs = (refl, refl, refl, refl, refl, refl, refl, refl)

list2vector-vector2list_example :
    (vec : Obj) × (us : Vectors) × (p_list2vector 2 store (cons 0) heap ≡ ok (vec, us) heap)
    × (vector_of us vec ≡ some (record { elements = symbol 0 ∷ symbol 1 ∷ []; is_mutable = true }))
    × ((ret : Obj) × (g : Heap) × (p_vector2list us vec heap ≡ ok ret g)
        × IsListIn g.next g ret (symbol 0 ∷ symbol 1 ∷ []) null
        × SameBelow 2 heap g)
list2vector-vector2list_example =
    list2vector-vector2list 2 heap store (cons 0) (symbol 0 ∷ symbol 1 ∷ [])
      (0, refl, refl, (1, refl, refl, refl)) (omega arith)

p_vector_setx-p_vector_ref_example :
    ((1 < 2)
      × ((us : Vectors) × (p_vector_setx false store (other 0) (int (pos 1)) null heap
            ≡ ok (undef, us) heap)
          × ((j : ℕ)
              → p_vector_ref us (other 0) (int (pos j)) heap ≡ (
                  if 1 == j then ok null heap else p_vector_ref store (other 0) (int (pos j)) heap))
          × ((q : ℕ)
              → us.vector q ≡ (
                  if 0 == q
                  then some (record literal { elements = symbol 0 ∷ null ∷ [] })
                  else store.vector q))))
    ⊎ ((2 ≤ 1)
        × (p_vector_setx false store (other 0) (int (pos 1)) null heap
            ≡ raise (err_obj "index out of range" (int (pos 1))) heap)
        × (p_vector_ref store (other 0) (int (pos 1)) heap
            ≡ raise (err_obj "index out of range" (int (pos 1))) heap))
p_vector_setx-p_vector_ref_example =
    p_vector_setx-p_vector_ref false store 0 1 literal null heap refl refl
