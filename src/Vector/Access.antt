-- ===== src/Vector/Access.antt =====
-- src/vector.c: vector-ref, vector-set! and vector-fill!.
use sigscheme.Base.{
  ℕ, zero, suc, ◌≤◌, ◌<◌, ◌≡◌, refl, sym, ap, ◌∙◌, ◌⊎◌, inl, inr, Bool, true, false, not, ◌||◌,
  Option, none, some, List, [], ◌∷◌, arith, ltb, ◌==◌, if◌then◌else◌, Bool-cases, length, get_elem?,
  set,
}
use sigscheme.Base.Int.{pos}
use sigscheme.Object.{Obj, undef, int, other, Heap, Outcome, ok, raise, err_obj}
use sigscheme.Vector.{
  Vectors, VectorCell, the_vector, valid_element, element_at, vector_of, write, p_vector_ref,
  p_vector_setx,
}

get_elem?-set :
    (xs : List Obj) (k j : ℕ) (x : Obj)
    → k < length xs
    → get_elem? (set xs k x) j ≡ (if k == j then some x else get_elem? xs j)
get_elem?-set [] k j x lt = absurd (omega arith)
get_elem?-set (y ∷ xs) zero zero x lt = ground arith
get_elem?-set (y ∷ xs) zero (suc j) x lt = ground arith
get_elem?-set (y ∷ xs) (suc k) zero x lt = ground arith
get_elem?-set (y ∷ xs) (suc k) (suc j) x lt = ground (arith, get_elem?-set xs k j x (omega arith))

set_write :
    (vs : Vectors) (p : ℕ) (v : VectorCell) (es : List Obj)
    → vector_of (write (other p) v es vs) (other p) ≡ some (record v { elements = es })
set_write vs p v es = ground arith

abbrev ref_of : Obj → Option VectorCell → ℕ → Heap → Outcome Obj
ref_of vec o j h = (the_vector vec o λ v. element_at v.elements (int (pos j))) h

abbrev element_of : Option Obj → ℕ → Heap → Outcome Obj
element_of o j h = valid_element (int (pos j)) o h

by_index :
    (b : Bool) (x : Obj) (o : Option Obj) (j : ℕ) (h : Heap)
    → element_of (if b then some x else o) j h ≡ (if b then ok x h else element_of o j h)
by_index true x o j h = refl
by_index false x o j h = refl

p_vector_ref-write :
    (vs : Vectors) (p k j : ℕ) (v : VectorCell) (x : Obj) (h : Heap)
    → vs.vector p ≡ some v
    → k < length v.elements
    → p_vector_ref (write (other p) v (set v.elements k x) vs) (other p) (int (pos j)) h
      ≡ (if k == j then ok x h else p_vector_ref vs (other p) (int (pos j)) h)
unfolding p_vector_ref
p_vector_ref-write vs p k j v x h e lt =
    ap (λ o. ref_of (other p) o j h) (set_write vs p v (set v.elements k x))
    ∙ ap (λ o. element_of o j h) (get_elem?-set v.elements k j x lt)
    ∙ by_index (k == j) x (get_elem? v.elements j) j h
    ∙ ap (λ o. if k == j then ok x h else o) (sym (ap (λ o. ref_of (other p) o j h) e))

get_elem?-valid : (xs : List Obj) (k : ℕ) → k < length xs → (x : Obj) × (get_elem? xs k ≡ some x)
get_elem?-valid [] k lt = absurd (omega arith)
get_elem?-valid (x ∷ xs) zero lt = (x, refl)
get_elem?-valid (x ∷ xs) (suc k) lt = get_elem?-valid xs k (omega arith)

get_elem?-beyond : (xs : List Obj) (k : ℕ) → length xs ≤ k → get_elem? xs k ≡ none
get_elem?-beyond [] k le = refl
get_elem?-beyond (x ∷ xs) zero le = absurd (omega arith)
get_elem?-beyond (x ∷ xs) (suc k) le = get_elem?-beyond xs k (omega arith)

-- vector-set! at an index of a vector that may be written makes vector-ref give the object there, and
-- what it gave at every other index; other vectors stay. At an index beyond the vector, vector-set! and
-- vector-ref are the error that says so.
pub p_vector_setx-p_vector_ref :
    (const_literal : Bool) (vs : Vectors) (p k : ℕ) (v : VectorCell) (x : Obj) (h : Heap)
    → vs.vector p ≡ some v
    → (not const_literal || v.is_mutable) ≡ true
    → ((k < length v.elements)
        × ((us : Vectors) × (p_vector_setx const_literal vs (other p) (int (pos k)) x h
              ≡ ok (undef, us) h)
            × ((j : ℕ)
                → p_vector_ref us (other p) (int (pos j)) h
                  ≡ (if k == j then ok x h else p_vector_ref vs (other p) (int (pos j)) h))
            × ((q : ℕ)
                → us.vector q ≡ (
                    if p == q
                    then some (record v { elements = set v.elements k x })
                    else vs.vector q))))
      ⊎ ((length v.elements ≤ k)
          × (p_vector_setx const_literal vs (other p) (int (pos k)) x h
              ≡ raise (err_obj "index out of range" (int (pos k))) h)
          × (p_vector_ref vs (other p) (int (pos k)) h
              ≡ raise (err_obj "index out of range" (int (pos k))) h))
unfolding p_vector_setx p_vector_ref
p_vector_setx-p_vector_ref const_literal vs p k v x h e m =
    elim (Bool-cases (ltb k (length v.elements))) [
      | inl inside ↦
          let lt : k < length v.elements = ground (arith, inside) in
          let (y, there) = get_elem?-valid v.elements k lt in
          inl (
            lt,
            (
              write (other p) v (set v.elements k x) vs,
              ground (arith, e, m, there),
              λ j. p_vector_ref-write vs p k j v x h e lt,
              λ q. refl,
            ),
          )
      | inr beyond ↦
          let le : length v.elements ≤ k = ground (arith, beyond) in
          let out = get_elem?-beyond v.elements k le in
          inr (le, ground (arith, e, m, out), ground (arith, e, out))
    ]
