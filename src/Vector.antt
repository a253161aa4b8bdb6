-- ===== src/Vector.antt =====
-- src/vector.c: vectors. A vector object is `other p` where the store of vectors has one at `p`; a call
-- gives the store that it leaves, and an error leaves it as it was. `const_literal` is
-- SCM_CONST_VECTOR_LITERAL.
pub mod RoundTrip
pub mod Access
mod Tests
use sigscheme.Base.{
  ℕ, zero, suc, Bool, true, false, not, ◌||◌, Option, none, some, List, [], ◌∷◌, length, get_elem?,
  set,
}
use sigscheme.Base.Int.{ℤ, pos, negsuc}
use sigscheme.Object.{
  Obj, undef, int, boolean, other, Heap, car, cdr, update, err, err_obj, Proc, pure, ◌>>=◌, ◌>>◌,
  fail, ensure, ok,
}
use sigscheme.Pairs.{scm_length, or_diverge}
use sigscheme.Pairs.Traverse.{Queue, empty_queue, queue_add}

pub record VectorCell : Type 0 where
  pub elements : List Obj
  pub is_mutable : Bool

pub record Vectors : Type 0 where
  pub next : ℕ
  pub vector : ℕ → Option VectorCell

-- What a procedure does with the objects in its heap and with the vectors.
abbrev pub VectorProc : Type 0
VectorProc = Proc (Obj × Vectors)

abbrev pub not_vector : {A : Type 0} → Obj → Proc A
not_vector obj = fail (err_obj "vector required but got" obj)

-- ENSURE_VECTOR, and the vector.
abbrev pub the_vector : {A : Type 0} → Obj → Option VectorCell → (VectorCell → Proc A) → Proc A
the_vector obj none f = not_vector obj
the_vector obj (some v) f = f v

abbrev pub vector_of : Vectors → Obj → Option VectorCell
vector_of vs (other p) = vs.vector p
vector_of vs _ = none

abbrev pub address : Obj → ℕ
address (other p) = p
address _ = 0

-- MAKE_VECTOR
abbrev pub make : List Obj → Vectors → Vectors
make elements vs = record {
  next = suc vs.next;
  vector = update vs.vector vs.next (some (record { elements = elements; is_mutable = true }));
}

-- A write to the elements of the vector `v` that `obj` is.
abbrev pub write : Obj → VectorCell → List Obj → Vectors → Vectors
write obj v elements vs = record vs {
  vector = update vs.vector (address obj) (some (record v { elements = elements }));
}

abbrev pub is_some : Option VectorCell → Bool
is_some none = false
is_some (some _) = true

unfoldable pub p_vectorp : Vectors → Obj → Obj
p_vectorp vs obj = boolean (is_some (vector_of vs obj))

abbrev pub filled : ℕ → Obj → List Obj
filled zero filler = []
filled (suc n) filler = filler ∷ filled n filler

-- The optional argument, which SCM_STRICT_ARGCHECK wants to be the last one. The list of those that are
-- too many, which the error carries, is left out.
abbrev pub filler_of : List Obj → Proc Obj
filler_of [] = pure undef
filler_of (filler ∷ []) = pure filler
filler_of (filler ∷ _ ∷ _) = fail (err "superfluous argument(s)")

unfoldable pub p_make_vector : Vectors → Obj → List Obj → VectorProc
p_make_vector vs (int (pos len)) args =
    filler_of args >>= λ filler. pure (other vs.next, make (filled len filler) vs)
p_make_vector vs (int (negsuc n)) args =
    fail (err_obj "length must be a non-negative integer" (int (negsuc n)))
p_make_vector vs len args = fail (err_obj "integer required but got" len)

unfoldable pub p_vector_length : Vectors → Obj → Proc Obj
p_vector_length vs vec = the_vector vec (vector_of vs vec) λ v. pure (int (pos (length v.elements)))

-- The element at a valid index, else the error.
abbrev pub valid_element : Obj → Option Obj → Proc Obj
valid_element k none = fail (err_obj "index out of range" k)
valid_element k (some element) = pure element

-- SCM_VECTOR_VALID_INDEXP with the element that is there
abbrev pub element_at : List Obj → Obj → Proc Obj
element_at elements (int (pos k)) = valid_element (int (pos k)) (get_elem? elements k)
element_at elements (int (negsuc k)) = fail (err_obj "index out of range" (int (negsuc k)))
element_at elements k = fail (err_obj "integer required but got" k)

unfoldable pub p_vector_ref : Vectors → Obj → Obj → Proc Obj
p_vector_ref vs vec k = the_vector vec (vector_of vs vec) λ v. element_at v.elements k

abbrev pub vector_writable : Bool → Obj → VectorCell → Proc (Unit {0})
vector_writable const_literal vec v =
    ensure (not const_literal || v.is_mutable) (err_obj "attempted to modify immutable vector" vec)

abbrev pub index_of : Obj → ℕ
index_of (int (pos k)) = k
index_of _ = 0

unfoldable pub p_vector_setx : Bool → Vectors → Obj → Obj → Obj → VectorProc
p_vector_setx const_literal vs vec k obj = the_vector vec (vector_of vs vec) λ v.
    vector_writable const_literal vec v
    >> (element_at v.elements k >>= λ _.
        pure (undef, write vec v (set v.elements (index_of k) obj) vs))

-- The loop of vector->list.
unfoldable pub add_elements : Queue → List Obj → Proc Queue
unfolding queue_add
add_elements q [] = pure q
add_elements q (element ∷ elements) = queue_add q element >>= λ q'. add_elements q' elements

unfoldable pub p_vector2list : Vectors → Obj → Proc Obj
unfolding add_elements
p_vector2list vs vec =
    the_vector vec (vector_of vs vec) λ v. add_elements empty_queue v.elements >>= λ q. pure q.ret

-- `for (i = 0; i < len; i++) vec[i] = POP(lst)`
unfoldable pub pop_elements : Heap → Obj → ℕ → List Obj
pop_elements h lst zero = []
pop_elements h lst (suc len) = car h lst ∷ pop_elements h (cdr h lst) len

abbrev pub proper_vector : Vectors → Obj → ℤ → VectorProc
proper_vector vs lst (pos len) h = ok (other vs.next, make (pop_elements h lst len) vs) h
proper_vector vs lst (negsuc _) h = fail (err_obj "proper list required but got" lst) h

unfoldable pub p_list2vector : ℕ → Vectors → Obj → VectorProc
unfolding pop_elements scm_length
p_list2vector fuel vs lst h = (or_diverge (scm_length fuel h lst) >>= proper_vector vs lst) h

unfoldable pub p_vector : ℕ → Vectors → Obj → VectorProc
unfolding p_list2vector
p_vector fuel vs args = p_list2vector fuel vs args

unfoldable pub p_vector_fillx : Bool → Vectors → Obj → Obj → VectorProc
p_vector_fillx const_literal vs vec fill = the_vector vec (vector_of vs vec) λ v.
    vector_writable const_literal vec v
    >> pure (undef, write vec v (filled (length v.elements) fill) vs)

unfoldable pub p_vector_mutablep : Vectors → Obj → Proc Obj
p_vector_mutablep vs vec = the_vector vec (vector_of vs vec) λ v. pure (boolean v.is_mutable)
