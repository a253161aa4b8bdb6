-- ===== src/Vector/RoundTrip.antt =====
-- src/vector.c: list->vector and vector->list, there and back.
use mathlib.Core.Path.{ap₂}
use mathlib.Core.List.{append_assoc, append-nil}
use sigscheme.Base.{
  ℕ, ◌+◌, ◌≤◌, ◌<◌, ◌≡◌, refl, ap, subst, ◌∙◌, true, Option, some, List, [], ◌∷◌, ◌++◌, arith,
  length,
}
use sigscheme.Base.Int.{ℤ}
use sigscheme.Object.{Obj, null, other, Heap, Outcome, ok, raise, out_of_fuel, ◌>>=◌, pure}
use sigscheme.Object.Chain.{IsList, IsListIn, SameBelow, SameBelow-trans, IsList-EndsAfter}
use sigscheme.Pairs.{or_diverge}
use sigscheme.Pairs.Traverse.{Ref, off_heap, ref_cdr, Queue, empty_queue, queue_add}
use sigscheme.Pairs.Queue.{Holds, holds_none, holds_some, Added, IsListIn-last, queue_add-Added}
use sigscheme.Pairs.Length.{scm_length-EndsAfter}
use sigscheme.Vector.{
  Vectors, VectorCell, make, vector_of, the_vector, add_elements, p_vector2list, pop_elements,
  proper_vector, p_list2vector,
}

-- The list of a queue ends in '() where elements are added.
abbrev pub ClosedAt : Obj → Ref → Heap → Type 0
ClosedAt ret off_heap h = ret ≡ null
ClosedAt ret (ref_cdr p) h = (h.pair p).cdr ≡ null

abbrev Closes : Outcome Queue → Type 0
Closes (ok q h) = ClosedAt q.ret q.place h
Closes _ = Unit

abbrev Older : Ref → Heap → Type 0
Older off_heap h = Unit
Older (ref_cdr p) h = p < h.next

queue_add-Closes :
    (ret dat : Obj) (place : Ref) (h : Heap)
    → Older place h
    → Closes (queue_add (record { ret = ret; place = place }) dat h)
unfolding queue_add
queue_add-Closes ret dat off_heap h old = ground arith
queue_add-Closes ret dat (ref_cdr p) h old = ground arith

Holds-Older : (lo : ℕ) (h : Heap) (q : Queue) (zs : List Obj) → Holds lo h q zs → Older q.place h
Holds-Older lo h q zs (holds_none e z) = rw e tt
Holds-Older lo h q zs (holds_some p ys e z l low high) = rw e high

closed_list :
    (lo : ℕ) (h : Heap) (q : Queue) (zs : List Obj)
    → Holds lo h q zs
    → ClosedAt q.ret q.place h
    → IsListIn h.next h q.ret zs null
closed_list lo h q zs (holds_none e z) closed =
    rw z (subst (λ place. ClosedAt q.ret place h) e closed)
closed_list lo h q zs (holds_some p ys e z l low high) closed =
    let end : (h.pair p).cdr ≡ null = subst (λ place. ClosedAt q.ret place h) e closed in
    rw z (
      subst (λ t. IsListIn h.next h q.ret (ys ++ (h.pair p).car ∷ []) t) end
        (IsListIn-last p h.next h h ys q.ret l (λ x lt. refl) high))

abbrev then_add : List Obj → Outcome Queue → Outcome Queue
then_add xs (ok q h) = add_elements q xs h
then_add xs (raise e h) = raise e h
then_add xs out_of_fuel = out_of_fuel

add_elements_step :
    (h k : Heap) (q q' : Queue) (x : Obj) (xs : List Obj)
    → queue_add q x h ≡ ok q' k
    → add_elements q (x ∷ xs) h ≡ add_elements q' xs k
unfolding add_elements
add_elements_step h k q q' x xs run = ap (then_add xs) run

add_elements-Added :
    (lo : ℕ) (h : Heap) (q : Queue) (zs xs : List Obj)
    → Holds lo h q zs
    → ClosedAt q.ret q.place h
    → lo ≤ h.next
    → (q' : Queue) × (g : Heap) × (add_elements q xs h ≡ ok q' g)
      × Added lo h (zs ++ xs) q' g
      × ClosedAt q'.ret q'.place g
unfolding add_elements
add_elements-Added lo h q zs [] hold closed le = (
  q,
  h,
  refl,
  record { holds = rw (append-nil zs) hold; same = λ p lt. refl; grows = omega arith },
  closed,
)
add_elements-Added lo h q zs (x ∷ xs) hold closed le =
    let (q₁, k, run, added) = queue_add-Added lo h q zs x hold le in
    let closed₁ : ClosedAt q₁.ret q₁.place k =
      subst Closes run (queue_add-Closes q.ret x q.place h (Holds-Older lo h q zs hold)) in
    let (q₂, g, run', added', closed₂) =
      add_elements-Added lo k q₁ (zs ++ x ∷ []) xs added.holds closed₁
        (omega (arith, added.grows)) in
    (
      q₂,
      g,
      add_elements_step h k q q₁ x xs run ∙ run',
      record {
        holds = subst (λ es. Holds lo g q₂ es) (append_assoc zs (x ∷ []) xs) added'.holds;
        same = SameBelow-trans lo h k g added.same added'.same;
        grows = omega (arith, added.grows, added'.grows);
      },
      closed₂,
    )

pop_elements-IsList :
    (h : Heap) (xs : List Obj) (lst : Obj)
    → IsList h lst xs null
    → pop_elements h lst (length xs) ≡ xs
unfolding pop_elements
pop_elements-IsList h [] lst e = refl
pop_elements-IsList h (x ∷ xs) lst (p, e, a, l) =
    rw e (ap₂ ◌∷◌ a (pop_elements-IsList h xs (h.pair p).cdr l))

abbrev then_vector : Vectors → Obj → Heap → Option ℤ → Outcome (Obj × Vectors)
then_vector vs lst h o = (or_diverge o >>= proper_vector vs lst) h

p_list2vector-make :
    (fuel : ℕ) (h : Heap) (vs : Vectors) (lst : Obj) (xs : List Obj)
    → IsList h lst xs null
    → length xs < fuel + fuel
    → p_list2vector fuel vs lst h ≡ ok (other vs.next, make xs vs) h
unfolding p_list2vector
p_list2vector-make fuel h vs lst xs l lt =
    ap (then_vector vs lst h)
      (scm_length-EndsAfter fuel h lst (length xs) null (IsList-EndsAfter h xs lst null l refl) lt)
    ∙ ap (λ es. ok (other vs.next, make es vs) h) (pop_elements-IsList h xs lst l)

vector_of-make :
    (vs : Vectors) (xs : List Obj)
    → vector_of (make xs vs) (other vs.next) ≡ some (record { elements = xs; is_mutable = true })
vector_of-make vs xs = ground arith

abbrev ret_of : Outcome Queue → Outcome Obj
ret_of (ok q h) = ok q.ret h
ret_of (raise e h) = raise e h
ret_of out_of_fuel = out_of_fuel

-- The list that vector->list gives for a vector, with its elements, of new pairs.
pub p_vector2list-List :
    (vs : Vectors) (vec : Obj) (v : VectorCell) (h : Heap)
    → vector_of vs vec ≡ some v
    → (ret : Obj) × (g : Heap) × (p_vector2list vs vec h ≡ ok ret g)
      × IsListIn g.next g ret v.elements null
      × SameBelow h.next h g
unfolding p_vector2list
p_vector2list-List vs vec v h e =
    let (q, g, run, added, closed) =
      add_elements-Added h.next h empty_queue [] v.elements (holds_none refl refl) refl
        (omega arith) in
    (
      q.ret,
      g,
      ap (λ o. (the_vector vec o λ w. add_elements empty_queue w.elements >>= λ q'. pure q'.ret) h)
            e
          ∙ ap ret_of run,
      closed_list h.next g q v.elements added.holds closed,
      added.same,
    )

-- list->vector of a proper list of n elements, which needs half as many rounds, gives a new vector of
-- its elements, and vector->list of this vector a new proper list of the same elements in order, and
-- leaves every older pair as it is.
pub list2vector-vector2list :
    (fuel : ℕ) (h : Heap) (vs : Vectors) (lst : Obj) (xs : List Obj)
    → IsList h lst xs null
    → length xs < fuel + fuel
    → (vec : Obj) × (us : Vectors) × (p_list2vector fuel vs lst h ≡ ok (vec, us) h)
      × (vector_of us vec ≡ some (record { elements = xs; is_mutable = true }))
      × ((ret : Obj) × (g : Heap) × (p_vector2list us vec h ≡ ok ret g)
          × IsListIn g.next g ret xs null
          × SameBelow h.next h g)
list2vector-vector2list fuel h vs lst xs l lt = (
  other vs.next,
  make xs vs,
  p_list2vector-make fuel h vs lst xs l lt,
  vector_of-make vs xs,
  p_vector2list-List (make xs vs) (other vs.next) (record { elements = xs; is_mutable = true }) h
      (vector_of-make vs xs),
)
