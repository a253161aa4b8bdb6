-- ===== src/Pairs/Queue.antt =====
-- include/sigscheme/sigscheme.h, ScmQueue: what a queue holds, and what adding to it does.
use mathlib.Core.List.{append_assoc, append-nil}
use sigscheme.Base.{
  ℕ, zero, suc, ◌≤◌, ◌<◌, ◌≡◌, refl, sym, ap, subst, ◌∙◌, false, List, [], ◌∷◌, ◌++◌, arith, length,
}
use sigscheme.Object.{Obj, null, cons, Heap, set_cdr, make_cons, is_cons, ok, ◌>>=◌}
use sigscheme.Object.Chain.{
  IsListIn, IsListIn-frame, IsListIn-append, SameBelow, SameBelow-trans, make_cons-SameBelow,
}
use sigscheme.Pairs.Traverse.{off_heap, ref_cdr, Queue, queue_add, queue_append, append_elements}

-- A list that reaches the last pair goes on behind it.
pub IsListIn-last :
    (p b : ℕ) (h g : Heap) (ys : List Obj) (o : Obj)
    → IsListIn p h o ys (cons p)
    → SameBelow p h g
    → p < b
    → IsListIn b g o (ys ++ (g.pair p).car ∷ []) (g.pair p).cdr
IsListIn-last p b h g ys o l same lt =
    IsListIn-append b g ys ((g.pair p).car ∷ []) o (cons p) (g.pair p).cdr
      (IsListIn-frame p b h g ys o (cons p) l same (omega arith)) (p, refl, lt, refl, refl)

-- A write to the cdr of a pair leaves the others alone, and its car.
set_cdr_lem :
    (p : ℕ) (v : Obj) (h : Heap)
    → SameBelow p h (set_cdr p v h)
      × (((set_cdr p v h).pair p).car ≡ (h.pair p).car)
      × (((set_cdr p v h).pair p).cdr ≡ v)
set_cdr_lem p v h = (λ q lt. ground arith, ground arith, ground arith)

-- The queue holds the elements `zs`, in pairs made since `lo`: all but the last in a list that
-- ends in the last pair, whose cdr is the place to add at.
pub data Holds (lo : ℕ) (h : Heap) (q : Queue) (zs : List Obj) : Type 0 where
  holds_none : q.place ≡ off_heap → zs ≡ [] → Holds lo h q zs
  holds_some :
      (p : ℕ) (ys : List Obj)
      → q.place ≡ ref_cdr p
      → zs ≡ ys ++ (h.pair p).car ∷ []
      → IsListIn p h q.ret ys (cons p)
      → lo ≤ p
      → p < h.next
      → Holds lo h q zs

-- What adding to the queue does.
pub record Added (lo : ℕ) (h : Heap) (zs : List Obj) (q : Queue) (g : Heap) : Type 0 where
  pub holds : Holds lo g q zs
  pub same : SameBelow lo h g
  pub grows : h.next ≤ g.next

-- The queue with its last pair pointing to `v`.
module _ (lo : ℕ) (h : Heap) (q : Queue) (zs : List Obj) (p : ℕ) (ys : List Obj)
    (z : zs ≡ ys ++ (h.pair p).car ∷ []) (l : IsListIn p h q.ret ys (cons p)) (low : lo ≤ p)
    (high : p < h.next) (v : Obj) where
  linked : (b : ℕ) → p < b → IsListIn b (set_cdr p v h) q.ret zs v
  linked b lt =
      let g = set_cdr p v h in
      let (same, a, d) = set_cdr_lem p v h in
      let whole = IsListIn-last p b h g ys q.ret l same lt in
      subst (λ t. IsListIn b g q.ret zs t) d
        (subst (λ es. IsListIn b g q.ret es (g.pair p).cdr) (ap (λ x. ys ++ x ∷ []) a ∙ sym z)
          whole)

pub queue_add-Added :
    (lo : ℕ) (h : Heap) (q : Queue) (zs : List Obj) (dat : Obj)
    → Holds lo h q zs
    → lo ≤ h.next
    → (q' : Queue) × (g : Heap) × (queue_add q dat h ≡ ok q' g) × Added lo h (zs ++ dat ∷ []) q' g
unfolding queue_add
queue_add-Added lo h q zs dat (holds_none e z) le =
    let g = make_cons dat null h in
    let made : (g.pair h.next).car ≡ dat = ground arith in
    (
      record { ret = cons h.next; place = ref_cdr h.next },
      g,
      rw e refl,
      record {
        holds = holds_some h.next [] refl (rw (z, made) refl) refl le (omega arith);
        same = λ x lt. make_cons-SameBelow dat null h x (omega arith);
        grows = omega arith;
      },
    )
queue_add-Added lo h q zs dat (holds_some p ys e z l low high) le =
    let k = make_cons dat null h in
    let g = set_cdr p (cons h.next) k in
    let old = make_cons-SameBelow dat null h in
    let made : (g.pair h.next).car ≡ dat = ground arith in
    let kept : (k.pair p).car ≡ (h.pair p).car = ap (λ r. r.car) (old p high) in
    let in_k =
      IsListIn-frame p p h k ys q.ret (cons p) l (λ x lt. old x (omega arith)) (omega arith) in
    (
      record { ret = q.ret; place = ref_cdr h.next },
      g,
      rw e refl,
      record {
        holds =
            holds_some h.next zs refl (rw made refl)
              (linked lo k q zs p ys (z ∙ ap (λ x. ys ++ x ∷ []) (sym kept)) in_k low (omega arith)
                (cons h.next) h.next high)
              le (omega arith);
        same = λ x lt. (set_cdr_lem p (cons h.next) k).0 x (omega arith) ∙ old x (omega arith);
        grows = omega arith;
      },
    )

append_elements_end :
    (fuel : ℕ) (h : Heap) (q : Queue) (lst : Obj)
    → is_cons lst ≡ false
    → append_elements (suc fuel) q lst h ≡ ok (q, lst) h
unfolding append_elements
append_elements_end fuel h q (cons p) c = cc
append_elements_end fuel h q _ c = refl

append_elements_step :
    (fuel : ℕ) (h k : Heap) (q q₁ : Queue) (p : ℕ)
    → queue_add q (h.pair p).car h ≡ ok q₁ k
    → append_elements (suc fuel) q (cons p) h ≡ append_elements fuel q₁ (h.pair p).cdr k
unfolding append_elements
append_elements_step fuel h k q q₁ p run = rw (run, ◌>>=◌)

pub append_elements-Added :
    (fuel lo : ℕ) (h : Heap) (q : Queue) (zs xs : List Obj) (lst tail : Obj)
    → Holds lo h q zs
    → IsListIn lo h lst xs tail
    → is_cons tail ≡ false
    → lo ≤ h.next
    → length xs < fuel
    → (q' : Queue) × (g : Heap) × (append_elements fuel q lst h ≡ ok (q', tail) g)
      × Added lo h (zs ++ xs) q' g
append_elements-Added zero lo h q zs xs lst tail hold l t le f = absurd (omega arith)
append_elements-Added (suc fuel) lo h q zs [] lst tail hold l t le f = (
  q,
  h,
  rw l (append_elements_end fuel h q tail t),
  record { holds = rw (append-nil zs) hold; same = λ p lt. refl; grows = omega arith },
)
append_elements-Added (suc fuel) lo h q zs (x ∷ xs) lst tail hold (p, e, lt, a, l) t le f =
    let (q₁, k, run, added) = queue_add-Added lo h q zs (h.pair p).car hold le in
    let (q₂, g, run', added') =
      append_elements-Added fuel lo k q₁ (zs ++ (h.pair p).car ∷ []) xs (h.pair p).cdr tail
        added.holds (IsListIn-frame lo lo h k xs (h.pair p).cdr tail l added.same (omega arith)) t
        (omega (arith, added.grows)) (omega arith) in
    (
      q₂,
      g,
      rw e (append_elements_step fuel h k q q₁ p run ∙ run'),
      record {
        holds =
            subst (λ es. Holds lo g q₂ es) (append_assoc zs _ xs ∙ ap (λ y. zs ++ y ∷ xs) a)
              added'.holds;
        same = SameBelow-trans lo h k g added.same added'.same;
        grows = omega (arith, added.grows, added'.grows);
      },
    )

pub queue_append-Holds :
    (lo : ℕ) (h : Heap) (q : Queue) (zs : List Obj) (last : Obj)
    → Holds lo h q zs
    → (ret : Obj) × (g : Heap) × (queue_append q last h ≡ ok ret g)
      × IsListIn g.next g ret zs last
      × SameBelow lo h g
      × (h.next ≡ g.next)
unfolding queue_append
queue_append-Holds lo h q zs last (holds_none e z) =
    (last, h, rw e refl, rw z refl, λ p lt. refl, refl)
queue_append-Holds lo h q zs last (holds_some p ys e z l low high) = (
  q.ret,
  set_cdr p last h,
  rw e refl,
  linked lo h q zs p ys z l low high last h.next high,
  λ x lt. (set_cdr_lem p last h).0 x (omega arith),
  refl,
)
