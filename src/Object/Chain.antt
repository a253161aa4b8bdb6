-- ===== src/Object/Chain.antt =====
-- Lists in the heap as the chains of pairs that they are: the elements with the object behind the
-- last pair, the number of pairs, and the object behind a number of steps.
use sigscheme.Base.{
  ℕ, zero, suc, ◌≤◌, ◌<◌, ◌≡◌, refl, sym, ap, ◌∙◌, true, false, List, [], ◌∷◌, ◌++◌, arith, length,
}
use sigscheme.Object.{Obj, cons, Heap, cdr, is_cons, make_cons}

-- `o` is a list of the elements `xs` that ends in `tail`.
abbrev pub IsList : Heap → Obj → List Obj → Obj → Type 0
IsList h o [] tail = o ≡ tail
IsList h o (x ∷ xs) tail =
    (p : ℕ) × (o ≡ cons p) × ((h.pair p).car ≡ x) × IsList h (h.pair p).cdr xs tail

-- `(cdr (cdr … o))`
abbrev pub nth_cdr : Heap → Obj → ℕ → Obj
nth_cdr h o zero = o
nth_cdr h o (suc n) = nth_cdr h (cdr h o) n

-- `n` pairs, and then an object that is no pair.
abbrev pub EndsAfter : Heap → Obj → ℕ → Obj → Type 0
EndsAfter h o zero tail = (o ≡ tail) × (is_cons o ≡ false)
EndsAfter h o (suc n) tail = (is_cons o ≡ true) × EndsAfter h (cdr h o) n tail

-- All of the first steps go through pairs, for ever.
abbrev pub Endless : Heap → Obj → Type 0
Endless h o = (n : ℕ) → is_cons (nth_cdr h o n) ≡ true

pub IsList-EndsAfter :
    (h : Heap) (xs : List Obj) (o tail : Obj)
    → IsList h o xs tail
    → is_cons tail ≡ false
    → EndsAfter h o (length xs) tail
IsList-EndsAfter h [] o tail e t = (e, rw e t)
IsList-EndsAfter h (x ∷ xs) o tail (p, e, a, l) t =
    (ap is_cons e, rw e (IsList-EndsAfter h xs _ tail l t))

-- A list ends in one way.
pub EndsAfter-functional :
    (h : Heap) (o : Obj) (m n : ℕ) (s t : Obj)
    → EndsAfter h o m s
    → EndsAfter h o n t
    → (m ≡ n) × (s ≡ t)
EndsAfter-functional h o zero zero s t a b = (refl, sym a.0 ∙ b.0)
EndsAfter-functional h o zero (suc n) s t a b = cc
EndsAfter-functional h o (suc m) zero s t a b = cc
EndsAfter-functional h o (suc m) (suc n) s t a b =
    let (e, f) = EndsAfter-functional h (cdr h o) m n s t a.1 b.1 in (ap suc e, f)

pub nth_cdr-suc : (h : Heap) (o : Obj) (n : ℕ) → nth_cdr h o (suc n) ≡ cdr h (nth_cdr h o n)
nth_cdr-suc h o zero = refl
nth_cdr-suc h o (suc n) = nth_cdr-suc h (cdr h o) n

-- The same with every pair below an address, so that pairs made later are others.
abbrev pub IsListIn : ℕ → Heap → Obj → List Obj → Obj → Type 0
IsListIn b h o [] tail = o ≡ tail
IsListIn b h o (x ∷ xs) tail =
    (p : ℕ) × (o ≡ cons p) × (p < b) × ((h.pair p).car ≡ x) × IsListIn b h (h.pair p).cdr xs tail

-- No pair below the address has changed.
abbrev pub SameBelow : ℕ → Heap → Heap → Type 0
SameBelow b h g = (p : ℕ) → p < b → g.pair p ≡ h.pair p

pub SameBelow-trans : (b : ℕ) (h g k : Heap) → SameBelow b h g → SameBelow b g k → SameBelow b h k
SameBelow-trans b h g k s t p lt = t p lt ∙ s p lt

pub IsListIn-IsList :
    (b : ℕ) (h : Heap) (xs : List Obj) (o tail : Obj) → IsListIn b h o xs tail → IsList h o xs tail
IsListIn-IsList b h [] o tail e = e
IsListIn-IsList b h (x ∷ xs) o tail (p, e, lt, a, l) = (p, e, a, IsListIn-IsList b h xs _ tail l)

pub IsListIn-frame :
    (b c : ℕ) (h g : Heap) (xs : List Obj) (o tail : Obj)
    → IsListIn b h o xs tail
    → SameBelow b h g
    → b ≤ c
    → IsListIn c g o xs tail
IsListIn-frame b c h g [] o tail e same le = e
IsListIn-frame b c h g (x ∷ xs) o tail (p, e, lt, a, l) same le = (
  p,
  e,
  omega arith,
  ap (λ r. r.car) (same p lt) ∙ a,
  rw (same p lt) (IsListIn-frame b c h g xs _ tail l same le),
)

pub IsListIn-append :
    (b : ℕ) (h : Heap) (xs ys : List Obj) (o mid tail : Obj)
    → IsListIn b h o xs mid
    → IsListIn b h mid ys tail
    → IsListIn b h o (xs ++ ys) tail
IsListIn-append b h [] ys o mid tail e l = rw e l
IsListIn-append b h (x ∷ xs) ys o mid tail (p, e, lt, a, l) m =
    (p, e, lt, a, IsListIn-append b h xs ys _ mid tail l m)

-- A new pair leaves the old ones alone.
pub make_cons-SameBelow : (a d : Obj) (h : Heap) → SameBelow h.next h (make_cons a d h)
make_cons-SameBelow a d h p lt = ground arith

-- A list of objects made so far, with one more in front.
pub IsListIn-make_cons :
    (h : Heap) (xs : List Obj) (x o tail : Obj)
    → IsListIn h.next h o xs tail
    → IsListIn (suc h.next) (make_cons x o h) (cons h.next) (x ∷ xs) tail
IsListIn-make_cons h xs x o tail l =
    let g = make_cons x o h in
    let here : g.pair h.next ≡ record { car = x; cdr = o; is_mutable = true } = ground arith in
    (
      h.next,
      refl,
      omega arith,
      ap (λ r. r.car) here,
      rw here (
          IsListIn-frame h.next (suc h.next) h g xs o tail l (make_cons-SameBelow x o h)
            (omega arith)),
    )
