-- ===== src/Promise/Chain.antt =====
-- src/promise.c: force of a chain of delay-force promises, whose thunks give one another.
use sigscheme.Base.{
  ℕ, zero, suc, ◌<◌, ◌≡◌, refl, sym, ap, subst, ◌∙◌, inl, inr, Bool, true, false, ◌||◌, List, [],
  ◌∷◌, arith, ◌==◌, ==_iff, ==-refl, Bool-cases, length, All,
}
use sigscheme.Object.{Obj, Heap, cons, car, cdr, obj_eq, Proc, ok, ◌>>=◌, set_car}
use sigscheme.Promise.{
  promise_state, promise_value, is_done, done, delayed, delay_forced, force_loop, p_force,
  after_thunk, share_box,
}
use sigscheme.Promise.Forced.{write_pair, write_pair-car, write_pair-cdr, set_car-car, set_car-cdr}

abbrev pub listed : ℕ → List ℕ → Bool
listed x [] = false
listed x (y ∷ ys) = (y == x) || listed x ys

-- With thunks that give `value_of`, a box with this state and this thunk leads to `v` by the promises
-- of a list, whose pairs and boxes are all different and none of `used`.
abbrev pub LeadsTo : Obj → (Obj → Obj) → Heap → List ℕ → Obj → Obj → List ℕ → Obj → Type 0
LeadsTo tag value_of h used state thunk [] v = (state ≡ delayed) × (value_of thunk ≡ v)
LeadsTo tag value_of h used state thunk (r ∷ rs) v =
    (c : ℕ) × (state ≡ delay_forced)
    × (value_of thunk ≡ cons r)
    × (obj_eq (h.pair r).cdr tag ≡ true)
    × ((h.pair r).car ≡ cons c)
    × (listed r used ≡ false)
    × (listed c used ≡ false)
    × LeadsTo tag value_of h (r ∷ c ∷ used) (h.pair c).car (h.pair c).cdr rs v

-- Two heaps with the same pairs outside of a list.
abbrev pub SameOutside : List ℕ → Heap → Heap → Type 0
SameOutside used h g = (x : ℕ) → listed x used ≡ false → h.pair x ≡ g.pair x

or_false : (p q : Bool) → (p || q) ≡ false → (p ≡ false) × (q ≡ false)
or_false true q e = cc
or_false false q e = (refl, e)

LeadsTo-SameOutside :
    (tag : Obj) (value_of : Obj → Obj) (h g : Heap) (used : List ℕ) (state thunk : Obj)
    (rs : List ℕ) (v : Obj)
    → SameOutside used h g
    → LeadsTo tag value_of h used state thunk rs v
    → LeadsTo tag value_of g used state thunk rs v
LeadsTo-SameOutside tag value_of h g used state thunk [] v same leads = leads
LeadsTo-SameOutside tag value_of h g used state thunk (r ∷ rs) v same
      (c, es, et, tagged, box, new_r, new_c, leads) =
    let same_r = same r new_r in
    let same_c = same c new_c in
    (
      c,
      es,
      et,
      subst (λ p. obj_eq p.cdr tag ≡ true) same_r tagged,
      subst (λ p. p.car ≡ cons c) same_r box,
      new_r,
      new_c,
      subst (λ p. LeadsTo tag value_of g (r ∷ c ∷ used) p.car p.cdr rs v) same_c
          (LeadsTo-SameOutside tag value_of h g (r ∷ c ∷ used) (h.pair c).car (h.pair c).cdr rs v
            (λ x e. same x (or_false (c == x) _ (or_false (r == x) _ e).1).1) leads),
    )

write_pair-other :
    (b : ℕ) (s v : Obj) (h : Heap) (x : ℕ)
    → (b == x) ≡ false
    → (write_pair b s v h).pair x ≡ h.pair x
write_pair-other b s v h x e = rw e refl

or_true : (p q : Bool) → q ≡ true → (p || q) ≡ true
or_true true q e = refl
or_true false q e = e

set_car-other :
    (r : ℕ) (v : Obj) (h : Heap) (x : ℕ) → (r == x) ≡ false → (set_car r v h).pair x ≡ h.pair x
set_car-other r v h x e = rw e refl

listed-apart :
    (x y : ℕ) (used : List ℕ) → listed x used ≡ true → listed y used ≡ false → (x == y) ≡ false
listed-apart x y used e f = elim (Bool-cases (x == y)) [
  | inl same ↦ cc (subst (λ n. listed n used ≡ true) ((==_iff x y).0 same) e, f)
  | inr apart ↦ apart
]

==_sym : (x y : ℕ) → (x == y) ≡ false → (y == x) ≡ false
==_sym x y e = ground arith

-- None of the promises to come is one that was used.
LeadsTo-listed :
    (tag : Obj) (value_of : Obj → Obj) (h : Heap) (used : List ℕ) (state thunk : Obj) (rs : List ℕ)
    (v : Obj) (y : ℕ)
    → listed y used ≡ true
    → LeadsTo tag value_of h used state thunk rs v
    → listed y rs ≡ false
LeadsTo-listed tag value_of h used state thunk [] v y e leads = refl
LeadsTo-listed tag value_of h used state thunk (r ∷ rs) v y e (c, _, _, _, _, new_r, new_c, leads) =
    rw (==_sym y r (listed-apart y r used e new_r)) (
      LeadsTo-listed tag value_of h (r ∷ c ∷ used) (h.pair c).car (h.pair c).cdr rs v y
        (or_true (r == y) _ (or_true (c == y) _ e)) leads)

bind-ok :
    {A B : Type 0} (m : Proc A) (f : A → Proc B) (h : Heap) (r : A) (g : Heap)
    → m h ≡ ok r g
    → (m >>= f) h ≡ f r g
bind-ok m f h r g e = ap (λ o. ◌>>=◌ (λ _. o) f h) e

-- The promise at `a` has the box `b` with this state and thunk.
abbrev pub IsAt : Obj → ℕ → ℕ → Heap → Obj → Obj → Type 0
IsAt tag a b h state thunk =
    ((h.pair a).car ≡ cons b)
    × (obj_eq (h.pair a).cdr tag ≡ true)
    × ((h.pair b).car ≡ state)
    × ((h.pair b).cdr ≡ thunk)

-- What is left of the heap after a chain was forced.
abbrev pub IsChainForced : ℕ → ℕ → Heap → Heap → List ℕ → Obj → Type 0
IsChainForced a b h h' rs v =
    ((h'.pair a).car ≡ cons b)
    × ((h'.pair b).car ≡ done)
    × ((h'.pair b).cdr ≡ v)
    × All (λ r. (h'.pair r).car ≡ cons b) rs
    × ((x : ℕ) → (b == x) ≡ false → listed x rs ≡ false → h'.pair x ≡ h.pair x)

module _ (tag : Obj) (value_of : Obj → Obj) (call : Obj → Proc Obj)
    (computes : (thunk : Obj) (h : Heap) → call thunk h ≡ ok (value_of thunk) h) (a b : ℕ)
    (apart : (b == a) ≡ false) where
  -- A round that ends: the value is kept in the box.
  last_round :
      (h : Heap) (thunk v : Obj) (fuel : ℕ)
      → IsAt tag a b h delayed thunk
      → value_of thunk ≡ v
      → force_loop call tag (suc fuel) (cons a) h ≡ ok v (write_pair b done v h)
  unfolding force_loop
  last_round h thunk v fuel (box, tagged, state, value) gives =
      let open_yet : is_done h (cons a) ≡ false =
        ap (λ o. obj_eq (car h o) done) box ∙ ap (λ o. obj_eq o done) state in
      let is_delayed : obj_eq (promise_state h (cons a)) delayed ≡ true =
        ap (λ o. obj_eq (car h o) delayed) box ∙ ap (λ o. obj_eq o delayed) state in
      let now : promise_value h (cons a) ≡ thunk = ap (cdr h) box ∙ value in
      rw open_yet (
        bind-ok (call (promise_value h (cons a)))
          (after_thunk tag (cons a) (promise_state h (cons a)) (force_loop call tag fuel (cons a)))
          h (value_of (promise_value h (cons a))) h (computes (promise_value h (cons a)) h)
        ∙ rw open_yet (
            rw is_delayed
              (rw box (ap (λ o. ok o (write_pair b done o h)) (ap value_of value ∙ gives)))))

  -- A round that goes on with what the box of the next promise holds.
  abbrev after_sharing : ℕ → ℕ → Heap → Heap
  after_sharing r c h = set_car r (cons b) (write_pair b (h.pair c).car (h.pair c).cdr h)

  chained_round :
      (h : Heap) (thunk : Obj) (r c fuel : ℕ)
      → IsAt tag a b h delay_forced thunk
      → value_of thunk ≡ cons r
      → obj_eq (h.pair r).cdr tag ≡ true
      → (h.pair r).car ≡ cons c
      → force_loop call tag (suc fuel) (cons a) h
        ≡ force_loop call tag fuel (cons a) (after_sharing r c h)
  unfolding force_loop
  chained_round h thunk r c fuel (box, tagged, state, value) gives tagged_r from =
      let open_yet : is_done h (cons a) ≡ false =
        ap (λ o. obj_eq (car h o) done) box ∙ ap (λ o. obj_eq o done) state in
      let not_delayed : obj_eq (promise_state h (cons a)) delayed ≡ false =
        ap (λ o. obj_eq (car h o) delayed) box ∙ ap (λ o. obj_eq o delayed) state in
      let now : promise_value h (cons a) ≡ thunk = ap (cdr h) box ∙ value in
      let called : call (promise_value h (cons a)) h ≡ ok (cons r) h =
        computes (promise_value h (cons a)) h ∙ ap (λ o. ok o h) (ap value_of now ∙ gives) in
      let s = (h.pair c).car in
      let shared : share_box (cons a) (cons r) h
          ≡ ok tt (set_car r (cons b) (write_pair b s ((set_car b s h).pair c).cdr h)) =
        rw (box, from) refl in
      let shared' : share_box (cons a) (cons r) h ≡ ok tt (after_sharing r c h) =
        shared ∙ ap (λ v. ok tt (set_car r (cons b) (write_pair b s v h))) (set_car-cdr b s h c) in
      rw open_yet (
        bind-ok (call (promise_value h (cons a)))
          (after_thunk tag (cons a) (promise_state h (cons a)) (force_loop call tag fuel (cons a)))
          h (cons r) h called
        ∙ rw open_yet (
            rw not_delayed (
              rw tagged_r (
                bind-ok (share_box (cons a) (cons r)) (λ _. force_loop call tag fuel (cons a)) h tt
                  (after_sharing r c h) shared'))))

  force_loop-chain :
      (rs : List ℕ) (h : Heap) (used : List ℕ) (state thunk v : Obj) (fuel : ℕ)
      → IsAt tag a b h state thunk
      → listed a used ≡ true
      → listed b used ≡ true
      → LeadsTo tag value_of h used state thunk rs v
      → length rs < fuel
      → (h' : Heap) × (force_loop call tag fuel (cons a) h ≡ ok v h') × IsChainForced a b h h' rs v
  force_loop-chain rs h used state thunk v zero at ua ub leads lt = absurd (omega arith)
  force_loop-chain [] h used state thunk v (suc fuel) (box, tagged, es, ev) ua ub
        (delay_here, gives) lt =
      (
        write_pair b done v h,
        last_round h thunk v fuel (box, tagged, es ∙ delay_here, ev) gives,
        (
          write_pair-car b done v h a ∙ rw apart box,
          write_pair-car b done v h b ∙ rw (==-refl b) refl,
          write_pair-cdr b done v h b ∙ rw (==-refl b) refl,
          tt,
          λ x e _. write_pair-other b done v h x e,
        ),
      )
  force_loop-chain (r ∷ rs) h used state thunk v (suc fuel) (box, tagged, es, ev) ua ub
        (c, force_here, gives, tagged_r, from, new_r, new_c, leads) lt =
      let g = after_sharing r c h in
      let written = write_pair b (h.pair c).car (h.pair c).cdr h in
      let r_a = ==_sym a r (listed-apart a r used ua new_r) in
      let r_b = ==_sym b r (listed-apart b r used ub new_r) in
      let outside = λ (x : ℕ) (er : (r == x) ≡ false) (eb : (b == x) ≡ false).
        set_car-other r (cons b) written x er
        ∙ write_pair-other b (h.pair c).car (h.pair c).cdr h x eb in
      let same_a : g.pair a ≡ h.pair a = outside a r_a apart in
      let same_b : g.pair b ≡ written.pair b = set_car-other r (cons b) written b r_b in
      let later : LeadsTo tag value_of g (r ∷ c ∷ used) (h.pair c).car (h.pair c).cdr rs v =
        LeadsTo-SameOutside tag value_of h g (r ∷ c ∷ used) (h.pair c).car (h.pair c).cdr rs v
          (λ x e. sym (
            outside x (or_false (r == x) _ e).0
              (listed-apart b x used ub (or_false (c == x) _ (or_false (r == x) _ e).1).1)))
          leads in
      let (h', runs, (box', done', value', shared, kept)) =
        force_loop-chain rs g (r ∷ c ∷ used) (h.pair c).car (h.pair c).cdr v fuel
          (
            ap (λ p. p.car) same_a ∙ box,
            subst (λ p. obj_eq p.cdr tag ≡ true) (sym same_a) tagged,
            ap (λ p. p.car) same_b
                ∙ write_pair-car b (h.pair c).car (h.pair c).cdr h b
                ∙ rw (==-refl b) refl,
            ap (λ p. p.cdr) same_b
                ∙ write_pair-cdr b (h.pair c).car (h.pair c).cdr h b
                ∙ rw (==-refl b) refl,
          )
          (or_true (r == a) _ (or_true (c == a) _ ua)) (or_true (r == b) _ (or_true (c == b) _ ub))
          later (omega arith) in
      let b_r = listed-apart b r used ub new_r in
      let r_new : listed r rs ≡ false =
        LeadsTo-listed tag value_of h (r ∷ c ∷ used) (h.pair c).car (h.pair c).cdr rs v r
          (ap (λ t. t || listed r (c ∷ used)) (==-refl r)) leads in
      (
        h',
        chained_round h thunk r c fuel (box, tagged, es ∙ force_here, ev) gives tagged_r from
            ∙ runs,
        (
          box',
          done',
          value',
          (
            ap (λ p. p.car) (kept r b_r r_new)
                ∙ set_car-car r (cons b) written r
                ∙ rw (==-refl r) refl,
            shared,
          ),
          λ x eb e. kept x eb (or_false (r == x) _ e).1 ∙ outside x (or_false (r == x) _ e).0 eb,
        ),
      )

  -- With thunks that only compute a value, force of a promise that leads to a value by a chain of n
  -- delay-force promises, all different, ends after n + 1 rounds with this value. The promise is then
  -- forced, each promise of the chain has the same box, and no other pair has changed.
  pub p_force-LeadsTo :
      (rs : List ℕ) (h : Heap) (state thunk v : Obj) (fuel : ℕ)
      → IsAt tag a b h state thunk
      → LeadsTo tag value_of h (a ∷ b ∷ []) state thunk rs v
      → length rs < fuel
      → (h' : Heap) × (p_force call tag fuel (cons a) h ≡ ok v h') × IsChainForced a b h h' rs v
  unfolding p_force
  p_force-LeadsTo rs h state thunk v fuel (box, tagged, es, ev) leads lt =
      let (h', runs, forced) =
        force_loop-chain rs h (a ∷ b ∷ []) state thunk v fuel (box, tagged, es, ev)
          (ap (λ t. t || listed a (b ∷ [])) (==-refl a))
          (or_true (a == b) _ (ap (λ t. t || false) (==-refl b))) leads lt in
      (h', rw tagged runs, forced)
