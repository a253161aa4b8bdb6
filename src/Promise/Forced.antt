-- ===== src/Promise/Forced.antt =====
-- src/promise.c: what force has given once, it gives always.
use sigscheme.Base.{
  ℕ, ◌≡◌, refl, sym, ap, subst, ◌∙◌, inl, inr, Bool, true, false, ◌==◌, if◌then◌else◌, ==_iff,
  ==-refl, Bool-cases,
}
use sigscheme.Object.{
  Obj, Heap, cons, car, cdr, obj_eq, set_car, set_cdr, update, Proc, Outcome, ok, raise,
  out_of_fuel, ◌>>=◌,
}
use sigscheme.Promise.{promise_state, promise_value, is_done, done, keep_value, share_box}

-- Each promise has a box, which is no promise.
abbrev pub AreBoxed : Obj → Heap → Type 0
AreBoxed tag h =
    (a : ℕ)
    → obj_eq (h.pair a).cdr tag ≡ true
    → (b : ℕ) × ((h.pair a).car ≡ cons b) × (obj_eq (h.pair b).cdr tag ≡ false)

-- The heap after both fields of a pair were written.
abbrev pub write_pair : ℕ → Obj → Obj → Heap → Heap
write_pair b s v h = set_cdr b v (set_car b s h)

pub update_other :
    {A : Type 0} (f : ℕ → A) (p : ℕ) (v : A) (q : ℕ) → (p == q) ≡ false → update f p v q ≡ f q
update_other f p v q e = rw e refl

update_same : {A : Type 0} (f : ℕ → A) (p : ℕ) (v : A) → update f p v p ≡ v
update_same f p v = rw (==-refl p) refl

pub write_pair-cdr :
    (b : ℕ) (s v : Obj) (h : Heap) (a : ℕ)
    → ((write_pair b s v h).pair a).cdr ≡ (if b == a then v else (h.pair a).cdr)
write_pair-cdr b s v h a = elim (Bool-cases (b == a)) [
  | inl same ↦ rw same refl
  | inr other_pair ↦ rw other_pair refl
]

pub write_pair-car :
    (b : ℕ) (s v : Obj) (h : Heap) (a : ℕ)
    → ((write_pair b s v h).pair a).car ≡ (if b == a then s else (h.pair a).car)
write_pair-car b s v h a = elim (Bool-cases (b == a)) [
  | inl same ↦ rw same (rw (==-refl b) refl)
  | inr other_pair ↦ rw other_pair refl
]

untagged_if :
    (tag : Obj) (t : Bool) (v w : Obj)
    → obj_eq v tag ≡ false
    → obj_eq w tag ≡ false
    → obj_eq (if t then v else w) tag ≡ false
untagged_if tag true v w e f = e
untagged_if tag false v w e f = f

write_pair-untagged :
    (tag : Obj) (b : ℕ) (s v : Obj) (h : Heap) (a : ℕ)
    → obj_eq v tag ≡ false
    → obj_eq (h.pair a).cdr tag ≡ false
    → obj_eq ((write_pair b s v h).pair a).cdr tag ≡ false
write_pair-untagged tag b s v h a e f =
    subst (λ d. obj_eq d tag ≡ false) (sym (write_pair-cdr b s v h a))
      (untagged_if tag (b == a) v (h.pair a).cdr e f)

write_pair-tagged :
    (tag : Obj) (b : ℕ) (s v : Obj) (h : Heap) (a : ℕ)
    → obj_eq v tag ≡ false
    → obj_eq ((write_pair b s v h).pair a).cdr tag ≡ true
    → ((b == a) ≡ false) × (obj_eq (h.pair a).cdr tag ≡ true)
write_pair-tagged tag b s v h a untagged tagged =
    let tagged' = subst (λ d. obj_eq d tag ≡ true) (write_pair-cdr b s v h a) tagged in
    elim (Bool-cases (b == a)) [
      | inl same ↦ cc (rw same at tagged')
      | inr other_pair ↦ (other_pair, rw other_pair at tagged')
    ]

write_pair-AreBoxed :
    (tag : Obj) (b : ℕ) (s v : Obj) (h : Heap)
    → AreBoxed tag h
    → obj_eq v tag ≡ false
    → AreBoxed tag (write_pair b s v h)
write_pair-AreBoxed tag b s v h boxed untagged a tagged =
    let (other_pair, tagged') = write_pair-tagged tag b s v h a untagged tagged in
    let (c, at, plain) = boxed a tagged' in
    (
      c,
      write_pair-car b s v h a ∙ rw other_pair at,
      write_pair-untagged tag b s v h c untagged plain,
    )

pub set_car-cdr :
    (r : ℕ) (v : Obj) (h : Heap) (a : ℕ) → ((set_car r v h).pair a).cdr ≡ (h.pair a).cdr
set_car-cdr r v h a = elim (Bool-cases (r == a)) [
  | inl same ↦ rw same (ap (λ n. (h.pair n).cdr) ((==_iff r a).0 same))
  | inr other_pair ↦ rw other_pair refl
]

pub set_car-car :
    (r : ℕ) (v : Obj) (h : Heap) (a : ℕ)
    → ((set_car r v h).pair a).car ≡ (if r == a then v else (h.pair a).car)
set_car-car r v h a = elim (Bool-cases (r == a)) [
  | inl same ↦ rw same refl
  | inr other_pair ↦ rw other_pair refl
]

set_car-AreBoxed :
    (tag : Obj) (r b : ℕ) (h : Heap)
    → AreBoxed tag h
    → obj_eq (h.pair b).cdr tag ≡ false
    → AreBoxed tag (set_car r (cons b) h)
set_car-AreBoxed tag r b h boxed plain a tagged =
    let unchanged = λ (x : ℕ). sym (set_car-cdr r (cons b) h x) in
    elim (Bool-cases (r == a)) [
      | inl same ↦ (
        b,
        set_car-car r (cons b) h a ∙ rw same refl,
        subst (λ d. obj_eq d tag ≡ false) (unchanged b) plain,
      )
      | inr other_pair ↦
          let (c, at, plain_c) =
            boxed a (subst (λ d. obj_eq d tag ≡ true) (set_car-cdr r (cons b) h a) tagged) in
          (
            c,
            set_car-car r (cons b) h a ∙ rw other_pair at,
            subst (λ d. obj_eq d tag ≡ false) (unchanged c) plain_c,
          )
    ]

-- What the loop relies on of a thunk that returns: the promises stay promises with their boxes, and
-- the tag is no result.
abbrev pub KeepsPromises : Obj → (Obj → Proc Obj) → Type 0
KeepsPromises tag call =
    (thunk : Obj) (h : Heap) (result : Obj) (h' : Heap)
    → call thunk h ≡ ok result h'
    → AreBoxed tag h
    → AreBoxed tag h'
      × (obj_eq result tag ≡ false)
      × ((a : ℕ) → obj_eq (h.pair a).cdr tag ≡ true → obj_eq (h'.pair a).cdr tag ≡ true)

-- A promise with its value.
abbrev pub IsForced : Obj → ℕ → Obj → Heap → Type 0
IsForced tag a v h =
    AreBoxed tag h
    × (obj_eq (h.pair a).cdr tag ≡ true)
    × (is_done h (cons a) ≡ true)
    × (promise_value h (cons a) ≡ v)

pub ok_inj : {A : Type 0} {a b : A} {h g : Heap} → ok a h ≡ ok b g → (a ≡ b) × (h ≡ g)
ok_inj e = (cc, cc)

pub bind-eq_ok :
    {A B : Type 0} (m : Outcome A) (f : A → Proc B) {b : B} (h : Heap) {g : Heap}
    → ◌>>=◌ (λ _. m) f h ≡ ok b g
    → (a : A) × (h' : Heap) × (m ≡ ok a h') × (f a h' ≡ ok b g)
bind-eq_ok (ok a h') f h e = (a, h', refl, e)
bind-eq_ok (raise _ _) f h e = cc
bind-eq_ok out_of_fuel f h e = cc

module _ (tag : Obj) (a b : ℕ) (h : Heap) (tagged : obj_eq (h.pair a).cdr tag ≡ true)
    (plain : obj_eq (h.pair b).cdr tag ≡ false) where
  box_apart : (b == a) ≡ false
  box_apart = elim (Bool-cases (b == a)) [
    | inl same ↦
        cc (subst (λ n. obj_eq (h.pair n).cdr tag ≡ false) ((==_iff b a).0 same) plain, tagged)
    | inr other_pair ↦ other_pair
  ]

  -- Writing the box of a promise leaves the promise its box and its tag.
  write_box :
      (s v : Obj)
      → (h.pair a).car ≡ cons b
      → (((write_pair b s v h).pair a).car ≡ cons b)
        × (((write_pair b s v h).pair b).car ≡ s)
        × (((write_pair b s v h).pair b).cdr ≡ v)
        × (obj_eq ((write_pair b s v h).pair a).cdr tag ≡ true)
  write_box s v at = (
    write_pair-car b s v h a ∙ rw box_apart at,
    write_pair-car b s v h b ∙ rw (==-refl b) refl,
    write_pair-cdr b s v h b ∙ rw (==-refl b) refl,
    subst (λ d. obj_eq d tag ≡ true) (sym (write_pair-cdr b s v h a)) (rw box_apart tagged),
  )

module _ (tag : Obj) (a : ℕ) where
  pub keep_value-IsForced :
      (result : Obj) (h : Heap) (v : Obj) (h' : Heap)
      → AreBoxed tag h
      → obj_eq (h.pair a).cdr tag ≡ true
      → obj_eq result tag ≡ false
      → keep_value (cons a) result h ≡ ok v h'
      → IsForced tag a v h'
  keep_value-IsForced result h v h' boxed tagged untagged e =
      let (b, at, plain) = boxed a tagged in
      let runs : keep_value (cons a) result h ≡ ok result (write_pair b done result h) =
        rw at refl in
      let (same_v, same_h) = ok_inj (sym runs ∙ e) in
      let g = write_pair b done result h in
      let (box_kept, state, value, tag_kept) = write_box tag a b h tagged plain done result at in
      let state_there : promise_state g (cons a) ≡ done = ap (car g) box_kept ∙ state in
      let forced : IsForced tag a result g = (
        write_pair-AreBoxed tag b done result h boxed untagged,
        tag_kept,
        ap (λ o. obj_eq o done) state_there,
        ap (cdr g) box_kept ∙ value,
      ) in
      subst (λ o. IsForced tag a o h') same_v (subst (IsForced tag a result) same_h forced)

  -- Sharing leaves the promise a promise.
  pub share_box-AreBoxed :
      (r : ℕ) (h g : Heap)
      → AreBoxed tag h
      → obj_eq (h.pair a).cdr tag ≡ true
      → obj_eq (h.pair r).cdr tag ≡ true
      → share_box (cons a) (cons r) h ≡ ok tt g
      → AreBoxed tag g × (obj_eq (g.pair a).cdr tag ≡ true)
  share_box-AreBoxed r h g boxed tagged tagged_r e =
      let (b, at, plain) = boxed a tagged in
      let (c, from, plain_c) = boxed r tagged_r in
      let s = (h.pair c).car in
      let v = ((set_car b s h).pair c).cdr in
      let written = write_pair b s v h in
      let runs : share_box (cons a) (cons r) h ≡ ok tt (set_car r (cons b) written) =
        rw (at, from) refl in
      let untagged : obj_eq v tag ≡ false =
        subst (λ d. obj_eq d tag ≡ false) (sym (set_car-cdr b s h c)) plain_c in
      let still = write_pair-untagged tag b s v h b untagged plain in
      let tag_kept = (write_box tag a b h tagged plain s v at).3 in
      let same_h = (ok_inj (sym runs ∙ e)).1 in
      (
        subst (AreBoxed tag) same_h (
            set_car-AreBoxed tag r b written (write_pair-AreBoxed tag b s v h boxed untagged)
              still),
        subst (λ k. obj_eq (k.pair a).cdr tag ≡ true) same_h
            (subst (λ d. obj_eq d tag ≡ true) (sym (set_car-cdr r (cons b) written a)) tag_kept),
      )
