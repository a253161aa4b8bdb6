-- ===== src/Pairs/Length.antt =====
-- src/list.c: what scm_length says of a list that ends.
use sigscheme.Base.{
  ℕ, zero, suc, ◌+◌, ◌<◌, ◌≡◌, refl, sym, ap, subst, ◌∙◌, ◌⊎◌, inl, inr, Bool, false, not, ◌&&◌,
  some, List, arith, ◌==◌, if◌then◌else◌, length,
}
use sigscheme.Base.Int.{ℤ, pos}
use sigscheme.Object.{
  Obj, int, Heap, cdr, is_null, is_cons, obj_eq, obj_eq_ne, null_of_cons, ok, raise, err_obj,
}
use sigscheme.Object.Chain.{IsList, EndsAfter, EndsAfter-functional, IsList-EndsAfter}
use sigscheme.Pairs.{
  encode_dotted, finite_length_loop, finite_length, length_loop, scm_length, p_length,
}

-- The length as the source encodes it: n for a proper list, -n - 1 for a dotted one.
abbrev pub encoded_length : ℕ → Obj → ℤ
encoded_length n tail = if is_null tail then pos n else encode_dotted n

finite_length_loop-EndsAfter :
    (fuel : ℕ) (h : Heap) (lst : Obj) (n len : ℕ) (tail : Obj)
    → EndsAfter h lst n tail
    → n < fuel
    → finite_length_loop fuel h lst len ≡ some (encoded_length (len + n) tail)
unfolding finite_length_loop
finite_length_loop-EndsAfter zero h lst n len tail e f = absurd (omega arith)
finite_length_loop-EndsAfter (suc fuel) h lst zero len tail (e, t) f = ground arith
finite_length_loop-EndsAfter (suc fuel) h lst (suc n) len tail (c, e) f =
    ground (arith, finite_length_loop-EndsAfter fuel h (cdr h lst) n (len + 1) tail e)

-- Two objects whose lists end after different numbers of pairs are not EQ.
not_eq_of_lengths :
    (h : Heap) (a b : Obj) (m n : ℕ) (s t : Obj)
    → EndsAfter h a m s
    → EndsAfter h b n t
    → m < n
    → obj_eq a b ≡ false
not_eq_of_lengths h a b m n s t e f lt = obj_eq_ne a b λ same.
    let together = EndsAfter-functional h b m n s t (subst (λ x. EndsAfter h x m s) same e) f in
    absurd (omega arith)

-- `slow` lags behind `lst`, from which `n` pairs are left.
record Lags (h : Heap) (lst slow : Obj) (len n m : ℕ) (tail : Obj) : Type 0 where
  ahead : EndsAfter h lst n tail
  behind : EndsAfter h slow m tail
  apart : (n < m) ⊎ ((len ≡ 0) × (n ≡ m))

Lags-not_eq :
    {h : Heap} {lst slow : Obj} {len n m : ℕ} {tail : Obj}
    → Lags h lst slow len n m tail
    → (not (len == 0) && obj_eq lst slow) ≡ false
Lags-not_eq {h} {lst} {slow} {len} {n} {m} {tail} g =
    ground (arith, g.apart, not_eq_of_lengths h lst slow n m tail tail g.ahead g.behind)

length_loop-Lags :
    (fuel : ℕ) (h : Heap) (lst slow : Obj) (len n m : ℕ) (tail : Obj)
    → Lags h lst slow len n m tail
    → n < fuel + fuel
    → length_loop fuel h lst slow len ≡ some (encoded_length (len + n) tail)
unfolding length_loop
length_loop-Lags zero h lst slow len n m tail g f = absurd (omega arith)
length_loop-Lags (suc fuel) h lst slow len zero m tail g f = ground (arith, g.ahead)
length_loop-Lags (suc fuel) h lst slow len (suc zero) m tail g f =
    ground (arith, g.ahead, Lags-not_eq g)
length_loop-Lags (suc fuel) h lst slow len (suc (suc n)) zero tail g f =
    absurd (omega (arith, g.apart))
length_loop-Lags (suc fuel) h lst slow len (suc (suc n)) (suc m) tail g f =
    let next : Lags h (cdr h (cdr h lst)) (cdr h slow) (len + 2) n m tail = record {
      ahead = g.ahead.1.1;
      behind = g.behind.1;
      apart = inl (omega (arith, g.apart));
    } in
    let second : obj_eq (cdr h lst) slow ≡ false =
      not_eq_of_lengths h (cdr h lst) slow (suc n) (suc m) tail tail g.ahead.1 g.behind
        (omega (arith, g.apart)) in
    rw
      (
        null_of_cons lst g.ahead.0,
        g.ahead.0,
        Lags-not_eq g,
        null_of_cons (cdr h lst) g.ahead.1.0,
        g.ahead.1.0,
        second,
      )
      (length_loop-Lags fuel h (cdr h (cdr h lst)) (cdr h slow) (len + 2) n m tail next
          (omega arith)
        ∙ ap (λ (k : ℕ). some (encoded_length k tail)) (omega arith))

-- On a list of n pairs that ends, scm_length ends, and gives n for a proper list and -n - 1 for a
-- dotted one. Half as many rounds as pairs are enough.
pub scm_length-EndsAfter :
    (fuel : ℕ) (h : Heap) (lst : Obj) (n : ℕ) (tail : Obj)
    → EndsAfter h lst n tail
    → n < fuel + fuel
    → scm_length fuel h lst ≡ some (encoded_length n tail)
unfolding scm_length
scm_length-EndsAfter fuel h lst n tail e f =
    length_loop-Lags fuel h lst lst 0 n n tail
      (record { ahead = e; behind = e; apart = inr (refl, refl) }) f
    ∙ ap (λ (k : ℕ). some (encoded_length k tail)) (omega arith)

-- scm_finite_length, which has no test for circular lists, agrees with scm_length on every list
-- that ends.
pub finite_length-scm_length :
    (fuel : ℕ) (h : Heap) (lst : Obj) (n : ℕ) (tail : Obj)
    → EndsAfter h lst n tail
    → n < fuel
    → finite_length fuel h lst ≡ scm_length fuel h lst
unfolding finite_length
finite_length-scm_length fuel h lst n tail e f =
    finite_length_loop-EndsAfter fuel h lst n 0 tail e f
    ∙ ap (λ (k : ℕ). some (encoded_length k tail)) (omega arith)
    ∙ sym (scm_length-EndsAfter fuel h lst n tail e (omega arith))

-- `length` of a proper list is the number of its elements; of a dotted list, shorter than the
-- largest that the encoding can tell from a circular one, it is the error with the list.
pub p_length-IsList :
    (write_ss : Bool) (fuel : ℕ) (h : Heap) (lst : Obj) (xs : List Obj) (tail : Obj)
    → IsList h lst xs tail
    → is_cons tail ≡ false
    → length xs < fuel + fuel
    → length xs < 0x7fff_ffff_ffff_ffff
    → p_length write_ss fuel lst h ≡ (
        if is_null tail
        then ok (int (pos (length xs))) h
        else raise (err_obj "proper list required but got" lst) h)
unfolding p_length
p_length-IsList write_ss fuel h lst xs tail l t f small =
    let len =
      scm_length-EndsAfter fuel h lst (length xs) tail (IsList-EndsAfter h xs lst tail l t) f in
    rw (len, p_length) (ground arith)
