-- ===== src/Pairs/Circular.antt =====
-- src/list.c: scm_length finds every circular list.
use sigscheme.Base.{
  ℕ, zero, suc, ◌+◌, ◌*◌, ◌≤◌, ◌<◌, ◌≡◌, refl, sym, ap, subst, ◌∙◌, true, false, some, arith, ◌==◌,
  ==_ne,
}
use sigscheme.Object.{Obj, Heap, cdr, is_cons, obj_eq, obj_eq_iff, null_of_cons}
use sigscheme.Object.Chain.{nth_cdr, nth_cdr-suc, Endless}
use sigscheme.Pairs.{encode_circular, length_loop, scm_length}

-- The loop in round k stands at 2k and k steps. If 2m and m steps meet, it says so by round m.
module _ (h : Heap) (lst : Obj) (e : Endless h lst) (m : ℕ) (p : 0 < m)
    (meet : nth_cdr h lst (m + m) ≡ nth_cdr h lst m) where
  meets_here : (k : ℕ) → k ≡ m → obj_eq (nth_cdr h lst (k + k)) (nth_cdr h lst k) ≡ true
  meets_here k same = rw same ((obj_eq_iff _ _).1 meet)

  length_loop-meets :
      (fuel k more : ℕ)
      → k + more ≡ m
      → more < fuel
      → length_loop fuel h (nth_cdr h lst (k + k)) (nth_cdr h lst k) (k + k) ≡ some encode_circular
  unfolding length_loop
  length_loop-meets zero k more r f = absurd (omega arith)
  length_loop-meets (suc fuel) k zero r f =
      let c = e (k + k) in
      let later : (k + k == 0) ≡ false = ==_ne (k + k) 0 (λ z. omega arith) in
      rw (null_of_cons (nth_cdr h lst (k + k)) c, c, later, meets_here k (omega arith)) refl
  length_loop-meets (suc fuel) k (suc more) r f =
      let o = nth_cdr h lst (k + k) in
      let c = e (k + k) in
      let next : nth_cdr h lst (suc (k + k)) ≡ cdr h o = nth_cdr-suc h lst (k + k) in
      let d : is_cons (cdr h o) ≡ true = subst (λ x. is_cons x ≡ true) next (e (suc (k + k))) in
      let twice : suc k + suc k ≡ suc (suc (k + k)) = omega arith in
      let twice' : suc k + suc k ≡ k + k + 2 = omega arith in
      let after : nth_cdr h lst (suc k + suc k) ≡ cdr h (cdr h o) =
        ap (nth_cdr h lst) twice ∙ nth_cdr-suc h lst (suc (k + k)) ∙ ap (cdr h) next in
      let ih = length_loop-meets fuel (suc k) more (omega arith) (omega arith) in
      let rest : length_loop fuel h (cdr h (cdr h o)) (cdr h (nth_cdr h lst k)) (k + k + 2)
          ≡ some encode_circular =
        sym (λ i. length_loop fuel h (after i) (nth_cdr-suc h lst k i) (twice' i)) ∙ ih in
      rw (null_of_cons o c, c, null_of_cons (cdr h o) d, d) (ground arith)

-- A list that comes back to where it was: from `start` pairs on, `period` pairs later.
abbrev pub Circular : Heap → Obj → ℕ → ℕ → Type 0
Circular h lst start period = (n : ℕ) → start ≤ n → nth_cdr h lst (n + period) ≡ nth_cdr h lst n

Circular-times :
    (h : Heap) (lst : Obj) (start period times n : ℕ)
    → Circular h lst start period
    → start ≤ n
    → nth_cdr h lst (n + times * period) ≡ nth_cdr h lst n
Circular-times h lst start period zero n c le =
    let none_more : n + 0 * period ≡ n = omega arith in ap (nth_cdr h lst) none_more
Circular-times h lst start period (suc times) n c le =
    let shift : n + suc times * period ≡ n + period + times * period = grind arith in
    ap (nth_cdr h lst) shift
    ∙ Circular-times h lst start period times (n + period) c (omega arith)
    ∙ c n le

-- scm_length says that a circular list is circular, whatever leads into its circle and however
-- long that is, after at most (start + 1) * period rounds.
pub scm_length-Circular :
    (h : Heap) (lst : Obj) (start period fuel : ℕ)
    → Endless h lst
    → 0 < period
    → Circular h lst start period
    → (start + 1) * period < fuel
    → scm_length fuel h lst ≡ some encode_circular
unfolding scm_length
scm_length-Circular h lst start period fuel e p c f =
    let m = (start + 1) * period in
    let le : start ≤ m = grind arith in
    length_loop-meets h lst e m (grind arith) (Circular-times h lst start period (start + 1) m c le)
      fuel 0 m (omega arith) f
