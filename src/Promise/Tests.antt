-- ===== src/Promise/Tests.antt =====
-- The theorems on promises at concrete heaps, and runs of the procedures.
use sigscheme.Base.{
  ℕ, zero, suc, ◌≡◌, refl, subst, inl, inr, true, false, [], ◌∷◌, arith, ◌==◌, if◌then◌else◌,
  Bool-cases,
}
use sigscheme.Base.Int.{pos}
use sigscheme.Object.{
  Obj, Heap, Pair, cons, int, symbol, null, unbound, obj_eq, ok, Proc, make_cons, ◌>>=◌,
}
use sigscheme.Promise.{done, delayed, delay_forced, delay, p_force}
use sigscheme.Promise.Forced.{AreBoxed, KeepsPromises, ok_inj, write_pair}
use sigscheme.Promise.Again.{p_force-again}
use sigscheme.Promise.Chain.{IsChainForced, p_force-LeadsTo}

abbrev tag : Obj
tag = cons 99

abbrev plain : Obj → Obj → Pair
plain a d = record { car = a; cdr = d; is_mutable = true }

-- The promise at 1 has its box at 0 and gives the promise at 3, with its box at 2, by symbol 7.
abbrev pair_at : ℕ → Pair
pair_at x =
    if x == 0
    then plain delay_forced (symbol 7)
    else if x == 1
    then plain (cons 0) tag
    else if x == 2
    then plain delayed (symbol 8)
    else if x == 3
    then plain (cons 2) tag
    else plain null null

abbrev heap : Heap
heap = record {
  next = 4;
  pair = pair_at;
  far = λ _. record { sym = null; depth = 0 };
  vcell = λ _. unbound;
}

abbrev value_of : Obj → Obj
value_of thunk = if obj_eq thunk (symbol 7) then cons 3 else int (pos 42)

abbrev call : Obj → Proc Obj
call thunk h = ok (value_of thunk) h

p_force-LeadsTo_example :
    (h' : Heap) × (p_force call tag 2 (cons 1) heap ≡ ok (int (pos 42)) h')
    × IsChainForced 1 0 heap h' (3 ∷ []) (int (pos 42))
p_force-LeadsTo_example =
    p_force-LeadsTo tag value_of call (λ thunk h. refl) 1 0 refl (3 ∷ []) heap delay_forced
      (symbol 7) (int (pos 42)) 2 (refl, refl, refl, refl)
      (2, refl, refl, refl, refl, refl, refl, (refl, refl)) (omega arith)

heap-AreBoxed : AreBoxed tag heap
heap-AreBoxed zero tagged = cc
heap-AreBoxed (suc zero) tagged = (0, refl, refl)
heap-AreBoxed (suc (suc zero)) tagged = cc
heap-AreBoxed (suc (suc (suc zero))) tagged = (2, refl, refl)
heap-AreBoxed (suc (suc (suc (suc n)))) tagged = absurd (ground arith)

value_of-untagged : (thunk : Obj) → obj_eq (value_of thunk) tag ≡ false
value_of-untagged thunk = elim (Bool-cases (obj_eq thunk (symbol 7))) [
  | inl same ↦ rw same refl
  | inr other_thunk ↦ rw other_thunk refl
]

call-KeepsPromises : KeepsPromises tag call
call-KeepsPromises thunk h result h' e boxed =
    let (same_result, same_h) = ok_inj e in
    (
      subst (AreBoxed tag) same_h boxed,
      subst (λ r. obj_eq r tag ≡ false) same_result (value_of-untagged thunk),
      λ a tagged. subst (λ g. obj_eq (g.pair a).cdr tag ≡ true) same_h tagged,
    )

force_runs :
    p_force call tag 1 (cons 3) heap ≡ ok (int (pos 42)) (write_pair 2 done (int (pos 42)) heap)
unfolding p_force
force_runs = refl

-- Making a promise and forcing it.
make_runs :
    (do p ← delay tag (symbol 8); p_force call tag 1 p) heap
    ≡ ok (int (pos 42)) (
        write_pair 4 done
          (int (pos 42))
          (make_cons (cons 4) tag (make_cons delayed (symbol 8) heap)))
unfolding delay p_force
make_runs = refl

p_force-again_example :
    AreBoxed tag (write_pair 2 done (int (pos 42)) heap)
    × (p_force call tag 6 (cons 3) (write_pair 2 done (int (pos 42)) heap)
        ≡ ok (int (pos 42)) (write_pair 2 done (int (pos 42)) heap))
p_force-again_example =
    p_force-again tag call call 1 5 3 heap (int (pos 42)) (write_pair 2 done (int (pos 42)) heap)
      call-KeepsPromises heap-AreBoxed force_runs
