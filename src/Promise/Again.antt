-- ===== src/Promise/Again.antt =====
-- src/promise.c: what force has given once, it gives always.
use sigscheme.Base.{ℕ, zero, suc, ◌≡◌, ap, subst, inl, inr, true, false, if◌then◌else◌, Bool-cases}
use sigscheme.Object.{Obj, Heap, cons, obj_eq, Proc, ok, raise, err_obj, ◌>>=◌}
use sigscheme.Promise.{
  promise_state, promise_value, promisep, is_done, delayed, force_loop, p_force, after_thunk,
  share_box,
}
use sigscheme.Promise.Forced.{
  AreBoxed, KeepsPromises, IsForced, ok_inj, bind-eq_ok, keep_value-IsForced, share_box-AreBoxed,
}

module _ (tag : Obj) (a : ℕ) where
  now-IsForced :
      (h : Heap) (v : Obj) (h' : Heap)
      → AreBoxed tag h
      → obj_eq (h.pair a).cdr tag ≡ true
      → is_done h (cons a) ≡ true
      → ok (promise_value h (cons a)) h ≡ ok v h'
      → IsForced tag a v h'
  now-IsForced h v h' boxed tagged finished e =
      let (same_v, same_h) = ok_inj e in
      subst (λ k. IsForced tag a v k) same_h (boxed, tagged, finished, same_v)

  -- The branch of delay-force.
  shared :
      (again : Proc Obj) (result : Obj) (h : Heap) (v : Obj) (h' : Heap)
      → ((g : Heap)
          → AreBoxed tag g
          → obj_eq (g.pair a).cdr tag ≡ true
          → again g ≡ ok v h'
          → IsForced tag a v h')
      → AreBoxed tag h
      → obj_eq (h.pair a).cdr tag ≡ true
      → (if promisep tag h result
          then ((share_box (cons a) result >>= λ _. again) h)
          else raise (err_obj "delay-force requires a promise but got" result) h)
        ≡ ok v h'
      → IsForced tag a v h'
  shared again (cons r) h v h' next boxed tagged e = elim (Bool-cases (promisep tag h (cons r))) [
    | inl tagged_r ↦
        let (_, g, there, e') =
          bind-eq_ok (share_box (cons a) (cons r) h) (λ _. again) h (rw tagged_r at e) in
        let (boxed', tagged') = share_box-AreBoxed tag a r h g boxed tagged tagged_r there in
        next g boxed' tagged' e'
    | inr plain ↦ cc (rw plain at e)
  ]
  shared again result h v h' next boxed tagged e = cc

  after_thunk-IsForced :
      (again : Proc Obj) (state result : Obj) (h : Heap) (v : Obj) (h' : Heap)
      → ((g : Heap)
          → AreBoxed tag g
          → obj_eq (g.pair a).cdr tag ≡ true
          → again g ≡ ok v h'
          → IsForced tag a v h')
      → AreBoxed tag h
      → obj_eq (h.pair a).cdr tag ≡ true
      → obj_eq result tag ≡ false
      → after_thunk tag (cons a) state again result h ≡ ok v h'
      → IsForced tag a v h'
  after_thunk-IsForced again state result h v h' next boxed tagged untagged e =
      elim (Bool-cases (is_done h (cons a))) [
        | inl finished ↦ now-IsForced h v h' boxed tagged finished (rw finished at e)
        | inr open_yet ↦ elim (Bool-cases (obj_eq state delayed)) [
          | inl delay_here ↦
              keep_value-IsForced tag a result h v h' boxed tagged untagged
                (rw (open_yet, delay_here) at e)
          | inr chained ↦ shared again result h v h' next boxed tagged (rw (open_yet, chained) at e)
        ]
      ]

  force_loop-IsForced :
      (call : Obj → Proc Obj) (fuel : ℕ) (h : Heap) (v : Obj) (h' : Heap)
      → KeepsPromises tag call
      → AreBoxed tag h
      → obj_eq (h.pair a).cdr tag ≡ true
      → force_loop call tag fuel (cons a) h ≡ ok v h'
      → IsForced tag a v h'
  unfolding force_loop
  force_loop-IsForced call zero h v h' keeps boxed tagged e = cc
  force_loop-IsForced call (suc fuel) h v h' keeps boxed tagged e =
      elim (Bool-cases (is_done h (cons a))) [
        | inl finished ↦ now-IsForced h v h' boxed tagged finished (rw finished at e)
        | inr open_yet ↦
            let thunk = promise_value h (cons a) in
            let (result, g, called, e') =
              bind-eq_ok (call thunk h)
                (after_thunk tag (cons a) (promise_state h (cons a))
                  (force_loop call tag fuel (cons a)))
                h (rw open_yet at e) in
            let (boxed', untagged, kept) = keeps thunk h result g called boxed in
            after_thunk-IsForced (force_loop call tag fuel (cons a)) (promise_state h (cons a))
              result g v h'
              (λ k boxed_k tagged_k runs.
                force_loop-IsForced call fuel k v h' keeps boxed_k tagged_k runs)
              boxed' (kept a tagged) untagged e'
      ]

-- With thunks that leave the promises their boxes and never return the tag, force of a promise that
-- returns leaves it forced: force called again calls no thunk, changes nothing and gives the same
-- value, whatever the thunks did in between, also where a thunk forced the promise itself.
pub p_force-again :
    (tag : Obj) (call call' : Obj → Proc Obj) (fuel fuel' : ℕ) (a : ℕ) (h : Heap) (v : Obj)
    (h' : Heap)
    → KeepsPromises tag call
    → AreBoxed tag h
    → p_force call tag fuel (cons a) h ≡ ok v h'
    → AreBoxed tag h' × (p_force call' tag (suc fuel') (cons a) h' ≡ ok v h')
unfolding p_force force_loop
p_force-again tag call call' fuel fuel' a h v h' keeps boxed e =
    elim (Bool-cases (promisep tag h (cons a))) [
      | inl tagged ↦
          let (boxed', tagged', finished, value) =
            force_loop-IsForced tag a call fuel h v h' keeps boxed tagged (rw tagged at e) in
          (boxed', rw (tagged', finished) (ap (λ o. ok o h') value))
      | inr plain ↦ cc (rw plain at e)
    ]
