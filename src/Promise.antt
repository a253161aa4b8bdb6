-- ===== src/Promise.antt =====
-- src/promise.c: delay, delay-force and force, on the heap of pairs. The unique tag of promises and
-- the call of a thunk are arguments.
pub mod Forced
pub mod Again
pub mod Chain
mod Tests
use sigscheme.Base.{ℕ, zero, suc, Bool, ◌&&◌, if◌then◌else◌}
use sigscheme.Base.Int.{pos}
use sigscheme.Object.{
  Obj, Heap, int, car, cdr, obj_eq, is_cons, Proc, ok, raise, out_of_fuel, err_obj, mk_cons, ◌>>=◌,
  ◌>>◌, pure,
}
use sigscheme.Pairs.{write_car, write_cdr}

-- PROMISE_DONE, PROMISE_DELAY and PROMISE_DELAY_FORCE
abbrev pub done : Obj
done = int (pos 0)

abbrev pub delayed : Obj
delayed = int (pos 1)

abbrev pub delay_forced : Obj
delay_forced = int (pos 2)

-- PROMISE_BOX, PROMISE_STATE and PROMISE_VALUE
abbrev pub promise_box : Heap → Obj → Obj
promise_box h p = car h p

abbrev pub promise_state : Heap → Obj → Obj
promise_state h p = car h (promise_box h p)

abbrev pub promise_value : Heap → Obj → Obj
promise_value h p = cdr h (promise_box h p)

pub make_promise : Obj → Obj → Obj → Proc Obj
make_promise tag state value = do box ← mk_cons state value; mk_cons box tag

abbrev pub promisep : Obj → Heap → Obj → Bool
promisep tag h obj = is_cons obj && obj_eq (cdr h obj) tag

-- scm_s_delay, whose thunk is made by lambda.
pub delay : Obj → Obj → Proc Obj
unfolding make_promise
delay tag thunk = make_promise tag delayed thunk

pub make_delay_force_promise : Obj → Obj → Proc Obj
unfolding make_promise
make_delay_force_promise tag thunk = make_promise tag delay_forced thunk

pub make_forced_promise : Obj → Obj → Proc Obj
unfolding make_promise
make_forced_promise tag value = make_promise tag done value

abbrev pub is_done : Heap → Obj → Bool
is_done h p = obj_eq (promise_state h p) done

-- The value of a delayed promise is kept.
abbrev pub keep_value : Obj → Obj → Proc Obj
keep_value promise result h =
    (do
      write_car (promise_box h promise) done
      write_cdr (promise_box h promise) result
      pure result)
      h

-- The promise takes over what is in the box of `result`, which gets the box of the promise.
abbrev pub share_box : Obj → Obj → Proc (Unit {0})
share_box promise result h =
    let box = promise_box h promise in
    let from = promise_box h result in
    (do write_car box (car h from); (λ g. write_cdr box (cdr g from) g); write_car result box) h

-- The rest of a round, after the thunk gave `result`; `again` is the next one.
abbrev pub after_thunk : Obj → Obj → Obj → Proc Obj → Obj → Proc Obj
after_thunk tag promise state again result h =
    if is_done h promise
    then ok (promise_value h promise) h
    else if obj_eq state delayed
    then keep_value promise result h
    else if promisep tag h result
    then (do share_box promise result; again) h
    else raise (err_obj "delay-force requires a promise but got" result) h

pub force_loop : (Obj → Proc Obj) → Obj → ℕ → Obj → Proc Obj
force_loop call tag zero promise h = out_of_fuel
force_loop call tag (suc fuel) promise h =
    let round =
      (do
        result ← call (promise_value h promise)
        after_thunk tag promise (promise_state h promise) (force_loop call tag fuel promise) result)
        h in
    if is_done h promise then ok (promise_value h promise) h else round

pub p_force : (Obj → Proc Obj) → Obj → ℕ → Obj → Proc Obj
unfolding force_loop
p_force call tag fuel promise h =
    if promisep tag h promise
    then force_loop call tag fuel promise h
    else raise (err_obj "promise required but got" promise) h
