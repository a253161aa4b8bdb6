-- ===== src/Env/Tests.antt =====
-- The theorems on environments at a concrete heap.
use sigscheme.Base.{ℕ, zero, suc, ◌≡◌, refl, ◌≢◌, true, some, [], ◌∷◌, arith, get_or}
use sigscheme.Base.Int.{pos}
use sigscheme.Object.{
  ◌>>=◌, pure, set_car, set_cdr, Obj, null, int, symbol, farsymbol, cons, Pair, Heap, unbound, car,
  cdr, ok,
}
use sigscheme.Object.Chain.{SameBelow}
use sigscheme.Env.{
  env_toplevel, pack_env, unpack_env, replace_environment, update_environment, add_environment,
  deref, ref_wild, ref_car, found_or, lookup_frame, lookup_frames, lookup_n_frames,
  lookup_environment, wrap_identifier, extend_environment,
}
use sigscheme.Env.Toplevel.{toplevel_value, set_toplevel, define_toplevel, symbol_value}
use sigscheme.Env.Validate.{valid_framep, valid_environment_extensionp, valid_environmentp}
use sigscheme.Env.Lookup.{location}
use sigscheme.Env.Extension.{
  Formals, valid_environment_extensionp-fits, lookup_frame-valid, lookup_frame-short_dotted,
}
use sigscheme.Env.Extend.{Closed, extend_environment-lookup_frames}
use sigscheme.Env.Wrap.{wrap_identifier-lookup_environment}

abbrev x : Obj
x = symbol 0

abbrev y : Obj
y = symbol 1

abbrev r : Obj
r = symbol 2

abbrev one : Obj
one = int (pos 1)

abbrev pair : Obj → Obj → Pair
pair a d = record { car = a; cdr = d; is_mutable = true }

-- 3 is the frame of the formals (x . r) and the actuals (1 1), 4 the environment of this frame, 8 the
-- frame of (x y . r) and (1 . 1).
abbrev cells : ℕ → Pair
cells p =
    get_or
      (pair x r
        ∷ pair one (cons 2)
        ∷ pair one null
        ∷ pair (cons 0) (cons 1)
        ∷ pair (cons 3) null
        ∷ pair x (cons 6)
        ∷ pair y r
        ∷ pair one one
        ∷ pair (cons 5) (cons 7)
        ∷ [])
      p (pair null null)

-- Every far symbol is x in an environment of one frame.
abbrev heap : Heap
heap = record {
  next = 9;
  pair = cells;
  far = λ _. record { sym = x; depth = 1 };
  vcell = λ _. unbound;
}

symbol_value_runs : symbol_value 3 3 (farsymbol 0) (cons 4) heap ≡ ok one heap
unfolding symbol_value
symbol_value_runs = refl

valid_environmentp_runs : valid_environmentp true 3 3 heap (cons 4) ≡ some true
unfolding valid_environmentp
valid_environmentp_runs = refl

dotted : Formals heap (cons 0) (x ∷ []) r
dotted = record { list = (0, refl, refl, refl); names = (refl, tt); end = refl }

valid_environment_extensionp-fits_example :
    valid_environment_extensionp true 3 heap (cons 0) (cons 1) ≡ some true
valid_environment_extensionp-fits_example =
    valid_environment_extensionp-fits true 3 heap (cons 0) (x ∷ []) r (cons 1) 2 null dotted
      (refl, (refl, (refl, refl))) (omega arith) (omega arith) (omega arith)

lookup_frame-valid_example :
    (lookup_frame 3 heap x (cons 3) ≡ some (ref_car 1)) × (ref_car 1 ≢ ref_wild)
unfolding valid_framep
lookup_frame-valid_example =
    lookup_frame-valid true 3 heap x (cons 3) (x ∷ []) r 2 null dotted (refl, (refl, (refl, refl)))
      (omega arith) (omega arith) (omega arith) refl refl

lookup_frame-short_dotted_example :
    (valid_framep true 3 heap (cons 8) ≡ some true)
    × (lookup_frame 3 heap y (cons 8) ≡ some ref_wild)
lookup_frame-short_dotted_example =
    lookup_frame-short_dotted true 3 heap y 8 (x ∷ y ∷ []) r 1 one 1
      (record {
        list = (5, refl, refl, (6, refl, refl, refl));
        names = (refl, (refl, tt));
        end = refl;
      })
      (refl, (refl, refl)) (omega arith) (omega arith) (omega arith) refl refl refl (omega arith)

wrap_identifier-lookup_environment_example :
    (g : Heap) × (wrap_identifier 3 (farsymbol 0) 1 (cons 4) heap ≡ ok (farsymbol 9) g)
    × (lookup_environment 3 3 (farsymbol 9) (cons 4) g ≡ ok (ref_car 1) g)
unfolding lookup_environment lookup_frames lookup_n_frames
wrap_identifier-lookup_environment_example =
    wrap_identifier-lookup_environment 3 3 heap (farsymbol 0) (cons 4) 1 null (ref_car 1)
      (refl, (refl, refl)) (omega arith) (omega arith, refl) refl refl

heap-Closed : Closed heap
heap-Closed zero lt = (tt, tt)
heap-Closed (suc zero) lt = (tt, omega arith)
heap-Closed (suc (suc zero)) lt = (tt, tt)
heap-Closed (suc (suc (suc zero))) lt = (omega arith, omega arith)
heap-Closed (suc (suc (suc (suc zero)))) lt = (omega arith, tt)
heap-Closed (suc (suc (suc (suc (suc zero))))) lt = (tt, omega arith)
heap-Closed (suc (suc (suc (suc (suc (suc zero)))))) lt = (tt, tt)
heap-Closed (suc (suc (suc (suc (suc (suc (suc zero))))))) lt = (tt, tt)
heap-Closed (suc (suc (suc (suc (suc (suc (suc (suc zero)))))))) lt = (omega arith, omega arith)
heap-Closed (suc (suc (suc (suc (suc (suc (suc (suc (suc p))))))))) lt = absurd (omega arith)

extend_environment-lookup_frames_example :
    (env : Obj) × (g : Heap) × (extend_environment (cons 0) (cons 1) (cons 4) heap ≡ ok env g)
    × SameBelow 9 heap g
    × (car g (car g env) ≡ cons 0)
    × (cdr g (car g env) ≡ cons 1)
    × (lookup_frames 2 3 g y env
        ≡ found_or (some (location g (car g env) y (x ∷ []) r)) (lookup_frames 2 2 heap y (cons 4)))
extend_environment-lookup_frames_example =
    extend_environment-lookup_frames 2 2 heap y (cons 0) (cons 1) (cons 4) r (x ∷ []) heap-Closed
      (omega arith) (0, refl, omega arith, refl, refl) refl (omega arith)

environments_run :
    (env_toplevel 2 heap (cons 4) ≡ some null)
    × (pack_env 2 heap (cons 4) ≡ some 1)
    × (unpack_env 2 0 heap (cons 4) ≡ some null)
unfolding env_toplevel pack_env unpack_env
environments_run = (refl, refl, refl)

-- The frame number 3 gets new contents in place.
frames_run :
    (replace_environment null null (cons 4) heap
      ≡ ok (cons 4) (set_cdr 3 null (set_car 3 null heap)))
    × (update_environment (cons 2) (cons 4) heap ≡ ok (cons 4) (set_cdr 3 (cons 2) heap))
unfolding replace_environment update_environment
frames_run = (refl, refl)

toplevel_runs :
    (toplevel_value 2 (define_toplevel x one heap) (farsymbol 0) ≡ some one)
    × (set_toplevel 2 (farsymbol 0) one heap ≡ some (define_toplevel x one heap))
unfolding toplevel_value set_toplevel define_toplevel
toplevel_runs = (refl, refl)

-- A variable that is added to a frame is found there, in the new pair of actuals.
add_environment_runs :
    (do
      env ← add_environment y null (cons 4)
      ref ← lookup_environment 3 3 y env
      λ h. ok (deref h ref) h)
      heap
    ≡ (do env ← add_environment y null (cons 4); pure null) heap
unfolding add_environment lookup_environment
add_environment_runs = refl
