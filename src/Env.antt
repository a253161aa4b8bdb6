-- ===== src/Env.antt =====
-- src/env.c: environments, of a build with SCM_USE_HYGIENIC_MACRO and without SCM_USE_R7RS, so that
-- the toplevel environment is '(). An environment is a list of frames, a frame the pair of a list of
-- formals and a list of actuals. `fuel` bounds the pairs of a list
-- of formals, `rounds` the frames; `none` means that they ran out.
pub mod Validate
pub mod Toplevel
pub mod Lookup
pub mod Extension
pub mod Frames
pub mod Wrap
pub mod Extend
pub mod Add
mod Tests
use sigscheme.Base.{
  ℕ, zero, suc, ◌+◌, ◌-◌, Bool, true, false, Option, none, some, ltb, ◌==◌, if◌then◌else◌,
}
use sigscheme.Object.{
  Obj, null, invalid, farsymbol, cons, Heap, car, cdr, update, is_null, is_cons, obj_eq, err_obj,
  Proc, pure, ◌>>=◌, ◌>>◌, mk_cons, ok, raise, out_of_fuel,
}
use sigscheme.Pairs.{read_car, read_cdr, write_car, write_cdr}

-- ScmRef. `ref_wild` is what REF_CAR and REF_CDR make of an object that is no pair, which the source
-- must not dereference.
pub data VarRef : Type 0 where
  invalid_ref ref_wild : VarRef
  ref_car ref_cdr : ℕ → VarRef

-- REF_CAR and REF_CDR
abbrev pub ref_car_of : Obj → VarRef
ref_car_of (cons p) = ref_car p
ref_car_of _ = ref_wild

abbrev pub ref_cdr_of : Obj → VarRef
ref_cdr_of (cons p) = ref_cdr p
ref_cdr_of _ = ref_wild

-- DEREF
abbrev pub deref : Heap → VarRef → Obj
deref h (ref_car p) = (h.pair p).car
deref h (ref_cdr p) = (h.pair p).cdr
deref h _ = invalid

-- `if (ref != SCM_INVALID_REF) return ref;` before more of a search.
abbrev pub found_or : Option VarRef → Option VarRef → Option VarRef
found_or none more = none
found_or (some invalid_ref) more = more
found_or (some ref) more = some ref

-- EQ on references
abbrev pub ref_eq : VarRef → VarRef → Bool
ref_eq invalid_ref invalid_ref = true
ref_eq (ref_car p) (ref_car q) = p == q
ref_eq (ref_cdr p) (ref_cdr q) = p == q
ref_eq _ _ = false

abbrev pub is_farsymbol : Obj → Bool
is_farsymbol (farsymbol _) = true
is_farsymbol _ = false

pub toplevel_environmentp : Obj → Bool
toplevel_environmentp env = is_null env

pub env_toplevel : ℕ → Heap → Obj → Option Obj
env_toplevel zero h env = none
env_toplevel (suc rounds) h env =
    let rest = env_toplevel rounds h (cdr h env) in if is_cons env then rest else some env

pub env_depth_loop : ℕ → Heap → Obj → ℕ → Option ℕ
env_depth_loop zero h env depth = none
env_depth_loop (suc rounds) h env depth =
    let rest = env_depth_loop rounds h (cdr h env) (depth + 1) in
    if is_cons env then rest else some depth

pub env_depth : ℕ → Heap → Obj → Option ℕ
unfolding env_depth_loop
env_depth rounds h env = env_depth_loop rounds h env 0

pub pack_env : ℕ → Heap → Obj → Option ℕ
unfolding env_depth
pack_env rounds h env = env_depth rounds h env

-- `depth-- > packed` at the depth of the context, and the outer environment after so many frames.
pub outer_env : ℕ → Heap → Obj → Obj
outer_env zero h env = env
outer_env (suc n) h env = outer_env n h (cdr h env)

pub unpack_env : ℕ → ℕ → Heap → Obj → Option Obj
unfolding env_depth outer_env
unpack_env rounds packed h context = elim (env_depth rounds h context) [
  | none ↦ none
  | some depth ↦ some (outer_env (depth - packed) h context)
]

-- `formals` and `actuals` step together.
pub lookup_frame_loop : ℕ → Heap → Obj → Obj → VarRef → Option VarRef
lookup_frame_loop zero h var formals actuals = none
lookup_frame_loop (suc fuel) h var formals actuals =
    let rest = lookup_frame_loop fuel h var (cdr h formals) (ref_cdr_of (deref h actuals)) in
    if is_cons formals
    then if obj_eq var (car h formals) then some (ref_car_of (deref h actuals)) else rest
    else if obj_eq var formals
    then some actuals
    else some invalid_ref

pub lookup_frame : ℕ → Heap → Obj → Obj → Option VarRef
unfolding lookup_frame_loop
lookup_frame fuel h var frame = lookup_frame_loop fuel h var (car h frame) (ref_cdr_of frame)

pub lookup_n_frames : ℕ → Heap → Obj → ℕ → Obj → Option VarRef
unfolding lookup_frame
lookup_n_frames fuel h id zero env = some invalid_ref
lookup_n_frames fuel h id (suc n) env =
    found_or (lookup_frame fuel h id (car h env)) (lookup_n_frames fuel h id n (cdr h env))

pub lookup_frames : ℕ → ℕ → Heap → Obj → Obj → Option VarRef
unfolding lookup_frame
lookup_frames fuel zero h var env = none
lookup_frames fuel (suc rounds) h var env =
    let rest = lookup_frames fuel rounds h var (cdr h env) in
    if is_cons env then found_or (lookup_frame fuel h var (car h env)) rest else some invalid_ref

abbrev pub ref_or_diverge : Option VarRef → Proc VarRef
ref_or_diverge none h = out_of_fuel
ref_or_diverge (some ref) h = ok ref h

-- The far symbol number `f`, with the call of scm_macro_bad_scope.
pub lookup_far_symbol : ℕ → ℕ → ℕ → Obj → Proc VarRef
unfolding env_depth outer_env lookup_n_frames
lookup_far_symbol fuel rounds f env h = elim (env_depth rounds h env) [
  | none ↦ out_of_fuel
  | some depth ↦
      let id = h.far f in
      if ltb depth id.depth
      then raise
          (err_obj
            "Identifier ~s found in wrong context.  Possibly, a macro was passed around like an object or a syntax didn't syntax-unwrap its arguments properly."
            (farsymbol f))
          h
      else ref_or_diverge
          (lookup_n_frames fuel h id.sym id.depth (outer_env (depth - id.depth) h env)) h
]

pub lookup_environment : ℕ → ℕ → Obj → Obj → Proc VarRef
unfolding lookup_frames lookup_far_symbol
lookup_environment fuel rounds (farsymbol f) env h =
    elim (lookup_frames fuel rounds h (farsymbol f) env) [
      | none ↦ out_of_fuel
      | some invalid_ref ↦ lookup_far_symbol fuel rounds f env h
      | some ref ↦ ok ref h
    ]
lookup_environment fuel rounds var env h = ref_or_diverge (lookup_frames fuel rounds h var env) h

-- MAKE_FARSYMBOL
abbrev pub make_farsymbol : Obj → ℕ → Proc Obj
make_farsymbol sym depth h = ok (farsymbol h.next) (record h {
  next = suc h.next;
  far = update h.far h.next (record { sym = sym; depth = depth });
})

pub wrap_identifier : ℕ → Obj → ℕ → Obj → Proc Obj
unfolding lookup_n_frames
wrap_identifier fuel (farsymbol f) depth env h =
    let id = h.far f in
    elim (lookup_n_frames fuel h (farsymbol f) (depth - id.depth) env) [
      | none ↦ out_of_fuel
      | some invalid_ref ↦ make_farsymbol id.sym id.depth h
      | some _ ↦ make_farsymbol (farsymbol f) depth h
    ]
wrap_identifier fuel id depth env h = make_farsymbol id depth h

pub extend_environment : Obj → Obj → Obj → Proc Obj
extend_environment formals actuals env = do frame ← mk_cons formals actuals; mk_cons frame env

pub replace_environment : Obj → Obj → Obj → Proc Obj
replace_environment formals actuals env = do
  frame ← read_car env
  write_car frame formals
  write_cdr frame actuals
  pure env

pub update_environment : Obj → Obj → Proc Obj
update_environment actuals env = do frame ← read_car env; write_cdr frame actuals; pure env

pub add_environment : Obj → Obj → Obj → Proc Obj
unfolding toplevel_environmentp
add_environment var val env = elim (toplevel_environmentp env) [
  | true ↦ do
    formals ← mk_cons var null
    actuals ← mk_cons val null
    frame ← mk_cons formals actuals
    mk_cons frame env
  | false ↦ do
    frame ← read_car env
    old_formals ← read_car frame
    formals ← mk_cons var old_formals
    old_actuals ← read_cdr frame
    actuals ← mk_cons val old_actuals
    write_car frame formals
    write_cdr frame actuals
    pure env
]
