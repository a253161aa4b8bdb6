-- ===== src/Pairs.antt =====
-- src/list.c: pairs and lists in the heap. Loops over a list of the program run on fuel, since a
-- list can be circular; the theorems say how much is enough. `strict` is SCM_STRICT_ARGCHECK.
pub mod Traverse
pub mod Length
pub mod Circular
pub mod Reverse
pub mod Queue
pub mod Append
pub mod Search
mod Tests
use sigscheme.Base.{
  ℕ, zero, suc, ◌+◌, Bool, true, false, not, ◌&&◌, ◌||◌, Option, none, some, ◌==◌, if◌then◌else◌,
}
use sigscheme.Base.Int.{ℤ, pos, negsuc}
use sigscheme.Object.{
  Obj, undef, boolean, int, cons, Heap, car, cdr, set_car, set_cdr, is_null, is_cons, obj_eq, err,
  err_obj, Proc, pure, ◌>>=◌, ◌>>◌, diverge, ensure, mk_cons, ok, raise, out_of_fuel,
}

-- SCM_INT_T_MIN of 64 bits; `~len` is `negsuc len`.
abbrev pub int_t_min : ℤ
int_t_min = negsuc 0x7fff_ffff_ffff_ffff

-- SCM_LISTLEN_ENCODE_DOTTED and SCM_LISTLEN_ENCODE_CIRCULAR.
abbrev pub encode_dotted : ℕ → ℤ
encode_dotted len = negsuc len

abbrev pub encode_circular : ℤ
encode_circular = int_t_min

abbrev pub is_proper : ℤ → Bool
is_proper (pos _) = true
is_proper (negsuc _) = false

abbrev pub is_circular : ℤ → Bool
is_circular (pos _) = false
is_circular (negsuc n) = n == 0x7fff_ffff_ffff_ffff

pub pairp : Obj → Obj
pairp obj = boolean (is_cons obj)

pub p_nullp : Obj → Obj
p_nullp obj = boolean (is_null obj)

-- list, of the list of its arguments
pub p_list : Obj → Obj
p_list args = args

pub p_cons : Obj → Obj → Proc Obj
p_cons a d = mk_cons a d

abbrev pub ensure_cons : Obj → Proc (Unit {0})
ensure_cons obj = ensure (is_cons obj) (err_obj "pair required but got" obj)

-- CAR and CDR
abbrev pub read_car : Obj → Proc Obj
read_car obj h = ok (car h obj) h

abbrev pub read_cdr : Obj → Proc Obj
read_cdr obj h = ok (cdr h obj) h

p_car : Obj → Proc Obj
p_car obj = do ensure_cons obj; read_car obj

p_cdr : Obj → Proc Obj
p_cdr obj = do ensure_cons obj; read_cdr obj

-- ENSURE_MUTABLE_CONS, of a storage with immutable pairs.
abbrev pub ensure_mutable : Obj → Proc (Unit {0})
ensure_mutable (cons p) h =
    if (h.pair p).is_mutable
    then ok tt h
    else raise (err_obj "attempted to modify immutable pair" (cons p)) h
ensure_mutable obj h = ok tt h

abbrev pub write_car : Obj → Obj → Proc (Unit {0})
write_car (cons p) v h = ok tt (set_car p v h)
write_car _ v h = ok tt h

abbrev pub write_cdr : Obj → Obj → Proc (Unit {0})
write_cdr (cons p) v h = ok tt (set_cdr p v h)
write_cdr _ v h = ok tt h

pub p_set_car : Obj → Obj → Proc Obj
p_set_car pair v = do ensure_cons pair; ensure_mutable pair; write_car pair v; pure undef

pub p_set_cdr : Obj → Obj → Proc Obj
p_set_cdr pair v = do ensure_cons pair; ensure_mutable pair; write_cdr pair v; pure undef

pub p_caar : Obj → Proc Obj
unfolding p_car
p_caar lst = do a ← p_car lst; p_car a

pub p_cadr : Obj → Proc Obj
unfolding p_car p_cdr
p_cadr lst = do d ← p_cdr lst; p_car d

pub p_cdar : Obj → Proc Obj
unfolding p_car p_cdr
p_cdar lst = do a ← p_car lst; p_cdr a

pub p_cddr : Obj → Proc Obj
unfolding p_cdr
p_cddr lst = do d ← p_cdr lst; p_cdr d

pub p_caddr : Obj → Proc Obj
unfolding p_car p_cdr
p_caddr lst = do d ← p_cdr lst; e ← p_cdr d; p_car e

pub p_cdddr : Obj → Proc Obj
unfolding p_cdr
p_cdddr lst = do d ← p_cdr lst; e ← p_cdr d; p_cdr e

pub finite_length_loop : ℕ → Heap → Obj → ℕ → Option ℤ
finite_length_loop zero h lst len = none
finite_length_loop (suc fuel) h lst len =
    let rest = finite_length_loop fuel h (cdr h lst) (len + 1) in
    if is_cons lst then rest else some (if is_null lst then pos len else encode_dotted len)

-- scm_finite_length
unfoldable pub finite_length : ℕ → Heap → Obj → Option ℤ
unfolding finite_length_loop
finite_length fuel h lst = finite_length_loop fuel h lst 0

-- One round of scm_length takes two steps with `lst` and one with `slow`.
pub length_loop : ℕ → Heap → Obj → Obj → ℕ → Option ℤ
length_loop zero h lst slow len = none
length_loop (suc fuel) h lst slow len =
    let second = cdr h lst in
    let rest = length_loop fuel h (cdr h second) (cdr h slow) (len + 2) in
    if is_null lst
    then some (pos len)
    else if not (is_cons lst)
    then some (encode_dotted len)
    else if not (len == 0) && obj_eq lst slow
    then some encode_circular
    else if is_null second
    then some (pos (len + 1))
    else if not (is_cons second)
    then some (encode_dotted (len + 1))
    else if obj_eq second slow
    then some encode_circular
    else rest

-- scm_length; `none` means that the fuel ran out.
unfoldable pub scm_length : ℕ → Heap → Obj → Option ℤ
unfolding length_loop
scm_length fuel h lst = length_loop fuel h lst lst 0

abbrev pub or_diverge : Option ℤ → Proc ℤ
or_diverge none = diverge
or_diverge (some len) = pure len

-- SCM_PROPER_LISTP behind the fast paths.
pub p_listp : ℕ → Obj → Proc Obj
p_listp fuel obj h =
    if is_null obj
    then ok (boolean true) h
    else if not (is_cons obj)
    then ok (boolean false) h
    else elim (scm_length fuel h obj) [
      | none ↦ out_of_fuel
      | some len ↦ ok (boolean (is_proper len)) h
    ]

-- `write_ss` is SCM_WRITE_SS_ENABLEDP(), whether a circular list can be printed.
pub p_length : Bool → ℕ → Obj → Proc Obj
p_length write_ss fuel obj h = elim (scm_length fuel h obj) [
  | none ↦ out_of_fuel
  | some len ↦
      if is_proper len
      then ok (int len) h
      else if is_circular len && not write_ss
      then raise (err "proper list required but got a circular list") h
      else raise (err_obj "proper list required but got" obj) h
]

-- CHECK_PROPER_LIST_TERMINATION
abbrev pub check_termination : Bool → Obj → Obj → Proc (Unit {0})
check_termination strict term lst =
    ensure (not strict || is_null term) (err_obj "proper list required but got" lst)
