-- ===== src/Object.antt =====
-- include/sigscheme/sigscheme.h and src/sigschemeinternal.h: Scheme objects, the cells that they
-- refer to, and what an operation of the C library can do. Numbers and characters are immediate
-- values, as in the compact storage, so that EQ compares objects by what they are. A cell is known
-- by its address; `next` is the first address that was never used. Procedures that can raise an
-- error or run for ever return an `Outcome`.
pub mod Chain
use Prim.Native.String.{String}
use sigscheme.Base.{
  ℕ, suc, ◌≡◌, refl, subst, ◌≢◌, ◌↔◌, inl, inr, Bool, true, false, arith, ◌==◌, if◌then◌else◌,
  ==-refl, Bool-cases,
}
use sigscheme.Base.Int.{ℤ, int_eq}

pub data Obj : Type 0 where
  null undef unbound invalid : Obj
  boolean : Bool → Obj
  int : ℤ → Obj
  char : ℕ → Obj
  symbol : ℕ → Obj
  farsymbol : ℕ → Obj
  cons : ℕ → Obj
  other : ℕ → Obj

pub record Pair : Type 0 where
  pub car : Obj
  pub cdr : Obj
  pub is_mutable : Bool

-- A wrapped identifier: its symbol and the depth of the environment where it was made.
pub record FarSymbol : Type 0 where
  pub sym : Obj
  pub depth : ℕ

pub record Heap : Type 0 where
  pub next : ℕ
  pub pair : ℕ → Pair
  pub far : ℕ → FarSymbol
  pub vcell : ℕ → Obj

-- EQ
abbrev pub obj_eq : Obj → Obj → Bool
obj_eq null null = true
obj_eq undef undef = true
obj_eq unbound unbound = true
obj_eq invalid invalid = true
obj_eq (boolean true) (boolean true) = true
obj_eq (boolean false) (boolean false) = true
obj_eq (int a) (int b) = int_eq a b
obj_eq (char a) (char b) = a == b
obj_eq (symbol a) (symbol b) = a == b
obj_eq (farsymbol a) (farsymbol b) = a == b
obj_eq (cons a) (cons b) = a == b
obj_eq (other a) (other b) = a == b
obj_eq _ _ = false

abbrev pub is_null : Obj → Bool
is_null null = true
is_null _ = false

abbrev pub is_cons : Obj → Bool
is_cons (cons _) = true
is_cons _ = false

-- SYMBOLP or FARSYMBOLP
abbrev pub is_identifier : Obj → Bool
is_identifier (symbol _) = true
is_identifier (farsymbol _) = true
is_identifier _ = false

-- CAR and CDR of a pair. Of anything else the source does not ask them.
abbrev pub car : Heap → Obj → Obj
car h (cons p) = (h.pair p).car
car h _ = invalid

abbrev pub cdr : Heap → Obj → Obj
cdr h (cons p) = (h.pair p).cdr
cdr h _ = invalid

abbrev pub update {ℓ} : {A : Type ℓ} (f : ℕ → A) (p : ℕ) (v : A) (q : ℕ) → A
update f p v q = if p == q then v else f q

-- CONS: the new pair and the heap with it.
abbrev pub make_cons : Obj → Obj → Heap → Heap
make_cons a d h = record h {
  next = suc h.next;
  pair = update h.pair h.next (record { car = a; cdr = d; is_mutable = true });
}

abbrev pub set_car : ℕ → Obj → Heap → Heap
set_car p v h = record h { pair = update h.pair p (record (h.pair p) { car = v }) }

abbrev pub set_cdr : ℕ → Obj → Heap → Heap
set_cdr p v h = record h { pair = update h.pair p (record (h.pair p) { cdr = v }) }

-- ERR and ERR_OBJ
pub data SchemeError : Type 0 where
  err : String → SchemeError
  err_obj : String → Obj → SchemeError

-- What a call does: a value, an error, either with the heap that it leaves, or no end in sight.
pub data Outcome (A : Type 0) : Type 0 where
  ok : A → Heap → Outcome A
  raise : SchemeError → Heap → Outcome A
  out_of_fuel : Outcome A

abbrev pub Proc : Type 0 → Type 0
Proc A = Heap → Outcome A

abbrev pub pure : {A : Type 0} → A → Proc A
pure a h = ok a h

infixl 5 ◌>>=◌ ◌>>◌
abbrev pub ◌>>=◌ : {A B : Type 0} → Proc A → (A → Proc B) → Proc B
◌>>=◌ m f h = elim (m h) [ ok a h' ↦ f a h' | raise e h' ↦ raise e h' | out_of_fuel ↦ out_of_fuel ]

abbrev pub ◌>>◌ : {B : Type 0} → Proc (Unit {0}) → Proc B → Proc B
m >> k = m >>= λ _. k

abbrev pub fail : {A : Type 0} → SchemeError → Proc A
fail e h = raise e h

abbrev pub diverge : {A : Type 0} → Proc A
diverge h = out_of_fuel

-- ENSURE_CONS and the like.
abbrev pub ensure : Bool → SchemeError → Proc (Unit {0})
ensure true e = pure tt
ensure false e = fail e

abbrev pub mk_cons : Obj → Obj → Proc Obj
mk_cons a d h = ok (cons h.next) (make_cons a d h)

obj_eq_refl : (a : Obj) → obj_eq a a ≡ true
obj_eq_refl (boolean true) = refl
obj_eq_refl (boolean false) = refl
obj_eq_refl (int (ℤ.pos n)) = ==-refl n
obj_eq_refl (int (ℤ.negsuc n)) = ==-refl n
obj_eq_refl (char n) = ==-refl n
obj_eq_refl (symbol n) = ==-refl n
obj_eq_refl (farsymbol n) = ==-refl n
obj_eq_refl (cons n) = ==-refl n
obj_eq_refl (other n) = ==-refl n
obj_eq_refl _ = refl

eq_of_obj_eq : (a b : Obj) → obj_eq a b ≡ true → a ≡ b
eq_of_obj_eq null b h = ground arith
eq_of_obj_eq undef b h = ground arith
eq_of_obj_eq unbound b h = ground arith
eq_of_obj_eq invalid b h = ground arith
eq_of_obj_eq (boolean x) b h = ground arith
eq_of_obj_eq (int x) b h = ground arith
eq_of_obj_eq (char x) b h = ground arith
eq_of_obj_eq (symbol x) b h = ground arith
eq_of_obj_eq (farsymbol x) b h = ground arith
eq_of_obj_eq (cons x) b h = ground arith
eq_of_obj_eq (other x) b h = ground arith

-- EQ decides equality of objects.
pub obj_eq_iff : (a b : Obj) → (obj_eq a b ≡ true) ↔ (a ≡ b)
obj_eq_iff a b = (eq_of_obj_eq a b, λ e. subst (λ x. obj_eq a x ≡ true) e (obj_eq_refl a))

pub obj_eq_ne : (a b : Obj) → a ≢ b → obj_eq a b ≡ false
obj_eq_ne a b h = elim (Bool-cases (obj_eq a b)) [
  | inl same ↦ absurd (h (eq_of_obj_eq a b same))
  | inr differ ↦ differ
]

pub null_of_cons : (o : Obj) → is_cons o ≡ true → is_null o ≡ false
null_of_cons o h = ground arith
