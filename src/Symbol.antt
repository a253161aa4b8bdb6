-- ===== src/Symbol.antt =====
-- src/symbol.c: the symbol table, an array of lists of symbols. A name is the list of the bytes of a
-- C string, without the zero at its end.
pub mod Hash
pub mod Name
pub mod Intern
pub mod BoundTo
mod Tests
use Prim.Native.Nat.{bit_xor}
use sigscheme.Base.{
  ℕ, zero, suc, ◌*◌, ◌%◌, ◌^◌, sym, Bool, true, false, not, ◌&&◌, Option, none, some, List, [], ◌∷◌,
  ◌==◌, if◌then◌else◌,
}
use sigscheme.Object.{Obj, unbound, boolean, symbol, update, obj_eq}

-- scm_symbol_hash_size and scm_symbol_hash, and of each symbol its name and value. Symbols are
-- numbered in the order in which they are made.
pub record SymbolTable : Type 0 where
  pub symbol_hash_size : ℕ
  pub symbol_hash : ℕ → List ℕ
  pub next : ℕ
  pub name : ℕ → List ℕ
  pub vcell : ℕ → Obj

pub hash_loop : ℕ → ℕ → List ℕ → ℕ
hash_loop size hash [] = hash
hash_loop size hash (c ∷ name) = hash_loop size (bit_xor (hash * 17 % 2 ^ 32) c % size) name

-- symbol_name_hash; a `uint32_t` wraps around.
pub symbol_name_hash : ℕ → List ℕ → ℕ
unfolding hash_loop
symbol_name_hash size name = hash_loop size 0 name

-- strcmp(a, b) == 0
abbrev pub name_eq : List ℕ → List ℕ → Bool
name_eq [] [] = true
name_eq (a ∷ more) (b ∷ others) = a == b && name_eq more others
name_eq _ _ = false

-- The loop over one list of the table.
pub find_symbol : (ℕ → List ℕ) → List ℕ → List ℕ → Option ℕ
find_symbol names name [] = none
find_symbol names name (sym ∷ rest) =
    if name_eq (names sym) name then some sym else find_symbol names name rest

-- MAKE_SYMBOL with SCM_UNBOUND, in front of its list.
pub add_symbol : List ℕ → SymbolTable → ℕ × SymbolTable
unfolding symbol_name_hash
add_symbol name t =
    let hash = symbol_name_hash t.symbol_hash_size name in
    (
      t.next,
      record t {
        symbol_hash = update t.symbol_hash hash (t.next ∷ t.symbol_hash hash);
        next = suc t.next;
        name = update t.name t.next name;
        vcell = update t.vcell t.next unbound;
      },
    )

pub intern : List ℕ → SymbolTable → ℕ × SymbolTable
unfolding symbol_name_hash find_symbol add_symbol
intern name t =
    elim (find_symbol t.name name (t.symbol_hash (symbol_name_hash t.symbol_hash_size name))) [
      | some sym ↦ (sym, t)
      | none ↦ add_symbol name t
    ]

pub bound_in : (ℕ → Obj) → Obj → List ℕ → Option ℕ
bound_in vcell obj [] = none
bound_in vcell obj (sym ∷ rest) =
    let val = vcell sym in
    if not (obj_eq val unbound) && obj_eq val obj then some sym else bound_in vcell obj rest

-- `i` is the number of lists that were searched, `left` that of those to come.
pub bound_from : SymbolTable → Obj → ℕ → ℕ → Obj
unfolding bound_in
bound_from t obj i zero = boolean false
bound_from t obj i (suc left) =
    let rest = bound_from t obj (suc i) left in
    elim (bound_in t.vcell obj (t.symbol_hash i)) [ some sym ↦ symbol sym | none ↦ rest ]

pub symbol_bound_to : SymbolTable → Obj → Obj
unfolding bound_from
symbol_bound_to t obj = bound_from t obj 0 t.symbol_hash_size

-- initialize_symbol_hash
pub init_symbol : ℕ → SymbolTable
init_symbol size = record {
  symbol_hash_size = size;
  symbol_hash = λ _. [];
  next = 0;
  name = λ _. [];
  vcell = λ _. unbound;
}
