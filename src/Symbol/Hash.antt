-- ===== src/Symbol/Hash.antt =====
-- src/symbol.c: the hash is an index of the table.
use Prim.Native.Nat.{bit_xor}
use sigscheme.Base.{ℕ, ◌*◌, ◌%◌, ◌^◌, ◌<◌, List, [], ◌∷◌, arith}
use sigscheme.Symbol.{hash_loop, symbol_name_hash}

mod_lt : (size n : ℕ) → 0 < size → n % size < size
mod_lt size n lt = grind arith

hash_loop-lt : (name : List ℕ) (size hash : ℕ) → hash < size → hash_loop size hash name < size
unfolding hash_loop
hash_loop-lt [] size hash lt = lt
hash_loop-lt (c ∷ name) size hash lt =
    hash_loop-lt name size (bit_xor (hash * 17 % 2 ^ 32) c % size)
      (mod_lt size (bit_xor (hash * 17 % 2 ^ 32) c) (omega arith))

-- In a table that has a list, symbol_name_hash is the index of one, whatever the name.
pub symbol_name_hash-lt : (size : ℕ) (name : List ℕ) → 0 < size → symbol_name_hash size name < size
unfolding symbol_name_hash
symbol_name_hash-lt size name lt = hash_loop-lt name size 0 lt
