-- ===== src/Symbol/Tests.antt =====
-- The theorems on the symbol table at concrete tables.
use sigscheme.Base.{ℕ, ◌≡◌, refl, false, List, [], ◌∷◌}
use sigscheme.Object.{boolean, symbol, null, unbound}
use sigscheme.Symbol.{SymbolTable, intern, init_symbol, symbol_bound_to}
use sigscheme.Symbol.Intern.{WellFormed, Interned, intern-Interned, init_symbol-WellFormed}

-- car
abbrev car_name : List ℕ
car_name = 99 ∷ 97 ∷ 114 ∷ []

-- cdr
abbrev cdr_name : List ℕ
cdr_name = 99 ∷ 100 ∷ 114 ∷ []

abbrev table : SymbolTable
table = (intern car_name (init_symbol 3)).1

-- The same name is one symbol, and two names are two.
intern_runs : ((intern car_name table).0 ≡ 0) × ((intern cdr_name table).0 ≡ 1)
unfolding intern init_symbol
intern_runs = (refl, refl)

symbol_bound_to_runs :
    (symbol_bound_to (record table { vcell = λ _. null }) null ≡ symbol 0)
    × (symbol_bound_to table unbound ≡ boolean false)
unfolding symbol_bound_to intern init_symbol
symbol_bound_to_runs = (refl, refl)

table-WellFormed : WellFormed table
table-WellFormed = (intern-Interned (init_symbol 3) car_name (init_symbol-WellFormed 3)).0

intern-Interned_example : Interned table cdr_name (intern cdr_name table)
intern-Interned_example = intern-Interned table cdr_name table-WellFormed
