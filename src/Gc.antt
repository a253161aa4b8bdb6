-- ===== src/Gc.antt =====
-- src/storage-gc.c: the vector of protected variables. A slot is the address of a variable, or `none`
-- where it is empty.
pub mod Protect
pub mod Memory
pub mod Sweep
pub mod Mark
pub mod Reach
pub mod Collect
pub mod MarkBits
pub mod RootCells
pub mod Safety
pub mod Collected
pub mod Allocate
mod Tests
use sigscheme.Base.{
  ℕ, zero, suc, Bool, true, false, Option, none, some, List, [], ◌∷◌, ◌++◌, ◌==◌, if◌then◌else◌,
  set,
}

-- l_protected_vars with its size, and l_n_empty_protected_vars.
pub record ProtectedVars : Type 0 where
  pub slots : List (Option ℕ)
  pub n_empty : ℕ

abbrev pub no_protected_vars : ProtectedVars
no_protected_vars = record { slots = []; n_empty = 0 }

abbrev pub slot_eq : Option ℕ → Option ℕ → Bool
slot_eq none none = true
slot_eq (some a) (some b) = a == b
slot_eq _ _ = false

-- The index of the first slot that holds `var`.
pub locate_protected_var : Option ℕ → List (Option ℕ) → Option ℕ
locate_protected_var var [] = none
locate_protected_var var (slot ∷ slots) =
    let rest = locate_protected_var var slots in
    if slot_eq slot var then some 0 else elim rest [ none ↦ none | some i ↦ some (suc i) ]

-- `none` is the write through a null pointer where no slot is empty although some should be.
pub gc_protect : ℕ → ProtectedVars → Option ProtectedVars
unfolding locate_protected_var
gc_protect var p = elim p.n_empty [
  | zero ↦ some (record p { slots = p.slots ++ (some var ∷ []) })
  | suc n ↦ elim (locate_protected_var none p.slots) [
    | none ↦ none
    | some i ↦ some (record { slots = set p.slots i (some var); n_empty = n })
  ]
]

pub gc_unprotect : ℕ → ProtectedVars → ProtectedVars
unfolding locate_protected_var
gc_unprotect var p = elim (locate_protected_var (some var) p.slots) [
  | none ↦ p
  | some i ↦ record { slots = set p.slots i none; n_empty = suc p.n_empty }
]
