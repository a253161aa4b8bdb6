-- ===== src/Symbol/BoundTo.antt =====
-- src/symbol.c: the reverse search for a symbol that is bound to an object.
use sigscheme.Base.{
  ℕ, zero, suc, ◌+◌, ◌≤◌, ◌<◌, ◌≡◌, refl, subst, ◌∙◌, ◌⊎◌, inl, inr, Bool, true, false, not, ◌&&◌,
  none, some, List, [], ◌∷◌, arith, ◌==◌, ==_iff, Bool-cases, Option-cases, All,
}
use sigscheme.Object.{Obj, unbound, boolean, symbol, obj_eq}
use sigscheme.Symbol.{SymbolTable, bound_in, bound_from, symbol_bound_to}

abbrev pub Listed : ℕ → List ℕ → Type 0
Listed s [] = ⊥
Listed s (x ∷ lst) = (x ≡ s) ⊎ Listed s lst

-- Whether the value of a symbol is the object, and no mark of an unbound variable.
abbrev pub is_bound_to : SymbolTable → Obj → ℕ → Bool
is_bound_to t obj s = not (obj_eq (t.vcell s) unbound) && obj_eq (t.vcell s) obj

abbrev pub NotBoundTo : SymbolTable → Obj → ℕ → Type 0
NotBoundTo t obj s = is_bound_to t obj s ≡ false

bound_in-some :
    (t : SymbolTable) (obj : Obj) (lst : List ℕ) (s : ℕ)
    → bound_in t.vcell obj lst ≡ some s
    → Listed s lst × (is_bound_to t obj s ≡ true)
unfolding bound_in
bound_in-some t obj [] s found = cc
bound_in-some t obj (x ∷ lst) s found = elim (Bool-cases (is_bound_to t obj x)) [
  | inl here ↦
      let it : x ≡ s = ground arith in
      (inl it, subst (λ (k : ℕ). is_bound_to t obj k ≡ true) it here)
  | inr other ↦ let (there, bound) = bound_in-some t obj lst s (ground arith) in (inr there, bound)
]

bound_in-none :
    (t : SymbolTable) (obj : Obj) (lst : List ℕ)
    → bound_in t.vcell obj lst ≡ none
    → All (NotBoundTo t obj) lst
unfolding bound_in
bound_in-none t obj [] missing = tt
bound_in-none t obj (x ∷ lst) missing = elim (Bool-cases (is_bound_to t obj x)) [
  | inl here ↦ absurd (ground arith)
  | inr other ↦ (other, bound_in-none t obj lst (ground arith))
]

-- The search through the lists from number `i` to before `end` gives a symbol in one of them that is
-- bound to the object, or #f where there is none.
abbrev pub Answers : SymbolTable → Obj → ℕ → ℕ → Obj → Type 0
Answers t obj i end answer =
    ((s : ℕ) × (k : ℕ) × (answer ≡ symbol s)
      × (k < end)
      × Listed s (t.symbol_hash k)
      × (is_bound_to t obj s ≡ true))
    ⊎ ((answer ≡ boolean false)
        × ((k : ℕ) → i ≤ k → k < end → All (NotBoundTo t obj) (t.symbol_hash k)))

bound_from-Answers :
    (left i end : ℕ) (t : SymbolTable) (obj : Obj)
    → i + left ≡ end
    → Answers t obj i end (bound_from t obj i left)
unfolding bound_from
bound_from-Answers zero i end t obj e = inr (refl, λ k le lt. absurd (omega arith))
bound_from-Answers (suc left) i end t obj e =
    elim (Option-cases (bound_in t.vcell obj (t.symbol_hash i))) [
      | inr (s, found) ↦
          let (listed, bound) = bound_in-some t obj (t.symbol_hash i) s found in
          inl (s, i, ground (arith, found), omega arith, listed, bound)
      | inl missing ↦
          let same : bound_from t obj i (suc left) ≡ bound_from t obj (suc i) left =
            ground (arith, missing) in
          let first = bound_in-none t obj (t.symbol_hash i) missing in
          elim (bound_from-Answers left (suc i) end t obj (omega arith)) [
            | inl (s, k, a, lt, listed, bound) ↦ inl (s, k, same ∙ a, lt, listed, bound)
            | inr (a, others) ↦ inr (
              same ∙ a,
              λ k le lt. elim (Bool-cases (i == k)) [
                | inl here ↦
                    subst (λ (n : ℕ). All (NotBoundTo t obj) (t.symbol_hash n))
                      ((==_iff i k).0 here) first
                | inr later ↦ others k (ground arith) lt
              ],
            )
          ]
    ]

-- scm_symbol_bound_to gives a symbol of the table whose value is the object, and #f just where the
-- table has none.
pub symbol_bound_to-Answers :
    (t : SymbolTable) (obj : Obj) → Answers t obj 0 t.symbol_hash_size (symbol_bound_to t obj)
unfolding symbol_bound_to
symbol_bound_to-Answers t obj =
    bound_from-Answers t.symbol_hash_size 0 t.symbol_hash_size t obj (omega arith)
