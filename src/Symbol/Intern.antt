-- ===== src/Symbol/Intern.antt =====
-- src/symbol.c: interning is one-to-one between names and symbols.
use sigscheme.Base.{
  ℕ, ◌<◌, ◌≡◌, refl, sym, ap, subst, ◌∙◌, ◌≢◌, ◌↔◌, inl, inr, Option, none, some, List, [], ◌∷◌,
  arith, ◌==◌, ==_iff, ==-refl, Bool-cases, Option-cases, All,
}
use sigscheme.Object.{update}
use sigscheme.Symbol.Name.{name_eq_refl, eq_of_name_eq, name_eq_ne}
use sigscheme.Symbol.{
  SymbolTable, symbol_name_hash, name_eq, find_symbol, add_symbol, intern, init_symbol,
}

-- The table as a map: the symbol of a name.
abbrev pub symbol_of : SymbolTable → List ℕ → Option ℕ
symbol_of t name =
    find_symbol t.name name (t.symbol_hash (symbol_name_hash t.symbol_hash_size name))

-- A symbol in the list of its hash.
abbrev pub MadeIn : SymbolTable → ℕ → ℕ → Type 0
MadeIn t i s = (s < t.next) × (symbol_name_hash t.symbol_hash_size (t.name s) ≡ i)

-- Each list holds symbols that were made, of its hash, and each symbol that was made is the one that
-- is found under its name.
pub record WellFormed (t : SymbolTable) : Type 0 where
  pub made : (i : ℕ) → All (MadeIn t i) (t.symbol_hash i)
  pub listed : (s : ℕ) → s < t.next → symbol_of t (t.name s) ≡ some s

find_symbol_sound :
    (t : SymbolTable) (name : List ℕ) (i : ℕ) (lst : List ℕ) (s : ℕ)
    → All (MadeIn t i) lst
    → find_symbol t.name name lst ≡ some s
    → (s < t.next) × (t.name s ≡ name)
unfolding find_symbol
find_symbol_sound t name i [] s made found = cc
find_symbol_sound t name i (x ∷ lst) s (here, made) found =
    elim (Bool-cases (name_eq (t.name x) name)) [
      | inl same ↦
          let it : x ≡ s = ground arith in
          (
            subst (λ (k : ℕ). k < t.next) it here.0,
            subst (λ (k : ℕ). t.name k ≡ name) it (eq_of_name_eq (t.name x) name same),
          )
      | inr differ ↦ find_symbol_sound t name i lst s made (ground arith)
    ]

-- The symbol of a name has this name.
pub symbol_of-name :
    (t : SymbolTable) (name : List ℕ) (s : ℕ)
    → WellFormed t
    → symbol_of t name ≡ some s
    → (s < t.next) × (t.name s ≡ name)
symbol_of-name t name s w found = find_symbol_sound t name _ _ s (w.made _) found

-- A symbol with a new number does not disturb a list of old ones.
find_symbol-update :
    (t : SymbolTable) (new name : List ℕ) (i : ℕ) (lst : List ℕ)
    → All (MadeIn t i) lst
    → find_symbol (update t.name t.next new) name lst ≡ find_symbol t.name name lst
unfolding find_symbol
find_symbol-update t new name i [] made = refl
find_symbol-update t new name i (x ∷ lst) (here, made) =
    let old : update t.name t.next new x ≡ t.name x = ground arith in
    let ih = find_symbol-update t new name i lst made in rw old (rw ih refl)

MadeIn-update :
    (t : SymbolTable) (new : List ℕ) (i : ℕ) (lst : List ℕ)
    → All (MadeIn t i) lst
    → All (MadeIn (add_symbol new t).1 i) lst
unfolding add_symbol
MadeIn-update t new i [] made = tt
MadeIn-update t new i (x ∷ lst) ((lt, hash), made) =
    let old : update t.name t.next new x ≡ t.name x = ground arith in
    ((omega arith, rw old hash), MadeIn-update t new i lst made)

-- The new symbol is found under its name, and what is found under other names stays.
symbol_of-add_symbol :
    (t : SymbolTable) (name : List ℕ) → symbol_of (add_symbol name t).1 name ≡ some t.next
unfolding add_symbol find_symbol
symbol_of-add_symbol t name = ground (arith, ==-refl t.next, name_eq_refl name)

symbol_of-add_symbol_other :
    (t : SymbolTable) (name other : List ℕ)
    → WellFormed t
    → other ≢ name
    → symbol_of (add_symbol name t).1 other ≡ symbol_of t other
unfolding add_symbol find_symbol
symbol_of-add_symbol_other t name other w ne =
    let hash = symbol_name_hash t.symbol_hash_size in
    let kept =
      find_symbol-update t name other (hash other) (t.symbol_hash (hash other)) (w.made _) in
    elim (Bool-cases (hash name == hash other)) [
      | inl same ↦
          let at_one : hash name ≡ hash other = (==_iff _ _).0 same in
          rw same
            (rw (==-refl t.next) (rw (name_eq_ne name other (λ e. ne (sym e))) (rw at_one kept)))
      | inr differ ↦ rw differ kept
    ]

symbol_of_none_lem :
    (t : SymbolTable) (name : List ℕ) (s : ℕ)
    → WellFormed t
    → symbol_of t name ≡ none
    → s < t.next
    → t.name s ≢ name
symbol_of_none_lem t name s w missing lt same =
    let found = w.listed s lt in let gone : symbol_of t (t.name s) ≡ none = rw same missing in cc

add_symbol-WellFormed :
    (t : SymbolTable) (name : List ℕ)
    → WellFormed t
    → symbol_of t name ≡ none
    → WellFormed (add_symbol name t).1
unfolding add_symbol
add_symbol-WellFormed t name w missing = record {
  made = λ i. elim (Bool-cases (symbol_name_hash t.symbol_hash_size name == i)) [
    | inl same ↦
        let here : symbol_name_hash t.symbol_hash_size name ≡ i = (==_iff _ i).0 same in
        let old : All (MadeIn t i) (t.symbol_hash (symbol_name_hash t.symbol_hash_size name)) =
          subst
            (λ (k : ℕ). All (MadeIn t k) (t.symbol_hash (symbol_name_hash t.symbol_hash_size name)))
            here (w.made _) in
        rw same ((omega arith, rw (==-refl t.next) here), MadeIn-update t name i _ old)
    | inr differ ↦ rw differ (MadeIn-update t name i _ (w.made i))
  ];
  listed = λ s lt. elim (Bool-cases (t.next == s)) [
    | inl same ↦
        let last : t.next ≡ s = (==_iff _ s).0 same in
        rw same (symbol_of-add_symbol t name ∙ ap some last)
    | inr differ ↦
        let older : s < t.next = ground arith in
        rw differ (
          symbol_of-add_symbol_other t name (t.name s) w
            (symbol_of_none_lem t name s w missing older)
          ∙ w.listed s older)
  ];
}

-- What interning a name leaves: a well-formed table with the symbol of this name, in which interning
-- it again changes nothing and gives the same symbol, the symbols of all other names are what they
-- were, and symbols made before keep their names.
abbrev pub Interned : SymbolTable → List ℕ → ℕ × SymbolTable → Type 0
Interned t name (s, u) =
    WellFormed u
    × (s < u.next)
    × (u.name s ≡ name)
    × (intern name u ≡ (s, u))
    × ((other : List ℕ) → other ≢ name → symbol_of u other ≡ symbol_of t other)
    × ((k : ℕ) → k < t.next → u.name k ≡ t.name k)

intern-some :
    (t : SymbolTable) (name : List ℕ) (s : ℕ) → symbol_of t name ≡ some s → intern name t ≡ (s, t)
unfolding intern
intern-some t name s found = ground (arith, found)

intern-none :
    (t : SymbolTable) (name : List ℕ) → symbol_of t name ≡ none → intern name t ≡ add_symbol name t
unfolding intern
intern-none t name missing = ground (arith, missing)

add_symbol-Interned :
    (t : SymbolTable) (name : List ℕ)
    → WellFormed t
    → symbol_of t name ≡ none
    → Interned t name (add_symbol name t)
unfolding add_symbol
add_symbol-Interned t name w missing = (
  add_symbol-WellFormed t name w missing,
  omega arith,
  rw (==-refl t.next) refl,
  intern-some (add_symbol name t).1 name t.next (symbol_of-add_symbol t name),
  λ other ne. symbol_of-add_symbol_other t name other w ne,
  λ k lt. ground arith,
)

-- Interning a name in a well-formed table gives a symbol of this name and leaves a well-formed table,
-- in which interning the name again changes nothing and gives the same symbol, the symbols of all
-- other names are what they were, and symbols made before keep their names.
pub intern-Interned :
    (t : SymbolTable) (name : List ℕ) → WellFormed t → Interned t name (intern name t)
intern-Interned t name w = elim (Option-cases (symbol_of t name)) [
  | inl missing ↦
      subst (Interned t name) (sym (intern-none t name missing))
        (add_symbol-Interned t name w missing)
  | inr (s, found) ↦
      let e = intern-some t name s found in
      let (lt, named) = symbol_of-name t name s w found in
      subst (Interned t name) (sym e) (w, lt, named, e, λ other ne. refl, λ k lt. refl)
]

-- The table that scm_init_symbol makes is well-formed, whatever its size.
pub init_symbol-WellFormed : (size : ℕ) → WellFormed (init_symbol size)
unfolding init_symbol
init_symbol-WellFormed size = record { made = λ i. tt; listed = λ s lt. absurd (omega arith) }

-- Two names are interned, one after the other, as the same symbol just where they are equal.
pub intern-intern :
    (t : SymbolTable) (a b : List ℕ)
    → WellFormed t
    → let (x, u) = intern a t in let (y, v) = intern b u in (x ≡ y) ↔ (a ≡ b)
intern-intern t a b w =
    let x = (intern a t).0 in
    let u = (intern a t).1 in
    let (wu, made, named_a, again, _, _) = intern-Interned t a w in
    let (_, _, named_b, _, _, kept) = intern-Interned u b wu in
    (
      λ same. sym named_a ∙ sym (kept x made) ∙ ap (intern b u).1.name same ∙ named_b,
      λ same. subst (λ c. x ≡ (intern c u).0) same (sym (ap (λ r. r.0) again)),
    )
