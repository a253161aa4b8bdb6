-- ===== src/Gc/Protect.antt =====
-- src/storage-gc.c: the vector of protected variables is a multiset of variables.
use sigscheme.Base.{
  ℕ, zero, suc, ◌+◌, ◌-◌, ◌≡◌, refl, ap, subst, ◌≢◌, ◌⊎◌, inl, inr, true, Option, none, some, List,
  [], ◌∷◌, ◌++◌, arith, ◌==◌, if◌then◌else◌, ==-refl, ==_ne, Bool-cases, Option-cases, length, set,
  length-append,
}
use sigscheme.Gc.{ProtectedVars, slot_eq, locate_protected_var, gc_protect, gc_unprotect}

abbrev pub occurs : Option ℕ → Option ℕ → ℕ
occurs var slot = if slot_eq slot var then 1 else 0

-- How often a variable is protected, and how many slots are empty.
abbrev pub count : Option ℕ → List (Option ℕ) → ℕ
count var [] = 0
count var (slot ∷ slots) = occurs var slot + count var slots

-- The number of empty slots is what it says.
abbrev pub WellCounted : ProtectedVars → Type 0
WellCounted p = p.n_empty ≡ count none p.slots

slot_eq_refl : (a : Option ℕ) → slot_eq a a ≡ true
slot_eq_refl none = refl
slot_eq_refl (some a) = ==-refl a

eq_of_slot_eq : (a b : Option ℕ) → slot_eq a b ≡ true → a ≡ b
eq_of_slot_eq none b h = ground arith
eq_of_slot_eq (some a) b h = ground arith

locate_protected_var-none :
    (var : Option ℕ) (slots : List (Option ℕ))
    → locate_protected_var var slots ≡ none
    → count var slots ≡ 0
unfolding locate_protected_var
locate_protected_var-none var [] e = refl
locate_protected_var-none var (slot ∷ slots) e =
    elim (Option-cases (locate_protected_var var slots)) [
      | inl missing ↦ let ih = locate_protected_var-none var slots missing in ground arith
      | inr (i, found) ↦ absurd (ground arith)
    ]

-- Writing to the slot that was found takes one `old` away and brings one `new`.
count-set :
    (old new var : Option ℕ) (slots : List (Option ℕ)) (i : ℕ)
    → locate_protected_var old slots ≡ some i
    → count var (set slots i new) + occurs var old ≡ count var slots + occurs var new
unfolding locate_protected_var
count-set old new var [] i e = cc
count-set old new var (slot ∷ slots) i e =
    let Goal : ℕ → Type 0 = λ k.
      count var (set (slot ∷ slots) k new) + occurs var old
      ≡ count var (slot ∷ slots) + occurs var new in
    elim (Bool-cases (slot_eq slot old)) [
      | inl here ↦
          let first : 0 ≡ i = ground arith in
          subst Goal first (rw (eq_of_slot_eq slot old here) (omega arith))
      | inr differ ↦ elim (Option-cases (locate_protected_var old slots)) [
        | inl missing ↦ absurd (ground arith)
        | inr (j, found) ↦
            let later : suc j ≡ i = ground arith in
            let ih = count-set old new var slots j found in subst Goal later (omega arith)
      ]
    ]

count-append :
    (var : Option ℕ) (xs ys : List (Option ℕ)) → count var (xs ++ ys) ≡ count var xs + count var ys
count-append var [] ys = omega arith
count-append var (x ∷ xs) ys = omega (arith, count-append var xs ys)

length-set :
    (new : Option ℕ) (slots : List (Option ℕ)) (i : ℕ) → length (set slots i new) ≡ length slots
length-set new [] i = ground arith
length-set new (slot ∷ slots) zero = refl
length-set new (slot ∷ slots) (suc i) = ap suc (length-set new slots i)

zero_or_suc : (n : ℕ) → (n ≡ 0) ⊎ ((m : ℕ) × (n ≡ suc m))
zero_or_suc zero = inl refl
zero_or_suc (suc n) = inr (n, refl)

-- With a right number of empty slots, scm_gc_protect finds its slot, keeps the number right, protects
-- the variable once more and every other one as often as before, and uses a new slot only where none
-- was empty.
pub gc_protect-count :
    (var : ℕ) (p : ProtectedVars)
    → WellCounted p
    → (q : ProtectedVars) × (gc_protect var p ≡ some q)
      × WellCounted q
      × ((other : ℕ)
          → count (some other) q.slots
            ≡ count (some other) p.slots + occurs (some other) (some var))
      × (length q.slots ≡ (if p.n_empty == 0 then length p.slots + 1 else length p.slots))
unfolding gc_protect
gc_protect-count var p w = elim (zero_or_suc p.n_empty) [
  | inl full ↦
      let q : ProtectedVars = record p { slots = p.slots ++ (some var ∷ []) } in
      (
        q,
        ground (arith, full),
        omega (arith, count-append none p.slots (some var ∷ [])),
        λ other. omega (arith, count-append (some other) p.slots (some var ∷ [])),
        ground (arith, full, length-append p.slots (some var ∷ [])),
      )
  | inr (n, some_empty) ↦ elim (Option-cases (locate_protected_var none p.slots)) [
    | inl missing ↦ absurd (omega (arith, locate_protected_var-none none p.slots missing))
    | inr (i, found) ↦
        let q : ProtectedVars = record { slots = set p.slots i (some var); n_empty = n } in
        (
          q,
          ground (arith, some_empty, found),
          omega (arith, count-set none (some var) none p.slots i found),
          λ other. omega (arith, count-set none (some var) (some other) p.slots i found),
          ground (arith, some_empty, length-set (some var) p.slots i),
        )
  ]
]

-- scm_gc_unprotect keeps the number of empty slots right, takes one protection of the variable away
-- if it has one, and leaves every other variable as it was.
pub gc_unprotect-count :
    (var : ℕ) (p : ProtectedVars)
    → WellCounted p
    → WellCounted (gc_unprotect var p)
      × (count (some var) (gc_unprotect var p).slots ≡ count (some var) p.slots - 1)
      × ((other : ℕ)
          → other ≢ var
          → count (some other) (gc_unprotect var p).slots ≡ count (some other) p.slots)
unfolding gc_unprotect
gc_unprotect-count var p w = elim (Option-cases (locate_protected_var (some var) p.slots)) [
  | inl missing ↦
      let zero_times = locate_protected_var-none (some var) p.slots missing in
      let same : gc_unprotect var p ≡ p = ground (arith, missing) in
      rw same (w, omega arith, λ other ne. refl)
  | inr (i, found) ↦
      let cleared : gc_unprotect var p
          ≡ record { slots = set p.slots i none; n_empty = suc p.n_empty } =
        ground (arith, found) in
      rw cleared (
        omega (arith, count-set (some var) none none p.slots i found),
        ground (arith, ==-refl var, count-set (some var) none (some var) p.slots i found),
        λ other ne.
            ground (arith, ==_ne var other, count-set (some var) none (some other) p.slots i found),
      )
]
