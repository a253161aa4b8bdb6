-- ===== src/Unicode/Search.antt =====
-- src/unicode.c: that a search by halves in an ordered table finds what is there.
use sigscheme.Base.{
  ℕ, zero, suc, ◌+◌, ◌-◌, ◌/◌, ◌≤◌, ◌<◌, ◌≡◌, refl, sym, ap, subst, ◌∙◌, ◌≢◌, ◌⊎◌, inl, inr, true,
  false, Option, none, some, List, [], ◌∷◌, arith, ltb, ◌==◌, ==_iff, Bool-cases, length, get_elem?,
}
use sigscheme.Unicode.{Probe, lower, higher, hit, miss, Found, found, absent, search_loop, search}

get_elem?-lt :
    {A : Type 0} (xs : List A) (i : ℕ) → i < length xs → (a : A) × (get_elem? xs i ≡ some a)
get_elem?-lt [] i lt = absurd (omega arith)
get_elem?-lt (x ∷ xs) zero lt = (x, refl)
get_elem?-lt (x ∷ xs) (suc i) lt = get_elem?-lt xs i (omega arith)

beyond : {A : Type 0} (xs : List A) (i : ℕ) (a : A) → length xs ≤ i → get_elem? xs i ≢ some a
beyond [] i a le at = cc
beyond (x ∷ xs) zero a le at = omega arith
beyond (x ∷ xs) (suc i) a le at = beyond xs i a (omega arith) at

Probe-cases : (p : Probe) → (p ≡ lower) ⊎ ((p ≡ higher) ⊎ ((p ≡ hit) ⊎ (p ≡ miss)))
Probe-cases lower = inl refl
Probe-cases higher = inr (inl refl)
Probe-cases hit = inr (inr (inl refl))
Probe-cases miss = inr (inr (inr refl))

module _ {A : Type 0} (probe : A → Probe) (table : List A) where
  -- Of two elements, the search goes on after the first one or before the second one.
  abbrev pub Ordered : Type 0
  Ordered =
      (i j : ℕ) (a b : A)
      → i < j
      → get_elem? table i ≡ some a
      → get_elem? table j ≡ some b
      → (probe a ≡ higher) ⊎ (probe b ≡ lower)

  -- The element that is hit, or none where none would be.
  abbrev pub Answers : Found A → Type 0
  Answers result =
      ((i : ℕ) × (a : A) × (result ≡ found a) × (get_elem? table i ≡ some a) × (probe a ≡ hit))
      ⊎ ((result ≡ absent) × ((i : ℕ) (a : A) → get_elem? table i ≡ some a → probe a ≢ hit))

  abbrev Probed : ℕ → ℕ → ℕ → A → Probe → Type 0
  Probed fuel low high a p =
      (ltb low high ≡ true) × (get_elem? table ((low + high) / 2) ≡ some a) × (probe a ≡ p)

  module _ (fuel low high : ℕ) (a : A) where
    loop_lower :
        Probed fuel low high a lower
        → search_loop probe table (suc fuel) low high
          ≡ search_loop probe table fuel low ((low + high) / 2)
    unfolding search_loop
    loop_lower (more, there, e) = ground (arith, more, there, e)

    loop_higher :
        Probed fuel low high a higher
        → search_loop probe table (suc fuel) low high
          ≡ search_loop probe table fuel (suc ((low + high) / 2)) high
    unfolding search_loop
    loop_higher (more, there, e) = ground (arith, more, there, e)

    loop_hit : Probed fuel low high a hit → search_loop probe table (suc fuel) low high ≡ found a
    unfolding search_loop
    loop_hit (more, there, e) = ground (arith, more, there, e)

    loop_miss : Probed fuel low high a miss → search_loop probe table (suc fuel) low high ≡ absent
    unfolding search_loop
    loop_miss (more, there, e) = ground (arith, more, there, e)

  loop_end :
      (fuel low high : ℕ)
      → ltb low high ≡ false
      → search_loop probe table (suc fuel) low high ≡ absent
  unfolding search_loop
  loop_end fuel low high e = ground (arith, e)

  -- What stands after an element at which the search goes down, and before one at which it goes up.
  lower_after :
      (m i : ℕ) (a b : A)
      → Ordered
      → get_elem? table m ≡ some a
      → probe a ≢ higher
      → m < i
      → get_elem? table i ≡ some b
      → probe b ≡ lower
  lower_after m i a b ord there ne lt at = elim (ord m i a b lt there at) [
    | inl up ↦ absurd (ne up)
    | inr down ↦ down
  ]

  higher_before :
      (m i : ℕ) (a b : A)
      → Ordered
      → get_elem? table m ≡ some a
      → probe a ≢ lower
      → i < m
      → get_elem? table i ≡ some b
      → probe b ≡ higher
  higher_before m i a b ord there ne lt at = elim (ord i m b a lt at there) [
    | inl up ↦ up
    | inr down ↦ absurd (ne down)
  ]

  same_probe :
      (m i : ℕ) (a b : A)
      → m ≡ i
      → get_elem? table m ≡ some a
      → get_elem? table i ≡ some b
      → probe b ≡ probe a
  same_probe m i a b e there at = ap probe_or (sym at ∙ ap (get_elem? table) (sym e) ∙ there)
    where
      probe_or : Option A → Probe
      probe_or none = miss
      probe_or (some x) = probe x

  abbrev Before : ℕ → Type 0
  Before low = (i : ℕ) (a : A) → i < low → get_elem? table i ≡ some a → probe a ≡ higher

  abbrev After : ℕ → Type 0
  After high = (i : ℕ) (a : A) → high ≤ i → get_elem? table i ≡ some a → probe a ≡ lower

  not_hit : (b : A) (p : Probe) → probe b ≡ p → p ≢ hit → probe b ≢ hit
  not_hit b p e ne h = ne (sym e ∙ h)

  none_hit :
      (low high : ℕ)
      → high ≤ low
      → Before low
      → After high
      → (i : ℕ) (a : A) → get_elem? table i ≡ some a
      → probe a ≢ hit
  none_hit low high le before after i a at = elim (Bool-cases (ltb i low)) [
    | inl e ↦ not_hit a higher (before i a (ground (arith, e)) at) (λ h. cc)
    | inr e ↦ not_hit a lower (after i a (ground (arith, e)) at) (λ h. cc)
  ]

  -- What an element tells about those after it, and about those before it.
  goes_down_from :
      (m : ℕ) (a : A) → Ordered → get_elem? table m ≡ some a → probe a ≡ lower → After m
  goes_down_from m a ord there e i b le at = elim (Bool-cases (m == i)) [
    | inl same ↦ same_probe m i a b ((==_iff m i).0 same) there at ∙ e
    | inr other ↦
        lower_after m i a b ord there (λ (h : probe a ≡ higher). cc) (ground (arith, other)) at
  ]

  goes_up_until :
      (m : ℕ) (a : A) → Ordered → get_elem? table m ≡ some a → probe a ≡ higher → Before (suc m)
  goes_up_until m a ord there e i b lt at = elim (Bool-cases (m == i)) [
    | inl same ↦ same_probe m i a b ((==_iff m i).0 same) there at ∙ e
    | inr other ↦
        higher_before m i a b ord there (λ (h : probe a ≡ lower). cc) (ground (arith, other)) at
  ]

  miss_no_hit :
      (m : ℕ) (a : A)
      → Ordered
      → get_elem? table m ≡ some a
      → probe a ≡ miss
      → (i : ℕ) (b : A) → get_elem? table i ≡ some b
      → probe b ≢ hit
  miss_no_hit m a ord there e i b at = elim (Bool-cases (m == i)) [
    | inl same ↦ not_hit b miss (same_probe m i a b ((==_iff m i).0 same) there at ∙ e) (λ h. cc)
    | inr other ↦ elim (Bool-cases (ltb i m)) [
      | inl below ↦
          not_hit b higher
            (higher_before m i a b ord there (λ (h : probe a ≡ lower). cc) (ground (arith, below))
              at)
            (λ h. cc)
      | inr above ↦
          not_hit b lower
            (lower_after m i a b ord there (λ (h : probe a ≡ higher). cc)
              (ground (arith, above, other)) at)
            (λ h. cc)
    ]
  ]

  search_loop-Answers :
      (fuel low high : ℕ)
      → Ordered
      → high - low < fuel
      → high ≤ length table
      → Before low
      → After high
      → Answers (search_loop probe table fuel low high)
  search_loop-Answers zero low high ord lt bound before after = absurd (omega arith)
  search_loop-Answers (suc fuel) low high ord lt bound before after =
      elim (Bool-cases (ltb low high)) [
        | inr at_end ↦
            inr (
              loop_end fuel low high at_end,
              none_hit low high (ground (arith, at_end)) before after,
            )
        | inl more ↦
            let m : ℕ = (low + high) / 2 in
            let (a, there) = get_elem?-lt table m (ground (arith, more)) in
            elim (Probe-cases (probe a)) [
              | inl e ↦ subst Answers (sym (loop_lower fuel low high a (more, there, e))) (
                  search_loop-Answers fuel low m ord (ground (arith, more)) (ground (arith, more))
                    before (goes_down_from m a ord there e))
              | inr (inl e) ↦ subst Answers (sym (loop_higher fuel low high a (more, there, e))) (
                  search_loop-Answers fuel (suc m) high ord (ground (arith, more)) bound
                    (goes_up_until m a ord there e) after)
              | inr (inr (inl e)) ↦ inl (m, a, loop_hit fuel low high a (more, there, e), there, e)
              | inr (inr (inr e)) ↦
                  inr (loop_miss fuel low high a (more, there, e), miss_no_hit m a ord there e)
            ]
      ]

  -- The search in an ordered table ends with an element that is hit, or where none is with no result.
  pub search-Answers : Ordered → Answers (search probe table)
  unfolding search
  search-Answers ord =
      search_loop-Answers (suc (length table)) 0 (length table) ord (omega arith) (omega arith)
        (λ i a lt at. absurd (omega arith)) (λ i a le at. absurd (beyond table i a le at))
