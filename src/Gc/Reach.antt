-- ===== src/Gc/Reach.antt =====
-- src/storage-gc.c: what marking marks.
use mathlib.Core.Option
use sigscheme.Base.{
  ℕ, zero, suc, ◌≤◌, ◌<◌, ◌≡◌, refl, sym, ap, subst, ◌∙◌, ◌⊎◌, inl, inr, Bool, true, false, ◌||◌,
  Option, some, List, [], ◌∷◌, arith, ◌==◌, if◌then◌else◌, ==_iff, ==-refl, Bool-cases,
  Option-cases, length, All,
}
use sigscheme.Gc.Memory.{is_free, is_marked, CellHeap, cell_at, mark_at, unmarked, unmarked-mark_at}
use sigscheme.Gc.Mark.{
  GcObj, constant, cell, Content, fields_of, mark_each, mark_obj, Enclosure, within_heapp,
  mark_locations,
}
use sigscheme.Gc.MarkBits.{
  mark_bit, has, fields_in, fields_at, fields_in-kept, IsMarked, On, kind-mark_at, bit-mark_at,
  cells_of, length-mark_at, all_free_at-mark_at,
}
use sigscheme.Gc.Sweep.{all_free_at}

-- `P` holds of addresses of cells only, and leads from a cell to its fields `F`.
module _ (content : ℕ → Content) (F : ℕ → List GcObj) (P : ℕ → Type 0)
    (P-fields : (a : ℕ) → P a → All (On P) (F a)) where
  pub record Ready (h : List CellHeap) : Type 0 where
    pub fits : (a : ℕ) → fields_at content h a ≡ F a
    pub present : (a : ℕ) → P a → has a h ≡ true

  -- From the heaps `h`, marking has come to `g` and is through with the objects `objs`.
  pub record Marks (h g : List CellHeap) (objs : List GcObj) : Type 0 where
    pub kept : (a : ℕ) → Option.map is_free (cell_at a g) ≡ Option.map is_free (cell_at a h)
    pub grows : (a : ℕ) → mark_bit a h ≡ true → mark_bit a g ≡ true
    pub done : (a : ℕ) → mark_bit a g ≡ true → (mark_bit a h ≡ true) ⊎ All (IsMarked g) (F a)
    pub sound : (a : ℕ) → mark_bit a g ≡ true → (mark_bit a h ≡ true) ⊎ P a
    pub target : All (IsMarked g) objs
    pub less : unmarked g ≤ unmarked h
    pub as_long : length g ≡ length h
    pub free_kept : (a : ℕ) → all_free_at a g ≡ all_free_at a h

  pub Ready-kept :
      (h g : List CellHeap)
      → ((a : ℕ) → Option.map is_free (cell_at a g) ≡ Option.map is_free (cell_at a h))
      → Ready h
      → Ready g
  Ready-kept h g kept r = record {
    fits = λ a. (fields_in-kept (content a) (cell_at a h) (cell_at a g) (kept a)).0 ∙ r.fits a;
    present =
        λ a p. (fields_in-kept (content a) (cell_at a h) (cell_at a g) (kept a)).1 ∙ r.present a p;
  }

  IsMarked-grows :
      (h g : List CellHeap)
      → ((a : ℕ) → mark_bit a h ≡ true → mark_bit a g ≡ true)
      → (objs : List GcObj) → All (IsMarked h) objs
      → All (IsMarked g) objs
  IsMarked-grows h g grows [] m = tt
  IsMarked-grows h g grows (constant ∷ objs) (_, m) = (tt, IsMarked-grows h g grows objs m)
  IsMarked-grows h g grows (cell a ∷ objs) (here, m) =
      (grows a here, IsMarked-grows h g grows objs m)

  Marks-refl : (h : List CellHeap) → Marks h h []
  Marks-refl h = record {
    kept = λ a. refl;
    grows = λ a m. m;
    done = λ a m. inl m;
    sound = λ a m. inl m;
    target = tt;
    less = omega arith;
    as_long = refl;
    free_kept = λ a. refl;
  }

  Marks-same : (h : List CellHeap) (obj : GcObj) → IsMarked h obj → Marks h h (obj ∷ [])
  Marks-same h obj m = record {
    kept = λ a. refl;
    grows = λ a m. m;
    done = λ a m. inl m;
    sound = λ a m. inl m;
    target = (m, tt);
    less = omega arith;
    as_long = refl;
    free_kept = λ a. refl;
  }

  pub Marks-trans :
      (h k g : List CellHeap) (xs ys : List GcObj)
      → Marks h k xs
      → Marks k g ys
      → Marks h g ys × All (IsMarked g) xs
  Marks-trans h k g xs ys first rest = (
    record {
      kept = λ a. rest.kept a ∙ first.kept a;
      grows = λ a m. rest.grows a (first.grows a m);
      done = λ a m. elim (rest.done a m) [
        | inr new ↦ inr new
        | inl old ↦ elim (first.done a old) [
          | inl older ↦ inl older
          | inr new ↦ inr (IsMarked-grows k g rest.grows (F a) new)
        ]
      ];
      sound = λ a m. elim (rest.sound a m) [ inr p ↦ inr p | inl old ↦ first.sound a old ];
      target = rest.target;
      less = omega (arith, first.less, rest.less);
      as_long = rest.as_long ∙ first.as_long;
      free_kept = λ a. rest.free_kept a ∙ first.free_kept a;
    },
    IsMarked-grows k g rest.grows xs first.target,
  )

  Marks-append :
      (h k g : List CellHeap) (obj : GcObj) (objs : List GcObj)
      → Marks h k (obj ∷ [])
      → Marks k g objs
      → Marks h g (obj ∷ objs)
  Marks-append h k g obj objs first rest =
      let (both, at_obj) = Marks-trans h k g (obj ∷ []) objs first rest in
      record {
        kept = both.kept;
        grows = both.grows;
        done = both.done;
        sound = both.sound;
        target = (at_obj.0, both.target);
        less = both.less;
        as_long = both.as_long;
        free_kept = both.free_kept;
      }

  -- A round of marking that is right for any heaps with few enough unmarked cells.
  abbrev Right : ℕ → (List CellHeap → GcObj → Option (List CellHeap)) → Type 0
  Right bound mark =
      (h : List CellHeap) (obj : GcObj)
      → Ready h
      → On P obj
      → unmarked h < bound
      → (g : List CellHeap) × (mark h obj ≡ some g) × Marks h g (obj ∷ [])

  mark_each-Marks :
      (bound : ℕ) (mark : List CellHeap → GcObj → Option (List CellHeap))
      → Right bound mark
      → (h : List CellHeap) (objs : List GcObj) → Ready h
      → All (On P) objs
      → unmarked h < bound
      → (g : List CellHeap) × (mark_each mark h objs ≡ some g) × Marks h g objs
  unfolding mark_each
  mark_each-Marks bound mark right h [] ready on lt = (h, refl, Marks-refl h)
  mark_each-Marks bound mark right h (obj ∷ objs) ready (on, all) lt =
      let (k, runs, first) = right h obj ready on lt in
      let (g, ends, rest) =
        mark_each-Marks bound mark right k objs (Ready-kept h k first.kept ready) all
          (omega (arith, first.less)) in
      (g, ground (arith, runs, ends), Marks-append h k g obj objs first rest)

  Marks-cell :
      (h g : List CellHeap) (a : ℕ)
      → P a
      → has a h ≡ true
      → Marks (mark_at a h) g (F a)
      → unmarked (mark_at a h) ≤ unmarked h
      → Marks h g (cell a ∷ [])
  Marks-cell h g a p there m le =
      let bits : (b : ℕ) → mark_bit b (mark_at a h) ≡ (a == b || mark_bit b h) =
        λ b. bit-mark_at a b h there in
      record {
        kept = λ b. m.kept b ∙ kind-mark_at a b h;
        grows = λ b old. m.grows b (bits b ∙ ground (arith, old));
        done = λ b new. elim (m.done b new) [
          | inr all ↦ inr all
          | inl before ↦ elim (Bool-cases (a == b)) [
            | inl same ↦
                inr (subst (λ (k : ℕ). All (IsMarked g) (F k)) ((==_iff a b).0 same) m.target)
            | inr differ ↦ inl (ground (arith, bits b))
          ]
        ];
        sound = λ b new. elim (m.sound b new) [
          | inr q ↦ inr q
          | inl before ↦ elim (Bool-cases (a == b)) [
            | inl same ↦ inr (subst P ((==_iff a b).0 same) p)
            | inr differ ↦ inl (ground (arith, bits b))
          ]
        ];
        target = (m.grows a (bits a ∙ ground (arith, ==-refl a)), tt);
        less = omega (arith, m.less);
        as_long = m.as_long ∙ length-mark_at a h;
        free_kept = λ b. m.free_kept b ∙ all_free_at-mark_at a b h;
      }

  mark_obj-Right : (fuel : ℕ) → Right fuel (mark_obj content fuel)
  unfolding mark_obj
  mark_obj-Right zero h obj ready on lt = absurd (omega arith)
  mark_obj-Right (suc fuel) h constant ready on lt = (h, refl, Marks-same h constant tt)
  mark_obj-Right (suc fuel) h (cell a) ready on lt = elim (Option-cases (cell_at a h)) [
    | inl missing ↦ absurd (ground (arith, missing, ready.present a on))
    | inr (c, found) ↦ elim (Bool-cases (is_marked c)) [
      | inl already ↦ (
        h,
        ground (arith, found, already),
        Marks-same h (cell a) (ground (arith, found, already)),
      )
      | inr fresh ↦
          let fewer = unmarked-mark_at a h c found fresh in
          let ready' = Ready-kept h (mark_at a h) (λ b. kind-mark_at a b h) ready in
          let fields : F a ≡ fields_of (content a) c =
            sym (ready.fits a) ∙ ap (fields_in (content a)) found in
          let (g, runs, m) =
            mark_each-Marks fuel (mark_obj content fuel) (mark_obj-Right fuel) (mark_at a h) (F a)
              ready' (P-fields a on) (omega arith) in
          (
            g,
            ground (arith, found, fresh, fields, runs),
            Marks-cell h g a on (ready.present a on) m (omega arith),
          )
    ]
  ]

  pub mark_each_from :
      (h : List CellHeap) (objs : List GcObj) (fuel : ℕ)
      → Ready h
      → All (On P) objs
      → unmarked h < fuel
      → (g : List CellHeap) × (mark_each (mark_obj content fuel) h objs ≡ some g) × Marks h g objs
  mark_each_from h objs fuel =
      mark_each-Marks fuel (mark_obj content fuel) (mark_obj-Right fuel) h objs

  mark_locations-outside :
      (fuel : ℕ) (e : Enclosure) (h : List CellHeap) (obj : GcObj) (objs : List GcObj)
      → within_heapp e h obj ≡ false
      → mark_locations content fuel e h (obj ∷ objs) ≡ mark_locations content fuel e h objs
  unfolding mark_locations
  mark_locations-outside fuel e h obj objs out = ground (arith, out)

  mark_locations-inside :
      (fuel : ℕ) (e : Enclosure) (h k : List CellHeap) (obj : GcObj) (objs : List GcObj)
      → within_heapp e h obj ≡ true
      → mark_obj content fuel h obj ≡ some k
      → mark_locations content fuel e h (obj ∷ objs) ≡ mark_locations content fuel e k objs
  unfolding mark_locations
  mark_locations-inside fuel e h k obj objs ins runs = ground (arith, ins, runs)

  -- The words of the stack that are addresses of cells are marked, and the others left alone.
  pub mark_locations-Marks :
      (e : Enclosure) (ok : ℕ → Bool) (fuel : ℕ) (h : List CellHeap) (objs : List GcObj)
      → ((k : List CellHeap)
          → ((a : ℕ) → Option.map is_free (cell_at a k) ≡ Option.map is_free (cell_at a h))
          → (a : ℕ) → within_heapp e k (cell a) ≡ ok a)
      → Ready h
      → All (On P) (cells_of ok objs)
      → unmarked h < fuel
      → (g : List CellHeap) × (mark_locations content fuel e h objs ≡ some g)
        × Marks h g (cells_of ok objs)
  unfolding mark_locations
  mark_locations-Marks e ok fuel h [] same ready on lt = (h, refl, Marks-refl h)
  mark_locations-Marks e ok fuel h (constant ∷ objs) same ready on lt =
      mark_locations-Marks e ok fuel h objs same ready on lt
  mark_locations-Marks e ok fuel h (cell a ∷ objs) same ready on lt = elim (Bool-cases (ok a)) [
    | inr outside ↦
        let (g, runs, m) =
          mark_locations-Marks e ok fuel h objs same ready
            (subst
              (λ (o : Bool). All (On P) (if o then cell a ∷ cells_of ok objs else cells_of ok objs))
              outside on)
            lt in
        (
          g,
          mark_locations-outside fuel e h (cell a) objs (same h (λ b. refl) a ∙ outside) ∙ runs,
          rw outside m,
        )
    | inl inside ↦
        let (here, all) =
          subst
            (λ (o : Bool). All (On P) (if o then cell a ∷ cells_of ok objs else cells_of ok objs))
            inside on in
        let (k, runs, first) = mark_obj-Right fuel h (cell a) ready here lt in
        let (g, ends, rest) =
          mark_locations-Marks e ok fuel k objs (λ l keeps. same l (λ b. keeps b ∙ first.kept b))
            (Ready-kept h k first.kept ready) all (omega (arith, first.less)) in
        (
          g,
          mark_locations-inside fuel e h k (cell a) objs (same h (λ b. refl) a ∙ inside) runs
              ∙ ends,
          rw inside (Marks-append h k g (cell a) (cells_of ok objs) first rest),
        )
  ]
