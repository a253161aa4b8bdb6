-- ===== src/NumberIo/Digits.antt =====
-- src/number-io.c: the digits that scm_int2string writes.
use native.Mathlib.Nat
use mathlib.Core.Path.{ap₂}
use mathlib.Core.List.{append_assoc}
use sigscheme.Base.{
  ℕ, zero, suc, ◌+◌, ◌-◌, ◌*◌, ◌/◌, ◌%◌, ◌^◌, ◌<◌, ◌≡◌, refl, sym, ap, subst, ◌∙◌, ◌⊎◌, inl, inr,
  some, [], ◌∷◌, ◌++◌, arith, leb, if◌then◌else◌, length, All, length-append,
}
use sigscheme.NumberIo.{Text, digit_char, digit_loop}

-- The value of a digit that is a number or a small letter.
abbrev pub char_value : ℕ → ℕ
char_value c = if leb c 57 then c - 48 else c - 87

abbrev pub IsDigit : ℕ → ℕ → Type 0
IsDigit radix c = (d : ℕ) × (d < radix) × (c ≡ digit_char d)

-- The value of digits after others of the value `acc`.
abbrev pub value_from : ℕ → ℕ → Text → ℕ
value_from radix acc [] = acc
value_from radix acc (c ∷ cs) = value_from radix (acc * radix + char_value c) cs

char_value-digit_char : (d : ℕ) → char_value (digit_char d) ≡ d
char_value-digit_char d = ground arith

value_from_snoc :
    (radix acc c : ℕ) (cs : Text)
    → value_from radix acc (cs ++ (c ∷ [])) ≡ value_from radix acc cs * radix + char_value c
value_from_snoc radix acc c [] = refl
value_from_snoc radix acc c (d ∷ cs) = value_from_snoc radix (acc * radix + char_value d) c cs

All-snoc :
    (radix c : ℕ) (cs : Text)
    → All (IsDigit radix) cs
    → IsDigit radix c
    → All (IsDigit radix) (cs ++ (c ∷ []))
All-snoc radix c [] _ d = (d, tt)
All-snoc radix c (_ ∷ cs) (e, all) d = (e, All-snoc radix c cs all d)

-- The digits of a number: none but valid ones, at least one, and of its value.
pub record Digits (radix n : ℕ) (cs : Text) : Type 0 where
  pub valid : All (IsDigit radix) cs
  pub some_digit : 0 < length cs
  pub value_is : value_from radix 0 cs ≡ n

half : (n radix room : ℕ) → 1 < radix → n < 2 ^ suc room → n / radix < 2 ^ room
half n radix room lt fits =
    let le : n < 2 ^ room * radix =
      Nat.lt_of_lt_of_le (subst (λ (m : ℕ). n < m) (Nat.pow-suc 2 room) fits)
        (Nat.mul-le-mul_left (2 ^ room) lt) in
    (Nat.div-lt_iff_lt-mul {k = radix} (omega arith)).1 le

zero_or_suc : (n : ℕ) → (n ≡ 0) ⊎ ((q : ℕ) × (n ≡ suc q))
zero_or_suc zero = inl refl
zero_or_suc (suc q) = inr (q, refl)

some_room : (room q : ℕ) → suc q < 2 ^ room → 0 < room
some_room zero q lt = absurd (omega arith)
some_room (suc room) q lt = omega arith

module _ (room n radix : ℕ) (p : Text) where
  digit_loop_end :
      n / radix ≡ 0 → digit_loop (suc room) n radix p ≡ some (digit_char (n % radix) ∷ p, room)
  unfolding digit_loop
  digit_loop_end e = ground (arith, e)

  digit_loop_more :
      (q : ℕ)
      → n / radix ≡ suc q
      → digit_loop (suc room) n radix p
        ≡ digit_loop room (n / radix) radix (digit_char (n % radix) ∷ p)
  unfolding digit_loop
  digit_loop_more q e = ground (arith, e)

mod_IsDigit : (n radix : ℕ) → 1 < radix → IsDigit radix (digit_char (n % radix))
mod_IsDigit n radix lt = (n % radix, Nat.mod-lt n (omega arith), refl)

Digits-one :
    (n radix : ℕ) → 1 < radix → n / radix ≡ 0 → Digits radix n (digit_char (n % radix) ∷ [])
Digits-one n radix lt e = record {
  valid = (mod_IsDigit n radix lt, tt);
  some_digit = omega arith;
  value_is =
      let quotient : n / radix * radix ≡ 0 * radix = ap (λ (q : ℕ). q * radix) e in
      omega (arith, char_value-digit_char (n % radix), quotient, Nat.div-add-mod' n radix);
}

Digits-more :
    (n radix : ℕ) (cs : Text)
    → 1 < radix
    → Digits radix (n / radix) cs
    → Digits radix n (cs ++ (digit_char (n % radix) ∷ []))
Digits-more n radix cs lt d = record {
  valid = All-snoc radix (digit_char (n % radix)) cs d.valid (mod_IsDigit n radix lt);
  some_digit = rw (length-append cs (digit_char (n % radix) ∷ [])) (omega arith);
  value_is =
      value_from_snoc radix 0 (digit_char (n % radix)) cs
      ∙ ap₂ (λ v d. v * radix + d) d.value_is (char_value-digit_char (n % radix))
      ∙ Nat.div-add-mod' n radix;
}

-- With room for as many binary digits, the loop writes the digits and leaves room.
pub digit_loop-Digits :
    (room n radix : ℕ) (p : Text)
    → 1 < radix
    → 0 < room
    → n < 2 ^ room
    → (cs : Text) × (left : ℕ) × (digit_loop (suc room) n radix p ≡ some (cs ++ p, suc left))
      × Digits radix n cs
digit_loop-Digits zero n radix p lt pos fits = absurd (omega arith)
digit_loop-Digits (suc room) n radix p lt pos fits = elim (zero_or_suc (n / radix)) [
  | inl e ↦ (
    digit_char (n % radix) ∷ [],
    room,
    digit_loop_end (suc room) n radix p e,
    Digits-one n radix lt e,
  )
  | inr (q, e) ↦
      let below : n / radix < 2 ^ room = half n radix room lt fits in
      let more : 0 < room = some_room room q (subst (λ (m : ℕ). m < 2 ^ room) e below) in
      let c : ℕ = digit_char (n % radix) in
      let (cs, left, runs, d) = digit_loop-Digits room (n / radix) radix (c ∷ p) lt more below in
      (
        cs ++ (c ∷ []),
        left,
        digit_loop_more (suc room) n radix p q e
            ∙ runs
            ∙ ap (λ l. some (l, suc left)) (sym (append_assoc cs (c ∷ []) p)),
        Digits-more n radix cs lt d,
      )
]
