-- ===== src/Encoding/Laws.antt =====
-- src/encoding.c: what the operations on strings ask of a codec. `RoundTrips` is the contract of
-- one character, which each encoding fills, and `ScansWithin` the contract of every string.
use mathlib.Core.List.{append_assoc}
use sigscheme.Base.{
  ℕ, zero, suc, ◌+◌, ◌-◌, ◌≤◌, ◌<◌, ◌≡◌, refl, sym, ap, ◌∙◌, false, some, List, [], ◌∷◌, ◌++◌,
  arith, ◌==◌, ==_ne, length, take, drop, length-append, drop-length_append, length-drop,
  take_before,
}
use sigscheme.Encoding.{
  Bytes, CharCodec, return_size, skip_char, strlen_loop, mb_strlen, skip_chars, mb_substring, read,
  read_char,
}

-- `int2str` writes `bytes` for the character, and wherever a string begins with them, `scan_char`
-- finds just them and `str2int` gives the character back.
pub record RoundTrips (c : CharCodec) (ch : ℕ) (bytes : Bytes) : Type 0 where
  pub nonempty : 0 < length bytes
  pub writes : c.int2str ch ≡ some bytes
  pub scans : (rest : Bytes) → c.scan_char (bytes ++ rest) ≡ return_size (length bytes)
  pub reads : (rest : Bytes) → c.str2int (bytes ++ rest) (length bytes) ≡ some ch

-- A string that is the characters' bytes in a row.
abbrev pub Encodes : CharCodec → List ℕ → Bytes → Type 0
Encodes c [] str = str ≡ []
Encodes c (ch ∷ chs) str =
    (bytes : Bytes) × (rest : Bytes) × RoundTrips c ch bytes
    × Encodes c chs rest
    × (str ≡ bytes ++ rest)

-- A character takes at least a byte and no byte behind the end.
abbrev pub ScansWithin : CharCodec → Type 0
ScansWithin c =
    (str : Bytes)
    → 0 < length str
    → (0 < (c.scan_char str).size) × ((c.scan_char str).size ≤ length str)

module _ (c : CharCodec) where
  skip_char_lem :
      {ch : ℕ} {bytes : Bytes}
      → RoundTrips c ch bytes
      → (rest : Bytes) → skip_char (bytes ++ rest) (c.scan_char (bytes ++ rest)) ≡ rest
  skip_char_lem {bytes} r rest = rw (r.scans rest) (drop-length_append bytes rest)

  -- scm_charcodec_read_char gives back the character that was written, and leaves what follows it.
  pub read_char-int2str :
      (ch : ℕ) (bytes rest : Bytes)
      → RoundTrips c ch bytes
      → read_char c (bytes ++ rest) ≡ read ch rest
  unfolding read_char
  read_char-int2str ch bytes rest r =
      rw (r.scans rest, r.reads rest) (ap (λ l. read ch l) (skip_char_lem r rest))

  strlen_loop-Encodes :
      (fuel : ℕ) (chs : List ℕ) (str : Bytes) (len : ℕ)
      → Encodes c chs str
      → length str < fuel
      → strlen_loop fuel c str len ≡ some (len + length chs)
  unfolding strlen_loop
  strlen_loop-Encodes zero chs str len e h = absurd (omega arith)
  strlen_loop-Encodes (suc fuel) [] str len e h = rw e (ap some (omega arith))
  strlen_loop-Encodes (suc fuel) (ch ∷ chs) str len (bytes, rest, r, e, eq) h =
      let total : length str ≡ length bytes + length rest =
        ap length eq ∙ length-append bytes rest in
      let more : (length str == 0) ≡ false =
        ==_ne (length str) 0 (λ z. omega (arith, r.nonempty)) in
      let next : skip_char str (c.scan_char str) ≡ rest = rw eq (skip_char_lem r rest) in
      rw (more, next)
        (strlen_loop-Encodes fuel chs rest (len + 1) e (omega (arith, r.nonempty))
          ∙ ap some (omega arith))

  -- scm_mb_strlen counts the characters of a string that is made of written characters.
  pub mb_strlen-Encodes :
      (chs : List ℕ) (str : Bytes) → Encodes c chs str → mb_strlen c str ≡ some (length chs)
  unfolding mb_strlen
  mb_strlen-Encodes chs str e =
      strlen_loop-Encodes (length str + 1) chs str 0 e (omega arith) ∙ ap some (omega arith)

  skip_chars-Encodes :
      (i : ℕ) (chs : List ℕ) (str : Bytes)
      → Encodes c chs str
      → i ≤ length chs
      → Encodes c (drop i chs) (skip_chars c i str)
  unfolding skip_chars
  skip_chars-Encodes zero chs str e h = e
  skip_chars-Encodes (suc i) [] str e h = absurd (omega arith)
  skip_chars-Encodes (suc i) (ch ∷ chs) str (bytes, rest, r, e, eq) h =
      let next : skip_char str (c.scan_char str) ≡ rest = rw eq (skip_char_lem r rest) in
      rw next (skip_chars-Encodes i chs rest e (omega arith))

  -- The bytes up to the end of `len` characters are those characters.
  front-Encodes :
      (len : ℕ) (chs : List ℕ) (str : Bytes)
      → Encodes c chs str
      → len ≤ length chs
      → (front : Bytes) × (str ≡ front ++ skip_chars c len str) × Encodes c (take len chs) front
  unfolding skip_chars
  front-Encodes zero chs str e h = ([], refl, refl)
  front-Encodes (suc len) [] str e h = absurd (omega arith)
  front-Encodes (suc len) (ch ∷ chs) str (bytes, rest, r, e, eq) h =
      let next : skip_char str (c.scan_char str) ≡ rest = rw eq (skip_char_lem r rest) in
      let (front, joined, inner) = front-Encodes len chs rest e (omega arith) in
      (
        bytes ++ front,
        rw next (eq ∙ ap (λ l. bytes ++ l) joined ∙ sym (append_assoc bytes front _)),
        (bytes, front, r, inner, refl),
      )

  -- scm_mb_substring cuts out the characters i, …, i + len - 1.
  pub mb_substring-Encodes :
      (chs : List ℕ) (str : Bytes) (i len : ℕ)
      → Encodes c chs str
      → i + len ≤ length chs
      → Encodes c (take len (drop i chs)) (mb_substring c str i len)
  unfolding mb_substring
  mb_substring-Encodes chs str i len e h =
      let ret = skip_chars c i str in
      let fits : len ≤ length (drop i chs) = omega (arith, length-drop i chs) in
      let (front, joined, inner) =
        front-Encodes len (drop i chs) ret (skip_chars-Encodes i chs str e (omega arith)) fits in
      rw (take_before ret front (skip_chars c len ret) joined) inner

module _ (c : CharCodec) (within : ScansWithin c) where
  strlen_loop-le :
      (fuel : ℕ) (str : Bytes) (len : ℕ)
      → length str < fuel
      → (n : ℕ) × (strlen_loop fuel c str len ≡ some n) × (n ≤ len + length str)
  unfolding strlen_loop
  strlen_loop-le zero str len h = absurd (omega arith)
  strlen_loop-le (suc fuel) [] len h = (len, refl, omega arith)
  strlen_loop-le (suc fuel) (b ∷ bs) len h =
      let str = b ∷ bs in
      let w = within str (omega arith) in
      let next = skip_char str (c.scan_char str) in
      let shorter : length next ≡ length str - (c.scan_char str).size =
        length-drop (c.scan_char str).size str in
      let more : (length str == 0) ≡ false = ==_ne (length str) 0 (λ z. omega arith) in
      let (n, e, le) = strlen_loop-le fuel next (len + 1) (omega arith) in
      (n, rw more e, omega arith)

  -- scm_mb_strlen ends on every string, and counts at most its bytes.
  pub mb_strlen-le : (str : Bytes) → (n : ℕ) × (mb_strlen c str ≡ some n) × (n ≤ length str)
  unfolding mb_strlen
  mb_strlen-le str =
      let (n, e, le) = strlen_loop-le (length str + 1) str 0 (omega arith) in (n, e, omega arith)
