-- ===== src/Encoding.antt =====
-- src/encoding.c and include/sigscheme/encoding.h: what every character encoding shares. The codec
-- interface (a table of function pointers in the source) is a record, and the operations on
-- multibyte strings are functions of a codec. A multibyte string is the list of its bytes, so that
-- its `size` is the length of the list and `SCM_MBS_SKIP_CHAR` drops bytes. Shift states are left
-- out, as in a build without stateful encodings, which all encodings here are.
pub mod Laws
pub mod Scan
pub mod Iso2022
pub mod Utf8
pub mod Eucjp
pub mod Euc
pub mod Sjis
pub mod Unibyte
pub mod Codecs
mod Tests
use Prim.Native.String.{String}
use sigscheme.Base.{
  ℕ, zero, suc, ◌+◌, ◌-◌, Bool, true, false, ◌||◌, Option, none, some, List, ◌==◌, if◌then◌else◌,
  length, take, drop, get_or,
}

-- The strings of bytes, `ScmMultibyteString`.
abbrev pub Bytes : Type 0
Bytes = List ℕ

-- str[i]; each scanner tests the size before it reads.
abbrev pub byte_at : Bytes → ℕ → ℕ
byte_at str i = get_or str i 0

pub data CharFlag : Type 0 where
  no_flag error incomplete : CharFlag

-- `ScmMultibyteCharInfo`: how many bytes the first character takes, and whether they are one.
pub record CharInfo : Type 0 where
  pub size : ℕ
  pub flag : CharFlag

-- RETURN, RETURN_ERROR and RETURN_INCOMPLETE.
abbrev pub return_size : ℕ → CharInfo
return_size n = record { size = n; flag = no_flag }

abbrev pub return_error : CharInfo
return_error = record { size = 1; flag = error }

abbrev pub return_incomplete : ℕ → CharInfo
return_incomplete n = record { size = n; flag = incomplete }

abbrev pub is_error : CharFlag → Bool
is_error error = true
is_error _ = false

abbrev pub is_incomplete : CharFlag → Bool
is_incomplete incomplete = true
is_incomplete _ = false

pub data CodedCharSet : Type 0 where
  ccs_unknown ccs_unicode ccs_iso8859_1 ccs_jis : CodedCharSet

-- `ScmCharCodecVTbl`. `int2str` gives the bytes that the source writes to its buffer before the
-- final NUL, or `none` for NULL; `str2int` gives `none` for SCM_ICHAR_EOF.
pub record CharCodec : Type 0 where
  pub statefulp : Bool
  pub encoding : String
  pub ccs : CodedCharSet
  pub char_len : ℕ → ℕ
  pub scan_char : Bytes → CharInfo
  pub str2int : Bytes → ℕ → Option ℕ
  pub int2str : ℕ → Option Bytes

-- `(end) ? end - buf : 0`, the body of each `char_len` but the one of `unibyte`.
abbrev pub written_len : Option Bytes → ℕ
written_len none = 0
written_len (some bytes) = length bytes

abbrev pub skip_char : Bytes → CharInfo → Bytes
skip_char mbs c = drop c.size mbs

-- The loop of scm_mb_strlen with a bound on its rounds; `none` means that the bound was met.
pub strlen_loop : ℕ → CharCodec → Bytes → ℕ → Option ℕ
strlen_loop zero codec mbs len = none
strlen_loop (suc fuel) codec mbs len =
    let rest = strlen_loop fuel codec (skip_char mbs (codec.scan_char mbs)) (len + 1) in
    if length mbs == 0 then some len else rest

pub mb_strlen : CharCodec → Bytes → Option ℕ
unfolding strlen_loop
mb_strlen codec mbs = strlen_loop (length mbs + 1) codec mbs 0

-- `while (i--) SCM_MBS_SKIP_CHAR(...)`: what is left behind the first `i` characters.
pub skip_chars : CharCodec → ℕ → Bytes → Bytes
skip_chars codec zero mbs = mbs
skip_chars codec (suc i) mbs = skip_chars codec i (skip_char mbs (codec.scan_char mbs))

-- The result starts behind `i` characters, and its size is the distance to `end`.
pub mb_substring : CharCodec → Bytes → ℕ → ℕ → Bytes
unfolding skip_chars
mb_substring codec mbs i len =
    let ret = skip_chars codec i mbs in
    let end = skip_chars codec len ret in take (length ret - length end) ret

-- scm_mb_strref
abbrev pub mb_strref : CharCodec → Bytes → ℕ → Bytes
mb_strref codec mbs i = mb_substring codec mbs i 1

pub data ReadResult : Type 0 where
  read : ℕ → Bytes → ReadResult
  invalid_sequence : ReadResult

-- The value with the string behind it, or "invalid char sequence".
pub read_char : CharCodec → Bytes → ReadResult
read_char codec mbs =
    let mbc = codec.scan_char mbs in
    if is_error mbc.flag || is_incomplete mbc.flag
    then invalid_sequence
    else elim (codec.str2int mbs mbc.size) [
      | none ↦ invalid_sequence
      | some ch ↦ read ch (skip_char mbs mbc)
    ]
