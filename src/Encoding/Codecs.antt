-- ===== src/Encoding/Codecs.antt =====
-- src/encoding.c: the table of codecs, in a build that has them all, and the search in it.
use Prim.Native.String.{String}
use text.Mathlib.Text.{◌==◌ as str_eq}
use sigscheme.Base.{Bool, Option, none, some, List, [], ◌∷◌, if◌then◌else◌}
use sigscheme.Encoding.{CharCodec}
use sigscheme.Encoding.Utf8
use sigscheme.Encoding.Eucjp
use sigscheme.Encoding.Euc
use sigscheme.Encoding.Sjis
use sigscheme.Encoding.Unibyte

available_codecs : Bool → List CharCodec
available_codecs strict =
    Utf8.codec strict
    ∷ Eucjp.codec strict
    ∷ Euc.euccn_codec strict
    ∷ Euc.euckr_codec strict
    ∷ Sjis.codec strict
    ∷ Unibyte.codec strict
    ∷ []

-- The loop over a table up to its NULL.
find_in : List CharCodec → String → Option CharCodec
find_in [] encoding = none
find_in (c ∷ codecs) encoding =
    if str_eq c.encoding encoding then some c else find_in codecs encoding

unfoldable pub mb_find_codec : Bool → String → Option CharCodec
unfolding available_codecs find_in
mb_find_codec strict encoding = find_in (available_codecs strict) encoding
