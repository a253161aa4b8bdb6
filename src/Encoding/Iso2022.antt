-- ===== src/Encoding/Iso2022.antt =====
-- src/encoding.c: the byte regions of ISO/IEC 2022 and the ranges of character values.
use sigscheme.Base.{ℕ, Bool, ◌&&◌, ◌||◌, ltb, leb, ◌==◌}

abbrev pub in_cl : ℕ → Bool
in_cl c = ltb c 0x20

abbrev pub in_gl96 : ℕ → Bool
in_gl96 c = leb 0x20 c && leb c 0x7f

abbrev pub in_gr94 : ℕ → Bool
in_gr94 c = leb 0xa1 c && leb c 0xfe

abbrev pub in_gr96 : ℕ → Bool
in_gr96 c = leb 0xa0 c

abbrev pub is_ascii : ℕ → Bool
is_ascii c = leb c 0x7f

abbrev pub is_gr_spc_or_del : ℕ → Bool
is_gr_spc_or_del c = c == 0xa0 || c == 0xff

abbrev pub ss2 : ℕ
ss2 = 0x8e

abbrev pub ss3 : ℕ
ss3 = 0x8f

abbrev pub is_1byte : ℕ → Bool
is_1byte e = leb e 0x7f

abbrev pub is_2bytes : ℕ → Bool
is_2bytes e = leb e 0xffff

-- (SS3 << CHAR_BITS * 2) | 0xFFFF
abbrev pub is_3bytes : ℕ → Bool
is_3bytes e = leb e 0x8fffff
