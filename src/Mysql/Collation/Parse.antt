-- ===== src/Mysql/Collation/Parse.antt =====
-- `CharSet::from_str` and `Collation::from_str` of rbdc-mysql/src/collation.rs.
use text.Mathlib.Text.{◌==◌}
use rbdc.Base.{
  String, List, [], ◌∷◌, Option, none, some, if◌then◌else◌, Error, general, Outcome, ok, err,
}
use rbdc.Mysql.Collation.{CharSet, Collation}

-- A `match` on a text: the first arm that equals it.
unfoldable pub match_text {ℓ} : {A : Type ℓ} → String → List (String × A) → Option A
match_text s [] = none
match_text s ((k, a) ∷ arms) = if s == k then some a else match_text s arms

abbrev pub or_fail {ℓ} : {A : Type ℓ} → Option A → Error → Outcome A
or_fail none e = err e
or_fail (some a) e = ok a

-- The arms of the two `match`es, in their order.
abbrev pub char_set_arms : List (String × CharSet)
char_set_arms =
    ("armscii8", CharSet.armscii8)
    ∷ ("ascii", CharSet.ascii)
    ∷ ("big5", CharSet.big5)
    ∷ ("binary", CharSet.binary)
    ∷ ("cp1250", CharSet.cp1250)
    ∷ ("cp1251", CharSet.cp1251)
    ∷ ("cp1256", CharSet.cp1256)
    ∷ ("cp1257", CharSet.cp1257)
    ∷ ("cp850", CharSet.cp850)
    ∷ ("cp852", CharSet.cp852)
    ∷ ("cp866", CharSet.cp866)
    ∷ ("cp932", CharSet.cp932)
    ∷ ("dec8", CharSet.dec8)
    ∷ ("eucjpms", CharSet.eucjpms)
    ∷ ("euckr", CharSet.euckr)
    ∷ ("gb18030", CharSet.gb18030)
    ∷ ("gb2312", CharSet.gb2312)
    ∷ ("gbk", CharSet.gbk)
    ∷ ("geostd8", CharSet.geostd8)
    ∷ ("greek", CharSet.greek)
    ∷ ("hebrew", CharSet.hebrew)
    ∷ ("hp8", CharSet.hp8)
    ∷ ("keybcs2", CharSet.keybcs2)
    ∷ ("koi8r", CharSet.koi8r)
    ∷ ("koi8u", CharSet.koi8u)
    ∷ ("latin1", CharSet.latin1)
    ∷ ("latin2", CharSet.latin2)
    ∷ ("latin5", CharSet.latin5)
    ∷ ("latin7", CharSet.latin7)
    ∷ ("macce", CharSet.macce)
    ∷ ("macroman", CharSet.macroman)
    ∷ ("sjis", CharSet.sjis)
    ∷ ("swe7", CharSet.swe7)
    ∷ ("tis620", CharSet.tis620)
    ∷ ("ucs2", CharSet.ucs2)
    ∷ ("ujis", CharSet.ujis)
    ∷ ("utf16", CharSet.utf16)
    ∷ ("utf16le", CharSet.utf16le)
    ∷ ("utf32", CharSet.utf32)
    ∷ ("utf8", CharSet.utf8)
    ∷ ("utf8mb4", CharSet.utf8mb4)
    ∷ []

abbrev pub collation_arms : List (String × Collation)
collation_arms =
    ("big5_chinese_ci", Collation.big5_chinese_ci)
    ∷ ("swe7_swedish_ci", Collation.swe7_swedish_ci)
    ∷ ("utf16_unicode_ci", Collation.utf16_unicode_ci)
    ∷ ("utf16_icelandic_ci", Collation.utf16_icelandic_ci)
    ∷ ("utf16_latvian_ci", Collation.utf16_latvian_ci)
    ∷ ("utf16_romanian_ci", Collation.utf16_romanian_ci)
    ∷ ("utf16_slovenian_ci", Collation.utf16_slovenian_ci)
    ∷ ("utf16_polish_ci", Collation.utf16_polish_ci)
    ∷ ("utf16_estonian_ci", Collation.utf16_estonian_ci)
    ∷ ("utf16_spanish_ci", Collation.utf16_spanish_ci)
    ∷ ("utf16_swedish_ci", Collation.utf16_swedish_ci)
    ∷ ("ascii_general_ci", Collation.ascii_general_ci)
    ∷ ("utf16_turkish_ci", Collation.utf16_turkish_ci)
    ∷ ("utf16_czech_ci", Collation.utf16_czech_ci)
    ∷ ("utf16_danish_ci", Collation.utf16_danish_ci)
    ∷ ("utf16_lithuanian_ci", Collation.utf16_lithuanian_ci)
    ∷ ("utf16_slovak_ci", Collation.utf16_slovak_ci)
    ∷ ("utf16_spanish2_ci", Collation.utf16_spanish2_ci)
    ∷ ("utf16_roman_ci", Collation.utf16_roman_ci)
    ∷ ("utf16_persian_ci", Collation.utf16_persian_ci)
    ∷ ("utf16_esperanto_ci", Collation.utf16_esperanto_ci)
    ∷ ("utf16_hungarian_ci", Collation.utf16_hungarian_ci)
    ∷ ("ujis_japanese_ci", Collation.ujis_japanese_ci)
    ∷ ("utf16_sinhala_ci", Collation.utf16_sinhala_ci)
    ∷ ("utf16_german2_ci", Collation.utf16_german2_ci)
    ∷ ("utf16_croatian_ci", Collation.utf16_croatian_ci)
    ∷ ("utf16_unicode_520_ci", Collation.utf16_unicode_520_ci)
    ∷ ("utf16_vietnamese_ci", Collation.utf16_vietnamese_ci)
    ∷ ("ucs2_unicode_ci", Collation.ucs2_unicode_ci)
    ∷ ("ucs2_icelandic_ci", Collation.ucs2_icelandic_ci)
    ∷ ("sjis_japanese_ci", Collation.sjis_japanese_ci)
    ∷ ("ucs2_latvian_ci", Collation.ucs2_latvian_ci)
    ∷ ("ucs2_romanian_ci", Collation.ucs2_romanian_ci)
    ∷ ("ucs2_slovenian_ci", Collation.ucs2_slovenian_ci)
    ∷ ("ucs2_polish_ci", Collation.ucs2_polish_ci)
    ∷ ("ucs2_estonian_ci", Collation.ucs2_estonian_ci)
    ∷ ("ucs2_spanish_ci", Collation.ucs2_spanish_ci)
    ∷ ("ucs2_swedish_ci", Collation.ucs2_swedish_ci)
    ∷ ("ucs2_turkish_ci", Collation.ucs2_turkish_ci)
    ∷ ("ucs2_czech_ci", Collation.ucs2_czech_ci)
    ∷ ("ucs2_danish_ci", Collation.ucs2_danish_ci)
    ∷ ("cp1251_bulgarian_ci", Collation.cp1251_bulgarian_ci)
    ∷ ("ucs2_lithuanian_ci", Collation.ucs2_lithuanian_ci)
    ∷ ("ucs2_slovak_ci", Collation.ucs2_slovak_ci)
    ∷ ("ucs2_spanish2_ci", Collation.ucs2_spanish2_ci)
    ∷ ("ucs2_roman_ci", Collation.ucs2_roman_ci)
    ∷ ("ucs2_persian_ci", Collation.ucs2_persian_ci)
    ∷ ("ucs2_esperanto_ci", Collation.ucs2_esperanto_ci)
    ∷ ("ucs2_hungarian_ci", Collation.ucs2_hungarian_ci)
    ∷ ("ucs2_sinhala_ci", Collation.ucs2_sinhala_ci)
    ∷ ("ucs2_german2_ci", Collation.ucs2_german2_ci)
    ∷ ("ucs2_croatian_ci", Collation.ucs2_croatian_ci)
    ∷ ("latin1_danish_ci", Collation.latin1_danish_ci)
    ∷ ("ucs2_unicode_520_ci", Collation.ucs2_unicode_520_ci)
    ∷ ("ucs2_vietnamese_ci", Collation.ucs2_vietnamese_ci)
    ∷ ("ucs2_general_mysql500_ci", Collation.ucs2_general_mysql500_ci)
    ∷ ("hebrew_general_ci", Collation.hebrew_general_ci)
    ∷ ("utf32_unicode_ci", Collation.utf32_unicode_ci)
    ∷ ("utf32_icelandic_ci", Collation.utf32_icelandic_ci)
    ∷ ("utf32_latvian_ci", Collation.utf32_latvian_ci)
    ∷ ("utf32_romanian_ci", Collation.utf32_romanian_ci)
    ∷ ("utf32_slovenian_ci", Collation.utf32_slovenian_ci)
    ∷ ("utf32_polish_ci", Collation.utf32_polish_ci)
    ∷ ("utf32_estonian_ci", Collation.utf32_estonian_ci)
    ∷ ("utf32_spanish_ci", Collation.utf32_spanish_ci)
    ∷ ("utf32_swedish_ci", Collation.utf32_swedish_ci)
    ∷ ("utf32_turkish_ci", Collation.utf32_turkish_ci)
    ∷ ("utf32_czech_ci", Collation.utf32_czech_ci)
    ∷ ("utf32_danish_ci", Collation.utf32_danish_ci)
    ∷ ("utf32_lithuanian_ci", Collation.utf32_lithuanian_ci)
    ∷ ("utf32_slovak_ci", Collation.utf32_slovak_ci)
    ∷ ("utf32_spanish2_ci", Collation.utf32_spanish2_ci)
    ∷ ("utf32_roman_ci", Collation.utf32_roman_ci)
    ∷ ("utf32_persian_ci", Collation.utf32_persian_ci)
    ∷ ("utf32_esperanto_ci", Collation.utf32_esperanto_ci)
    ∷ ("utf32_hungarian_ci", Collation.utf32_hungarian_ci)
    ∷ ("utf32_sinhala_ci", Collation.utf32_sinhala_ci)
    ∷ ("tis620_thai_ci", Collation.tis620_thai_ci)
    ∷ ("utf32_german2_ci", Collation.utf32_german2_ci)
    ∷ ("utf32_croatian_ci", Collation.utf32_croatian_ci)
    ∷ ("utf32_unicode_520_ci", Collation.utf32_unicode_520_ci)
    ∷ ("utf32_vietnamese_ci", Collation.utf32_vietnamese_ci)
    ∷ ("euckr_korean_ci", Collation.euckr_korean_ci)
    ∷ ("utf8_unicode_ci", Collation.utf8_unicode_ci)
    ∷ ("utf8_icelandic_ci", Collation.utf8_icelandic_ci)
    ∷ ("utf8_latvian_ci", Collation.utf8_latvian_ci)
    ∷ ("utf8_romanian_ci", Collation.utf8_romanian_ci)
    ∷ ("utf8_slovenian_ci", Collation.utf8_slovenian_ci)
    ∷ ("utf8_polish_ci", Collation.utf8_polish_ci)
    ∷ ("utf8_estonian_ci", Collation.utf8_estonian_ci)
    ∷ ("utf8_spanish_ci", Collation.utf8_spanish_ci)
    ∷ ("latin2_czech_cs", Collation.latin2_czech_cs)
    ∷ ("latin7_estonian_cs", Collation.latin7_estonian_cs)
    ∷ ("utf8_swedish_ci", Collation.utf8_swedish_ci)
    ∷ ("utf8_turkish_ci", Collation.utf8_turkish_ci)
    ∷ ("utf8_czech_ci", Collation.utf8_czech_ci)
    ∷ ("utf8_danish_ci", Collation.utf8_danish_ci)
    ∷ ("utf8_lithuanian_ci", Collation.utf8_lithuanian_ci)
    ∷ ("utf8_slovak_ci", Collation.utf8_slovak_ci)
    ∷ ("utf8_spanish2_ci", Collation.utf8_spanish2_ci)
    ∷ ("utf8_roman_ci", Collation.utf8_roman_ci)
    ∷ ("utf8_persian_ci", Collation.utf8_persian_ci)
    ∷ ("utf8_esperanto_ci", Collation.utf8_esperanto_ci)
    ∷ ("latin2_hungarian_ci", Collation.latin2_hungarian_ci)
    ∷ ("utf8_hungarian_ci", Collation.utf8_hungarian_ci)
    ∷ ("utf8_sinhala_ci", Collation.utf8_sinhala_ci)
    ∷ ("utf8_german2_ci", Collation.utf8_german2_ci)
    ∷ ("utf8_croatian_ci", Collation.utf8_croatian_ci)
    ∷ ("utf8_unicode_520_ci", Collation.utf8_unicode_520_ci)
    ∷ ("utf8_vietnamese_ci", Collation.utf8_vietnamese_ci)
    ∷ ("koi8u_general_ci", Collation.koi8u_general_ci)
    ∷ ("utf8_general_mysql500_ci", Collation.utf8_general_mysql500_ci)
    ∷ ("utf8mb4_unicode_ci", Collation.utf8mb4_unicode_ci)
    ∷ ("utf8mb4_icelandic_ci", Collation.utf8mb4_icelandic_ci)
    ∷ ("utf8mb4_latvian_ci", Collation.utf8mb4_latvian_ci)
    ∷ ("utf8mb4_romanian_ci", Collation.utf8mb4_romanian_ci)
    ∷ ("utf8mb4_slovenian_ci", Collation.utf8mb4_slovenian_ci)
    ∷ ("utf8mb4_polish_ci", Collation.utf8mb4_polish_ci)
    ∷ ("cp1251_ukrainian_ci", Collation.cp1251_ukrainian_ci)
    ∷ ("utf8mb4_estonian_ci", Collation.utf8mb4_estonian_ci)
    ∷ ("utf8mb4_spanish_ci", Collation.utf8mb4_spanish_ci)
    ∷ ("utf8mb4_swedish_ci", Collation.utf8mb4_swedish_ci)
    ∷ ("utf8mb4_turkish_ci", Collation.utf8mb4_turkish_ci)
    ∷ ("utf8mb4_czech_ci", Collation.utf8mb4_czech_ci)
    ∷ ("utf8mb4_danish_ci", Collation.utf8mb4_danish_ci)
    ∷ ("utf8mb4_lithuanian_ci", Collation.utf8mb4_lithuanian_ci)
    ∷ ("utf8mb4_slovak_ci", Collation.utf8mb4_slovak_ci)
    ∷ ("utf8mb4_spanish2_ci", Collation.utf8mb4_spanish2_ci)
    ∷ ("utf8mb4_roman_ci", Collation.utf8mb4_roman_ci)
    ∷ ("gb2312_chinese_ci", Collation.gb2312_chinese_ci)
    ∷ ("utf8mb4_persian_ci", Collation.utf8mb4_persian_ci)
    ∷ ("utf8mb4_esperanto_ci", Collation.utf8mb4_esperanto_ci)
    ∷ ("utf8mb4_hungarian_ci", Collation.utf8mb4_hungarian_ci)
    ∷ ("utf8mb4_sinhala_ci", Collation.utf8mb4_sinhala_ci)
    ∷ ("utf8mb4_german2_ci", Collation.utf8mb4_german2_ci)
    ∷ ("utf8mb4_croatian_ci", Collation.utf8mb4_croatian_ci)
    ∷ ("utf8mb4_unicode_520_ci", Collation.utf8mb4_unicode_520_ci)
    ∷ ("utf8mb4_vietnamese_ci", Collation.utf8mb4_vietnamese_ci)
    ∷ ("gb18030_chinese_ci", Collation.gb18030_chinese_ci)
    ∷ ("gb18030_bin", Collation.gb18030_bin)
    ∷ ("greek_general_ci", Collation.greek_general_ci)
    ∷ ("gb18030_unicode_520_ci", Collation.gb18030_unicode_520_ci)
    ∷ ("utf8mb4_0900_ai_ci", Collation.utf8mb4_0900_ai_ci)
    ∷ ("cp1250_general_ci", Collation.cp1250_general_ci)
    ∷ ("latin2_croatian_ci", Collation.latin2_croatian_ci)
    ∷ ("gbk_chinese_ci", Collation.gbk_chinese_ci)
    ∷ ("cp1257_lithuanian_ci", Collation.cp1257_lithuanian_ci)
    ∷ ("dec8_swedish_ci", Collation.dec8_swedish_ci)
    ∷ ("latin5_turkish_ci", Collation.latin5_turkish_ci)
    ∷ ("latin1_german2_ci", Collation.latin1_german2_ci)
    ∷ ("armscii8_general_ci", Collation.armscii8_general_ci)
    ∷ ("utf8_general_ci", Collation.utf8_general_ci)
    ∷ ("cp1250_czech_cs", Collation.cp1250_czech_cs)
    ∷ ("ucs2_general_ci", Collation.ucs2_general_ci)
    ∷ ("cp866_general_ci", Collation.cp866_general_ci)
    ∷ ("keybcs2_general_ci", Collation.keybcs2_general_ci)
    ∷ ("macce_general_ci", Collation.macce_general_ci)
    ∷ ("macroman_general_ci", Collation.macroman_general_ci)
    ∷ ("cp850_general_ci", Collation.cp850_general_ci)
    ∷ ("cp852_general_ci", Collation.cp852_general_ci)
    ∷ ("latin7_general_ci", Collation.latin7_general_ci)
    ∷ ("latin7_general_cs", Collation.latin7_general_cs)
    ∷ ("macce_bin", Collation.macce_bin)
    ∷ ("cp1250_croatian_ci", Collation.cp1250_croatian_ci)
    ∷ ("utf8mb4_general_ci", Collation.utf8mb4_general_ci)
    ∷ ("utf8mb4_bin", Collation.utf8mb4_bin)
    ∷ ("latin1_bin", Collation.latin1_bin)
    ∷ ("latin1_general_ci", Collation.latin1_general_ci)
    ∷ ("latin1_general_cs", Collation.latin1_general_cs)
    ∷ ("latin1_german1_ci", Collation.latin1_german1_ci)
    ∷ ("cp1251_bin", Collation.cp1251_bin)
    ∷ ("cp1251_general_ci", Collation.cp1251_general_ci)
    ∷ ("cp1251_general_cs", Collation.cp1251_general_cs)
    ∷ ("macroman_bin", Collation.macroman_bin)
    ∷ ("utf16_general_ci", Collation.utf16_general_ci)
    ∷ ("utf16_bin", Collation.utf16_bin)
    ∷ ("utf16le_general_ci", Collation.utf16le_general_ci)
    ∷ ("cp1256_general_ci", Collation.cp1256_general_ci)
    ∷ ("cp1257_bin", Collation.cp1257_bin)
    ∷ ("cp1257_general_ci", Collation.cp1257_general_ci)
    ∷ ("hp8_english_ci", Collation.hp8_english_ci)
    ∷ ("utf32_general_ci", Collation.utf32_general_ci)
    ∷ ("utf32_bin", Collation.utf32_bin)
    ∷ ("utf16le_bin", Collation.utf16le_bin)
    ∷ ("binary", Collation.binary)
    ∷ ("armscii8_bin", Collation.armscii8_bin)
    ∷ ("ascii_bin", Collation.ascii_bin)
    ∷ ("cp1250_bin", Collation.cp1250_bin)
    ∷ ("cp1256_bin", Collation.cp1256_bin)
    ∷ ("cp866_bin", Collation.cp866_bin)
    ∷ ("dec8_bin", Collation.dec8_bin)
    ∷ ("koi8r_general_ci", Collation.koi8r_general_ci)
    ∷ ("greek_bin", Collation.greek_bin)
    ∷ ("hebrew_bin", Collation.hebrew_bin)
    ∷ ("hp8_bin", Collation.hp8_bin)
    ∷ ("keybcs2_bin", Collation.keybcs2_bin)
    ∷ ("koi8r_bin", Collation.koi8r_bin)
    ∷ ("koi8u_bin", Collation.koi8u_bin)
    ∷ ("utf8_tolower_ci", Collation.utf8_tolower_ci)
    ∷ ("latin2_bin", Collation.latin2_bin)
    ∷ ("latin5_bin", Collation.latin5_bin)
    ∷ ("latin7_bin", Collation.latin7_bin)
    ∷ ("latin1_swedish_ci", Collation.latin1_swedish_ci)
    ∷ ("cp850_bin", Collation.cp850_bin)
    ∷ ("cp852_bin", Collation.cp852_bin)
    ∷ ("swe7_bin", Collation.swe7_bin)
    ∷ ("utf8_bin", Collation.utf8_bin)
    ∷ ("big5_bin", Collation.big5_bin)
    ∷ ("euckr_bin", Collation.euckr_bin)
    ∷ ("gb2312_bin", Collation.gb2312_bin)
    ∷ ("gbk_bin", Collation.gbk_bin)
    ∷ ("sjis_bin", Collation.sjis_bin)
    ∷ ("tis620_bin", Collation.tis620_bin)
    ∷ ("latin2_general_ci", Collation.latin2_general_ci)
    ∷ ("ucs2_bin", Collation.ucs2_bin)
    ∷ ("ujis_bin", Collation.ujis_bin)
    ∷ ("geostd8_general_ci", Collation.geostd8_general_ci)
    ∷ ("geostd8_bin", Collation.geostd8_bin)
    ∷ ("latin1_spanish_ci", Collation.latin1_spanish_ci)
    ∷ ("cp932_japanese_ci", Collation.cp932_japanese_ci)
    ∷ ("cp932_bin", Collation.cp932_bin)
    ∷ ("eucjpms_japanese_ci", Collation.eucjpms_japanese_ci)
    ∷ ("eucjpms_bin", Collation.eucjpms_bin)
    ∷ ("cp1250_polish_ci", Collation.cp1250_polish_ci)
    ∷ []

unfoldable pub char_set_from_str : String → Outcome CharSet
unfolding match_text
char_set_from_str s =
    or_fail (match_text s char_set_arms) (general "unsupported MySQL charset: {}" [])

unfoldable pub from_str : String → Outcome Collation
unfolding match_text
from_str s = or_fail (match_text s collation_arms) (general "unsupported MySQL collation: {}" [])
