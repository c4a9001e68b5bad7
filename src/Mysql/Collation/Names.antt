-- ===== src/Mysql/Collation/Names.antt =====
-- `CharSet::as_str`, `CharSet::default_collation` and `Collation::as_str` of
-- rbdc-mysql/src/collation.rs, and the numbers of the collations.
use rbdc.Base.{String}
use rbdc.Mysql.Collation.{CharSet, Collation}

unfoldable pub char_set_as_str : CharSet → String
char_set_as_str CharSet.armscii8 = "armscii8"
char_set_as_str CharSet.ascii = "ascii"
char_set_as_str CharSet.big5 = "big5"
char_set_as_str CharSet.binary = "binary"
char_set_as_str CharSet.cp1250 = "cp1250"
char_set_as_str CharSet.cp1251 = "cp1251"
char_set_as_str CharSet.cp1256 = "cp1256"
char_set_as_str CharSet.cp1257 = "cp1257"
char_set_as_str CharSet.cp850 = "cp850"
char_set_as_str CharSet.cp852 = "cp852"
char_set_as_str CharSet.cp866 = "cp866"
char_set_as_str CharSet.cp932 = "cp932"
char_set_as_str CharSet.dec8 = "dec8"
char_set_as_str CharSet.eucjpms = "eucjpms"
char_set_as_str CharSet.euckr = "euckr"
char_set_as_str CharSet.gb18030 = "gb18030"
char_set_as_str CharSet.gb2312 = "gb2312"
char_set_as_str CharSet.gbk = "gbk"
char_set_as_str CharSet.geostd8 = "geostd8"
char_set_as_str CharSet.greek = "greek"
char_set_as_str CharSet.hebrew = "hebrew"
char_set_as_str CharSet.hp8 = "hp8"
char_set_as_str CharSet.keybcs2 = "keybcs2"
char_set_as_str CharSet.koi8r = "koi8r"
char_set_as_str CharSet.koi8u = "koi8u"
char_set_as_str CharSet.latin1 = "latin1"
char_set_as_str CharSet.latin2 = "latin2"
char_set_as_str CharSet.latin5 = "latin5"
char_set_as_str CharSet.latin7 = "latin7"
char_set_as_str CharSet.macce = "macce"
char_set_as_str CharSet.macroman = "macroman"
char_set_as_str CharSet.sjis = "sjis"
char_set_as_str CharSet.swe7 = "swe7"
char_set_as_str CharSet.tis620 = "tis620"
char_set_as_str CharSet.ucs2 = "ucs2"
char_set_as_str CharSet.ujis = "ujis"
char_set_as_str CharSet.utf16 = "utf16"
char_set_as_str CharSet.utf16le = "utf16le"
char_set_as_str CharSet.utf32 = "utf32"
char_set_as_str CharSet.utf8 = "utf8"
char_set_as_str CharSet.utf8mb4 = "utf8mb4"

unfoldable pub default_collation : CharSet → Collation
default_collation CharSet.armscii8 = Collation.armscii8_general_ci
default_collation CharSet.ascii = Collation.ascii_general_ci
default_collation CharSet.big5 = Collation.big5_chinese_ci
default_collation CharSet.binary = Collation.binary
default_collation CharSet.cp1250 = Collation.cp1250_general_ci
default_collation CharSet.cp1251 = Collation.cp1251_general_ci
default_collation CharSet.cp1256 = Collation.cp1256_general_ci
default_collation CharSet.cp1257 = Collation.cp1257_general_ci
default_collation CharSet.cp850 = Collation.cp850_general_ci
default_collation CharSet.cp852 = Collation.cp852_general_ci
default_collation CharSet.cp866 = Collation.cp866_general_ci
default_collation CharSet.cp932 = Collation.cp932_japanese_ci
default_collation CharSet.dec8 = Collation.dec8_swedish_ci
default_collation CharSet.eucjpms = Collation.eucjpms_japanese_ci
default_collation CharSet.euckr = Collation.euckr_korean_ci
default_collation CharSet.gb18030 = Collation.gb18030_chinese_ci
default_collation CharSet.gb2312 = Collation.gb2312_chinese_ci
default_collation CharSet.gbk = Collation.gbk_chinese_ci
default_collation CharSet.geostd8 = Collation.geostd8_general_ci
default_collation CharSet.greek = Collation.greek_general_ci
default_collation CharSet.hebrew = Collation.hebrew_general_ci
default_collation CharSet.hp8 = Collation.hp8_english_ci
default_collation CharSet.keybcs2 = Collation.keybcs2_general_ci
default_collation CharSet.koi8r = Collation.koi8r_general_ci
default_collation CharSet.koi8u = Collation.koi8u_general_ci
default_collation CharSet.latin1 = Collation.latin1_swedish_ci
default_collation CharSet.latin2 = Collation.latin2_general_ci
default_collation CharSet.latin5 = Collation.latin5_turkish_ci
default_collation CharSet.latin7 = Collation.latin7_general_ci
default_collation CharSet.macce = Collation.macce_general_ci
default_collation CharSet.macroman = Collation.macroman_general_ci
default_collation CharSet.sjis = Collation.sjis_japanese_ci
default_collation CharSet.swe7 = Collation.swe7_swedish_ci
default_collation CharSet.tis620 = Collation.tis620_thai_ci
default_collation CharSet.ucs2 = Collation.ucs2_general_ci
default_collation CharSet.ujis = Collation.ujis_japanese_ci
default_collation CharSet.utf16 = Collation.utf16_general_ci
default_collation CharSet.utf16le = Collation.utf16le_general_ci
default_collation CharSet.utf32 = Collation.utf32_general_ci
default_collation CharSet.utf8 = Collation.utf8_unicode_ci
default_collation CharSet.utf8mb4 = Collation.utf8mb4_unicode_ci

unfoldable pub as_str : Collation → String
as_str Collation.armscii8_bin = "armscii8_bin"
as_str Collation.armscii8_general_ci = "armscii8_general_ci"
as_str Collation.ascii_bin = "ascii_bin"
as_str Collation.ascii_general_ci = "ascii_general_ci"
as_str Collation.big5_bin = "big5_bin"
as_str Collation.big5_chinese_ci = "big5_chinese_ci"
as_str Collation.binary = "binary"
as_str Collation.cp1250_bin = "cp1250_bin"
as_str Collation.cp1250_croatian_ci = "cp1250_croatian_ci"
as_str Collation.cp1250_czech_cs = "cp1250_czech_cs"
as_str Collation.cp1250_general_ci = "cp1250_general_ci"
as_str Collation.cp1250_polish_ci = "cp1250_polish_ci"
as_str Collation.cp1251_bin = "cp1251_bin"
as_str Collation.cp1251_bulgarian_ci = "cp1251_bulgarian_ci"
as_str Collation.cp1251_general_ci = "cp1251_general_ci"
as_str Collation.cp1251_general_cs = "cp1251_general_cs"
as_str Collation.cp1251_ukrainian_ci = "cp1251_ukrainian_ci"
as_str Collation.cp1256_bin = "cp1256_bin"
as_str Collation.cp1256_general_ci = "cp1256_general_ci"
as_str Collation.cp1257_bin = "cp1257_bin"
as_str Collation.cp1257_general_ci = "cp1257_general_ci"
as_str Collation.cp1257_lithuanian_ci = "cp1257_lithuanian_ci"
as_str Collation.cp850_bin = "cp850_bin"
as_str Collation.cp850_general_ci = "cp850_general_ci"
as_str Collation.cp852_bin = "cp852_bin"
as_str Collation.cp852_general_ci = "cp852_general_ci"
as_str Collation.cp866_bin = "cp866_bin"
as_str Collation.cp866_general_ci = "cp866_general_ci"
as_str Collation.cp932_bin = "cp932_bin"
as_str Collation.cp932_japanese_ci = "cp932_japanese_ci"
as_str Collation.dec8_bin = "dec8_bin"
as_str Collation.dec8_swedish_ci = "dec8_swedish_ci"
as_str Collation.eucjpms_bin = "eucjpms_bin"
as_str Collation.eucjpms_japanese_ci = "eucjpms_japanese_ci"
as_str Collation.euckr_bin = "euckr_bin"
as_str Collation.euckr_korean_ci = "euckr_korean_ci"
as_str Collation.gb18030_bin = "gb18030_bin"
as_str Collation.gb18030_chinese_ci = "gb18030_chinese_ci"
as_str Collation.gb18030_unicode_520_ci = "gb18030_unicode_520_ci"
as_str Collation.gb2312_bin = "gb2312_bin"
as_str Collation.gb2312_chinese_ci = "gb2312_chinese_ci"
as_str Collation.gbk_bin = "gbk_bin"
as_str Collation.gbk_chinese_ci = "gbk_chinese_ci"
as_str Collation.geostd8_bin = "geostd8_bin"
as_str Collation.geostd8_general_ci = "geostd8_general_ci"
as_str Collation.greek_bin = "greek_bin"
as_str Collation.greek_general_ci = "greek_general_ci"
as_str Collation.hebrew_bin = "hebrew_bin"
as_str Collation.hebrew_general_ci = "hebrew_general_ci"
as_str Collation.hp8_bin = "hp8_bin"
as_str Collation.hp8_english_ci = "hp8_english_ci"
as_str Collation.keybcs2_bin = "keybcs2_bin"
as_str Collation.keybcs2_general_ci = "keybcs2_general_ci"
as_str Collation.koi8r_bin = "koi8r_bin"
as_str Collation.koi8r_general_ci = "koi8r_general_ci"
as_str Collation.koi8u_bin = "koi8u_bin"
as_str Collation.koi8u_general_ci = "koi8u_general_ci"
as_str Collation.latin1_bin = "latin1_bin"
as_str Collation.latin1_danish_ci = "latin1_danish_ci"
as_str Collation.latin1_general_ci = "latin1_general_ci"
as_str Collation.latin1_general_cs = "latin1_general_cs"
as_str Collation.latin1_german1_ci = "latin1_german1_ci"
as_str Collation.latin1_german2_ci = "latin1_german2_ci"
as_str Collation.latin1_spanish_ci = "latin1_spanish_ci"
as_str Collation.latin1_swedish_ci = "latin1_swedish_ci"
as_str Collation.latin2_bin = "latin2_bin"
as_str Collation.latin2_croatian_ci = "latin2_croatian_ci"
as_str Collation.latin2_czech_cs = "latin2_czech_cs"
as_str Collation.latin2_general_ci = "latin2_general_ci"
as_str Collation.latin2_hungarian_ci = "latin2_hungarian_ci"
as_str Collation.latin5_bin = "latin5_bin"
as_str Collation.latin5_turkish_ci = "latin5_turkish_ci"
as_str Collation.latin7_bin = "latin7_bin"
as_str Collation.latin7_estonian_cs = "latin7_estonian_cs"
as_str Collation.latin7_general_ci = "latin7_general_ci"
as_str Collation.latin7_general_cs = "latin7_general_cs"
as_str Collation.macce_bin = "macce_bin"
as_str Collation.macce_general_ci = "macce_general_ci"
as_str Collation.macroman_bin = "macroman_bin"
as_str Collation.macroman_general_ci = "macroman_general_ci"
as_str Collation.sjis_bin = "sjis_bin"
as_str Collation.sjis_japanese_ci = "sjis_japanese_ci"
as_str Collation.swe7_bin = "swe7_bin"
as_str Collation.swe7_swedish_ci = "swe7_swedish_ci"
as_str Collation.tis620_bin = "tis620_bin"
as_str Collation.tis620_thai_ci = "tis620_thai_ci"
as_str Collation.ucs2_bin = "ucs2_bin"
as_str Collation.ucs2_croatian_ci = "ucs2_croatian_ci"
as_str Collation.ucs2_czech_ci = "ucs2_czech_ci"
as_str Collation.ucs2_danish_ci = "ucs2_danish_ci"
as_str Collation.ucs2_esperanto_ci = "ucs2_esperanto_ci"
as_str Collation.ucs2_estonian_ci = "ucs2_estonian_ci"
as_str Collation.ucs2_general_ci = "ucs2_general_ci"
as_str Collation.ucs2_general_mysql500_ci = "ucs2_general_mysql500_ci"
as_str Collation.ucs2_german2_ci = "ucs2_german2_ci"
as_str Collation.ucs2_hungarian_ci = "ucs2_hungarian_ci"
as_str Collation.ucs2_icelandic_ci = "ucs2_icelandic_ci"
as_str Collation.ucs2_latvian_ci = "ucs2_latvian_ci"
as_str Collation.ucs2_lithuanian_ci = "ucs2_lithuanian_ci"
as_str Collation.ucs2_persian_ci = "ucs2_persian_ci"
as_str Collation.ucs2_polish_ci = "ucs2_polish_ci"
as_str Collation.ucs2_roman_ci = "ucs2_roman_ci"
as_str Collation.ucs2_romanian_ci = "ucs2_romanian_ci"
as_str Collation.ucs2_sinhala_ci = "ucs2_sinhala_ci"
as_str Collation.ucs2_slovak_ci = "ucs2_slovak_ci"
as_str Collation.ucs2_slovenian_ci = "ucs2_slovenian_ci"
as_str Collation.ucs2_spanish_ci = "ucs2_spanish_ci"
as_str Collation.ucs2_spanish2_ci = "ucs2_spanish2_ci"
as_str Collation.ucs2_swedish_ci = "ucs2_swedish_ci"
as_str Collation.ucs2_turkish_ci = "ucs2_turkish_ci"
as_str Collation.ucs2_unicode_520_ci = "ucs2_unicode_520_ci"
as_str Collation.ucs2_unicode_ci = "ucs2_unicode_ci"
as_str Collation.ucs2_vietnamese_ci = "ucs2_vietnamese_ci"
as_str Collation.ujis_bin = "ujis_bin"
as_str Collation.ujis_japanese_ci = "ujis_japanese_ci"
as_str Collation.utf16_bin = "utf16_bin"
as_str Collation.utf16_croatian_ci = "utf16_croatian_ci"
as_str Collation.utf16_czech_ci = "utf16_czech_ci"
as_str Collation.utf16_danish_ci = "utf16_danish_ci"
as_str Collation.utf16_esperanto_ci = "utf16_esperanto_ci"
as_str Collation.utf16_estonian_ci = "utf16_estonian_ci"
as_str Collation.utf16_general_ci = "utf16_general_ci"
as_str Collation.utf16_german2_ci = "utf16_german2_ci"
as_str Collation.utf16_hungarian_ci = "utf16_hungarian_ci"
as_str Collation.utf16_icelandic_ci = "utf16_icelandic_ci"
as_str Collation.utf16_latvian_ci = "utf16_latvian_ci"
as_str Collation.utf16_lithuanian_ci = "utf16_lithuanian_ci"
as_str Collation.utf16_persian_ci = "utf16_persian_ci"
as_str Collation.utf16_polish_ci = "utf16_polish_ci"
as_str Collation.utf16_roman_ci = "utf16_roman_ci"
as_str Collation.utf16_romanian_ci = "utf16_romanian_ci"
as_str Collation.utf16_sinhala_ci = "utf16_sinhala_ci"
as_str Collation.utf16_slovak_ci = "utf16_slovak_ci"
as_str Collation.utf16_slovenian_ci = "utf16_slovenian_ci"
as_str Collation.utf16_spanish_ci = "utf16_spanish_ci"
as_str Collation.utf16_spanish2_ci = "utf16_spanish2_ci"
as_str Collation.utf16_swedish_ci = "utf16_swedish_ci"
as_str Collation.utf16_turkish_ci = "utf16_turkish_ci"
as_str Collation.utf16_unicode_520_ci = "utf16_unicode_520_ci"
as_str Collation.utf16_unicode_ci = "utf16_unicode_ci"
as_str Collation.utf16_vietnamese_ci = "utf16_vietnamese_ci"
as_str Collation.utf16le_bin = "utf16le_bin"
as_str Collation.utf16le_general_ci = "utf16le_general_ci"
as_str Collation.utf32_bin = "utf32_bin"
as_str Collation.utf32_croatian_ci = "utf32_croatian_ci"
as_str Collation.utf32_czech_ci = "utf32_czech_ci"
as_str Collation.utf32_danish_ci = "utf32_danish_ci"
as_str Collation.utf32_esperanto_ci = "utf32_esperanto_ci"
as_str Collation.utf32_estonian_ci = "utf32_estonian_ci"
as_str Collation.utf32_general_ci = "utf32_general_ci"
as_str Collation.utf32_german2_ci = "utf32_german2_ci"
as_str Collation.utf32_hungarian_ci = "utf32_hungarian_ci"
as_str Collation.utf32_icelandic_ci = "utf32_icelandic_ci"
as_str Collation.utf32_latvian_ci = "utf32_latvian_ci"
as_str Collation.utf32_lithuanian_ci = "utf32_lithuanian_ci"
as_str Collation.utf32_persian_ci = "utf32_persian_ci"
as_str Collation.utf32_polish_ci = "utf32_polish_ci"
as_str Collation.utf32_roman_ci = "utf32_roman_ci"
as_str Collation.utf32_romanian_ci = "utf32_romanian_ci"
as_str Collation.utf32_sinhala_ci = "utf32_sinhala_ci"
as_str Collation.utf32_slovak_ci = "utf32_slovak_ci"
as_str Collation.utf32_slovenian_ci = "utf32_slovenian_ci"
as_str Collation.utf32_spanish_ci = "utf32_spanish_ci"
as_str Collation.utf32_spanish2_ci = "utf32_spanish2_ci"
as_str Collation.utf32_swedish_ci = "utf32_swedish_ci"
as_str Collation.utf32_turkish_ci = "utf32_turkish_ci"
as_str Collation.utf32_unicode_520_ci = "utf32_unicode_520_ci"
as_str Collation.utf32_unicode_ci = "utf32_unicode_ci"
as_str Collation.utf32_vietnamese_ci = "utf32_vietnamese_ci"
as_str Collation.utf8_bin = "utf8_bin"
as_str Collation.utf8_croatian_ci = "utf8_croatian_ci"
as_str Collation.utf8_czech_ci = "utf8_czech_ci"
as_str Collation.utf8_danish_ci = "utf8_danish_ci"
as_str Collation.utf8_esperanto_ci = "utf8_esperanto_ci"
as_str Collation.utf8_estonian_ci = "utf8_estonian_ci"
as_str Collation.utf8_general_ci = "utf8_general_ci"
as_str Collation.utf8_general_mysql500_ci = "utf8_general_mysql500_ci"
as_str Collation.utf8_german2_ci = "utf8_german2_ci"
as_str Collation.utf8_hungarian_ci = "utf8_hungarian_ci"
as_str Collation.utf8_icelandic_ci = "utf8_icelandic_ci"
as_str Collation.utf8_latvian_ci = "utf8_latvian_ci"
as_str Collation.utf8_lithuanian_ci = "utf8_lithuanian_ci"
as_str Collation.utf8_persian_ci = "utf8_persian_ci"
as_str Collation.utf8_polish_ci = "utf8_polish_ci"
as_str Collation.utf8_roman_ci = "utf8_roman_ci"
as_str Collation.utf8_romanian_ci = "utf8_romanian_ci"
as_str Collation.utf8_sinhala_ci = "utf8_sinhala_ci"
as_str Collation.utf8_slovak_ci = "utf8_slovak_ci"
as_str Collation.utf8_slovenian_ci = "utf8_slovenian_ci"
as_str Collation.utf8_spanish_ci = "utf8_spanish_ci"
as_str Collation.utf8_spanish2_ci = "utf8_spanish2_ci"
as_str Collation.utf8_swedish_ci = "utf8_swedish_ci"
as_str Collation.utf8_tolower_ci = "utf8_tolower_ci"
as_str Collation.utf8_turkish_ci = "utf8_turkish_ci"
as_str Collation.utf8_unicode_520_ci = "utf8_unicode_520_ci"
as_str Collation.utf8_unicode_ci = "utf8_unicode_ci"
as_str Collation.utf8_vietnamese_ci = "utf8_vietnamese_ci"
as_str Collation.utf8mb4_0900_ai_ci = "utf8mb4_0900_ai_ci"
as_str Collation.utf8mb4_bin = "utf8mb4_bin"
as_str Collation.utf8mb4_croatian_ci = "utf8mb4_croatian_ci"
as_str Collation.utf8mb4_czech_ci = "utf8mb4_czech_ci"
as_str Collation.utf8mb4_danish_ci = "utf8mb4_danish_ci"
as_str Collation.utf8mb4_esperanto_ci = "utf8mb4_esperanto_ci"
as_str Collation.utf8mb4_estonian_ci = "utf8mb4_estonian_ci"
as_str Collation.utf8mb4_general_ci = "utf8mb4_general_ci"
as_str Collation.utf8mb4_german2_ci = "utf8mb4_german2_ci"
as_str Collation.utf8mb4_hungarian_ci = "utf8mb4_hungarian_ci"
as_str Collation.utf8mb4_icelandic_ci = "utf8mb4_icelandic_ci"
as_str Collation.utf8mb4_latvian_ci = "utf8mb4_latvian_ci"
as_str Collation.utf8mb4_lithuanian_ci = "utf8mb4_lithuanian_ci"
as_str Collation.utf8mb4_persian_ci = "utf8mb4_persian_ci"
as_str Collation.utf8mb4_polish_ci = "utf8mb4_polish_ci"
as_str Collation.utf8mb4_roman_ci = "utf8mb4_roman_ci"
as_str Collation.utf8mb4_romanian_ci = "utf8mb4_romanian_ci"
as_str Collation.utf8mb4_sinhala_ci = "utf8mb4_sinhala_ci"
as_str Collation.utf8mb4_slovak_ci = "utf8mb4_slovak_ci"
as_str Collation.utf8mb4_slovenian_ci = "utf8mb4_slovenian_ci"
as_str Collation.utf8mb4_spanish_ci = "utf8mb4_spanish_ci"
as_str Collation.utf8mb4_spanish2_ci = "utf8mb4_spanish2_ci"
as_str Collation.utf8mb4_swedish_ci = "utf8mb4_swedish_ci"
as_str Collation.utf8mb4_turkish_ci = "utf8mb4_turkish_ci"
as_str Collation.utf8mb4_unicode_520_ci = "utf8mb4_unicode_520_ci"
as_str Collation.utf8mb4_unicode_ci = "utf8mb4_unicode_ci"
as_str Collation.utf8mb4_vietnamese_ci = "utf8mb4_vietnamese_ci"
