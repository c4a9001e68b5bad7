-- ===== src/Mysql/Collation/Ids.antt =====
-- The numbers of the collations, the discriminants of `Collation` in rbdc-mysql/src/collation.rs.
use rbdc.Base.{ℕ}
use rbdc.Mysql.Collation.{Collation}

-- `self as u8`
unfoldable pub collation_id : Collation → ℕ
collation_id Collation.armscii8_bin = 64
collation_id Collation.armscii8_general_ci = 32
collation_id Collation.ascii_bin = 65
collation_id Collation.ascii_general_ci = 11
collation_id Collation.big5_bin = 84
collation_id Collation.big5_chinese_ci = 1
collation_id Collation.binary = 63
collation_id Collation.cp1250_bin = 66
collation_id Collation.cp1250_croatian_ci = 44
collation_id Collation.cp1250_czech_cs = 34
collation_id Collation.cp1250_general_ci = 26
collation_id Collation.cp1250_polish_ci = 99
collation_id Collation.cp1251_bin = 50
collation_id Collation.cp1251_bulgarian_ci = 14
collation_id Collation.cp1251_general_ci = 51
collation_id Collation.cp1251_general_cs = 52
collation_id Collation.cp1251_ukrainian_ci = 23
collation_id Collation.cp1256_bin = 67
collation_id Collation.cp1256_general_ci = 57
collation_id Collation.cp1257_bin = 58
collation_id Collation.cp1257_general_ci = 59
collation_id Collation.cp1257_lithuanian_ci = 29
collation_id Collation.cp850_bin = 80
collation_id Collation.cp850_general_ci = 4
collation_id Collation.cp852_bin = 81
collation_id Collation.cp852_general_ci = 40
collation_id Collation.cp866_bin = 68
collation_id Collation.cp866_general_ci = 36
collation_id Collation.cp932_bin = 96
collation_id Collation.cp932_japanese_ci = 95
collation_id Collation.dec8_bin = 69
collation_id Collation.dec8_swedish_ci = 3
collation_id Collation.eucjpms_bin = 98
collation_id Collation.eucjpms_japanese_ci = 97
collation_id Collation.euckr_bin = 85
collation_id Collation.euckr_korean_ci = 19
collation_id Collation.gb18030_bin = 249
collation_id Collation.gb18030_chinese_ci = 248
collation_id Collation.gb18030_unicode_520_ci = 250
collation_id Collation.gb2312_bin = 86
collation_id Collation.gb2312_chinese_ci = 24
collation_id Collation.gbk_bin = 87
collation_id Collation.gbk_chinese_ci = 28
collation_id Collation.geostd8_bin = 93
collation_id Collation.geostd8_general_ci = 92
collation_id Collation.greek_bin = 70
collation_id Collation.greek_general_ci = 25
collation_id Collation.hebrew_bin = 71
collation_id Collation.hebrew_general_ci = 16
collation_id Collation.hp8_bin = 72
collation_id Collation.hp8_english_ci = 6
collation_id Collation.keybcs2_bin = 73
collation_id Collation.keybcs2_general_ci = 37
collation_id Collation.koi8r_bin = 74
collation_id Collation.koi8r_general_ci = 7
collation_id Collation.koi8u_bin = 75
collation_id Collation.koi8u_general_ci = 22
collation_id Collation.latin1_bin = 47
collation_id Collation.latin1_danish_ci = 15
collation_id Collation.latin1_general_ci = 48
collation_id Collation.latin1_general_cs = 49
collation_id Collation.latin1_german1_ci = 5
collation_id Collation.latin1_german2_ci = 31
collation_id Collation.latin1_spanish_ci = 94
collation_id Collation.latin1_swedish_ci = 8
collation_id Collation.latin2_bin = 77
collation_id Collation.latin2_croatian_ci = 27
collation_id Collation.latin2_czech_cs = 2
collation_id Collation.latin2_general_ci = 9
collation_id Collation.latin2_hungarian_ci = 21
collation_id Collation.latin5_bin = 78
collation_id Collation.latin5_turkish_ci = 30
collation_id Collation.latin7_bin = 79
collation_id Collation.latin7_estonian_cs = 20
collation_id Collation.latin7_general_ci = 41
collation_id Collation.latin7_general_cs = 42
collation_id Collation.macce_bin = 43
collation_id Collation.macce_general_ci = 38
collation_id Collation.macroman_bin = 53
collation_id Collation.macroman_general_ci = 39
collation_id Collation.sjis_bin = 88
collation_id Collation.sjis_japanese_ci = 13
collation_id Collation.swe7_bin = 82
collation_id Collation.swe7_swedish_ci = 10
collation_id Collation.tis620_bin = 89
collation_id Collation.tis620_thai_ci = 18
collation_id Collation.ucs2_bin = 90
collation_id Collation.ucs2_croatian_ci = 149
collation_id Collation.ucs2_czech_ci = 138
collation_id Collation.ucs2_danish_ci = 139
collation_id Collation.ucs2_esperanto_ci = 145
collation_id Collation.ucs2_estonian_ci = 134
collation_id Collation.ucs2_general_ci = 35
collation_id Collation.ucs2_general_mysql500_ci = 159
collation_id Collation.ucs2_german2_ci = 148
collation_id Collation.ucs2_hungarian_ci = 146
collation_id Collation.ucs2_icelandic_ci = 129
collation_id Collation.ucs2_latvian_ci = 130
collation_id Collation.ucs2_lithuanian_ci = 140
collation_id Collation.ucs2_persian_ci = 144
collation_id Collation.ucs2_polish_ci = 133
collation_id Collation.ucs2_roman_ci = 143
collation_id Collation.ucs2_romanian_ci = 131
collation_id Collation.ucs2_sinhala_ci = 147
collation_id Collation.ucs2_slovak_ci = 141
collation_id Collation.ucs2_slovenian_ci = 132
collation_id Collation.ucs2_spanish_ci = 135
collation_id Collation.ucs2_spanish2_ci = 142
collation_id Collation.ucs2_swedish_ci = 136
collation_id Collation.ucs2_turkish_ci = 137
collation_id Collation.ucs2_unicode_520_ci = 150
collation_id Collation.ucs2_unicode_ci = 128
collation_id Collation.ucs2_vietnamese_ci = 151
collation_id Collation.ujis_bin = 91
collation_id Collation.ujis_japanese_ci = 12
collation_id Collation.utf16_bin = 55
collation_id Collation.utf16_croatian_ci = 122
collation_id Collation.utf16_czech_ci = 111
collation_id Collation.utf16_danish_ci = 112
collation_id Collation.utf16_esperanto_ci = 118
collation_id Collation.utf16_estonian_ci = 107
collation_id Collation.utf16_general_ci = 54
collation_id Collation.utf16_german2_ci = 121
collation_id Collation.utf16_hungarian_ci = 119
collation_id Collation.utf16_icelandic_ci = 102
collation_id Collation.utf16_latvian_ci = 103
collation_id Collation.utf16_lithuanian_ci = 113
collation_id Collation.utf16_persian_ci = 117
collation_id Collation.utf16_polish_ci = 106
collation_id Collation.utf16_roman_ci = 116
collation_id Collation.utf16_romanian_ci = 104
collation_id Collation.utf16_sinhala_ci = 120
collation_id Collation.utf16_slovak_ci = 114
collation_id Collation.utf16_slovenian_ci = 105
collation_id Collation.utf16_spanish_ci = 108
collation_id Collation.utf16_spanish2_ci = 115
collation_id Collation.utf16_swedish_ci = 109
collation_id Collation.utf16_turkish_ci = 110
collation_id Collation.utf16_unicode_520_ci = 123
collation_id Collation.utf16_unicode_ci = 101
collation_id Collation.utf16_vietnamese_ci = 124
collation_id Collation.utf16le_bin = 62
collation_id Collation.utf16le_general_ci = 56
collation_id Collation.utf32_bin = 61
collation_id Collation.utf32_croatian_ci = 181
collation_id Collation.utf32_czech_ci = 170
collation_id Collation.utf32_danish_ci = 171
collation_id Collation.utf32_esperanto_ci = 177
collation_id Collation.utf32_estonian_ci = 166
collation_id Collation.utf32_general_ci = 60
collation_id Collation.utf32_german2_ci = 180
collation_id Collation.utf32_hungarian_ci = 178
collation_id Collation.utf32_icelandic_ci = 161
collation_id Collation.utf32_latvian_ci = 162
collation_id Collation.utf32_lithuanian_ci = 172
collation_id Collation.utf32_persian_ci = 176
collation_id Collation.utf32_polish_ci = 165
collation_id Collation.utf32_roman_ci = 175
collation_id Collation.utf32_romanian_ci = 163
collation_id Collation.utf32_sinhala_ci = 179
collation_id Collation.utf32_slovak_ci = 173
collation_id Collation.utf32_slovenian_ci = 164
collation_id Collation.utf32_spanish_ci = 167
collation_id Collation.utf32_spanish2_ci = 174
collation_id Collation.utf32_swedish_ci = 168
collation_id Collation.utf32_turkish_ci = 169
collation_id Collation.utf32_unicode_520_ci = 182
collation_id Collation.utf32_unicode_ci = 160
collation_id Collation.utf32_vietnamese_ci = 183
collation_id Collation.utf8_bin = 83
collation_id Collation.utf8_croatian_ci = 213
collation_id Collation.utf8_czech_ci = 202
collation_id Collation.utf8_danish_ci = 203
collation_id Collation.utf8_esperanto_ci = 209
collation_id Collation.utf8_estonian_ci = 198
collation_id Collation.utf8_general_ci = 33
collation_id Collation.utf8_general_mysql500_ci = 223
collation_id Collation.utf8_german2_ci = 212
collation_id Collation.utf8_hungarian_ci = 210
collation_id Collation.utf8_icelandic_ci = 193
collation_id Collation.utf8_latvian_ci = 194
collation_id Collation.utf8_lithuanian_ci = 204
collation_id Collation.utf8_persian_ci = 208
collation_id Collation.utf8_polish_ci = 197
collation_id Collation.utf8_roman_ci = 207
collation_id Collation.utf8_romanian_ci = 195
collation_id Collation.utf8_sinhala_ci = 211
collation_id Collation.utf8_slovak_ci = 205
collation_id Collation.utf8_slovenian_ci = 196
collation_id Collation.utf8_spanish_ci = 199
collation_id Collation.utf8_spanish2_ci = 206
collation_id Collation.utf8_swedish_ci = 200
collation_id Collation.utf8_tolower_ci = 76
collation_id Collation.utf8_turkish_ci = 201
collation_id Collation.utf8_unicode_520_ci = 214
collation_id Collation.utf8_unicode_ci = 192
collation_id Collation.utf8_vietnamese_ci = 215
collation_id Collation.utf8mb4_0900_ai_ci = 255
collation_id Collation.utf8mb4_bin = 46
collation_id Collation.utf8mb4_croatian_ci = 245
collation_id Collation.utf8mb4_czech_ci = 234
collation_id Collation.utf8mb4_danish_ci = 235
collation_id Collation.utf8mb4_esperanto_ci = 241
collation_id Collation.utf8mb4_estonian_ci = 230
collation_id Collation.utf8mb4_general_ci = 45
collation_id Collation.utf8mb4_german2_ci = 244
collation_id Collation.utf8mb4_hungarian_ci = 242
collation_id Collation.utf8mb4_icelandic_ci = 225
collation_id Collation.utf8mb4_latvian_ci = 226
collation_id Collation.utf8mb4_lithuanian_ci = 236
collation_id Collation.utf8mb4_persian_ci = 240
collation_id Collation.utf8mb4_polish_ci = 229
collation_id Collation.utf8mb4_roman_ci = 239
collation_id Collation.utf8mb4_romanian_ci = 227
collation_id Collation.utf8mb4_sinhala_ci = 243
collation_id Collation.utf8mb4_slovak_ci = 237
collation_id Collation.utf8mb4_slovenian_ci = 228
collation_id Collation.utf8mb4_spanish_ci = 231
collation_id Collation.utf8mb4_spanish2_ci = 238
collation_id Collation.utf8mb4_swedish_ci = 232
collation_id Collation.utf8mb4_turkish_ci = 233
collation_id Collation.utf8mb4_unicode_520_ci = 246
collation_id Collation.utf8mb4_unicode_ci = 224
collation_id Collation.utf8mb4_vietnamese_ci = 247
