-- ===== src/Base/Utf8.antt =====
-- `std::str::from_utf8`: which byte sequences are UTF-8, by the table of well-formed sequences.
use Prim.Native.Nat.{ℕ}
use mathlib.Core.Path.{◌≡◌, refl}
use mathlib.Core.Bool.{Bool, true, false, ◌&&◌}
use mathlib.Core.List.{List, [], ◌∷◌}
use rbdc.Base.Tests.{ltb, leb, ◌==◌, if◌then◌else◌}

abbrev within : ℕ → ℕ → ℕ → Bool
within lo hi b = leb lo b && leb b hi

-- What may follow a byte: nothing more, or continuation bytes of which the first is restricted.
pub data Expect : Type 0 where
  lead : Expect
  tail1 tail2 tail3 : Expect
  after_e0 after_ed after_f0 after_f4 : Expect
  bad : Expect

lead_byte : ℕ → Expect
lead_byte b =
    if ltb b 0x80
    then lead
    else if within 0xc2 0xdf b
    then tail1
    else if b == 0xe0
    then after_e0
    else if b == 0xed
    then after_ed
    else if within 0xe1 0xef b
    then tail2
    else if b == 0xf0
    then after_f0
    else if within 0xf1 0xf3 b
    then tail3
    else if b == 0xf4
    then after_f4
    else bad

next_byte : Expect → ℕ → Expect
unfolding lead_byte
next_byte lead b = lead_byte b
next_byte tail1 b = if within 0x80 0xbf b then lead else bad
next_byte tail2 b = if within 0x80 0xbf b then tail1 else bad
next_byte tail3 b = if within 0x80 0xbf b then tail2 else bad
next_byte after_e0 b = if within 0xa0 0xbf b then tail1 else bad
next_byte after_ed b = if within 0x80 0x9f b then tail1 else bad
next_byte after_f0 b = if within 0x90 0xbf b then tail2 else bad
next_byte after_f4 b = if within 0x80 0x8f b then tail2 else bad
next_byte bad b = bad

is_lead : Expect → Bool
is_lead lead = true
is_lead _ = false

scan : Expect → List ℕ → Expect
unfolding next_byte
scan s [] = s
scan s (b ∷ bs) = scan (next_byte s b) bs

unfoldable pub is_utf8 : List ℕ → Bool
unfolding scan is_lead
is_utf8 bs = is_lead (scan lead bs)

accepts : is_utf8 (0x61 ∷ 0xc3 ∷ 0xa9 ∷ 0xf0 ∷ 0x9f ∷ 0xa6 ∷ 0x80 ∷ []) ≡ true
unfolding is_utf8
accepts = refl

rejects : is_utf8 (0xed ∷ 0xa0 ∷ 0x80 ∷ []) ≡ false
unfolding is_utf8
rejects = refl
