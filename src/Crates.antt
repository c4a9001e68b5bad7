-- ===== src/Crates.antt =====
-- The third-party byte buffers: `Buf` and `Bytes` of the crate bytes, `ByteOrder` of byteorder, and
-- memchr, and the flag types of bitflags. Their operations are a parameter of the model. `Documented` is what their documentation
-- says of them, and `reference` are functions that meet it.
use Prim.Native.Nat.{bit_and, bit_or, bit_xor}
use rbdc.Base.{
  ◌-◌, ◌^◌, ℕ, suc, ◌≡◌, refl, Bool, Option, none, some, [], ◌∷◌, ltb, ◌==◌, if◌then◌else◌, Bytes,
  length, take, drop, of_le_bytes, of_be_bytes, Outcome, ok, panic, Reader,
}
use mathlib.Core.Option

pub record Crates : Type 0 where
  -- `get_u8`, `get_u16_le`, `get_u32_le`, `get_u64_le` and `get_uint_le`, by their number of bytes
  pub get_uint_le : ℕ → Reader ℕ
  -- `get_u8`, `get_u16`, `get_u32`, and the bit patterns of `get_i16` and `get_i32`
  pub get_uint : ℕ → Reader ℕ
  -- `BigEndian::read_u16`, `read_u32`, and the bit patterns of `read_i16` and `read_i32`
  pub read_uint : ℕ → Bytes → Outcome ℕ
  pub advance : ℕ → Reader (Unit {0})
  pub split_to : ℕ → Reader Bytes
  -- `slice(..n)`
  pub slice_to : ℕ → Bytes → Outcome Bytes
  pub memchr : ℕ → Bytes → Option ℕ
  -- the types that `bitflags!` makes, as their bits: `contains`, `|`, and `from_bits_truncate` with
  -- the bits that the type declares
  pub contains : ℕ → ℕ → Bool
  pub union : ℕ → ℕ → ℕ
  pub from_bits_truncate : ℕ → ℕ → ℕ
  -- `remove`, on 64 bits
  pub remove : ℕ → ℕ → ℕ

abbrev pub all_ones : ℕ
all_ones = 2 ^ 64 - 1

abbrev pub checked {ℓ} : {A : Type ℓ} → ℕ → Bytes → A → Outcome A
checked n bs a = if ltb (length bs) n then panic else ok a

unfoldable pub first_index : ℕ → Bytes → Option ℕ
first_index b [] = none
first_index b (x ∷ xs) =
    let rest = first_index b xs in if x == b then some 0 else Option.map suc rest

-- Each reads the first bytes and moves past them, and panics if fewer are left.
pub record Documented (c : Crates) : Type 0 where
  pub get_uint_le_lem :
      (n : ℕ) (bs : Bytes) → c.get_uint_le n bs ≡ checked n bs (of_le_bytes (take n bs), drop n bs)
  pub get_uint_lem :
      (n : ℕ) (bs : Bytes) → c.get_uint n bs ≡ checked n bs (of_be_bytes (take n bs), drop n bs)
  pub read_uint_lem :
      (n : ℕ) (bs : Bytes) → c.read_uint n bs ≡ checked n bs (of_be_bytes (take n bs))
  pub advance_lem : (n : ℕ) (bs : Bytes) → c.advance n bs ≡ checked n bs (tt, drop n bs)
  pub split_to_lem : (n : ℕ) (bs : Bytes) → c.split_to n bs ≡ checked n bs (take n bs, drop n bs)
  pub slice_to_lem : (n : ℕ) (bs : Bytes) → c.slice_to n bs ≡ checked n bs (take n bs)
  pub memchr_lem : (b : ℕ) (bs : Bytes) → c.memchr b bs ≡ first_index b bs
  pub contains_lem : (bits flag : ℕ) → c.contains bits flag ≡ (bit_and bits flag == flag)
  pub union_lem : (a b : ℕ) → c.union a b ≡ bit_or a b
  pub from_bits_truncate_lem : (all bits : ℕ) → c.from_bits_truncate all bits ≡ bit_and bits all
  pub remove_lem : (bits flag : ℕ) → c.remove bits flag ≡ bit_and bits (bit_xor all_ones flag)

abbrev pub reference : Crates
reference = record {
  get_uint_le = λ n bs. checked n bs (of_le_bytes (take n bs), drop n bs);
  get_uint = λ n bs. checked n bs (of_be_bytes (take n bs), drop n bs);
  read_uint = λ n bs. checked n bs (of_be_bytes (take n bs));
  advance = λ n bs. checked n bs (tt, drop n bs);
  split_to = λ n bs. checked n bs (take n bs, drop n bs);
  slice_to = λ n bs. checked n bs (take n bs);
  memchr = first_index;
  contains = λ bits flag. bit_and bits flag == flag;
  union = bit_or;
  from_bits_truncate = λ all bits. bit_and bits all;
  remove = λ bits flag. bit_and bits (bit_xor all_ones flag);
}

pub reference-Documented : Documented reference
reference-Documented = record {
  get_uint_le_lem = λ n bs. refl;
  get_uint_lem = λ n bs. refl;
  read_uint_lem = λ n bs. refl;
  advance_lem = λ n bs. refl;
  split_to_lem = λ n bs. refl;
  slice_to_lem = λ n bs. refl;
  memchr_lem = λ b bs. refl;
  contains_lem = λ bits flag. refl;
  union_lem = λ a b. refl;
  from_bits_truncate_lem = λ all bits. refl;
  remove_lem = λ bits flag. refl;
}

-- The documentation determines the operations, so that a proof may compute with the reference.
pub eq_reference : (c : Crates) → Documented c → c ≡ reference
eq_reference c d = λ i. record {
  get_uint_le = λ n bs. d.get_uint_le_lem n bs i;
  get_uint = λ n bs. d.get_uint_lem n bs i;
  read_uint = λ n bs. d.read_uint_lem n bs i;
  advance = λ n bs. d.advance_lem n bs i;
  split_to = λ n bs. d.split_to_lem n bs i;
  slice_to = λ n bs. d.slice_to_lem n bs i;
  memchr = λ b bs. d.memchr_lem b bs i;
  contains = λ bits flag. d.contains_lem bits flag i;
  union = λ a b. d.union_lem a b i;
  from_bits_truncate = λ all bits. d.from_bits_truncate_lem all bits i;
  remove = λ bits flag. d.remove_lem bits flag i;
}
