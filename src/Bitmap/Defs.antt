-- ===== src/Bitmap/Defs.antt =====
-- `BitMap` of src/utils/bitmap.h and bitmap.cc.
use jdocs.Base.{
  [], ℕ, ◌+◌, ◌-◌, ◌*◌, ◌/◌, ◌%◌, Bool, true, false, not, List, ◌∷◌, Option, none, some, set,
  get_or, replicate, ltb, leb, ◌==◌, if◌then◌else◌, u32_mod,
}
use jdocs.Bitmap.Words.{
  Word, unit_size, word_and, word_or, word_not, one_at, all_ones, all_zeros, is_zero, is_ones, ctz,
}

pub record BitMap : Type 0 where
  pub bitmap : List Word
  pub bit_used_count : ℕ
  pub bit_count : ℕ
  pub blocks : ℕ

unfoldable pub new_bit_map : (bit_count : ℕ) (disable_flag : Bool) → BitMap
new_bit_map bit_count disable_flag =
    let blocks = (bit_count + (unit_size - 1)) % u32_mod / unit_size in
    record {
      bitmap = replicate blocks (if disable_flag then all_ones else all_zeros);
      bit_used_count = if disable_flag then bit_count else 0;
      bit_count = bit_count;
      blocks = blocks;
    }

unfoldable pub is_full : BitMap → Bool
is_full b = b.bit_used_count == b.bit_count

abbrev pub block_at : BitMap → ℕ → Word
block_at b i = get_or b.bitmap i all_zeros

-- `static_cast<uint32_t>(-1)`.
abbrev pub no_index : ℕ
no_index = u32_mod - 1

-- The loop of `GetAndSetIndex` from block `i` on: the block and the bit that it takes.
unfoldable pub find_free : (bit_count i : ℕ) → List Word → Option (ℕ × ℕ)
find_free bit_count i [] = none
find_free bit_count i (w ∷ ws) =
    let index = ctz (word_not w) in
    let taken : Option (ℕ × ℕ) =
      if ltb ((i * unit_size + index) % u32_mod) bit_count then some (i, index) else none in
    if not (is_ones w) then taken else find_free bit_count (i + 1) ws

unfoldable pub get_and_set_index : BitMap → ℕ × BitMap
unfolding is_full
get_and_set_index b = if is_full b then (no_index, b) else elim (find_free b.bit_count 0 b.bitmap) [
  | none ↦ (no_index, b)
  | some (i, index) ↦ (
    i * unit_size + index,
    record b {
      bitmap = set b.bitmap i (word_or (block_at b i) (one_at index));
      bit_used_count = (b.bit_used_count + 1) % u32_mod;
    },
  )
]

unfoldable pub set_index : BitMap → ℕ → Bool × BitMap
set_index b index =
    let block = index / unit_size in
    let bit_mask = one_at (index % unit_size) in
    if leb b.bit_count index
    then (false, b)
    else if not (is_zero (word_and (block_at b block) bit_mask))
    then (false, b)
    else (
      true,
      record b {
        bitmap = set b.bitmap block (word_or (block_at b block) bit_mask);
        bit_used_count = (b.bit_used_count + 1) % u32_mod;
      },
    )

unfoldable pub remove_index : BitMap → ℕ → Bool × BitMap
remove_index b index =
    let block = index / unit_size in
    let bit_mask = one_at (index % unit_size) in
    if leb b.bit_count index
    then (false, b)
    else if not (is_zero (word_and (block_at b block) bit_mask))
    then (
      true,
      record b {
        bitmap = set b.bitmap block (word_and (block_at b block) (word_not bit_mask));
        bit_used_count = (b.bit_used_count + (u32_mod - 1)) % u32_mod;
      },
    )
    else (false, b)

unfoldable pub clear : BitMap → BitMap
clear b = record b { bit_used_count = 0; bitmap = replicate b.blocks all_zeros }
