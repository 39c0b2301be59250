-- ===== src/Bitmap/Ranges.antt =====
-- `SetIndexRange` and `RemoveIndexRange` of src/utils/bitmap.cc. They differ in the value `v` that they
-- write, and in the last line of the first.
use jdocs.Base.{
  ℕ, zero, suc, ◌+◌, ◌-◌, ◌/◌, ◌%◌, Bool, true, false, not, ◌||◌, set, ltb, leb, ◌==◌,
  if◌then◌else◌, u32_mod,
}
use jdocs.Bitmap.Words.{
  Word, unit_size, word_and, word_or, word_not, ones_below, all_ones, all_zeros, is_zero, popcount,
}
use jdocs.Bitmap.Defs.{BitMap, block_at}

-- `|= mask` or `&= ~mask`.
unfoldable pub put_mask : Bool → Word → Word → Word
put_mask v w mask = if v then word_or w mask else word_and w (word_not mask)

-- `bit_used_count_ -= popcount(block)`, unless the block is zero.
unfoldable pub less_used : ℕ → Word → ℕ
less_used used block =
    if not (is_zero block) then (used + (u32_mod - popcount block)) % u32_mod else used

unfoldable pub put_block : Bool → BitMap → ℕ → Word → BitMap
unfolding put_mask less_used
put_block v b i mask = record b {
  bit_used_count = less_used b.bit_used_count (word_and (block_at b i) mask);
  bitmap = set b.bitmap i (put_mask v (block_at b i) mask);
}

unfoldable pub fill_block : Bool → BitMap → ℕ → BitMap
unfolding less_used
fill_block v b i = record b {
  bit_used_count = less_used b.bit_used_count (block_at b i);
  bitmap = set b.bitmap i (if v then all_ones else all_zeros);
}

-- The loop over the blocks between the first and the last one.
unfoldable pub fill_blocks : Bool → BitMap → (i rounds : ℕ) → BitMap
unfolding fill_block
fill_blocks v b i zero = b
fill_blocks v b i (suc rounds) = fill_blocks v (fill_block v b i) (i + 1) rounds

unfoldable pub low_mask : ℕ → Word
low_mask begin_index = word_not (ones_below (begin_index % unit_size))

unfoldable pub high_mask : ℕ → Word
high_mask end_index =
    let mask = ones_below (end_index % unit_size) in if is_zero mask then all_ones else mask

unfoldable pub write_range : Bool → BitMap → (begin_index end_index : ℕ) → BitMap
unfolding put_block fill_blocks low_mask high_mask
write_range v b begin_index end_index =
    let end_block = (end_index + (u32_mod - 1)) % u32_mod / unit_size in
    let begin_block = begin_index / unit_size in
    let first = put_block v b begin_block (low_mask begin_index) in
    let middle = fill_blocks v first (begin_block + 1) (end_block - (begin_block + 1)) in
    if begin_block == end_block
    then put_block v b begin_block (word_and (low_mask begin_index) (high_mask end_index))
    else put_block v middle end_block (high_mask end_index)

unfoldable pub out_of_range : BitMap → (begin_index count : ℕ) → Bool
out_of_range b begin_index count =
    count == 0 || leb b.bit_count begin_index || ltb b.bit_count ((begin_index + count) % u32_mod)

unfoldable pub set_index_range : BitMap → (begin_index count : ℕ) → BitMap
unfolding write_range out_of_range
set_index_range b begin_index count =
    let c = write_range true b begin_index ((begin_index + count) % u32_mod) in
    if out_of_range b begin_index count
    then b
    else record c { bit_used_count = (c.bit_used_count + count) % u32_mod }

unfoldable pub remove_index_range : BitMap → (begin_index count : ℕ) → BitMap
unfolding write_range out_of_range
remove_index_range b begin_index count =
    if out_of_range b begin_index count
    then b
    else write_range false b begin_index ((begin_index + count) % u32_mod)
