-- ===== src/Tests/Bitmaps.antt =====
-- The bitmap of src/utils/bitmap.cc, on the inputs of src/tests/bitmap_test.cc.
use jdocs.Base.{ℕ, ◌<◌, ◌≡◌, refl, arith, true, false}
use jdocs.Bitmap.Words.{word_and, word_or, word_not, is_zero, is_ones, ctz}
use jdocs.Bitmap.Defs.{BitMap, new_bit_map, get_and_set_index, set_index, remove_index, find_free}
use jdocs.Bitmap.Valid.{
  IsValid, taken, Outcome, Claimed, set_index-Outcome, remove_index-Outcome,
  get_and_set_index-Claimed,
}
use jdocs.Bitmap.Ranges.{
  set_index_range, remove_index_range, out_of_range, write_range, put_block, fill_blocks,
  fill_block, low_mask, high_mask, less_used, put_mask,
}
use jdocs.Bitmap.Ranged.{Ranged, set_index_range-Ranged, remove_index_range-Ranged}
use jdocs.Bitmap.Fresh.{new_bit_map-IsValid}

map : BitMap
map = new_bit_map 68 false

map-IsValid : IsValid map
unfolding map
map-IsValid = (new_bit_map-IsValid 68 false (omega arith)).0

past_the_end : (set_index map 68).0 ≡ false
unfolding map new_bit_map set_index
past_the_end = refl

last_index : ((set_index map 67).0 ≡ true) × ((set_index map 67).1.bit_used_count ≡ 1)
unfolding map new_bit_map set_index word_and is_zero
last_index = (refl, refl)

lowest : (get_and_set_index (set_index map 0).1).0 ≡ 1
unfolding map new_bit_map set_index get_and_set_index find_free word_and word_or word_not is_zero
    is_ones ctz
lowest = refl

new_bit_map-IsValid_example :
    IsValid (new_bit_map 68 true) × ((j : ℕ) → j < 68 → taken (new_bit_map 68 true) j ≡ true)
new_bit_map-IsValid_example = new_bit_map-IsValid 68 true (omega arith)

set_index-Outcome_example : Outcome true map 67 (set_index map 67)
set_index-Outcome_example = set_index-Outcome map 67 map-IsValid

remove_index-Outcome_example : Outcome false map 4 (remove_index map 4)
remove_index-Outcome_example = remove_index-Outcome map 4 map-IsValid

get_and_set_index-Claimed_example : Claimed map (get_and_set_index map)
get_and_set_index-Claimed_example = get_and_set_index-Claimed map map-IsValid

set_index_range-Ranged_example : Ranged true map 3 65 (set_index_range map 3 65)
set_index_range-Ranged_example = set_index_range-Ranged map 3 65 map-IsValid (omega arith)

remove_index_range-Ranged_example : Ranged false map 60 8 (remove_index_range map 60 8)
remove_index_range-Ranged_example = remove_index_range-Ranged map 60 8 map-IsValid (omega arith)

-- The sum of `begin_index` and `count` wraps around, and the guard lets it pass: 2 ^ 32 - 5 indices are
-- counted as taken.
wrapped_range : (set_index_range map 10 4294967291).bit_used_count ≡ 4294967291
unfolding map new_bit_map set_index_range out_of_range write_range put_block fill_blocks fill_block
    low_mask high_mask less_used put_mask word_and word_not is_zero
wrapped_range = refl
