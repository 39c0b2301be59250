-- ===== src/Bitmap/Stretch.antt =====
-- The loops of `SetIndexRange` and `RemoveIndexRange` in src/utils/bitmap.cc, block by block.
use jdocs.Base.{
  ℕ, ◌+◌, ◌*◌, ◌/◌, ◌%◌, ◌<◌, ◌≤◌, ◌≡◌, ap, ap₂, ◌∙◌, Bool, false, Bool-cases, inl, inr, List,
  arith, length, length-set, set, get_or, get_or-set, ◌==◌, ==_iff, if◌then◌else◌, u32_mod,
}
use jdocs.Bitmap.Words.{Word, unit_size, word_and, popcount, all_zeros}
use jdocs.Bitmap.Bits.{bit_at, AreWords, AreWords-set, length-block}
use jdocs.Bitmap.Count.{count_below-le, count_below-ext}
use jdocs.Bitmap.Between.{inside, behind, count_from, count_from-add, count_from-le}
use jdocs.Bitmap.Masks.{IsMask, get_or-put_mask, length-put_mask}
use jdocs.Bitmap.Taken.{popcount-word_and, less_used-popcount}
use jdocs.Bitmap.Valid.{IsValid, taken}
use jdocs.Bitmap.Ranges.{put_mask, put_block}
use jdocs.Bitmap.Defs.{BitMap, block_at}

-- A bitmap in which the first `n` indices of a range from `begin` on are written, and no longer counted.
pub record Partly (v : Bool) (o : BitMap) (begin n : ℕ) (c : BitMap) : Type 0 where
  pub same_count : c.bit_count ≡ o.bit_count
  pub same_blocks : c.blocks ≡ o.blocks
  pub whole : length c.bitmap ≡ o.blocks
  pub words : AreWords c.bitmap
  pub written : (j : ℕ) → taken c j ≡ (if inside begin n j then v else taken o j)
  pub less : c.bit_used_count + count_from (taken o) begin n ≡ o.bit_used_count

in_place :
    (i lo n s j : ℕ)
    → i ≡ j / unit_size
    → i * unit_size + lo ≡ s
    → lo + n ≤ unit_size
    → inside lo n (j % unit_size) ≡ inside s n j
in_place i lo n s j e place le = ground arith

out_of_place :
    (i lo n s j : ℕ)
    → (i == j / unit_size) ≡ false
    → i * unit_size + lo ≡ s
    → lo + n ≤ unit_size
    → inside s n j ≡ false
out_of_place i lo n s j e place le = ground arith

joined :
    (begin n k j : ℕ) (a b : Bool)
    → (if inside (begin + n) k j then a else if inside begin n j then a else b)
      ≡ (if inside begin (n + k) j then a else b)
joined begin n k j a b = ground arith

-- The bits of a block written under a mask.
bit_at-put_mask :
    (ws : List Word) (i : ℕ) (v : Bool) (mask : Word) (lo n s j : ℕ)
    → AreWords ws
    → i < length ws
    → IsMask lo n mask
    → lo + n ≤ unit_size
    → i * unit_size + lo ≡ s
    → bit_at (set ws i (put_mask v (get_or ws i all_zeros) mask)) j
      ≡ (if inside s n j then v else bit_at ws j)
unfolding bit_at
bit_at-put_mask ws i v mask lo n s j h hi hm le place =
    let w = get_or ws i all_zeros in
    let outer = get_or-set ws i (put_mask v w mask) (j / unit_size) all_zeros hi in
    let inner =
      get_or-put_mask v w mask lo n (j % unit_size) hm (length-block ws i h) (omega arith) in
    elim (Bool-cases (i == j / unit_size)) [
      | inl same ↦
          let e : i ≡ j / unit_size = (==_iff i (j / unit_size)).0 same in
          let block : w ≡ get_or ws (j / unit_size) all_zeros = ap (λ q. get_or ws q all_zeros) e in
          ap (λ u. get_or u (j % unit_size) false) (outer ∙ rw same)
          ∙ inner
          ∙ ap₂ (λ (here : Bool) u. if here then v else get_or u (j % unit_size) false)
              (in_place i lo n s j e place le) block
      | inr other ↦
          rw (out_of_place i lo n s j other place le)
            (ap (λ u. get_or u (j % unit_size) false) (outer ∙ rw other))
    ]

bit_at-block :
    (ws : List Word) (i r j : ℕ)
    → i * unit_size + r ≡ j
    → r < unit_size
    → get_or (get_or ws i all_zeros) r false ≡ bit_at ws j
unfolding bit_at
bit_at-block ws i r j place lt =
    let block : i ≡ j / unit_size = omega (arith, place, lt) in
    let bit : r ≡ j % unit_size = omega (arith, place, lt) in
    ap₂ (λ q k. get_or (get_or ws q all_zeros) k false) block bit

-- What the counter loses for a block.
popped :
    (v : Bool) (o c : BitMap) (begin n i k lo : ℕ) (mask : Word)
    → Partly v o begin n c
    → i * unit_size + lo ≡ begin + n
    → lo + k ≤ unit_size
    → IsMask lo k mask
    → popcount (word_and (block_at c i) mask) ≡ count_from (taken o) (begin + n) k
popped v o c begin n i k lo mask h place le hm =
    popcount-word_and (block_at c i) mask lo k hm (length-block c.bitmap i h.words) le
    ∙ count_below-ext (λ r. get_or (block_at c i) (lo + r) false) (λ r. taken o (begin + n + r)) k
        (λ r lt.
          bit_at-block c.bitmap i (lo + r) (begin + n + r) (omega (arith, place))
            (omega (arith, lt, le))
          ∙ h.written (begin + n + r)
          ∙ behind v (taken o (begin + n + r)) begin n r)

pub put_block-Partly :
    (v : Bool) (o c : BitMap) (begin n i k lo : ℕ) (mask : Word)
    → IsValid o
    → Partly v o begin n c
    → begin + (n + k) ≤ o.bit_count
    → i * unit_size + lo ≡ begin + n
    → lo + k ≤ unit_size
    → 0 < k
    → IsMask lo k mask
    → Partly v o begin (n + k) (put_block v c i mask)
unfolding put_block
put_block-Partly v o c begin n i k lo mask ho h low place le more hm =
    let gone = popped v o c begin n i k lo mask h place le hm in
    let both = count_from-add (taken o) begin n k in
    let all = count_from-le (taken o) begin (n + k) o.bit_count low in
    let bound = count_below-le (taken o) o.bit_count in
    let used : c.bit_used_count < u32_mod = omega (arith, h.less, ho.counted, bound, ho.small) in
    let block : i < length c.bitmap = omega (arith, h.whole, ho.sized, place, low, more) in
    let less =
      less_used-popcount c.bit_used_count (word_and (block_at c i) mask) used
        (omega (arith, gone, both, all, h.less, ho.counted)) in
    record {
      same_count = h.same_count;
      same_blocks = h.same_blocks;
      whole = length-set c.bitmap i _ ∙ h.whole;
      words =
          AreWords-set c.bitmap i _ h.words
            (length-put_mask v (block_at c i) mask (length-block c.bitmap i h.words) hm.whole);
      written = λ j.
          bit_at-put_mask c.bitmap i v mask lo k (begin + n) j h.words block hm le place
          ∙ ap (λ a. if inside (begin + n) k j then v else a) (h.written j)
          ∙ joined begin n k j v (taken o j);
      less = omega (arith, less, gone, both, h.less);
    }
