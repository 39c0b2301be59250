-- ===== src/Bitmap/Rewrite.antt =====
-- The range that `SetIndexRange` and `RemoveIndexRange` of src/utils/bitmap.cc write, before the counter is
-- raised again.
use jdocs.Base.{
  ℕ, zero, suc, ◌+◌, ◌-◌, ◌*◌, ◌/◌, ◌%◌, ◌<◌, ◌≤◌, ◌≡◌, refl, sym, ap₂, subst, Bool, true, false,
  inl, inr, Bool-cases, arith, length, set, ◌==◌, ==_iff, if◌then◌else◌, u32_mod,
}
use jdocs.Bitmap.Words.{
  Word, unit_size, word_and, all_ones, all_zeros, or-ones, and-replicate-true, and-not-ones,
}
use jdocs.Bitmap.Bits.{length-block}
use jdocs.Bitmap.Count.{count_below}
use jdocs.Bitmap.Between.{inside}
use jdocs.Bitmap.Masks.{low_mask-IsMask, all_ones-IsMask, high_mask-IsMask, word_and-IsMask}
use jdocs.Bitmap.Stretch.{Partly, put_block-Partly}
use jdocs.Bitmap.Valid.{IsValid, taken}
use jdocs.Bitmap.Ranges.{
  put_mask, put_block, less_used, fill_block, fill_blocks, low_mask, high_mask, write_range,
}
use jdocs.Bitmap.Defs.{BitMap, block_at}

at_length :
    {v : Bool} {o c : BitMap} {begin : ℕ} (n m : ℕ)
    → n ≡ m
    → Partly v o begin n c
    → Partly v o begin m c
at_length {v} {o} {c} {begin} n m e h = subst (λ k. Partly v o begin k c) e h

filled :
    (v : Bool) (w : Word)
    → length w ≡ unit_size
    → put_mask v w all_ones ≡ (if v then all_ones else all_zeros)
unfolding put_mask
filled true w h = or-ones unit_size w h
filled false w h = and-not-ones unit_size w h

fill_block-put_block :
    (v : Bool) (c : BitMap) (i : ℕ)
    → length (block_at c i) ≡ unit_size
    → put_block v c i all_ones ≡ fill_block v c i
unfolding put_block fill_block
fill_block-put_block v c i h =
    ap₂ {A = Word} {B = Word}
      (λ w u. record c { bit_used_count = less_used c.bit_used_count w; bitmap = set c.bitmap i u })
      (and-replicate-true unit_size (block_at c i) h) (filled v (block_at c i) h)

fill_blocks-Partly :
    (v : Bool) (o c : BitMap) (begin n i rounds : ℕ)
    → IsValid o
    → Partly v o begin n c
    → begin + (n + rounds * unit_size) ≤ o.bit_count
    → i * unit_size ≡ begin + n
    → Partly v o begin (n + rounds * unit_size) (fill_blocks v c i rounds)
unfolding fill_blocks
fill_blocks-Partly v o c begin n i zero ho h low place =
    at_length n (n + 0 * unit_size) (omega arith) h
fill_blocks-Partly v o c begin n i (suc rounds) ho h low place =
    let one =
      subst (Partly v o begin (n + unit_size))
        (fill_block-put_block v c i (length-block c.bitmap i h.words))
        (put_block-Partly v o c begin n i unit_size 0 all_ones ho h (omega (arith, low))
          (omega (arith, place)) (omega arith) (omega arith) all_ones-IsMask) in
    at_length (n + unit_size + rounds * unit_size) (n + suc rounds * unit_size) (omega arith) (
      fill_blocks-Partly v o (fill_block v c i) begin (n + unit_size) (i + 1) rounds ho one
        (omega (arith, low)) (omega (arith, place)))

empty : (a b : Bool) (begin j : ℕ) → (if inside begin 0 j then a else b) ≡ b
empty a b begin j = ground arith

none_yet : (v : Bool) (b : BitMap) (begin : ℕ) → IsValid b → Partly v b begin 0 b
unfolding count_below
none_yet v b begin h = record {
  same_count = refl;
  same_blocks = refl;
  whole = h.whole;
  words = h.words;
  written = λ j. sym (empty v (taken b j) begin j);
  less = omega arith;
}

apart :
    (begin count : ℕ)
    → 0 < count
    → (begin / unit_size == (begin + count - 1) / unit_size) ≡ false
    → begin / unit_size < (begin + count - 1) / unit_size
apart begin count h e = ground arith

one_block :
    (v : Bool) (b : BitMap) (begin count : ℕ)
    → IsValid b
    → 0 < count
    → begin + count ≤ b.bit_count
    → begin / unit_size ≡ (begin + count - 1) / unit_size
    → Partly v b begin count
        (put_block v b (begin / unit_size) (word_and (low_mask begin) (high_mask (begin + count))))
one_block v b begin count h more low e = at_length (0 + count) count (omega arith) (
    put_block-Partly v b b begin 0 (begin / unit_size) count (begin % unit_size) _ h
      (none_yet v b begin h) (omega (arith, low)) (omega arith) (omega (arith, e, more)) more
      (word_and-IsMask (begin % unit_size) (unit_size - begin % unit_size) _ count _ _
        (low_mask-IsMask begin) (high_mask-IsMask (begin + count) (omega (arith, more)))
        (omega (arith, e, more)) (omega (arith, e, more))))

several_blocks :
    (v : Bool) (b : BitMap) (begin count : ℕ)
    → IsValid b
    → 0 < count
    → begin + count ≤ b.bit_count
    → begin / unit_size < (begin + count - 1) / unit_size
    → let last = (begin + count - 1) / unit_size in
      let first = begin / unit_size in
      Partly v b begin count (
        put_block v
          (fill_blocks v (put_block v b first (low_mask begin)) (first + 1) (last - (first + 1)))
          last
          (high_mask (begin + count)))
several_blocks v b begin count h more low e =
    let last = (begin + count - 1) / unit_size in
    let first = begin / unit_size in
    let head = unit_size - begin % unit_size in
    let rounds = last - (first + 1) in
    let tail = begin + count - last * unit_size in
    let start =
      put_block-Partly v b b begin 0 first head (begin % unit_size) _ h (none_yet v b begin h)
        (omega (arith, low, e)) (omega arith) (omega arith) (omega arith) (low_mask-IsMask begin) in
    let middle =
      fill_blocks-Partly v b _ begin (0 + head) (first + 1) rounds h start (omega (arith, low, e))
        (omega arith) in
    at_length (0 + head + rounds * unit_size + tail) count (omega (arith, e, more)) (
      put_block-Partly v b _ begin (0 + head + rounds * unit_size) last tail 0 _ h middle
        (omega (arith, low, e, more)) (omega (arith, e)) (omega (arith, more)) (omega (arith, more))
        (high_mask-IsMask (begin + count) (omega (arith, more))))

pub write_range-Partly :
    (v : Bool) (b : BitMap) (begin count : ℕ)
    → IsValid b
    → 0 < count
    → begin + count ≤ b.bit_count
    → Partly v b begin count (write_range v b begin (begin + count))
unfolding write_range
write_range-Partly v b begin count h more low =
    let whole : (begin + count + (u32_mod - 1)) % u32_mod ≡ begin + count - 1 =
      omega (arith, more, low, h.small) in
    elim (Bool-cases (begin / unit_size == (begin + count - 1) / unit_size)) [
      | inl one ↦ rw (whole, one) (one_block v b begin count h more low ((==_iff _ _).0 one))
      | inr far ↦
          rw (whole, far) (several_blocks v b begin count h more low (apart begin count more far))
    ]
