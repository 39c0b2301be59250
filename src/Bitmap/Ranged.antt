-- ===== src/Bitmap/Ranged.antt =====
-- What `SetIndexRange` and `RemoveIndexRange` of src/utils/bitmap.cc do to the set of taken indices.
use jdocs.Base.{
  ℕ, ◌+◌, ◌/◌, ◌%◌, ◌<◌, ◌≤◌, ◌≡◌, refl, sym, ap, ◌∙◌, Bool, true, false, ◌⊎◌, inl, inr, Bool-cases,
  arith, ◌==◌, if◌then◌else◌, u32_mod,
}
use jdocs.Bitmap.Words.{unit_size}
use jdocs.Bitmap.Count.{count_below, count_below-le}
use jdocs.Bitmap.Between.{inside, count_below-written}
use jdocs.Bitmap.Stretch.{Partly}
use jdocs.Bitmap.Rewrite.{write_range-Partly}
use jdocs.Bitmap.Valid.{IsValid, taken}
use jdocs.Bitmap.Ranges.{out_of_range, set_index_range, remove_index_range}
use jdocs.Bitmap.Defs.{BitMap}

-- The bitmap in which a range of indices has one state.
pub record Overwritten (v : Bool) (b : BitMap) (begin count : ℕ) (c : BitMap) : Type 0 where
  pub valid : IsValid c
  pub same_count : c.bit_count ≡ b.bit_count
  pub written : (j : ℕ) → taken c j ≡ (if inside begin count j then v else taken b j)

recount :
    (v : Bool) (b c : BitMap) (begin count used : ℕ)
    → IsValid b
    → begin + count ≤ b.bit_count
    → Partly v b begin count c
    → used ≡ c.bit_used_count + (if v then count else 0)
    → Overwritten v b begin count (record c { bit_used_count = used })
recount v b c begin count used h low p e =
    let total = count_below-written (taken b) (taken c) v begin count b.bit_count low p.written in
    let same = ap (count_below (taken c)) p.same_count in
    record {
      valid = record {
        small = rw p.same_count h.small;
        sized = p.same_blocks ∙ h.sized ∙ ap (λ n. (n + 63) / unit_size) (sym p.same_count);
        whole = p.whole ∙ sym p.same_blocks;
        words = p.words;
        counted = omega (arith, e, total, p.less, h.counted, same);
      };
      same_count = p.same_count;
      written = p.written;
    }

-- What a range operation leaves.
pub data Ranged (v : Bool) (b : BitMap) (begin count : ℕ) (c : BitMap) : Type 0 where
  refused : c ≡ b → (count ≡ 0) ⊎ (b.bit_count < begin + count) → Ranged v b begin count c
  done :
      0 < count
      → begin + count ≤ b.bit_count
      → Overwritten v b begin count c
      → Ranged v b begin count c

refusal :
    (b : BitMap) (begin count : ℕ)
    → begin + count < u32_mod
    → out_of_range b begin count ≡ true
    → (count ≡ 0) ⊎ (b.bit_count < begin + count)
unfolding out_of_range
refusal b begin count h e = elim (Bool-cases (count == 0)) [
  | inl none ↦ inl (ground arith)
  | inr some_left ↦ inr (ground arith)
]

admission :
    (b : BitMap) (begin count : ℕ)
    → begin + count < u32_mod
    → out_of_range b begin count ≡ false
    → (0 < count) × (begin + count ≤ b.bit_count)
unfolding out_of_range
admission b begin count h e = (ground arith, ground arith)

room :
    (b c : BitMap) (begin count : ℕ)
    → IsValid b
    → begin + count ≤ b.bit_count
    → Partly true b begin count c
    → (c.bit_used_count + count) % u32_mod ≡ c.bit_used_count + count
room b c begin count h low p =
    let total =
      count_below-written (taken b) (taken c) true begin count b.bit_count low p.written in
    let bound = count_below-le (taken c) b.bit_count in
    omega (arith, total, bound, p.less, h.counted, h.small)

-- On a valid bitmap, and with `begin + count` below 2 ^ 32, `SetIndexRange` changes nothing only if the
-- range is empty or ends beyond the bitmap. Otherwise it leaves a valid bitmap in which exactly the
-- indices of the range have become taken.
pub set_index_range-Ranged :
    (b : BitMap) (begin count : ℕ)
    → IsValid b
    → begin + count < u32_mod
    → Ranged true b begin count (set_index_range b begin count)
unfolding set_index_range
set_index_range-Ranged b begin count h small =
    let whole : (begin + count) % u32_mod ≡ begin + count = omega (arith, small) in
    elim (Bool-cases (out_of_range b begin count)) [
      | inl out ↦ rw out (refused refl (refusal b begin count small out))
      | inr ok ↦
          let (more, low) = admission b begin count small ok in
          let p = write_range-Partly true b begin count h more low in
          rw (ok, whole)
            (done more low (recount true b _ begin count _ h low p (room b _ begin count h low p)))
    ]

-- On a valid bitmap, and with `begin + count` below 2 ^ 32, `RemoveIndexRange` changes nothing only if
-- the range is empty or ends beyond the bitmap. Otherwise it leaves a valid bitmap in which exactly the
-- indices of the range have become free.
pub remove_index_range-Ranged :
    (b : BitMap) (begin count : ℕ)
    → IsValid b
    → begin + count < u32_mod
    → Ranged false b begin count (remove_index_range b begin count)
unfolding remove_index_range
remove_index_range-Ranged b begin count h small =
    let whole : (begin + count) % u32_mod ≡ begin + count = omega (arith, small) in
    elim (Bool-cases (out_of_range b begin count)) [
      | inl out ↦ rw out (refused refl (refusal b begin count small out))
      | inr ok ↦
          let (more, low) = admission b begin count small ok in
          let p = write_range-Partly false b begin count h more low in
          rw (ok, whole) (done more low (recount false b _ begin count _ h low p (omega arith)))
    ]
