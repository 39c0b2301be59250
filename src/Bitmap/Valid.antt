-- ===== src/Bitmap/Valid.antt =====
-- What the operations of `BitMap` in src/utils/bitmap.cc do to the set of taken indices.
use jdocs.Base.{
  ℕ, ◌+◌, ◌*◌, ◌/◌, ◌%◌, ◌<◌, ◌≤◌, ◌≡◌, refl, ap, ◌∙◌, subst, Bool, true, false, not, Bool-cases,
  inl, inr, Option, none, some, arith, length, length-set, set, leb, ◌==◌, if◌then◌else◌, u32_mod,
}
use jdocs.Bitmap.Words.{
  Word, unit_size, one_at, word_or, word_and, is_zero, word_or-one_at, word_and-not_one_at,
  is_zero-word_and,
}
use jdocs.Bitmap.Bits.{bit_at, AreWords, AreWords-set, length-block, bit_at-set}
use jdocs.Bitmap.Count.{
  weight, count_below, count_below-le, count_below-set, count_below-full, count_below-pos,
}
use jdocs.Bitmap.Find.{Found, find_free-Found}
use jdocs.Bitmap.Defs.{
  BitMap, is_full, block_at, no_index, find_free, get_and_set_index, set_index, remove_index,
}

-- Whether an index is taken.
abbrev pub taken : BitMap → ℕ → Bool
taken b j = bit_at b.bitmap j

pub record IsValid (b : BitMap) : Type 0 where
  pub small : b.bit_count + 63 < u32_mod
  pub sized : b.blocks ≡ (b.bit_count + 63) / unit_size
  pub whole : length b.bitmap ≡ b.blocks
  pub words : AreWords b.bitmap
  pub counted : b.bit_used_count ≡ count_below (taken b) b.bit_count

not-not : (a : Bool) → not (not a) ≡ a
not-not true = refl
not-not false = refl

-- The bitmap in which one index has another state.
pub record Written (b : BitMap) (index : ℕ) (v : Bool) (c : BitMap) : Type 0 where
  pub valid : IsValid c
  pub same_count : c.bit_count ≡ b.bit_count
  pub written : (j : ℕ) → taken c j ≡ (if index == j then v else taken b j)

-- A bit written by its mask, with the counter that goes with it.
written :
    (b : BitMap) (q k used : ℕ) (v : Bool) (w : Word)
    → IsValid b
    → q < length b.bitmap
    → k < unit_size
    → q * unit_size + k < b.bit_count
    → w ≡ set (block_at b q) k v
    → used + weight (taken b (q * unit_size + k)) ≡ b.bit_used_count + weight v
    → Written b
        (q * unit_size + k)
        v
        (record b { bitmap = set b.bitmap q w; bit_used_count = used })
written b q k used v w h hq hk low e counts =
    let index = q * unit_size + k in
    let block : length (block_at b q) ≡ unit_size = length-block b.bitmap q h.words in
    let bits : (j : ℕ) → bit_at (set b.bitmap q w) j ≡ (if index == j then v else taken b j) =
      λ j. ap (λ u. bit_at (set b.bitmap q u) j) e ∙ bit_at-set b.bitmap q k v j h.words hq hk in
    let total =
      count_below-set (taken b) (bit_at (set b.bitmap q w)) b.bit_count index v bits low in
    record {
      valid = record {
        small = h.small;
        sized = h.sized;
        whole = length-set b.bitmap q w ∙ h.whole;
        words =
            AreWords-set b.bitmap q w h.words (ap length e ∙ length-set (block_at b q) k v ∙ block);
        counted = omega (arith, counts, total, h.counted);
      };
      same_count = refl;
      written = bits;
    }

-- What `SetIndex` and `RemoveIndex` return and leave, with the state that they give to the index.
pub data Outcome (v : Bool) (b : BitMap) (index : ℕ) (r : Bool × BitMap) : Type 0 where
  refused : r ≡ (false, b) → ((index < b.bit_count) → taken b index ≡ v) → Outcome v b index r
  done :
      r.0 ≡ true
      → index < b.bit_count
      → taken b index ≡ not v
      → Written b index v r.1
      → Outcome v b index r

-- Where an index lies, and the test of its bit.
record Placed (b : BitMap) (index : ℕ) : Type 0 where
  place : index / unit_size * unit_size + index % unit_size ≡ index
  block : index / unit_size < length b.bitmap
  sized : length (block_at b (index / unit_size)) ≡ unit_size
  test :
      not (is_zero (word_and (block_at b (index / unit_size)) (one_at (index % unit_size))))
      ≡ taken b index
  room : b.bit_used_count ≤ b.bit_count

placed : (b : BitMap) (index : ℕ) → IsValid b → index < b.bit_count → Placed b index
unfolding bit_at
placed b index h low =
    let block : length (block_at b (index / unit_size)) ≡ unit_size =
      length-block b.bitmap (index / unit_size) h.words in
    record {
      place = omega arith;
      block = omega (arith, h.whole, h.sized, low);
      sized = block;
      test =
          ap not (
            is_zero-word_and (block_at b (index / unit_size)) (index % unit_size) block
              (omega arith))
          ∙ not-not (taken b index);
      room = omega (arith, h.counted, count_below-le (taken b) b.bit_count);
    }

at_place :
    {b c : BitMap} (i index : ℕ) (v : Bool) → i ≡ index → Written b i v c → Written b index v c
at_place {b} {c} i index v e w = subst (λ j. Written b j v c) e w

write_index :
    (b : BitMap) (index used : ℕ) (v : Bool) (w : Word)
    → IsValid b
    → Placed b index
    → index < b.bit_count
    → w ≡ set (block_at b (index / unit_size)) (index % unit_size) v
    → used + weight (taken b index) ≡ b.bit_used_count + weight v
    → Written b index v
        (record b { bitmap = set b.bitmap (index / unit_size) w; bit_used_count = used })
write_index b index used v w h p low e counts =
    at_place (index / unit_size * unit_size + index % unit_size) index v p.place (
      written b (index / unit_size) (index % unit_size) used v w h p.block (omega arith)
        (omega (arith, p.place, low)) e (ap (λ i. used + weight (taken b i)) p.place ∙ counts))

-- On a valid bitmap `SetIndex` is refused, with nothing changed, only for an index out of range or taken
-- already. Otherwise the index was free, and it alone becomes taken in a bitmap that is valid again.
pub set_index-Outcome :
    (b : BitMap) (index : ℕ) → IsValid b → Outcome true b index (set_index b index)
unfolding set_index
set_index-Outcome b index h = elim (Bool-cases (leb b.bit_count index)) [
  | inl out ↦ rw out (refused refl (λ low. absurd (ground arith)))
  | inr low ↦
      let p = placed b index h (ground arith) in
      elim (Bool-cases (taken b index)) [
        | inl busy ↦ rw (low, p.test, busy) (refused refl (λ _. busy))
        | inr free ↦
            rw (low, p.test, free)
              (done refl (ground arith) free (
                write_index b index _ true _ h p (ground arith) (word_or-one_at _ _ p.sized)
                  (rw free (omega (arith, p.room, h.small)))))
      ]
]

-- On a valid bitmap `RemoveIndex` is refused, with nothing changed, only for an index out of range or
-- free already. Otherwise the index was taken, and it alone becomes free in a bitmap that is valid again.
pub remove_index-Outcome :
    (b : BitMap) (index : ℕ) → IsValid b → Outcome false b index (remove_index b index)
unfolding remove_index
remove_index-Outcome b index h = elim (Bool-cases (leb b.bit_count index)) [
  | inl out ↦ rw out (refused refl (λ low. absurd (ground arith)))
  | inr low ↦
      let lt : index < b.bit_count = ground arith in
      let p = placed b index h lt in
      elim (Bool-cases (taken b index)) [
        | inl busy ↦
            let some_used = count_below-pos (taken b) b.bit_count index busy lt in
            rw (low, p.test, busy)
              (done refl lt busy (
                write_index b index _ false _ h p lt (word_and-not_one_at _ _ p.sized)
                  (rw busy (omega (arith, p.room, h.small, some_used, h.counted)))))
        | inr free ↦ rw (low, p.test, free) (refused refl (λ _. free))
      ]
]

-- What `GetAndSetIndex` returns and leaves.
pub data Claimed (b : BitMap) (r : ℕ × BitMap) : Type 0 where
  full : r ≡ (no_index, b) → ((j : ℕ) → j < b.bit_count → taken b j ≡ true) → Claimed b r
  claimed :
      r.0 < b.bit_count
      → taken b r.0 ≡ false
      → ((j : ℕ) → j < r.0 → taken b j ≡ true)
      → Written b r.0 true r.1
      → Claimed b r

claim :
    (b : BitMap) (o : Option (ℕ × ℕ))
    → IsValid b
    → Found b.bit_count 0 b.bitmap o
    → Claimed b (elim o [
      | none ↦ (no_index, b)
      | some (i, index) ↦ (
        i * unit_size + index,
        record b {
          bitmap = set b.bitmap i (word_or (block_at b i) (one_at index));
          bit_used_count = (b.bit_used_count + 1) % u32_mod;
        },
      )
    ])
claim b none h found =
    full refl (λ j lt. found j (omega (arith, lt, h.whole, h.sized)) (omega (arith, lt)))
claim b (some (i, k)) h found =
    let same : i * unit_size + k ≡ found.block * unit_size + k = omega (arith, found.at) in
    let free : taken b (i * unit_size + k) ≡ false = ap (taken b) same ∙ found.free in
    let room = count_below-le (taken b) b.bit_count in
    claimed found.below free (λ j lt. found.taken j (omega (arith, lt, same)))
      (written b i k _ true _ h (omega (arith, found.at, found.within)) found.bit found.below
        (word_or-one_at _ _ (length-block b.bitmap i h.words))
        (rw free (omega (arith, room, h.counted, h.small))))

-- On a valid bitmap `GetAndSetIndex` refuses only if every index is taken. Otherwise it returns the
-- lowest free index, and leaves a valid bitmap in which this index is taken and no other has changed.
pub get_and_set_index-Claimed : (b : BitMap) → IsValid b → Claimed b (get_and_set_index b)
unfolding get_and_set_index is_full
get_and_set_index-Claimed b h = elim (Bool-cases (is_full b)) [
  | inl all ↦
      let count : count_below (taken b) b.bit_count ≡ b.bit_count = ground (arith, h.counted) in
      rw all (full refl (λ j lt. count_below-full (taken b) b.bit_count j count lt))
  | inr some_free ↦ rw some_free (
      claim b (find_free b.bit_count 0 b.bitmap) h
        (find_free-Found b.bit_count 0 b.bitmap h.words (omega (arith, h.whole, h.sized, h.small))))
]
